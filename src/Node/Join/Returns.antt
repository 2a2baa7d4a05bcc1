-- ===== src/Node/Join/Returns.antt =====
-- How `Node::handshake` of src/node/handshake.rs ends.
use Prim.Native.String.{String}
use tewta.Base.{ℕ, ◌≡◌, inl, inr, refl, Option, List, ◌++◌, Bool-cases}
use tewta.Base.Result.{Result, ok, err, Fault, failed, panicked, out_of_fuel}
use tewta.Crypto.{Rsa, Parcel}
use tewta.Frame.{frame}
use tewta.Handshake.{Local, Random, handshake_raw}
use tewta.Handshake.Error.{HandshakeError, handshake_to_quit}
use tewta.Handshake.Session.{Io}
use tewta.Node.Connections.{ConnectionPool, PeerInfo, insert}
use tewta.Node.Connections
use tewta.Node.Join.{enter, leave, finish, handshake}
use tewta.Packets.{Packet, to_quit}
use tewta.Peer.{PeerId}
use tewta.PeerMap.{contains_key}

-- A call that returns: with a value, or with an error of its own.
pub data Returns {E A : Type 0} (r : Result (Fault E) A) : Type 0 where
  value : (a : A) → r ≡ ok a → Returns r
  error : (e : E) → r ≡ err (failed e) → Returns r

module _ {E : Type 0} (wire : Parcel E Packet) (raw : List ℕ)
    (h : wire.raw_bytes Connections.already_connected ≡ ok raw) where
  insert-Returns :
      (id : PeerId) (i o : List ℕ) (addr : String) (pool : ConnectionPool)
      → Returns (insert wire id i o addr pool)
  unfolding insert
  insert-Returns id i o addr pool = elim (Bool-cases (contains_key id pool.connections)) [
    | inl there ↦ error (o ++ frame raw) (rw (there, h) refl)
    | inr absent ↦ rw absent (value _ refl)
  ]

  module _ (r : Rsa) (sha256 : List ℕ → List ℕ) where
    enter-Returns :
        (pool : ConnectionPool) (id : PeerId) (io : Io)
        (made : Result (Fault (List ℕ)) ConnectionPool)
        → Returns made
        → Returns (enter wire r sha256 id io pool made).result
    enter-Returns pool id io (ok after) m = value id refl
    enter-Returns pool id io (err (failed w)) m = error HandshakeError.already_connected refl
    enter-Returns pool id io (err panicked) (value a e) = cc e
    enter-Returns pool id io (err panicked) (error x e) = cc e
    enter-Returns pool id io (err out_of_fuel) (value a e) = cc e
    enter-Returns pool id io (err out_of_fuel) (error x e) = cc e

    leave-Returns :
        (x : HandshakeError E r.Error) (io : Io) (pool : ConnectionPool) (p : Result E (List ℕ))
        → Returns (leave wire r sha256 x io pool p).result
    leave-Returns x io pool (ok p) = error x refl
    leave-Returns x io pool (err e) = error (HandshakeError.protocol_error e) refl

    finish-Returns :
        (pool : ConnectionPool) (run : Result (HandshakeError E r.Error) (PeerId × String) × Io)
        → Returns (finish wire r sha256 pool run).result
    finish-Returns pool (ok (id, addr), io) =
        enter-Returns pool id io (insert wire id io.inbound io.outbound addr pool)
          (insert-Returns id io.inbound io.outbound addr pool)
    finish-Returns pool (err e, io) =
        leave-Returns e io pool (wire.raw_bytes (Packet.quit (to_quit handshake_to_quit e)))

    pub handshake-Returns :
        (self : Local r) (random : Random) (expected : Option PeerId) (io : Io)
        (pool : ConnectionPool)
        → Returns (handshake wire r sha256 self random expected io pool).result
    unfolding handshake
    handshake-Returns self random expected io pool =
        finish-Returns pool (handshake_raw wire r sha256 self random expected io)
