-- ===== src/Node/Join/Pool.antt =====
-- The pool after `Node::handshake` of src/node/handshake.rs: its order and its size.
use Prim.Native.String.{String}
use tewta.Base.{
  ℕ, ◌+◌, ◌≤◌, ◌≡◌, refl, arith, subst, Option, none, List, [], ◌∷◌, length, Bool-cases, inl, inr,
}
use tewta.Base.Result.{Result, ok, err, Fault, failed, panicked, out_of_fuel, Result-cases}
use tewta.Crypto.{Rsa, Parcel}
use tewta.Handshake.{Local, Random, handshake_raw}
use tewta.Handshake.Error.{HandshakeError, handshake_to_quit}
use tewta.Handshake.Session.{Io}
use tewta.Node.Connections.{ConnectionPool, PeerInfo, insert}
use tewta.Node.Connections
use tewta.Node.Join.{enter, leave, finish, handshake}
use tewta.Packets.{Packet, to_quit}
use tewta.Peer.{PeerId}
use tewta.PeerMap
use tewta.PeerMap.{PeerMap, IsSorted, contains_key}
use tewta.PeerMap.Laws.{insert-IsSorted}

length-insert :
    {V : Type 0} (k : PeerId) (v : V) (m : PeerMap V) → length (PeerMap.insert k v m) ≤ length m + 1
unfolding PeerMap.insert
length-insert k v [] = omega arith
length-insert k v ((j, w) ∷ m) = ground (arith, length-insert k v m)

-- A pool that came from another by taking in a peer at most.
pub record Grown (before after : ConnectionPool) : Type 0 where
  pub sorted : IsSorted before.connections → IsSorted after.connections
  pub one_more : length after.connections ≤ length before.connections + 1
  pub same_owner : after.our_peer_id ≡ before.our_peer_id

pub same-Grown : (pool : ConnectionPool) → Grown pool pool
same-Grown pool = record { sorted = λ s. s; one_more = omega arith; same_owner = refl }

module _ {E : Type 0} (wire : Parcel E Packet) (r : Rsa) (sha256 : List ℕ → List ℕ) where
  insert-Grown :
      (id : PeerId) (i o : List ℕ) (addr : String) (pool after : ConnectionPool)
      → insert wire id i o addr pool ≡ ok after
      → Grown pool after
  unfolding insert
  insert-Grown id i o addr pool after e = elim (Bool-cases (contains_key id pool.connections)) [
    | inl there ↦ elim (Result-cases (wire.raw_bytes Connections.already_connected)) [
      | inl (p, raw) ↦ absurd (cc (rw (there, raw) at e))
      | inr (x, raw) ↦ absurd (cc (rw (there, raw) at e))
    ]
    | inr absent ↦
        let peer : PeerInfo = record {
          addr = addr;
          write_stream = o;
          ping_nanos = none;
          read_stream_task = record { peer_id = id; inbound = i };
        } in
        let made = PeerMap.insert id peer pool.connections in
        let whole : record pool { connections = made } ≡ after = cc (rw absent at e) in
        subst (Grown pool) whole (record {
          sorted = insert-IsSorted id peer pool.connections;
          one_more = length-insert id peer pool.connections;
          same_owner = refl;
        })
  ]

  enter-Grown :
      (pool : ConnectionPool) (id : PeerId) (io : Io)
      (made : Result (Fault (List ℕ)) ConnectionPool)
      → ((after : ConnectionPool) → made ≡ ok after → Grown pool after)
      → Grown pool (enter wire r sha256 id io pool made).pool
  enter-Grown pool id io (ok after) h = h after refl
  enter-Grown pool id io (err (failed w)) h = same-Grown pool
  enter-Grown pool id io (err panicked) h = same-Grown pool
  enter-Grown pool id io (err out_of_fuel) h = same-Grown pool

  leave-Grown :
      (x : HandshakeError E r.Error) (io : Io) (pool : ConnectionPool) (p : Result E (List ℕ))
      → Grown pool (leave wire r sha256 x io pool p).pool
  leave-Grown x io pool (ok p) = same-Grown pool
  leave-Grown x io pool (err e) = same-Grown pool

  finish-Grown :
      (pool : ConnectionPool) (run : Result (HandshakeError E r.Error) (PeerId × String) × Io)
      → Grown pool (finish wire r sha256 pool run).pool
  finish-Grown pool (ok (id, addr), io) =
      enter-Grown pool id io (insert wire id io.inbound io.outbound addr pool)
        (λ after e. insert-Grown id io.inbound io.outbound addr pool after e)
  finish-Grown pool (err e, io) =
      leave-Grown e io pool (wire.raw_bytes (Packet.quit (to_quit handshake_to_quit e)))

  pub handshake-Grown :
      (self : Local r) (random : Random) (expected : Option PeerId) (io : Io)
      (pool : ConnectionPool)
      → Grown pool (handshake wire r sha256 self random expected io pool).pool
  unfolding handshake
  handshake-Grown self random expected io pool =
      finish-Grown pool (handshake_raw wire r sha256 self random expected io)
