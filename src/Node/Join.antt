-- ===== src/Node/Join.antt =====
-- `Node::handshake` of src/node/handshake.rs: the handshake, and the pool that takes the peer in.
pub mod Guards
pub mod Pool
pub mod Returns
use Prim.Native.String.{String}
use tewta.Base.{ℕ, Bool, Option, List, ◌++◌}
use tewta.Base.Result.{Result, ok, err, Fault, failed, panicked, out_of_fuel}
use tewta.Crypto.{Rsa, Parcel}
use tewta.Frame.{frame}
use tewta.Handshake.{Local, Random, handshake_raw}
use tewta.Handshake.Error.{HandshakeError, already_connected, protocol_error, handshake_to_quit}
use tewta.Handshake.Session.{Io}
use tewta.Node.Connections.{ConnectionPool, insert}
use tewta.Packets.{Packet, to_quit}
use tewta.Peer.{PeerId}

module _ {E : Type 0} (wire : Parcel E Packet) (r : Rsa) (sha256 : List ℕ → List ℕ) where
  -- How the call ends: its result, the stream, and the pool.
  pub record Joined : Type 0 where
    pub result : Result (Fault (HandshakeError E r.Error)) PeerId
    pub io : Io
    pub pool : ConnectionPool

  -- The end of a handshake that succeeded.
  abbrev pub enter : PeerId → Io → ConnectionPool → Result (Fault (List ℕ)) ConnectionPool → Joined
  enter peer_id io pool (ok after) = record { result = ok peer_id; io = io; pool = after }
  enter peer_id io pool (err (failed w)) = record {
    result = err (failed already_connected);
    io = record io { outbound = w };
    pool = pool;
  }
  enter peer_id io pool (err panicked) = record { result = err panicked; io = io; pool = pool }
  enter peer_id io pool (err out_of_fuel) = record {
    result = err out_of_fuel;
    io = io;
    pool = pool;
  }

  -- The quit packet for the error. The error of its serialization takes the error's place.
  abbrev pub leave : HandshakeError E r.Error → Io → ConnectionPool → Result E (List ℕ) → Joined
  leave e io pool (ok p) = record {
    result = err (failed e);
    io = record io { outbound = io.outbound ++ frame p };
    pool = pool;
  }
  leave e io pool (err x) = record {
    result = err (failed (protocol_error x));
    io = io;
    pool = pool;
  }

  abbrev pub finish :
      ConnectionPool → Result (HandshakeError E r.Error) (PeerId × String) × Io → Joined
  finish pool (ok (peer_id, addr), io) =
      enter peer_id io pool (insert wire peer_id io.inbound io.outbound addr pool)
  finish pool (err e, io) =
      leave e io pool (wire.raw_bytes (Packet.quit (to_quit handshake_to_quit e)))

  -- `pool` is the pool as it is once the packets have been exchanged: other peers may have come
  -- and gone since the handshake asked it.
  unfoldable pub handshake : Local r → Random → Option PeerId → Io → ConnectionPool → Joined
  handshake self random expected_peer_id io pool =
      finish pool (handshake_raw wire r sha256 self random expected_peer_id io)
