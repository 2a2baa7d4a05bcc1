-- ===== src/Node/History.antt =====
-- What the tasks of a node of src/node/node.rs do to it, in the smallest steps that take the lock of
-- the pool once. The tasks interleave: a step of any of them may follow a step of any other.
pub mod Kept
pub mod Runs
pub mod Discoveries
pub mod Lookups
pub mod Sequences
pub mod Tasks
pub mod Connected
use Prim.Native.String.{String}
use tewta.Base.{ℕ, ◌≡◌, Bool, Option, some, List}
use tewta.Crypto.{Rsa, Parcel}
use tewta.Handshake.{Local, Random, asking}
use tewta.Handshake.Session.{Io}
use tewta.Node.Arrivals.{handle}
use tewta.Node.Connections.{ConnectionPool, send_packet, disconnect, set_ping}
use tewta.Node.Dht
use tewta.Node.Dispatch.{Node}
use tewta.Node.Join.{handshake}
use tewta.Packets.{Packet, QuitPacket, DhtValue}
use tewta.Peer.{PeerId, KeyId}

-- Counters, listeners and the level of the log may have changed, and nothing else.
pub record Aside (s t : Node) : Type 0 where
  pub connections : t.connections ≡ s.connections
  pub dht : t.dht ≡ s.dht
  pub peer_id : t.peer_id ≡ s.peer_id
  pub addr : t.addr ≡ s.addr

module _ {E : Type 0} (wire : Parcel E Packet)
    (shuffle : List (PeerId × String) → List (PeerId × String)) (r : Rsa) (sha256 : List ℕ → List ℕ)
    (keys : Local r) where
  -- The pool after a handshake, and after a disconnection.
  abbrev pub joined : (PeerId → Bool) → Random → Option PeerId → Io → Node → Node
  joined connected random expected io self = record self {
    connections =
        (handshake wire r sha256 (asking connected keys) random expected io self.connections).pool;
  }

  abbrev pub left : PeerId → QuitPacket → Node → Node
  left peer_id p self =
      let (connections, on_disconnect) =
        disconnect wire peer_id p self.connections self.on_disconnect in
      record self { connections = connections; on_disconnect = on_disconnect }

  pub data Step (s t : Node) : Type 0 where
    moves_aside : Aside s t → Step s t
    handles : (n : PeerId) (p : Packet) → t ≡ handle wire shuffle n p s → Step s t
    sends :
        (n : PeerId) (p : Packet) (connections : ConnectionPool)
        → send_packet wire n p s.connections ≡ some connections
        → t ≡ record s { connections = connections }
        → Step s t
    joins :
        (connected : PeerId → Bool) (random : Random) (expected : Option PeerId) (io : Io)
        → t ≡ joined connected random expected io s
        → Step s t
    leaves : (n : PeerId) (p : QuitPacket) → t ≡ left n p s → Step s t
    is_pinged :
        (n : PeerId) (nanos : ℕ)
        → t ≡ record s { connections = set_ping n nanos s.connections }
        → Step s t
    stores : (key : KeyId) (v : DhtValue) → t ≡ record s { dht = Dht.set key v s.dht } → Step s t

  pub data Steps (s : Node) : Node → Type 0 where
    stays : {t : Node} → t ≡ s → Steps s t
    goes : {m t : Node} → Steps s m → Step m t → Steps s t
