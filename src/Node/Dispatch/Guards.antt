-- ===== src/Node/Dispatch/Guards.antt =====
-- `on_packet` of src/node/node.rs: its outcomes and the pool.
use Prim.Native.String.{String}
use tewta.Base.{◌≡◌, ◌≢◌, Bool, true, false, Option, some, List}
use tewta.Crypto.{Parcel}
use tewta.Node.Dht
use tewta.PeerMap
use tewta.Node.Connections.{PeerInfo, send_packet_unchecked}
use tewta.Node.Dispatch.{Node, on_packet}
use tewta.Packets.{Packet}
use tewta.Peer.{PeerId}

-- The packets that only a handshake knows.
abbrev pub is_handshake : Packet → Bool
is_handshake (Packet.protocol_version p) = true
is_handshake (Packet.init_rsa p) = true
is_handshake (Packet.init_aes p) = true
is_handshake (Packet.ehlo p) = true
is_handshake _ = false

module _ {E : Type 0} (wire : Parcel E Packet)
    (shuffle : List (PeerId × String) → List (PeerId × String)) where
  abbrev entry : PeerId → Node → Option PeerInfo
  entry q self = PeerMap.get q self.connections.connections

  -- The packet is handled without a panic, and the entries of all other peers stay.
  pub record Handled (n : PeerId) (p : Packet) (self : Node) : Type 0 where
    pub after : Node
    pub returns : on_packet wire shuffle n p self ≡ some after
    pub others : (q : PeerId) → q ≢ n → entry q after ≡ entry q self

  -- The node after a reply.
  abbrev replied : PeerId → Packet → Node → Node
  replied n p self = record self { connections = send_packet_unchecked wire n p self.connections }
