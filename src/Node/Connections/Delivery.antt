-- ===== src/Node/Connections/Delivery.antt =====
-- Packets that `send_packet` writes to a peer, and what that peer's task reads of them.
use tewta.Base.{ℕ, ◌≡◌, ◌≢◌, ◌<◌, false, Option, some, List, [], ◌∷◌, ◌++◌, length, and_then}
use tewta.Base.Result.{ok}
use tewta.Crypto.{Parcel, IsParcel}
use tewta.Frame.{max_packet_size}
use tewta.Node.Connections.{PeerInfo, ConnectionPool, is_quit, send_packet}
use tewta.Node.Connections.Reading.{read_task, end_of_stream}
use tewta.Packets.{Packet}
use tewta.Peer.{PeerId}
use tewta.PeerMap

module _ {E : Type 0} (wire : Parcel E Packet) (lossless : IsParcel wire) where
  -- Calls of `send_packet`, one after another.
  abbrev pub send_each : PeerId → List Packet → ConnectionPool → Option ConnectionPool
  send_each peer_id [] self = some self
  send_each peer_id (p ∷ ps) self =
      and_then (send_packet wire peer_id p self) (send_each peer_id ps)

  -- A packet that may be sent: no quit packet, and bytes that the peer does not refuse.
  pub record Sendable (p : Packet) : Type 0 where
    pub not_quit : is_quit p ≡ false
    pub bytes : List ℕ
    pub raw : wire.raw_bytes p ≡ ok bytes
    pub fits : length bytes < max_packet_size

  -- The peer's entry, but for what is written to it.
  pub record Sent (peer_id : PeerId) (ps : List Packet) (peer : PeerInfo) (self : ConnectionPool)
      : Type 0 where
    pub after : ConnectionPool
    pub sent : send_each peer_id ps self ≡ some after
    pub stream : List ℕ
    pub entry :
        PeerMap.get peer_id after.connections
        ≡ some (record peer { write_stream = peer.write_stream ++ stream })
    pub others :
        (q : PeerId)
        → q ≢ peer_id
        → PeerMap.get q after.connections ≡ PeerMap.get q self.connections
    pub read : read_task wire stream ≡ (ps, end_of_stream)
