-- ===== src/Node/Dispatch.antt =====
-- `Node::on_packet` of src/node/node.rs. The node's RSA keys, which no packet changes, are left out.
-- The locks are taken and released in the order of the source, and
-- a step here is a whole call: calls for other peers may stand between its parts.
pub mod Guards
use Prim.Native.String.{String}
use tewta.Base.{
  ℕ, Bool, true, false, Option, none, some, List, [], ◌∷◌, length, take, min, ltb, if◌then◌else◌,
  and_then,
}
use tewta.Crypto.{Parcel}
use tewta.Logging.{LogLevel}
use tewta.Node.Closest.{closest}
use tewta.Node.Connections.{
  ConnectionPool, send_packet, disconnect, prepare_discover_peers_response, peers_with_addrs,
  max_discovery_peers_returned,
}
use tewta.Node.Counter.{Counter}
use tewta.Node.Dht
use tewta.Node.Dht.{DhtStore}
use tewta.Node.Events.{EventListeners, event}
use tewta.Packets.{
  Packet, PingPacket, QuitPacket, DiscoverPeersPacket, DiscoverPeersRespPacket, FindDhtValuePacket,
  FindDhtValueRespPacket, FindPeerPacket, FindPeerRespPacket, StoreDhtValuePacket, DhtValue,
  DhtLookupResult, found, not_found,
}
use tewta.Peer.{PeerId, KeyId}

abbrev pub max_dht_values_returned : ℕ
max_dht_values_returned = 64

abbrev pub max_dht_peers_returned : ℕ
max_dht_peers_returned = 32

pub record Node : Type 0 where
  pub connections : ConnectionPool
  pub dht : DhtStore
  pub peer_id : PeerId
  pub addr : String
  pub ll : LogLevel
  pub ping_id_counter : Counter
  pub discover_peer_req_counter : Counter
  pub dht_req_counter : Counter
  pub on_ping_packet : EventListeners (PeerId × PingPacket)
  pub on_pong_packet : EventListeners (PeerId × PingPacket)
  pub on_quit_packet : EventListeners (PeerId × QuitPacket)
  pub on_discover_peers_packet : EventListeners (PeerId × DiscoverPeersPacket)
  pub on_discover_peers_resp_packet : EventListeners (PeerId × DiscoverPeersRespPacket)
  pub on_find_dht_value_packet : EventListeners (PeerId × FindDhtValuePacket)
  pub on_find_dht_value_resp_packet : EventListeners (PeerId × FindDhtValueRespPacket)
  pub on_find_peer_packet : EventListeners (PeerId × FindPeerPacket)
  pub on_find_peer_resp_packet : EventListeners (PeerId × FindPeerRespPacket)
  pub on_store_dht_value_packet : EventListeners (PeerId × StoreDhtValuePacket)
  pub on_disconnect : EventListeners PeerId

abbrev pub quit_received : QuitPacket
quit_received = record { reason_code = "QuitReceived"; message = none; report_fault = false }

-- The values of a key, or the connected peers that are closest to it.
abbrev pub lookup_result :
    FindDhtValuePacket → ConnectionPool → Option (List DhtValue) → DhtLookupResult
lookup_result p connections (some values) =
    found (take (min max_dht_values_returned p.limit_values) values)
lookup_result p connections none =
    not_found
      (closest p.key (min max_dht_peers_returned p.limit_peers) (peers_with_addrs connections))

-- The answer of a response that is dropped if it holds too much.
abbrev pub too_many : DhtLookupResult → Bool
too_many (found values) = ltb max_dht_values_returned (length values)
too_many (not_found peers) = ltb max_dht_peers_returned (length peers)

module _ {E : Type 0} (wire : Parcel E Packet)
    (shuffle : List (PeerId × String) → List (PeerId × String)) where
  -- `none` is the panic of `send_packet`.
  unfoldable pub reply : PeerId → Packet → Node → Option Node
  reply n p self =
      and_then (send_packet wire n p self.connections) (λ c. some (record self { connections = c }))

  unfoldable pub on_discover_peers : PeerId → DiscoverPeersPacket → Node → Option Node
  on_discover_peers n p self =
      let response = prepare_discover_peers_response shuffle p self.connections in
      let answered = reply n (Packet.discover_peers_resp response) self in
      if ltb 32 (length p.mask)
      then some self
      else and_then answered (λ self.
        some
          (record self { on_discover_peers_packet = event (n, p) self.on_discover_peers_packet }))

  unfoldable pub on_find_dht_value : PeerId → FindDhtValuePacket → Node → Option Node
  on_find_dht_value n p self =
      let (values, dht) = Dht.get p.key self.dht in
      let self : Node = record self { dht = dht } in
      let result = lookup_result p self.connections values in
      let response : FindDhtValueRespPacket = record {
        request_id = p.request_id;
        result = result;
      } in
      and_then (reply n (Packet.find_dht_value_resp response) self) (λ self.
        some
          (record self { on_find_dht_value_packet = event (n, p) self.on_find_dht_value_packet }))

  unfoldable pub on_find_peer : PeerId → FindPeerPacket → Node → Option Node
  on_find_peer n p self =
      let peers =
        closest p.peer_id (min max_dht_peers_returned p.limit)
          (peers_with_addrs self.connections) in
      let response : FindPeerRespPacket = record { request_id = p.request_id; peers = peers } in
      and_then (reply n (Packet.find_peer_resp response) self)
        (λ self. some (record self { on_find_peer_packet = event (n, p) self.on_find_peer_packet }))

  unfoldable pub on_quit : PeerId → QuitPacket → Node → Node
  on_quit n p self =
      let (connections, on_disconnect) =
        disconnect wire n quit_received self.connections self.on_disconnect in
      record self {
        connections = connections;
        on_disconnect = on_disconnect;
        on_quit_packet = event (n, p) self.on_quit_packet;
      }

  -- `none` is a panic: the last clause is `todo!`.
  unfoldable pub on_packet : PeerId → Packet → Node → Option Node
  on_packet n (Packet.discover_peers p) self = on_discover_peers n p self
  on_packet n (Packet.discover_peers_resp p) self =
      if ltb max_discovery_peers_returned (length p.peers)
      then some self
      else some (record self {
        on_discover_peers_resp_packet = event (n, p) self.on_discover_peers_resp_packet;
      })
  on_packet n (Packet.find_dht_value p) self = on_find_dht_value n p self
  on_packet n (Packet.find_dht_value_resp p) self =
      if too_many p.result
      then some self
      else some (record self {
        on_find_dht_value_resp_packet = event (n, p) self.on_find_dht_value_resp_packet;
      })
  on_packet n (Packet.find_peer p) self = on_find_peer n p self
  on_packet n (Packet.find_peer_resp p) self =
      if ltb max_dht_peers_returned (length p.peers)
      then some self
      else some
          (record self { on_find_peer_resp_packet = event (n, p) self.on_find_peer_resp_packet })
  on_packet n (Packet.store_dht_value p) self =
      some (record self { on_store_dht_value_packet = event (n, p) self.on_store_dht_value_packet })
  on_packet n (Packet.ping p) self =
      and_then (reply n (Packet.pong p) self)
        (λ self. some (record self { on_ping_packet = event (n, p) self.on_ping_packet }))
  on_packet n (Packet.pong p) self =
      some (record self { on_pong_packet = event (n, p) self.on_pong_packet })
  on_packet n (Packet.quit p) self = some (on_quit n p self)
  on_packet n _ self = none
