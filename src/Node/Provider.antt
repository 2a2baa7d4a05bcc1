-- ===== src/Node/Provider.antt =====
-- The two lookups on a single provider in src/node/dht.rs. What happens during a wait is given by
-- the packets that the node handles meanwhile. Other tasks that listen at the same time, whose
-- channels no packet mixes with this one, are left out.
pub mod Answers
use Prim.Native.String.{String}
use tewta.Base.{ℕ, Bool, false, not, Option, none, some, List, ◌==◌, if◌then◌else◌}
use tewta.Base.Result.{Result, ok, err, Fault}
use tewta.Crypto.{Rsa, Parcel}
use tewta.Handshake.{Local, Random}
use tewta.Handshake.Error.{HandshakeError, IoError}
use tewta.Handshake.Session.{Io}
use tewta.Node.Arrivals.{on_packets, received, dropped, await_response, listens_for_responses}
use tewta.Node.Connections.{ConnectionPool, send_packet, disconnect, contains}
use tewta.Node.Counter.{next}
use tewta.Node.Dispatch.{Node, max_dht_values_returned, max_dht_peers_returned}
use tewta.Node.Join.{Joined, handshake}
use tewta.Packets.{Packet, QuitPacket, FindDhtValueRespPacket, DhtLookupResult}
use tewta.Peer.{PeerId, KeyId}

-- `IoError`, `ProtocolError` and `HandshakeError`: the errors of the two others are parameters.
pub data SingleProviderLookupError (E R : Type 0) : Type 0 where
  failed_to_connect request_id_mismatch : SingleProviderLookupError E R
  io_error : IoError → SingleProviderLookupError E R
  protocol_error : E → SingleProviderLookupError E R
  handshake_error : HandshakeError E R → SingleProviderLookupError E R

abbrev pub from_io : {E R : Type 0} → IoError → SingleProviderLookupError E R
from_io e = io_error e

abbrev pub from_protocol : {E R : Type 0} → E → SingleProviderLookupError E R
from_protocol e = protocol_error e

-- How a lookup ends, if it ends: `waiting` is the node that has no response yet.
pub data Outcome (E R : Type 0) : Type 0 where
  done : Result (SingleProviderLookupError E R) DhtLookupResult → Node → Outcome E R
  waiting : Node → Outcome E R
  panicked out_of_fuel : Outcome E R

abbrev pub mission_accomplished : QuitPacket
mission_accomplished = record {
  reason_code = "MissionAccomplished";
  message = none;
  report_fault = false;
}

abbrev pub request_id_of : FindDhtValueRespPacket → ℕ
request_id_of p = p.request_id

module _ {E : Type 0} (wire : Parcel E Packet)
    (shuffle : List (PeerId × String) → List (PeerId × String)) where
  abbrev pub lookup_request : KeyId → ℕ → Packet
  lookup_request key request_id = Packet.find_dht_value (record {
    request_id = request_id;
    key = key;
    limit_peers = max_dht_peers_returned;
    limit_values = max_dht_values_returned;
  })

  -- The number of the request, and the node that has sent it and listens.
  unfoldable pub request : KeyId → PeerId → Node → ℕ × Option Node
  request key peer_id self =
      let (counter, request_id) = next self.dht_req_counter in
      let self : Node = listens_for_responses (record self { dht_req_counter = counter }) in
      (
        request_id,
        elim (send_packet wire peer_id (lookup_request key request_id) self.connections) [
          | none ↦ none
          | some connections ↦ some (record self { connections = connections })
        ],
      )

  abbrev pub quits_listening : Node → Node
  quits_listening self = record self {
    on_find_dht_value_resp_packet = dropped self.on_find_dht_value_resp_packet;
  }

  -- The wait for the response.
  unfoldable pub wait : ℕ → PeerId → Node → Option FindDhtValueRespPacket
  unfolding await_response
  wait request_id peer_id self =
      await_response request_id_of request_id peer_id (received self.on_find_dht_value_resp_packet)

  module _ (r : Rsa) (sha256 : List ℕ → List ℕ) where
    abbrev pub LookupOutcome : Type 0
    LookupOutcome = Outcome E r.Error

    abbrev pub responded : Option FindDhtValueRespPacket → Node → LookupOutcome
    responded none self = waiting self
    responded (some resp) self = done (ok resp.result) (quits_listening self)

    unfoldable pub dht_lookup_on_already_connected_provider :
        KeyId → PeerId → List (PeerId × Packet) → Node → LookupOutcome
    unfolding request wait
    dht_lookup_on_already_connected_provider key peer_id arrivals self =
        let (request_id, sent) = request key peer_id self in
        elim sent [
          | none ↦ panicked
          | some self ↦
              let self = on_packets wire shuffle arrivals self in
              responded (wait request_id peer_id self) self
        ]

    -- The disconnection, and the look at the number of the response.
    abbrev pub disconnected : ℕ → PeerId → Option FindDhtValueRespPacket → Node → LookupOutcome
    disconnected request_id peer_id none self = waiting self
    disconnected request_id peer_id (some p) self =
        let (connections, on_disconnect) =
          disconnect wire peer_id mission_accomplished self.connections self.on_disconnect in
        let self : Node =
          quits_listening
            (record self { connections = connections; on_disconnect = on_disconnect }) in
        if not (p.request_id == request_id)
        then done (err request_id_mismatch) self
        else done (ok p.result) self

    abbrev pub lookup_joined :
        KeyId
        → List (PeerId × Packet)
        → Result (Fault (HandshakeError E r.Error)) PeerId
        → Node
        → LookupOutcome
    lookup_joined key arrivals (err (Fault.failed e)) self = done (err (handshake_error e)) self
    lookup_joined key arrivals (err Fault.panicked) self = panicked
    lookup_joined key arrivals (err Fault.out_of_fuel) self = out_of_fuel
    lookup_joined key arrivals (ok peer_id) self =
        let (request_id, sent) = request key peer_id self in
        elim sent [
          | none ↦ panicked
          | some self ↦
              let self = on_packets wire shuffle arrivals self in
              disconnected request_id peer_id (wait request_id peer_id self) self
        ]

    abbrev pub lookup_connected :
        KeyId
        → PeerId
        → Local r
        → Random
        → List (PeerId × Packet)
        → Option Io
        → Node
        → LookupOutcome
    lookup_connected key peer_id keys random arrivals none self = done (err failed_to_connect) self
    lookup_connected key peer_id keys random arrivals (some io) self =
        let joined = handshake wire r sha256 keys random (some peer_id) io self.connections in
        lookup_joined key arrivals joined.result (record self { connections = joined.pool })

    -- `connect` gives the stream of an address, if it is reached. The packets come after the
    -- request in both cases.
    unfoldable pub dht_lookup_on_single_provider :
        (String → Option Io)
        → Local r
        → Random
        → KeyId
        → PeerId × String
        → List (PeerId × Packet)
        → Node
        → LookupOutcome
    unfolding dht_lookup_on_already_connected_provider
    dht_lookup_on_single_provider connect keys random key (peer_id, addr) arrivals self =
        if contains peer_id self.connections
        then dht_lookup_on_already_connected_provider key peer_id arrivals self
        else lookup_connected key peer_id keys random arrivals (connect addr) self
