-- ===== src/Node/Discover/Loop.antt =====
-- `discover_peers_in_bucket` of src/node/discovery.rs on the node itself. A turn of the loop is given
-- by the stream that `connect` opens, the random bytes of a handshake, what the pool answers to it,
-- and the packets that the node handles while it waits.
pub mod Bounds
pub mod Refines
use Prim.Native.String.{String}
use tewta.Base.{
  ℕ, ◌-◌, Bool, true, false, Option, none, some, List, [], ◌∷◌, ◌==◌, if◌then◌else◌, and_then,
}
use tewta.Base.Result.{Result, ok, err, Fault, failed, panicked, out_of_fuel}
use tewta.Crypto.{Rsa, Parcel}
use tewta.Discovery.{bucket_mask}
use tewta.Handshake.{Local, Random, asking}
use tewta.Handshake.Error.{HandshakeError}
use tewta.Handshake.Session.{Io}
use tewta.Node.Arrivals.{on_packets, received, dropped, await_response, listens_for_peers}
use tewta.Node.Connections.{ConnectionPool, send_packet, contains, max_discovery_peers_returned}
use tewta.Node.Counter.{next}
use tewta.Node.Discover.{Discovery, discovery_start}
use tewta.Node.Dispatch.{Node}
use tewta.Node.Join.{Joined, handshake}
use tewta.Node.Lookup.{has_contact, pop}
use tewta.Packets.{Packet, DiscoverPeersRespPacket}
use tewta.Peer.{PeerId, generate_in_bucket}

-- The variables of the function, and the node.
pub record Search : Type 0 where
  pub node : Node
  pub target : PeerId
  pub mask : List ℕ
  pub loop : Discovery

-- A turn goes on, leaves the loop, waits for a response behind the packets, or panics.
pub data Turn : Type 0 where
  goes_on : Search → Turn
  leaves : Search → Turn
  waits : Search → Turn
  crashes : Turn

pub record Input : Type 0 where
  pub stream : Option Io
  pub random : Random
  pub connected : PeerId → Bool
  pub arrivals : List (PeerId × Packet)

abbrev pub request_id_of : DiscoverPeersRespPacket → ℕ
request_id_of p = p.request_id

abbrev pub quits_listening : Node → Node
quits_listening self = record self {
  on_discover_peers_resp_packet = dropped self.on_discover_peers_resp_packet;
}

module _ {E : Type 0} (wire : Parcel E Packet)
    (shuffle : List (PeerId × String) → List (PeerId × String)) where
  abbrev pub peers_request : ℕ → Search → Packet
  peers_request request_id self = Packet.discover_peers (record {
    request_id = request_id;
    target = self.target;
    mask = self.mask;
    limit = max_discovery_peers_returned;
  })

  -- The response gives the candidates.
  abbrev pub answered : PeerId → List PeerId → Search → Node → Option DiscoverPeersRespPacket → Turn
  answered provider providers self node none = waits (record self { node = node })
  answered provider providers self node (some resp) = goes_on (record self {
    node = quits_listening node;
    loop = record self.loop { providers = providers; candidates = resp.peers };
  })

  unfoldable pub ask_provider : List (PeerId × Packet) → PeerId → List PeerId → Search → Turn
  unfolding await_response
  ask_provider arrivals provider providers self =
      let (counter, request_id) = next self.node.discover_peer_req_counter in
      let node : Node =
        listens_for_peers (record self.node { discover_peer_req_counter = counter }) in
      elim (send_packet wire provider (peers_request request_id self) node.connections) [
        | none ↦ crashes
        | some connections ↦
            let node =
              on_packets wire shuffle arrivals (record node { connections = connections }) in
            answered provider providers self node (
              await_response request_id_of request_id provider
                (received node.on_discover_peers_resp_packet))
      ]

  module _ (r : Rsa) (sha256 : List ℕ → List ℕ) where
    -- The end of a handshake with a candidate.
    abbrev pub greeted : Result (Fault (HandshakeError E r.Error)) PeerId → Search → Turn
    greeted (ok peer_id) self =
        goes_on
          (record self { loop = record self.loop { missing_peers = self.loop.missing_peers - 1 } })
    greeted (err (failed e)) self = leaves self
    greeted (err panicked) self = crashes
    greeted (err out_of_fuel) self = crashes

    abbrev pub dialled : Local r → Input → PeerId → Option Io → Search → Turn
    dialled keys input peer_id none self = goes_on self
    dialled keys input peer_id (some io) self =
        let joined =
          handshake wire r sha256 (asking input.connected keys) input.random (some peer_id) io
            self.node.connections in
        greeted joined.result
          (record self { node = record self.node { connections = joined.pool } })

    -- A candidate that does not match the request is only warned of.
    unfoldable pub try_candidate :
        Local r → Input → PeerId × String → List (PeerId × String) → Search → Turn
    try_candidate keys input candidate candidates self =
        let popped : Search = record self { loop = record self.loop { candidates = candidates } } in
        let tried : Search = record popped {
          loop = record popped.loop { old_candidates = candidate ∷ self.loop.old_candidates };
        } in
        if has_contact candidate self.loop.old_candidates
        then goes_on popped
        else if contains candidate.0 self.node.connections
        then goes_on tried
        else dialled keys input candidate.0 input.stream tried

    unfoldable pub turn : Local r → Input → Search → Turn
    unfolding try_candidate ask_provider
    turn keys input self =
        if self.loop.missing_peers == 0 then leaves self else elim (pop self.loop.candidates) [
          | some (candidate, candidates) ↦ try_candidate keys input candidate candidates self
          | none ↦ elim (pop self.loop.providers) [
            | some (provider, providers) ↦ ask_provider input.arrivals provider providers self
            | none ↦ leaves self
          ]
        ]

    -- A turn for each input, until the loop is left.
    unfoldable pub turns : Local r → List Input → Turn → Turn
    turns keys [] t = t
    turns keys (input ∷ inputs) (goes_on self) = turns keys inputs (turn keys input self)
    turns keys (input ∷ inputs) (leaves self) = leaves self
    turns keys (input ∷ inputs) (waits self) = waits self
    turns keys (input ∷ inputs) crashes = crashes

    abbrev pub started : Node → Option PeerId → List ℕ → Option Discovery → Turn
    started self none mask loop = crashes
    started self (some target) mask none = crashes
    started self (some target) mask (some loop) =
        goes_on (record { node = self; target = target; mask = mask; loop = loop })

    unfoldable pub discover_peers_in_bucket : Local r → ℕ → ℕ → List Input → Node → Turn
    unfolding turns
    discover_peers_in_bucket keys bucket_level bucket_id inputs self = turns keys inputs (
        started self (generate_in_bucket self.peer_id bucket_level bucket_id)
          (bucket_mask bucket_level) (discovery_start self.connections bucket_level bucket_id))
