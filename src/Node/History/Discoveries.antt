-- ===== src/Node/History/Discoveries.antt =====
-- The steps that a discovery of src/node/discovery.rs goes through.
use Prim.Native.String.{String}
use tewta.Base.{
  ℕ, refl, Option, none, some, List, [], ◌∷◌, Bool-cases, Option-cases, inl, inr, ◌==◌,
}
use tewta.Base.Result.{Result, ok, err, Fault, failed}
use tewta.Crypto.{Rsa, Parcel}
use tewta.Discovery.{bucket_mask}
use tewta.Handshake.{Local, asking}
use tewta.Handshake.Error.{HandshakeError}
use tewta.Handshake.Session.{Io}
use tewta.Node.Arrivals.{on_packets, received, await_response, listens_for_peers}
use tewta.Node.Connections.{send_packet, send_packet_unchecked, contains}
use tewta.Node.Counter.{next}
use tewta.Node.Discover.{Discovery, discovery_start}
use tewta.Node.Discover.Loop.{
  Search, Turn, goes_on, leaves, waits, crashes, Input, request_id_of, peers_request, answered,
  ask_provider, greeted, dialled, try_candidate, turn, turns, started, discover_peers_in_bucket,
}
use tewta.Node.Dispatch.{Node}
use tewta.Node.History.{sends, joins, stays}
use tewta.Node.History.Sequences.{
  Leading, Leads, one, trans, aside, after-Leads, on_packets-Leading,
}
use tewta.Node.History.Tasks.{discovered}
use tewta.Node.Join.{handshake}
use tewta.Node.Lookup.{has_contact, pop}
use tewta.Packets.{Packet, DiscoverPeersRespPacket}
use tewta.Peer.{PeerId, generate_in_bucket}

module _ {E : Type 0} (wire : Parcel E Packet)
    (shuffle : List (PeerId × String) → List (PeerId × String)) (r : Rsa) (sha256 : List ℕ → List ℕ)
    (keys : Local r) where
  abbrev Goes : Node → Node → Type 0
  Goes = Leading wire shuffle r sha256 keys

  abbrev Turns : Node → Turn → Type 0
  Turns s t = Leads wire shuffle r sha256 keys s (discovered t)

  after-Turns : {s m : Node} (t : Turn) → Goes s m → Turns m t → Turns s t
  after-Turns t = after-Leads wire shuffle r sha256 keys (discovered t)

  answered-Turns :
      {s : Node} (provider : PeerId) (providers : List PeerId) (self : Search) (node : Node)
      (resp : Option DiscoverPeersRespPacket)
      → Goes s node
      → Turns s (answered wire shuffle provider providers self node resp)
  answered-Turns provider providers self node none p = p
  answered-Turns provider providers self node (some resp) p =
      trans wire shuffle r sha256 keys p (aside wire shuffle r sha256 keys refl refl refl refl)

  ask_provider-Turns :
      (arrivals : List (PeerId × Packet)) (provider : PeerId) (providers : List PeerId)
      (self : Search)
      → Turns self.node (ask_provider wire shuffle arrivals provider providers self)
  unfolding ask_provider send_packet next
  ask_provider-Turns arrivals provider providers self =
      let id = self.node.discover_peer_req_counter.value in
      let p = peers_request wire shuffle id self in
      let counted : Node = listens_for_peers (record self.node {
        discover_peer_req_counter = (next self.node.discover_peer_req_counter).0;
      }) in
      let sent : Node = record counted {
        connections = send_packet_unchecked wire provider p self.node.connections;
      } in
      let node = on_packets wire shuffle arrivals sent in
      answered-Turns provider providers self node
        (await_response request_id_of id provider (received node.on_discover_peers_resp_packet))
        (trans wire shuffle r sha256 keys
          (aside wire shuffle r sha256 keys {s = self.node} {t = counted} refl refl refl refl)
          (trans wire shuffle r sha256 keys
            (one wire shuffle r sha256 keys {s = counted} {t = sent}
              (sends provider p sent.connections refl refl))
            (on_packets-Leading wire shuffle r sha256 keys arrivals sent)))

  greeted-Turns :
      {s : Node} (result : Result (Fault (HandshakeError E r.Error)) PeerId) (self : Search)
      → Goes s self.node
      → Turns s (greeted wire shuffle r sha256 result self)
  greeted-Turns (ok id) self p = p
  greeted-Turns (err (failed x)) self p = p
  greeted-Turns (err Fault.panicked) self p = tt
  greeted-Turns (err Fault.out_of_fuel) self p = tt

  dialled-Turns :
      (input : Input) (peer : PeerId) (stream : Option Io) (self : Search)
      → Turns self.node (dialled wire shuffle r sha256 keys input peer stream self)
  dialled-Turns input peer none self = stays refl
  dialled-Turns input peer (some io) self =
      let joined =
        handshake wire r sha256 (asking input.connected keys) input.random (some peer) io
          self.node.connections in
      greeted-Turns joined.result
        (record self { node = record self.node { connections = joined.pool } })
        (one wire shuffle r sha256 keys (joins input.connected input.random (some peer) io refl))

  try_candidate-Turns :
      (input : Input) (candidate : PeerId × String) (candidates : List (PeerId × String))
      (self : Search)
      → Turns self.node (try_candidate wire shuffle r sha256 keys input candidate candidates self)
  unfolding try_candidate
  try_candidate-Turns input candidate candidates self =
      let tried : Search = record self {
        loop = record self.loop {
          candidates = candidates;
          old_candidates = candidate ∷ self.loop.old_candidates;
        };
      } in
      elim (Bool-cases (has_contact candidate self.loop.old_candidates)) [
        | inl old ↦ rw (old, Turns) (stays refl)
        | inr new ↦ elim (Bool-cases (contains candidate.0 self.node.connections)) [
          | inl there ↦ rw (new, there, Turns) (stays refl)
          | inr absent ↦
              rw (new, absent, Turns) (dialled-Turns input candidate.0 input.stream tried)
        ]
      ]

  turn-Turns :
      (input : Input) (self : Search) → Turns self.node (turn wire shuffle r sha256 keys input self)
  unfolding turn
  turn-Turns input self = elim (Bool-cases (self.loop.missing_peers == 0)) [
    | inl full ↦ rw (full, Turns) (stays refl)
    | inr lacks ↦ elim (Option-cases (pop self.loop.candidates)) [
      | inr ((candidate, candidates), e) ↦
          rw (lacks, e, Turns) (try_candidate-Turns input candidate candidates self)
      | inl e ↦ elim (Option-cases (pop self.loop.providers)) [
        | inr ((provider, providers), f) ↦
            rw (lacks, e, f, Turns) (ask_provider-Turns input.arrivals provider providers self)
        | inl f ↦ rw (lacks, e, f, Turns) (stays refl)
      ]
    ]
  ]

  turns-Turns :
      (s : Node) (inputs : List Input) (t : Turn)
      → Turns s t
      → Turns s (turns wire shuffle r sha256 keys inputs t)
  unfolding turns
  turns-Turns s [] t p = p
  turns-Turns s (input ∷ inputs) (goes_on self) p =
      turns-Turns s inputs (turn wire shuffle r sha256 keys input self)
        (after-Turns (turn wire shuffle r sha256 keys input self) p (turn-Turns input self))
  turns-Turns s (input ∷ inputs) (leaves self) p = p
  turns-Turns s (input ∷ inputs) (waits self) p = p
  turns-Turns s (input ∷ inputs) crashes p = p

  started-Turns :
      (self : Node) (target : Option PeerId) (mask : List ℕ) (loop : Option Discovery)
      → Turns self (started wire shuffle r sha256 self target mask loop)
  started-Turns self none mask loop = tt
  started-Turns self (some target) mask none = tt
  started-Turns self (some target) mask (some loop) = stays refl

  pub discover-Leads :
      (level id : ℕ) (inputs : List Input) (self : Node)
      → Turns self (discover_peers_in_bucket wire shuffle r sha256 keys level id inputs self)
  unfolding discover_peers_in_bucket
  discover-Leads level id inputs self =
      let target = generate_in_bucket self.peer_id level id in
      let loop = discovery_start self.connections level id in
      turns-Turns self inputs (started wire shuffle r sha256 self target (bucket_mask level) loop)
        (started-Turns self target (bucket_mask level) loop)
