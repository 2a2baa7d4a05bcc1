-- ===== src/Node/Discover/Loop/Bounds.antt =====
-- The pool of the node while the loop of src/node/discovery.rs runs.
use Prim.Native.String.{String}
use tewta.Base.{
  ℕ, ◌+◌, ◌-◌, ◌≤◌, ◌<◌, ◌≡◌, inl, inr, refl, arith, Option, none, some, List, [], ◌∷◌, length,
  ◌==◌, Bool-cases, Option-cases,
}
use tewta.Base.Result.{failed, panicked, out_of_fuel}
use tewta.Crypto.{Rsa, Parcel}
use tewta.Discovery.{bucket_mask}
use tewta.Handshake.{Local, asking}
use tewta.Handshake.Session.{Io}
use tewta.Node.Arrivals.{on_packets, received, await_response, listens_for_peers}
use tewta.Node.Arrivals.Pool.{send-Settled, on_packets-Settled}
use tewta.Node.Connections.{
  ConnectionPool, len, send_packet, send_packet_unchecked, contains, peers_on_bucket,
  kademlia_bucket_size,
}
use tewta.Node.Counter.{next}
use tewta.Node.Discover.{Discovery, discovery_start}
use tewta.Node.Discover.Loop.{
  Search, Turn, goes_on, leaves, waits, crashes, Input, request_id_of, peers_request, answered,
  ask_provider, dialled, try_candidate, turn, turns, started, discover_peers_in_bucket,
}
use tewta.Node.Dispatch.{Node}
use tewta.Node.Join.{handshake}
use tewta.Node.Join.Guards.{handshake_guards}
use tewta.Node.Join.Pool.{handshake-Grown}
use tewta.Node.Lookup.{has_contact, pop}
use tewta.Packets.{Packet, DiscoverPeersRespPacket}
use tewta.Peer.{PeerId, generate_in_bucket}
use tewta.PeerMap.{IsSorted}

-- The peers ascend, and those that are missing still, with those in the pool, are at most `bound`.
pub record Within (bound : ℕ) (pool : ConnectionPool) (missing : ℕ) : Type 0 where
  pub sorted : IsSorted pool.connections
  pub bounded : len pool + missing ≤ bound

abbrev IsWithin : ℕ → Search → Type 0
IsWithin bound s = Within bound s.node.connections s.loop.missing_peers

abbrev pub Keeps : ℕ → Turn → Type 0
Keeps bound (goes_on s) = IsWithin bound s
Keeps bound (leaves s) = IsWithin bound s
Keeps bound (waits s) = IsWithin bound s
Keeps bound crashes = Unit

module _ {E : Type 0} (wire : Parcel E Packet)
    (shuffle : List (PeerId × String) → List (PeerId × String)) (bound : ℕ) where
  answered-Keeps :
      (provider : PeerId) (providers : List PeerId) (self : Search) (node : Node)
      (resp : Option DiscoverPeersRespPacket)
      → Within bound node.connections self.loop.missing_peers
      → Keeps bound (answered wire shuffle provider providers self node resp)
  answered-Keeps provider providers self node none w = w
  answered-Keeps provider providers self node (some resp) w = w

  ask_provider-Keeps :
      (arrivals : List (PeerId × Packet)) (provider : PeerId) (providers : List PeerId)
      (self : Search)
      → IsWithin bound self
      → Keeps bound (ask_provider wire shuffle arrivals provider providers self)
  unfolding ask_provider send_packet next
  ask_provider-Keeps arrivals provider providers self w =
      let request_id = self.node.discover_peer_req_counter.value in
      let request = peers_request wire shuffle request_id self in
      let sent = send-Settled wire provider request self.node.connections in
      let asked : Node = listens_for_peers (record self.node {
        discover_peer_req_counter = (next self.node.discover_peer_req_counter).0;
        connections = send_packet_unchecked wire provider request self.node.connections;
      }) in
      let rest = on_packets-Settled wire shuffle arrivals asked in
      let node = on_packets wire shuffle arrivals asked in
      answered-Keeps provider providers self node
        (await_response request_id_of request_id provider
          (received node.on_discover_peers_resp_packet))
        (record {
          sorted = rest.sorted (sent.sorted w.sorted);
          bounded = omega (arith, w.bounded, sent.no_more, rest.no_more);
        })

  module _ (r : Rsa) (sha256 : List ℕ → List ℕ) (keys : Local r) where
    dialled-Keeps :
        (input : Input) (peer : PeerId) (stream : Option Io) (self : Search)
        → 0 < self.loop.missing_peers
        → IsWithin bound self
        → Keeps bound (dialled wire shuffle r sha256 keys input peer stream self)
    dialled-Keeps input peer none self pos w = w
    dialled-Keeps input peer (some io) self pos w =
        let pool = self.node.connections in
        let joined =
          handshake wire r sha256 (asking input.connected keys) input.random (some peer) io pool in
        let grown =
          handshake-Grown wire r sha256 (asking input.connected keys) input.random (some peer) io
            pool in
        elim (handshake_guards wire r sha256 (asking input.connected keys) input.random (some peer)
          io pool) [
            | inl (id, e, taken) ↦ rw e (record {
              sorted = grown.sorted w.sorted;
              bounded = omega (arith, grown.one_more, w.bounded);
            })
            | inr (same, (failed x, e)) ↦ rw (e, same) w
            | inr (same, (panicked, e)) ↦ rw e tt
            | inr (same, (out_of_fuel, e)) ↦ rw e tt
          ]

    try_candidate-Keeps :
        (input : Input) (candidate : PeerId × String) (candidates : List (PeerId × String))
        (self : Search)
        → 0 < self.loop.missing_peers
        → IsWithin bound self
        → Keeps bound (try_candidate wire shuffle r sha256 keys input candidate candidates self)
    unfolding try_candidate
    try_candidate-Keeps input candidate candidates self pos w =
        let popped : Search = record self { loop = record self.loop { candidates = candidates } } in
        let tried : Search = record popped {
          loop = record popped.loop { old_candidates = candidate ∷ self.loop.old_candidates };
        } in
        elim (Bool-cases (has_contact candidate self.loop.old_candidates)) [
          | inl old ↦ rw (old, Keeps) w
          | inr new ↦ elim (Bool-cases (contains candidate.0 self.node.connections)) [
            | inl there ↦ rw (new, there, Keeps) w
            | inr absent ↦
                rw (new, absent, Keeps) (dialled-Keeps input candidate.0 input.stream tried pos w)
          ]
        ]

    turn-Keeps :
        (input : Input) (self : Search)
        → IsWithin bound self
        → Keeps bound (turn wire shuffle r sha256 keys input self)
    unfolding turn
    turn-Keeps input self w = elim (Bool-cases (self.loop.missing_peers == 0)) [
      | inl full ↦ rw (full, Keeps) w
      | inr lacks ↦ elim (Option-cases (pop self.loop.candidates)) [
        | inr ((candidate, candidates), e) ↦
            rw (lacks, e, Keeps)
              (try_candidate-Keeps input candidate candidates self (ground (arith, lacks)) w)
        | inl e ↦ elim (Option-cases (pop self.loop.providers)) [
          | inr ((provider, providers), f) ↦
              rw (lacks, e, f, Keeps) (ask_provider-Keeps input.arrivals provider providers self w)
          | inl f ↦ rw (lacks, e, f, Keeps) w
        ]
      ]
    ]

    turns-Keeps :
        (inputs : List Input) (t : Turn)
        → Keeps bound t
        → Keeps bound (turns wire shuffle r sha256 keys inputs t)
    unfolding turns
    turns-Keeps [] t k = k
    turns-Keeps (input ∷ inputs) (goes_on self) k =
        turns-Keeps inputs (turn wire shuffle r sha256 keys input self) (turn-Keeps input self k)
    turns-Keeps (input ∷ inputs) (leaves self) k = k
    turns-Keeps (input ∷ inputs) (waits self) k = k
    turns-Keeps (input ∷ inputs) crashes k = k

-- The peers that a bucket lacks when a discovery starts.
abbrev pub lacking : ConnectionPool → ℕ → ℕ → ℕ
lacking pool level id = kademlia_bucket_size - length (peers_on_bucket level id pool)

discovery_start_missing :
    (pool : ConnectionPool) (level id : ℕ) (loop : Discovery)
    → discovery_start pool level id ≡ some loop
    → loop.missing_peers ≡ lacking pool level id
unfolding discovery_start
discovery_start_missing pool level id loop e = ground (arith, e)

module _ {E : Type 0} (wire : Parcel E Packet)
    (shuffle : List (PeerId × String) → List (PeerId × String)) (r : Rsa) (sha256 : List ℕ → List ℕ)
    (keys : Local r) where
  started-Keeps :
      (self : Node) (level id : ℕ) (target : Option PeerId) (mask : List ℕ)
      (loop : Option Discovery)
      → IsSorted self.connections.connections
      → discovery_start self.connections level id ≡ loop
      → Keeps
          (len self.connections + lacking self.connections level id)
          (started wire shuffle r sha256 self target mask loop)
  started-Keeps self level id none mask loop s e = tt
  started-Keeps self level id (some target) mask none s e = tt
  started-Keeps self level id (some target) mask (some loop) s e = record {
    sorted = s;
    bounded = omega (arith, discovery_start_missing self.connections level id loop e);
  }

  -- Let the peers of the pool ascend. Whatever streams, random bytes and packets a discovery in a
  -- bucket is given, and however many turns its loop has made: the peers ascend, and the pool, with
  -- the peers that the loop still looks for, is at most what it was with the peers that the bucket
  -- lacked, unless the call has panicked.
  pub discover_peers_in_bucket_bounds :
      (level id : ℕ) (inputs : List Input) (self : Node)
      → IsSorted self.connections.connections
      → Keeps
          (len self.connections + lacking self.connections level id)
          (discover_peers_in_bucket wire shuffle r sha256 keys level id inputs self)
  unfolding discover_peers_in_bucket
  discover_peers_in_bucket_bounds level id inputs self s =
      let bound = len self.connections + lacking self.connections level id in
      let begin =
        started wire shuffle r sha256 self (generate_in_bucket self.peer_id level id)
          (bucket_mask level) (discovery_start self.connections level id) in
      turns-Keeps wire shuffle bound r sha256 keys inputs begin (
        started-Keeps self level id (generate_in_bucket self.peer_id level id) (bucket_mask level)
          (discovery_start self.connections level id) s refl)
