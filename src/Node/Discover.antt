-- ===== src/Node/Discover.antt =====
-- The loop of `discover_peers_in_bucket` in src/node/discovery.rs. What the other peers do is a
-- parameter; a candidate is tried once, so that it is asked for one answer.
pub mod Ends
pub mod Starts
pub mod Loop
use Prim.Native.String.{String}
use tewta.Base.{
  ℕ, zero, suc, ◌+◌, ◌-◌, Bool, true, false, ◌&&◌, not, Option, none, some, List, [], ◌∷◌, length,
  ltb, ◌==◌, if◌then◌else◌,
}
use tewta.Node.Connections.{
  ConnectionPool, peers_on_bucket, peers_on_bucket_and_under, kademlia_bucket_size,
}
use tewta.Node.Lookup.{has_contact, pop}
use tewta.Peer.{PeerId}

-- Whether the pool holds a candidate when it is its turn, whether `connect` reaches it, whether the
-- handshake with it succeeds, and what a provider responds to the request.
pub record World : Type 0 where
  pub connected : PeerId × String → Bool
  pub reachable : PeerId × String → Bool
  pub welcomes : PeerId × String → Bool
  pub response : PeerId → List (PeerId × String)

-- The variables of the loop.
pub record Discovery : Type 0 where
  pub providers : List PeerId
  pub candidates : List (PeerId × String)
  pub old_candidates : List (PeerId × String)
  pub missing_peers : ℕ

-- A round of the loop goes on, or leaves it: by the condition, by `break`, or by `return`.
pub data Round : Type 0 where
  goes_on : Discovery → Round
  leaves : Discovery → Round

unfoldable pub try_candidate : World → PeerId × String → Discovery → Round
try_candidate world candidate self =
    let tried : Discovery = record self { old_candidates = candidate ∷ self.old_candidates } in
    if has_contact candidate self.old_candidates
    then goes_on self
    else if world.connected candidate
    then goes_on tried
    else if not (world.reachable candidate)
    then goes_on tried
    else if world.welcomes candidate
    then goes_on (record tried { missing_peers = self.missing_peers - 1 })
    else leaves tried

unfoldable pub discovery_round : World → Discovery → Round
discovery_round world self =
    if self.missing_peers == 0 then leaves self else elim (pop self.candidates) [
      | some (candidate, candidates) ↦
          try_candidate world candidate (record self { candidates = candidates })
      | none ↦ elim (pop self.providers) [
        | some (provider, providers) ↦
            goes_on (record self { providers = providers; candidates = world.response provider })
        | none ↦ leaves self
      ]
    ]

-- `none` is the end of the fuel, which the number of responses bounds.
unfoldable pub discovery_loop : ℕ → World → Discovery → Option Discovery
discovery_loop zero world self = none
discovery_loop (suc fuel) world self = elim (discovery_round world self) [
  | goes_on self ↦ discovery_loop fuel world self
  | leaves self ↦ some self
]

-- A round for every provider, and for every candidate that is known or that a provider names.
abbrev pub responses : World → List PeerId → ℕ
responses world [] = 0
responses world (p ∷ ps) = length (world.response p) + 1 + responses world ps

-- `none` is a failed assertion, or the overflow of the subtraction when the bucket is overfull.
unfoldable pub discovery_start : ConnectionPool → ℕ → ℕ → Option Discovery
discovery_start connections bucket_level bucket_id =
    let present = length (peers_on_bucket bucket_level bucket_id connections) in
    if ltb bucket_level 128 && ltb bucket_id 3
    then if ltb kademlia_bucket_size present
      then none
      else some (record {
        providers = peers_on_bucket_and_under bucket_level connections;
        candidates = [];
        old_candidates = [];
        missing_peers = kademlia_bucket_size - present;
      })
    else none
