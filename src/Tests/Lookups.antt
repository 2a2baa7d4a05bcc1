-- ===== src/Tests/Lookups.antt =====
-- Searches for the values of a key.
use Prim.Native.String.{String}
use tewta.Base.{◌≡◌, refl, arith, true, false, Option, some, List, [], ◌∷◌, All}
use tewta.Base.Result.{ok, err}
use tewta.Node.Closest.{sort_by_distance}
use tewta.Node.Closest.Laws.{NoFarther}
use tewta.Node.Lookup.{
  Lookup, searching, returned, Event, pop, ask, start, fill, absorb, on_result, await, round, run,
  dht_lookup, has_contact, same_contact, dedup,
}
use tewta.Node.Lookup.Ends.{run_ends}
use tewta.Node.Lookup.Nearest.{dht_lookup-NoFarther}
use tewta.Node.Discover.{World, Discovery, discovery_loop, discovery_round, try_candidate}
use tewta.Packets.{DhtValue, not_found}
use tewta.Peer.{PeerId, cmp_bytes, distance, eq_bytes, eq_peer}
use tewta.Tests.Samples.{peer}

abbrev contacts : List (PeerId × String)
contacts =
    (peer 130, "local-1") ∷ (peer 6, "local-2") ∷ (peer 9, "local-3") ∷ (peer 64, "local-4") ∷ []

-- The first answer names two more peers, one of them asked before.
abbrev answered : List (Event (Unit {0}))
answered = (0, ok (not_found ((peer 6, "local-2") ∷ (peer 5, "local-5") ∷ []))) ∷ []

abbrev after_one : Lookup
after_one = record {
  already_queried = (peer 64, "local-4") ∷ (peer 9, "local-3") ∷ (peer 6, "local-2") ∷ [];
  providers = (peer 130, "local-1") ∷ (peer 5, "local-5") ∷ [];
  concurrent_lookups = (peer 9, "local-3") ∷ (peer 64, "local-4") ∷ [];
  should_complete = false;
}

one_round : dht_lookup (peer 7) contacts answered ≡ searching after_one
unfolding dht_lookup run round fill await on_result absorb ask start pop has_contact same_contact
    dedup sort_by_distance cmp_bytes distance eq_peer eq_bytes
one_round = refl

next : pop after_one.providers ≡ some ((peer 5, "local-5"), (peer 130, "local-1") ∷ [])
unfolding pop
next = refl

dht_lookup-NoFarther_example :
    All (NoFarther (peer 7) (peer 5, "local-5")) ((peer 130, "local-1") ∷ [])
dht_lookup-NoFarther_example =
    dht_lookup-NoFarther (peer 7) contacts answered after_one (peer 5, "local-5")
      ((peer 130, "local-1") ∷ []) one_round next

abbrev last_ones : Lookup
last_ones = record {
  already_queried = (peer 7, "local-7") ∷ [];
  providers = (peer 130, "local-1") ∷ [];
  concurrent_lookups = (peer 7, "local-7") ∷ [];
  should_complete = true;
}

abbrev failures : List (Event (Unit {0}))
failures = (0, err tt) ∷ (0, err tt) ∷ []

run_ends_example :
    (v : Option (List DhtValue)) × (run (peer 7) failures (searching last_ones) ≡ returned v)
run_ends_example = run_ends (peer 7) failures last_ones refl (omega arith)

-- A provider names two contacts; one of them is reached.
abbrev world : World
world = record {
  connected = λ c. false;
  reachable = λ c. eq_peer c.0 (peer 5);
  welcomes = λ c. true;
  response = λ p. (peer 5, "local-5") ∷ (peer 6, "local-2") ∷ (peer 5, "local-5") ∷ [];
}

abbrev begun : Discovery
begun = record { providers = peer 9 ∷ []; candidates = []; old_candidates = []; missing_peers = 2 }

abbrev finished : Discovery
finished = record {
  providers = [];
  candidates = [];
  old_candidates = (peer 6, "local-2") ∷ (peer 5, "local-5") ∷ [];
  missing_peers = 1;
}

discovered : discovery_loop 5 world begun ≡ some finished
unfolding discovery_loop discovery_round try_candidate pop has_contact same_contact eq_peer eq_bytes
discovered = refl
