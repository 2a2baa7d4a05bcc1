-- ===== src/Node/Lookup.antt =====
-- `dht_lookup` of src/node/dht.rs: the search for the values of a key, by lookups that run at the
-- same time. What a single lookup answers, and which of those that run ends first, is drawn from
-- outside: a run is given by its events. A set is the list of what was put in it.
pub mod Invariant
pub mod Ends
pub mod Nearest
use Prim.Native.String.{String}
use text.Mathlib.Text.{◌==◌}
use tewta.Base.{
  ℕ, zero, suc, ◌%◌, Bool, true, false, ◌&&◌, not, Option, none, some, List, [], ◌∷◌, ◌++◌, reverse,
  length, filter, erase_idx, ltb, if◌then◌else◌,
}
use tewta.Base.Result.{Result, ok, err}
use tewta.Node.Closest.{sort_by_distance}
use tewta.Packets.{DhtValue, DhtLookupResult, found, not_found}
use tewta.Peer.{PeerId, KeyId, eq_peer}

abbrev pub kademlia_alpha : ℕ
kademlia_alpha = 3

-- The derived equality of a peer with an address.
unfoldable pub same_contact : PeerId × String → PeerId × String → Bool
same_contact a b = eq_peer a.0 b.0 && a.1 == b.1

-- `BTreeSet::contains`.
unfoldable pub has_contact : PeerId × String → List (PeerId × String) → Bool
has_contact c [] = false
has_contact c (d ∷ ds) = if same_contact c d then true else has_contact c ds

-- `Vec::pop`: the last element, and those before it.
unfoldable pub pop {ℓ} : {A : Type ℓ} → List A → Option (A × List A)
pop [] = none
pop (x ∷ xs) = elim (pop xs) [ none ↦ some (x, []) | some (y, ys) ↦ some (y, x ∷ ys) ]

-- `Vec::dedup`, behind the element that was kept last.
unfoldable pub dedup_after : PeerId × String → List (PeerId × String) → List (PeerId × String)
dedup_after kept [] = []
dedup_after kept (c ∷ cs) =
    if same_contact kept c then dedup_after kept cs else c ∷ dedup_after c cs

unfoldable pub dedup : List (PeerId × String) → List (PeerId × String)
unfolding dedup_after
dedup [] = []
dedup (c ∷ cs) = c ∷ dedup_after c cs

-- The variables of the function, but for the counter that is printed.
pub record Lookup : Type 0 where
  pub already_queried : List (PeerId × String)
  pub providers : List (PeerId × String)
  pub concurrent_lookups : List (PeerId × String)
  pub should_complete : Bool

unfoldable pub start : KeyId → List (PeerId × String) → Lookup
start key peers_with_addrs = record {
  already_queried = [];
  providers = reverse (sort_by_distance key peers_with_addrs);
  concurrent_lookups = [];
  should_complete = false;
}

-- One provider is asked.
unfoldable pub ask : KeyId → PeerId × String → List (PeerId × String) → Lookup → Lookup
ask key provider providers self = record {
  already_queried = provider ∷ self.already_queried;
  providers = providers;
  concurrent_lookups = self.concurrent_lookups ++ provider ∷ [];
  should_complete = if eq_peer provider.0 key then true else self.should_complete;
}

-- The loop that fills up the lookups. `none` is `return None`. A round adds a lookup, so that
-- `KADEMLIA_ALPHA` rounds are enough.
unfoldable pub fill : ℕ → KeyId → Lookup → Option Lookup
fill zero key self = some self
fill (suc fuel) key self =
    if ltb (length self.concurrent_lookups) kademlia_alpha && not self.should_complete
    then elim (pop self.providers) [
      | some (provider, providers) ↦ fill fuel key (ask key provider providers self)
      | none ↦ elim self.concurrent_lookups [ [] ↦ none | _ ∷ _ ↦ some self ]
    ]
    else some self

-- What `NotFound` adds to the providers.
unfoldable pub absorb : KeyId → List (PeerId × String) → Lookup → Lookup
absorb key peers self =
    let fresh = filter (λ r. not (has_contact r self.already_queried)) (self.providers ++ peers) in
    record self { providers = reverse (dedup (sort_by_distance key fresh)) }

-- The search goes on, or the function returns. `select_all` panics without a lookup to wait for.
pub data Progress : Type 0 where
  searching : Lookup → Progress
  returned : Option (List DhtValue) → Progress
  panicked : Progress

-- The lookup that ends first is the one at the drawn number, modulo their count.
abbrev pub Event : Type 0 → Type 0
Event E = ℕ × Result E DhtLookupResult

module _ {E : Type 0} where
  -- The result of that lookup, with the others still running.
  unfoldable pub on_result : KeyId → Result E DhtLookupResult → Lookup → Progress
  on_result key (ok (found values)) self = returned (some values)
  on_result key (ok (not_found peers)) self = searching (absorb key peers self)
  on_result key (err e) self = searching self

  -- The rest of a round, once the lookups are filled up.
  unfoldable pub await : KeyId → Event E → Lookup → Progress
  await key (i, result) self = elim self.concurrent_lookups [
    | [] ↦ if self.should_complete then returned none else panicked
    | c ∷ cs ↦
        on_result key result
          (record self { concurrent_lookups = erase_idx (c ∷ cs) (i % length (c ∷ cs)) })
  ]

  unfoldable pub round : KeyId → Event E → Lookup → Progress
  round key event self = elim (fill kademlia_alpha key self) [
    | none ↦ returned none
    | some self ↦ await key event self
  ]

  unfoldable pub run : KeyId → List (Event E) → Progress → Progress
  run key [] progress = progress
  run key (event ∷ events) (returned values) = returned values
  run key (event ∷ events) panicked = panicked
  run key (event ∷ events) (searching self) = run key events (round key event self)

  unfoldable pub dht_lookup : KeyId → List (PeerId × String) → List (Event E) → Progress
  dht_lookup key peers_with_addrs events = run key events (searching (start key peers_with_addrs))
