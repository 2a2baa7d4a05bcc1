-- ===== src/Node/Lookup/Invariant.antt =====
-- The lookups that run in `dht_lookup` of src/node/dht.rs.
use Prim.Native.String.{String}
use tewta.Base.{
  ℕ, suc, ◌≡◌, ◌<◌, ◌≤◌, refl, true, false, ◌&&◌, not, Option, none, some, List, [], ◌∷◌, length,
  ltb, arith, Option-cases, ◌⊎◌, inl, inr,
}
use tewta.Base.Result.{Result}
use tewta.Node.Lookup.{
  Lookup, Progress, searching, returned, Event, pop, ask, fill, kademlia_alpha, await, round,
}
use tewta.Packets.{DhtValue}
use tewta.Peer.{PeerId, KeyId}

-- At most `KADEMLIA_ALPHA` lookups run.
abbrev pub Few : Lookup → Type 0
Few self = length self.concurrent_lookups ≤ kademlia_alpha

-- The loop that fills up has nothing left to do: enough lookups run, or the search is to complete,
-- or nobody is left to ask while some lookup runs.
data Filled (self : Lookup) : Type 0 where
  enough : length self.concurrent_lookups ≡ kademlia_alpha → Filled self
  complete : self.should_complete ≡ true → Filled self
  exhausted : self.providers ≡ [] → 0 < length self.concurrent_lookups → Filled self

pub pop-none : {A : Type 0} (xs : List A) → pop xs ≡ none → xs ≡ []
unfolding pop
pop-none [] h = refl
pop-none (x ∷ xs) h = elim (Option-cases (pop xs)) [
  | inl e ↦ absurd (cc (rw e at h))
  | inr (p, e) ↦ absurd (cc (rw e at h))
]

pub fill_stops :
    (fuel : ℕ) (key : KeyId) (self : Lookup)
    → (ltb (length self.concurrent_lookups) kademlia_alpha && not self.should_complete) ≡ false
    → fill (suc fuel) key self ≡ some self
unfolding fill
fill_stops fuel key self h = ground (arith, h)

pub fill_asks :
    (fuel : ℕ) (key : KeyId) (self : Lookup) (p : PeerId × String) (ps : List (PeerId × String))
    → (ltb (length self.concurrent_lookups) kademlia_alpha && not self.should_complete) ≡ true
    → pop self.providers ≡ some (p, ps)
    → fill (suc fuel) key self ≡ fill fuel key (ask key p ps self)
unfolding fill
fill_asks fuel key self p ps h e = ground (arith, h, e)

pub fill_idle :
    (fuel : ℕ) (key : KeyId) (self after : Lookup)
    → (ltb (length self.concurrent_lookups) kademlia_alpha && not self.should_complete) ≡ true
    → pop self.providers ≡ none
    → fill (suc fuel) key self ≡ some after
    → (self ≡ after) × (0 < length self.concurrent_lookups)
unfolding fill
fill_idle fuel key self after h e f = elim (run_cases self.concurrent_lookups) [
  | inl none_runs ↦ absurd (cc (rw (h, e, none_runs) at f))
  | inr (c, cs, some_run) ↦ (cc (rw (h, e, some_run) at f), ground (arith, some_run))
]
  where
    run_cases :
        (xs : List (PeerId × String))
        → (xs ≡ []) ⊎ ((c : PeerId × String) × (cs : List (PeerId × String)) × (xs ≡ c ∷ cs))
    run_cases [] = inl refl
    run_cases (c ∷ cs) = inr (c, cs, refl)

pub fill_nothing : (key : KeyId) (self : Lookup) → fill 0 key self ≡ some self
unfolding fill
fill_nothing key self = refl

-- A round that waits has a lookup to wait for, and leaves at most as many.
pub data Fine : Progress → Type 0 where
  goes_on : (self : Lookup) → Few self → Fine (searching self)
  is_over : (v : Option (List DhtValue)) → Fine (returned v)

module _ {E : Type 0} where
  pub round-none :
      (key : KeyId) (e : Event E) (self : Lookup)
      → fill kademlia_alpha key self ≡ none
      → round key e self ≡ returned none
  unfolding round
  round-none key e self h = ground (arith, h)

  pub round-some :
      (key : KeyId) (e : Event E) (self after : Lookup)
      → fill kademlia_alpha key self ≡ some after
      → round key e self ≡ await key e after
  unfolding round
  round-some key e self after h = ground (arith, h)
