-- ===== src/Node/Lookup/Ends.antt =====
-- The end of `dht_lookup` in src/node/dht.rs.
use Prim.Native.String.{String}
use native.Mathlib.Nat.{mod-lt}
use tewta.Base.{
  ℕ, zero, suc, ◌+◌, ◌%◌, ◌≡◌, ◌<◌, refl, true, Option, none, some, List, [], ◌∷◌, length,
  erase_idx, length-erase_idx, arith,
}
use tewta.Base.Result.{Result, ok, err}
use tewta.Node.Lookup.{
  Lookup, Progress, searching, returned, Event, fill, kademlia_alpha, absorb, on_result, await,
  round, run,
}
use tewta.Packets.{DhtValue, DhtLookupResult, found, not_found}
use tewta.Peer.{PeerId, KeyId}

-- Once the search is to complete, no provider is asked any more.
fill_complete :
    (fuel : ℕ) (key : KeyId) (self : Lookup)
    → self.should_complete ≡ true
    → fill fuel key self ≡ some self
unfolding fill
fill_complete zero key self h = refl
fill_complete (suc fuel) key self h = ground (arith, h)

-- What a round makes of a search that is to complete: it returns, or one lookup fewer runs.
data Nearer (running : List (PeerId × String)) : Progress → Type 0 where
  done : (v : Option (List DhtValue)) → Nearer running (returned v)
  fewer :
      (next : Lookup)
      → next.should_complete ≡ true
      → length next.concurrent_lookups + 1 ≡ length running
      → Nearer running (searching next)

abbrev searched : List (PeerId × String) → List (PeerId × String) → List (PeerId × String) → Lookup
searched aq ps cs = record {
  already_queried = aq;
  providers = ps;
  concurrent_lookups = cs;
  should_complete = true;
}

searched_eta :
    (self : Lookup)
    → self.should_complete ≡ true
    → self ≡ searched self.already_queried self.providers self.concurrent_lookups
searched_eta self h = λ i. record self { should_complete = h i }

module _ {E : Type 0} where
  on_result-Nearer :
      (key : KeyId) (r : Result E DhtLookupResult) (aq ps others running : List (PeerId × String))
      → length others + 1 ≡ length running
      → Nearer running (on_result key r (searched aq ps others))
  unfolding on_result absorb
  on_result-Nearer key (ok (found values)) aq ps others running h = done (some values)
  on_result-Nearer key (ok (not_found peers)) aq ps others running h =
      fewer (absorb key peers (searched aq ps others)) refl h
  on_result-Nearer key (err e) aq ps others running h = fewer (searched aq ps others) refl h

  await-Nearer :
      (key : KeyId) (e : Event E) (aq ps cs : List (PeerId × String))
      → Nearer cs (await key e (searched aq ps cs))
  unfolding await
  await-Nearer key (i, r) aq ps [] = done none
  await-Nearer key (i, r) aq ps (c ∷ cs) =
      let j = i % length (c ∷ cs) in
      let shorter = length-erase_idx j (c ∷ cs) (mod-lt i (omega arith)) in
      on_result-Nearer key r aq ps (erase_idx (c ∷ cs) j) (c ∷ cs) (omega (arith, shorter))

  round-await :
      (key : KeyId) (e : Event E) (self : Lookup)
      → self.should_complete ≡ true
      → round key e self ≡ await key e self
  unfolding round
  round-await key e self h = ground (arith, fill_complete kademlia_alpha key self h)

  round-Nearer :
      (key : KeyId) (e : Event E) (aq ps cs : List (PeerId × String))
      → Nearer cs (round key e (searched aq ps cs))
  round-Nearer key e aq ps cs =
      rw (round-await key e (searched aq ps cs) refl) (await-Nearer key e aq ps cs)

  run_done :
      (key : KeyId) (events : List (Event E)) (v : Option (List DhtValue))
      → run key events (returned v) ≡ returned v
  unfolding run
  run_done key [] v = refl
  run_done key (e ∷ events) v = refl

  abbrev Returns : KeyId → List (Event E) → Progress → Type 0
  Returns key events p = (v : Option (List DhtValue)) × (run key events p ≡ returned v)

  nearer-Returns :
      (key : KeyId) (events : List (Event E)) (running : List (PeerId × String)) (p : Progress)
      → ((later : Lookup)
          → later.should_complete ≡ true
          → length later.concurrent_lookups < length events
          → Returns key events (searching later))
      → length running < length events + 1
      → Nearer running p
      → Returns key events p
  nearer-Returns key events running _ rec less (done v) = (v, run_done key events v)
  nearer-Returns key events running _ rec less (fewer later complete count) =
      rec later complete (omega arith)

  -- Once the provider whose identifier is the key has been asked, the search returns as soon as
  -- more lookups have ended than were running, whatever they answer: with values, or without.
  pub run_ends :
      (key : KeyId) (events : List (Event E)) (self : Lookup)
      → self.should_complete ≡ true
      → length self.concurrent_lookups < length events
      → (v : Option (List DhtValue)) × (run key events (searching self) ≡ returned v)
  unfolding run
  run_ends key [] self h less = absurd (omega arith)
  run_ends key (e ∷ events) self h less =
      let aq = self.already_queried in
      let ps = self.providers in
      let cs = self.concurrent_lookups in
      rw (searched_eta self h) (
        nearer-Returns key events cs (round key e (searched aq ps cs)) (run_ends key events)
          (omega arith) (round-Nearer key e aq ps cs))
