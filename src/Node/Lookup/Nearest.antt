-- ===== src/Node/Lookup/Nearest.antt =====
-- The order in which `dht_lookup` of src/node/dht.rs asks the providers.
use Prim.Native.String.{String}
use mathlib.Core.List.{reverse-append, reverse-cons, reverse-reverse}
use tewta.Base.{
  ℕ, zero, suc, ◌%◌, ◌≡◌, refl, ap, sym, ◌∙◌, Bool, true, false, ◌&&◌, not, Option, some, List, [],
  ◌∷◌, ◌++◌, reverse, length, filter, All, subst, All-append, erase_idx, ltb, Bool-cases,
  Option-cases, inl, inr,
}
use tewta.Base.Result.{Result, ok, err}
use tewta.Node.Closest.{sort_by_distance}
use tewta.Node.Closest.Laws.{NoFarther, IsAscending, sort-IsAscending}
use tewta.Node.Lookup.{
  Lookup, Progress, searching, returned, panicked, Event, same_contact, has_contact, pop, dedup,
  dedup_after, ask, start, fill, kademlia_alpha, absorb, on_result, await, round, run, dht_lookup,
}
use tewta.Node.Lookup.Invariant.{
  pop-none, fill_stops, fill_asks, fill_idle, fill_nothing, round-none, round-some,
}
use tewta.Packets.{DhtLookupResult, found, not_found}
use tewta.Peer.{PeerId, KeyId}

pub pop-some :
    {A : Type 0} (xs : List A) {y : A} {ys : List A} → pop xs ≡ some (y, ys) → xs ≡ ys ++ y ∷ []
unfolding pop
pop-some [] h = cc h
pop-some {A} (x ∷ xs) {y} {ys} h = elim (Option-cases (pop xs)) [
  | inl e ↦
      let here : ◌≡◌ {A = Option (A × List A)} (some (x, [])) (some (y, ys)) = rw e at h in
      let last : x ≡ y = cc here in
      let before : [] ≡ ys = cc here in rw (← last, ← before, pop-none xs e) refl
  | inr ((z, zs), e) ↦
      let here : ◌≡◌ {A = Option (A × List A)} (some (z, x ∷ zs)) (some (y, ys)) = rw e at h in
      let last : z ≡ y = cc here in
      let before : x ∷ zs ≡ ys = cc here in rw (← last, ← before) (ap (λ l. x ∷ l) (pop-some xs e))
]

dedup_after-All :
    (P : PeerId × String → Type 0) (kept : PeerId × String) (cs : List (PeerId × String))
    → All P cs
    → All P (dedup_after kept cs)
unfolding dedup_after
dedup_after-All P kept [] h = tt
dedup_after-All P kept (c ∷ cs) (p, h) = elim (Bool-cases (same_contact kept c)) [
  | inl e ↦ rw e (dedup_after-All P kept cs h)
  | inr e ↦ rw e (p, dedup_after-All P c cs h)
]

dedup_after-IsAscending :
    (key : PeerId) (kept : PeerId × String) (cs : List (PeerId × String))
    → IsAscending key cs
    → IsAscending key (dedup_after kept cs)
unfolding dedup_after
dedup_after-IsAscending key kept [] h = tt
dedup_after-IsAscending key kept (c ∷ cs) (b, h) = elim (Bool-cases (same_contact kept c)) [
  | inl e ↦ rw e (dedup_after-IsAscending key kept cs h)
  | inr e ↦ rw e (dedup_after-All (NoFarther key c) c cs b, dedup_after-IsAscending key c cs h)
]

dedup-IsAscending :
    (key : PeerId) (cs : List (PeerId × String)) → IsAscending key cs → IsAscending key (dedup cs)
unfolding dedup
dedup-IsAscending key [] h = tt
dedup-IsAscending key (c ∷ cs) (b, h) =
    (dedup_after-All (NoFarther key c) c cs b, dedup_after-IsAscending key c cs h)

-- The providers lie in descending distance: the last is the nearest.
abbrev pub NearestLast : PeerId → List (PeerId × String) → Type 0
NearestLast key ps = IsAscending key (reverse ps)

All-reverse :
    (P : PeerId × String → Type 0) (xs : List (PeerId × String)) → All P xs → All P (reverse xs)
All-reverse P [] h = tt
All-reverse P (x ∷ xs) (p, h) =
    rw (reverse-cons x xs) (All-append P (reverse xs) (x ∷ []) (All-reverse P xs h) (p, tt))

pop-NearestLast :
    (key : PeerId) (ps : List (PeerId × String)) {p : PeerId × String}
    {rest : List (PeerId × String)}
    → NearestLast key ps
    → pop ps ≡ some (p, rest)
    → All (NoFarther key p) rest × NearestLast key rest
pop-NearestLast key ps {p} {rest} h e =
    let turned : reverse ps ≡ p ∷ reverse rest =
      ap reverse (pop-some ps e) ∙ reverse-append rest (p ∷ []) in
    let (below, sorted) = subst (IsAscending key) turned h in
    let back : All (NoFarther key p) (reverse (reverse rest)) =
      All-reverse (NoFarther key p) (reverse rest) below in
    (subst (All (NoFarther key p)) (reverse-reverse rest) back, sorted)

sorted-NearestLast :
    (key : PeerId) (cs : List (PeerId × String)) → IsAscending key cs → NearestLast key (reverse cs)
sorted-NearestLast key cs h = rw (reverse-reverse cs) h

abbrev Nearest : KeyId → Progress → Type 0
Nearest key (searching self) = NearestLast key self.providers
Nearest key (returned v) = Unit {0}
Nearest key panicked = Unit {0}

absorb-NearestLast :
    (key : KeyId) (peers : List (PeerId × String)) (self : Lookup)
    → NearestLast key (absorb key peers self).providers
unfolding absorb
absorb-NearestLast key peers self =
    let fresh = filter (λ r. not (has_contact r self.already_queried)) (self.providers ++ peers) in
    sorted-NearestLast key (dedup (sort_by_distance key fresh))
      (dedup-IsAscending key (sort_by_distance key fresh) (sort-IsAscending key fresh))

ask-providers :
    (key : KeyId) (p : PeerId × String) (ps : List (PeerId × String)) (self : Lookup)
    → (ask key p ps self).providers ≡ ps
unfolding ask
ask-providers key p ps self = refl

fill-NearestLast :
    (fuel : ℕ) (key : KeyId) (self after : Lookup)
    → NearestLast key self.providers
    → fill fuel key self ≡ some after
    → NearestLast key after.providers
fill-NearestLast zero key self after h e =
    let same : self ≡ after = cc (fill_nothing key self, e) in rw (← same) h
fill-NearestLast (suc fuel) key self after h e =
    elim (Bool-cases
      (ltb (length self.concurrent_lookups) kademlia_alpha && not self.should_complete)) [
        | inr stop ↦
            let same : self ≡ after = cc (fill_stops fuel key self stop, e) in rw (← same) h
        | inl go ↦ elim (Option-cases (pop self.providers)) [
          | inl nobody ↦ let (same, _) = fill_idle fuel key self after go nobody e in rw (← same) h
          | inr ((p, ps), next) ↦
              let (_, rest) = pop-NearestLast key self.providers h next in
              fill-NearestLast fuel key (ask key p ps self) after
                (rw (ask-providers key p ps self) rest)
                (sym (fill_asks fuel key self p ps go next) ∙ e)
        ]
      ]

module _ {E : Type 0} where
  on_result-Nearest :
      (key : KeyId) (r : Result E DhtLookupResult) (self : Lookup)
      → NearestLast key self.providers
      → Nearest key (on_result key r self)
  unfolding on_result
  on_result-Nearest key (ok (found values)) self h = tt
  on_result-Nearest key (ok (not_found peers)) self h = absorb-NearestLast key peers self
  on_result-Nearest key (err e) self h = h

  await-Nearest :
      (key : KeyId) (e : Event E) (aq ps cs : List (PeerId × String)) (sc : Bool)
      → NearestLast key ps
      → Nearest key (
          await key e (record {
            already_queried = aq;
            providers = ps;
            concurrent_lookups = cs;
            should_complete = sc;
          }))
  unfolding await
  await-Nearest key (i, r) aq ps [] true h = tt
  await-Nearest key (i, r) aq ps [] false h = tt
  await-Nearest key (i, r) aq ps (c ∷ cs) sc h =
      on_result-Nearest key r
        (record {
          already_queried = aq;
          providers = ps;
          concurrent_lookups = erase_idx (c ∷ cs) (i % length (c ∷ cs));
          should_complete = sc;
        })
        h

  round-Nearest :
      (key : KeyId) (e : Event E) (self : Lookup)
      → NearestLast key self.providers
      → Nearest key (round key e self)
  round-Nearest key e self h = elim (Option-cases (fill kademlia_alpha key self)) [
    | inl nothing ↦ rw (round-none key e self nothing) tt
    | inr (after, filled) ↦ rw (round-some key e self after filled) (
        await-Nearest key e after.already_queried after.providers after.concurrent_lookups
          after.should_complete (fill-NearestLast kademlia_alpha key self after h filled))
  ]

  run-Nearest :
      (key : KeyId) (events : List (Event E)) (p : Progress)
      → Nearest key p
      → Nearest key (run key events p)
  unfolding run
  run-Nearest key [] p h = h
  run-Nearest key (e ∷ events) (searching self) h =
      run-Nearest key events (round key e self) (round-Nearest key e self h)
  run-Nearest key (e ∷ events) (returned v) h = tt
  run-Nearest key (e ∷ events) panicked h = tt

  -- Whatever was answered so far, the provider that the search would ask next is no farther from
  -- the key than any other that is left to ask.
  pub dht_lookup-NoFarther :
      (key : KeyId) (peers_with_addrs : List (PeerId × String)) (events : List (Event E))
      (self : Lookup) (p : PeerId × String) (rest : List (PeerId × String))
      → dht_lookup key peers_with_addrs events ≡ searching self
      → pop self.providers ≡ some (p, rest)
      → All (NoFarther key p) rest
  unfolding dht_lookup start
  dht_lookup-NoFarther key peers_with_addrs events self p rest e next =
      let sorted = sort_by_distance key peers_with_addrs in
      let first = sorted-NearestLast key sorted (sort-IsAscending key peers_with_addrs) in
      let all = run-Nearest key events (searching (start key peers_with_addrs)) first in
      (pop-NearestLast key self.providers (subst (Nearest key) e all) next).0
