-- ===== src/Node/Connections/Buckets.antt =====
-- The buckets that `refresh_buckets` of src/node/connections.rs lets be filled.
use tewta.Base.{
  ℕ, zero, suc, ◌+◌, ◌≡◌, ◌≤◌, ◌<◌, refl, Bool, true, false, List, [], ◌∷◌, ◌++◌, length, map,
  filter, All, ltb, ◌==◌, arith, if◌then◌else◌, Bool-cases, inl, inr, ltb→lt, lt→ltb,
}
use tewta.Node.Connections.{
  ConnectionPool, peers_on_bucket, kademlia_bucket_size, refresh_ids, refresh_levels,
  refresh_buckets,
}

module _ (self : ConnectionPool) where
  abbrev count : ℕ × ℕ → ℕ
  count c = length (peers_on_bucket c.0 c.1 self)

  abbrev pub has_room : ℕ × ℕ → Bool
  has_room c = ltb (count c) kademlia_bucket_size

  -- The buckets up to the first that is empty, with that one.
  abbrev pub up_to_empty : List (ℕ × ℕ) → List (ℕ × ℕ)
  up_to_empty [] = []
  up_to_empty (c ∷ cs) = if count c == 0 then c ∷ [] else c ∷ up_to_empty cs

  abbrev any_empty : List (ℕ × ℕ) → Bool
  any_empty [] = false
  any_empty (c ∷ cs) = if count c == 0 then true else any_empty cs

  -- Three buckets on each level.
  abbrev pub buckets_from : ℕ → ℕ → List (ℕ × ℕ)
  buckets_from level zero = []
  buckets_from level (suc remaining) =
      ((level, 0) ∷ (level, 1) ∷ (level, 2) ∷ []) ++ buckets_from (suc level) remaining

  refresh_ids_lem :
      (level : ℕ) (ids : List ℕ)
      → refresh_ids self level ids ≡ (
        filter has_room (up_to_empty (map (λ i. (level, i)) ids)),
        any_empty (map (λ i. (level, i)) ids),
      )
  unfolding refresh_ids
  refresh_ids_lem level [] = refl
  refresh_ids_lem level (i ∷ ids) = ground (arith, refresh_ids_lem level ids)

  up_to_empty-append :
      (xs ys : List (ℕ × ℕ))
      → filter has_room (up_to_empty (xs ++ ys)) ≡ (
          if any_empty xs
          then filter has_room (up_to_empty xs)
          else filter has_room (up_to_empty xs) ++ filter has_room (up_to_empty ys))
  up_to_empty-append [] ys = refl
  up_to_empty-append (x ∷ xs) ys = ground (arith, up_to_empty-append xs ys)

  refresh_levels_lem :
      (level remaining : ℕ)
      → refresh_levels self level remaining
        ≡ filter has_room (up_to_empty (buckets_from level remaining))
  unfolding refresh_levels
  refresh_levels_lem level zero = refl
  refresh_levels_lem level (suc remaining) =
      let ids = refresh_ids_lem level (0 ∷ 1 ∷ 2 ∷ []) in
      let split =
        up_to_empty-append ((level, 0) ∷ (level, 1) ∷ (level, 2) ∷ [])
          (buckets_from (suc level) remaining) in
      let rest = refresh_levels_lem (suc level) remaining in rw (ids, rest, split) refl

  -- The nested loops ask for the buckets with room among those up to the first empty one, level
  -- by level and in each level in the order of the buckets.
  pub refresh_buckets_lem :
      refresh_buckets self ≡ filter has_room (up_to_empty (buckets_from 0 128))
  refresh_buckets_lem = refresh_levels_lem 0 128

  -- What `discover_peers_in_bucket` asserts of its arguments, and the room that it subtracts.
  pub record Fillable (c : ℕ × ℕ) : Type 0 where
    pub level_bound : c.0 < 128
    pub id_bound : c.1 < 3
    pub room : count c < kademlia_bucket_size

  abbrev InBounds : ℕ × ℕ → Type 0
  InBounds c = (c.0 < 128) × (c.1 < 3)

  buckets_from-InBounds :
      (level remaining : ℕ) → level + remaining ≤ 128 → All InBounds (buckets_from level remaining)
  buckets_from-InBounds level zero h = tt
  buckets_from-InBounds level (suc remaining) h =
      let low : level < 128 = omega arith in
      let rest = buckets_from-InBounds (suc level) remaining (omega arith) in
      ((low, omega arith), ((low, omega arith), ((low, omega arith), rest)))

  filter-Fillable :
      (cs : List (ℕ × ℕ)) → All InBounds cs → All Fillable (filter has_room (up_to_empty cs))
  filter-Fillable [] h = tt
  filter-Fillable (c ∷ cs) (b, h) =
      let rest = filter-Fillable cs h in
      let here : count c < kademlia_bucket_size → Fillable c =
        λ room. record { level_bound = b.0; id_bound = b.1; room = room } in
      elim (Bool-cases (count c == 0)) [
        | inl empty ↦
            rw (empty, lt→ltb (count c) kademlia_bucket_size (ground (arith, empty)))
              (here (ground (arith, empty)), tt)
        | inr more ↦ elim (Bool-cases (has_room c)) [
          | inl room ↦ rw (more, room) (here (ltb→lt (count c) kademlia_bucket_size room), rest)
          | inr full ↦ rw (more, full) rest
        ]
      ]

  -- Every discovery that is spawned passes the assertion on its bucket, and finds fewer peers in
  -- the bucket than it may hold.
  pub refresh_buckets-Fillable : All Fillable (refresh_buckets self)
  refresh_buckets-Fillable =
      rw refresh_buckets_lem
        (filter-Fillable (buckets_from 0 128) (buckets_from-InBounds 0 128 (omega arith)))
