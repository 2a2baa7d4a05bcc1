-- ===== src/Segmented/Build.antt =====
-- The conversions of src/segmented_array.rs between vectors and segmented arrays.
use tewta.Base.{
  ℕ, zero, suc, ◌+◌, ◌-◌, ◌/◌, ◌≤◌, ◌<◌, ◌≡◌, refl, ap, sym, ◌∙◌, none, some, List, [], ◌∷◌, ◌++◌,
  arith, append_assoc, append-nil, leb, Bool-cases, ◌⊎◌, inl, inr, leb→le, length as list_length,
}
use tewta.Segmented.{
  Segment, Segments, item, segmented_array, unknown, nil, cons, length, push, items,
  items_of_segment, wrap_items, fill, group, regroup, from_vec,
}

module _ {ℓ} {T : Type ℓ} where
  length-push : (a : Segments T) (s : Segment T) → length (push a s) ≡ length a + 1
  length-push nil s = refl
  length-push (cons t a) s = omega (arith, length-push a s)

  items-push : (a : Segments T) (s : Segment T) → items (push a s) ≡ items a ++ items_of_segment s
  unfolding items
  items-push nil s = append-nil (items_of_segment s)
  items-push (cons t a) s = simp (items-push a s, append_assoc)

  items-wrap_items : (ts : List T) (a : Segments T) → items (wrap_items ts a) ≡ items a ++ ts
  unfolding wrap_items items
  items-wrap_items [] a = sym (append-nil (items a))
  items-wrap_items (t ∷ ts) a =
      items-wrap_items ts (push a (item t))
      ∙ ap (λ l. l ++ ts) (items-push a (item t))
      ∙ append_assoc (items a) (t ∷ []) ts

  length-wrap_items :
      (ts : List T) (a : Segments T) → length (wrap_items ts a) ≡ length a + list_length ts
  unfolding wrap_items
  length-wrap_items [] a = omega arith
  length-wrap_items (t ∷ ts) a =
      omega (arith, length-wrap_items ts (push a (item t)), length-push a (item t))

-- A node is a tree of arrays of one to `n` segments.
abbrev mutual
  pub IsBounded {ℓ} : {T : Type ℓ} → ℕ → Segment T → Type 0
  IsBounded n (item t) = Unit {0}
  IsBounded n (segmented_array a) = (1 ≤ length a) × (length a ≤ n) × AllBounded n a
  IsBounded n (unknown hash) = Unit {0}

  pub AllBounded {ℓ} : {T : Type ℓ} → ℕ → Segments T → Type 0
  AllBounded n nil = Unit {0}
  AllBounded n (cons s a) = IsBounded n s × AllBounded n a

module _ {ℓ} {T : Type ℓ} where
  push-AllBounded :
      (n : ℕ) (a : Segments T) (s : Segment T)
      → AllBounded n a
      → IsBounded n s
      → AllBounded n (push a s)
  push-AllBounded n nil s h b = (b, tt)
  push-AllBounded n (cons t a) s (ht, h) b = (ht, push-AllBounded n a s h b)

  wrap_items-AllBounded :
      (n : ℕ) (ts : List T) (a : Segments T) → AllBounded n a → AllBounded n (wrap_items ts a)
  unfolding wrap_items
  wrap_items-AllBounded n [] a h = h
  wrap_items-AllBounded n (t ∷ ts) a h =
      wrap_items-AllBounded n ts (push a (item t)) (push-AllBounded n a (item t) h tt)

  -- What `fill` moves: up to `k` segments, and all of them if fewer are left.
  record Filled (n k : ℕ) (a iter a' rest : Segments T) : Type ℓ where
    same : items a' ++ items rest ≡ items a ++ items iter
    moved : length a' + length rest ≡ length a + length iter
    at_most : length a' ≤ length a + k
    all_or_full : (length rest ≡ 0) ⊎ (length a' ≡ length a + k)
    bounded : AllBounded n a'
    rest_bounded : AllBounded n rest

  fill-Filled :
      (n k : ℕ) (a iter : Segments T)
      → AllBounded n a
      → AllBounded n iter
      → Filled n k a iter (fill k a iter).0 (fill k a iter).1
  unfolding fill items
  fill-Filled n zero a iter h g = record {
    same = refl;
    moved = refl;
    at_most = omega arith;
    all_or_full = inr (omega arith);
    bounded = h;
    rest_bounded = g;
  }
  fill-Filled n (suc k) a nil h g = record {
    same = refl;
    moved = refl;
    at_most = omega arith;
    all_or_full = inl refl;
    bounded = h;
    rest_bounded = tt;
  }
  fill-Filled n (suc k) a (cons s iter) h (gs, g) =
      let ih = fill-Filled n k (push a s) iter (push-AllBounded n a s h gs) g in
      record {
        same =
            ih.same
            ∙ ap (λ l. l ++ items iter) (items-push a s)
            ∙ append_assoc (items a) (items_of_segment s) (items iter);
        moved = omega (arith, ih.moved, length-push a s);
        at_most = omega (arith, ih.at_most, length-push a s);
        all_or_full = ground (arith, ih.all_or_full, length-push a s);
        bounded = ih.bounded;
        rest_bounded = ih.rest_bounded;
      }

  -- What `group` makes of an iterator: the same items, and about half as many segments at most.
  record Grouped (n : ℕ) (new_segments iter result : Segments T) : Type ℓ where
    same : items result ≡ items new_segments ++ items iter
    fewer : length result ≤ length new_segments + (length iter + 1) / 2
    bounded : AllBounded n result

  group-Grouped :
      (n fuel : ℕ) (new_segments iter : Segments T)
      → 2 ≤ n
      → length iter ≤ fuel
      → AllBounded n new_segments
      → AllBounded n iter
      → (result : Segments T) × (group n fuel new_segments iter ≡ some result)
        × Grouped n new_segments iter result
  unfolding group items
  group-Grouped n zero new_segments nil two enough h g = (
    new_segments,
    refl,
    record { same = sym (append-nil (items new_segments)); fewer = omega arith; bounded = h },
  )
  group-Grouped n (suc fuel) new_segments nil two enough h g = (
    new_segments,
    refl,
    record { same = sym (append-nil (items new_segments)); fewer = omega arith; bounded = h },
  )
  group-Grouped n zero new_segments (cons s iter) two enough h g = absurd (omega arith)
  group-Grouped n (suc fuel) new_segments (cons s iter) two enough h (gs, g) =
      let array = (fill (n - 1) (cons s nil) iter).0 in
      let rest = (fill (n - 1) (cons s nil) iter).1 in
      let filled = fill-Filled n (n - 1) (cons s nil) iter (gs, tt) g in
      let node : IsBounded n (segmented_array array) = (
        omega (arith, filled.moved, filled.all_or_full),
        omega (arith, filled.at_most),
        filled.bounded,
      ) in
      let (result, run, grouped) =
        group-Grouped n fuel (push new_segments (segmented_array array)) rest two
          (omega (arith, filled.moved))
          (push-AllBounded n new_segments (segmented_array array) h node) filled.rest_bounded in
      (
        result,
        run,
        record {
          same =
              grouped.same
              ∙ ap (λ l. l ++ items rest) (items-push new_segments (segmented_array array))
              ∙ append_assoc (items new_segments) (items array) (items rest)
              ∙ ap (λ l. items new_segments ++ l)
                  (filled.same ∙ ap (λ l. l ++ items iter) (append-nil (items_of_segment s)));
          fewer = omega (
            arith,
            grouped.fewer,
            length-push new_segments (segmented_array array),
            filled.moved,
            filled.all_or_full,
          );
          bounded = grouped.bounded;
        },
      )

  regroup_total :
      (n fuel : ℕ) (segments : Segments T)
      → 2 ≤ n
      → length segments < fuel
      → AllBounded n segments
      → (result : Segments T) × (regroup n fuel segments ≡ some result)
        × (items result ≡ items segments)
        × (length result ≤ n)
        × AllBounded n result
  unfolding regroup items
  regroup_total n zero segments two enough h = absurd (omega arith)
  regroup_total n (suc fuel) segments two enough h = elim (Bool-cases (leb (length segments) n)) [
    | inl fits ↦ (segments, rw fits, refl, leb→le (length segments) n fits, h)
    | inr more ↦
        let (new_segments, run, grouped) =
          group-Grouped n (length segments) nil segments two (omega arith) tt h in
        let (result, run', same, fits, bounded) =
          regroup_total n fuel new_segments two (ground (arith, grouped.fewer)) grouped.bounded in
        (result, rw (more, run, run'), same ∙ grouped.same, fits, bounded)
  ]

-- For every fan-out of 2 or more the conversion ends. It keeps the items in order, and every array
-- in the result has at most `n` segments, those below the root at least one.
pub from_vec_total {ℓ} :
    {T : Type ℓ} (n : ℕ) (ts : List T)
    → 2 ≤ n
    → (array : Segments T) × (from_vec n ts ≡ some array)
      × (items array ≡ ts)
      × (length array ≤ n)
      × AllBounded n array
unfolding from_vec items
from_vec_total n ts two =
    let (array, run, same, fits, bounded) =
      regroup_total n (length (wrap_items ts nil) + 1) (wrap_items ts nil) two (omega arith)
        (wrap_items-AllBounded n ts nil tt) in
    (array, run, same ∙ items-wrap_items ts nil, fits, bounded)

module _ {ℓ} {T : Type ℓ} where
  -- With a fan-out of 1 a round of grouping wraps every segment by itself.
  group_one :
      (fuel : ℕ) (new_segments iter : Segments T)
      → length iter ≤ fuel
      → (result : Segments T) × (group 1 fuel new_segments iter ≡ some result)
        × (length result ≡ length new_segments + length iter)
  unfolding group
  group_one zero new_segments nil enough = (new_segments, refl, omega arith)
  group_one (suc fuel) new_segments nil enough = (new_segments, refl, omega arith)
  group_one zero new_segments (cons s iter) enough = absurd (omega arith)
  group_one (suc fuel) new_segments (cons s iter) enough =
      let node = segmented_array (cons s nil) in
      let (result, run, count) = group_one fuel (push new_segments node) iter (omega arith) in
      (result, run, omega (arith, count, length-push new_segments node))

  -- With a fan-out of 1 the loop never ends: no number of rounds groups two segments or more into
  -- an array.
  pub regroup_diverges :
      (fuel : ℕ) (segments : Segments T) → 2 ≤ length segments → regroup 1 fuel segments ≡ none
  unfolding regroup
  regroup_diverges zero segments two = refl
  regroup_diverges (suc fuel) segments two =
      let (result, run, count) = group_one (length segments) nil segments (omega arith) in
      ground (arith, run, regroup_diverges fuel result (omega (arith, count)))
