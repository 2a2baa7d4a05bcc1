-- ===== src/Segmented/Hash.antt =====
-- The hashes of src/segmented_array.rs, and arrays with hidden parts.
use mathlib.Core.List.{Sublist, nil-sublist}
use mathlib.Core.List.Sublist
use tewta.Base.{
  ℕ, zero, suc, ◌≤◌, ◌<◌, ◌≡◌, refl, ap, sym, ◌∙◌, none, some, List, [], ◌++◌, arith, subst,
}
use tewta.Segmented.{
  Segment, Segments, segmented_array, unknown, nil, cons, length, get_elem?, set, items,
  items_of_segment, hash_of_segment, segment_hashes, hash, remove_segment,
}

module _ {ℓ} {T : Type ℓ} (item_hash : T → List ℕ) (sha256 : List ℕ → List ℕ) where
  -- The second tree is the first with some of its parts, at any depth, replaced by their hashes.
  mutual
    pub data Hidden : Segment T → Segment T → Type ℓ where
      whole : (s : Segment T) → Hidden s s
      hidden : (s : Segment T) → Hidden s (unknown (hash_of_segment item_hash sha256 s))
      inside : {a b : Segments T} → AllHidden a b → Hidden (segmented_array a) (segmented_array b)

    pub data AllHidden : Segments T → Segments T → Type ℓ where
      end : AllHidden nil nil
      both :
          {s t : Segment T} {a b : Segments T}
          → Hidden s t
          → AllHidden a b
          → AllHidden (cons s a) (cons t b)

  mutual
    unfolding hash_of_segment

    Hidden-hash :
        {s t : Segment T}
        → Hidden s t
        → hash_of_segment item_hash sha256 s ≡ hash_of_segment item_hash sha256 t
    Hidden-hash (whole s) = refl
    Hidden-hash (hidden s) = refl
    Hidden-hash (inside h) = ap sha256 (AllHidden-hashes h)

    AllHidden-hashes :
        {a b : Segments T}
        → AllHidden a b
        → segment_hashes item_hash sha256 a ≡ segment_hashes item_hash sha256 b
    AllHidden-hashes end = refl
    AllHidden-hashes (both {s = s} {t = t} {a = a} {b = b} h hs) =
        ap (λ l. l ++ segment_hashes item_hash sha256 a) (Hidden-hash h)
        ∙ ap (λ l. hash_of_segment item_hash sha256 t ++ l) (AllHidden-hashes hs)

  AllHidden-refl : (a : Segments T) → AllHidden a a
  AllHidden-refl nil = end
  AllHidden-refl (cons s a) = both (whole s) (AllHidden-refl a)

  -- Hiding parts, at any depth and in any number, leaves the hash of the root as it was.
  pub hash-AllHidden :
      {a b : Segments T} → AllHidden a b → hash item_hash sha256 a ≡ hash item_hash sha256 b
  unfolding hash
  hash-AllHidden h = ap sha256 (AllHidden-hashes h)

  set-AllHidden :
      (a : Segments T) (i : ℕ) {s : Segment T}
      → get_elem? a i ≡ some s
      → AllHidden a (set a i (unknown (hash_of_segment item_hash sha256 s)))
  set-AllHidden nil i e = cc
  set-AllHidden (cons t a) zero e =
      subst (λ s. AllHidden (cons t a) (cons (unknown (hash_of_segment item_hash sha256 s)) a))
        (cc e) (both (hidden t) (AllHidden-refl a))
  set-AllHidden (cons t a) (suc i) e = both (whole t) (set-AllHidden a i e)

  get_elem?-lt :
      (a : Segments T) (i : ℕ) → i < length a → (s : Segment T) × (get_elem? a i ≡ some s)
  get_elem?-lt nil i h = absurd (omega arith)
  get_elem?-lt (cons s a) zero h = (s, refl)
  get_elem?-lt (cons s a) (suc i) h = get_elem?-lt a i (omega arith)

  get_elem?-ge : (a : Segments T) (i : ℕ) → length a ≤ i → get_elem? a i ≡ none
  get_elem?-ge nil i h = refl
  get_elem?-ge (cons s a) zero h = absurd (omega arith)
  get_elem?-ge (cons s a) (suc i) h = get_elem?-ge a i (omega arith)

  -- `remove_segment` answers at every index in bounds; the new array has the same hash, and
  -- differs only by hidden parts.
  pub hash-remove_segment :
      (a : Segments T) (i : ℕ)
      → i < length a
      → (b : Segments T) × (remove_segment item_hash sha256 a i ≡ some b)
        × (hash item_hash sha256 b ≡ hash item_hash sha256 a)
        × AllHidden a b
  unfolding remove_segment
  hash-remove_segment a i h =
      let (s, at) = get_elem?-lt a i h in
      let part = set-AllHidden a i at in
      (
        set a i (unknown (hash_of_segment item_hash sha256 s)),
        rw (at, remove_segment),
        sym (hash-AllHidden part),
        part,
      )

  remove_segment-ge :
      (a : Segments T) (i : ℕ) → length a ≤ i → remove_segment item_hash sha256 a i ≡ none
  unfolding remove_segment
  remove_segment-ge a i h = rw (get_elem?-ge a i h, remove_segment)

  mutual
    unfolding items

    Hidden-items :
        {s t : Segment T} → Hidden s t → Sublist (items_of_segment t) (items_of_segment s)
    Hidden-items (whole s) = Sublist.refl (items_of_segment s)
    Hidden-items (hidden s) = nil-sublist (items_of_segment s)
    Hidden-items (inside h) = AllHidden-items h

    AllHidden-items : {a b : Segments T} → AllHidden a b → Sublist (items b) (items a)
    AllHidden-items end = Sublist.refl []
    AllHidden-items (both h hs) = Sublist.append (Hidden-items h) (AllHidden-items hs)

  -- Hiding parts removes items and keeps the others in their order.
  pub items-AllHidden : {a b : Segments T} → AllHidden a b → Sublist (items b) (items a)
  items-AllHidden h = AllHidden-items h
