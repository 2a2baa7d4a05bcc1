-- ===== src/Segmented.antt =====
-- src/segmented_array.rs: an array kept as a tree of bounded fan-out, whose parts can be replaced
-- by their hashes. A hash is the list of its 32 bytes. `SegmentedArray` is its one field, the
-- vector of segments; SHA-256 and the hash of an item are parameters.
pub mod Build
pub mod Hash
use tewta.Base.{
  ℕ, zero, suc, ◌+◌, ◌-◌, Option, none, some, List, [], ◌∷◌, ◌++◌, leb, and_then, if◌then◌else◌,
}

mutual
  pub data Segment {ℓ} (T : Type ℓ) : Type ℓ where
    item : T → Segment T
    segmented_array : Segments T → Segment T
    unknown : List ℕ → Segment T

  pub data Segments {ℓ} (T : Type ℓ) : Type ℓ where
    nil : Segments T
    cons : Segment T → Segments T → Segments T

module _ {ℓ} {T : Type ℓ} where
  -- `Vec::len`, `Vec::push` and indexing of a vector of segments.
  abbrev pub length : Segments T → ℕ
  length nil = 0
  length (cons s segments) = suc (length segments)

  abbrev pub push : Segments T → Segment T → Segments T
  push nil t = cons t nil
  push (cons s segments) t = cons s (push segments t)

  abbrev pub get_elem? : Segments T → ℕ → Option (Segment T)
  get_elem? nil i = none
  get_elem? (cons s segments) zero = some s
  get_elem? (cons s segments) (suc i) = get_elem? segments i

  abbrev pub set : Segments T → ℕ → Segment T → Segments T
  set nil i t = nil
  set (cons s segments) zero t = cons t segments
  set (cons s segments) (suc i) t = cons s (set segments i t)

-- The two `items`: of a segment, and of an array.
unfoldable mutual
  pub items_of_segment {ℓ} : {T : Type ℓ} → Segment T → List T
  items_of_segment (item t) = t ∷ []
  items_of_segment (segmented_array segments) = items segments
  items_of_segment (unknown hash) = []

  pub items {ℓ} : {T : Type ℓ} → Segments T → List T
  items nil = []
  items (cons s segments) = items_of_segment s ++ items segments

-- The first loop of `From<Vec<T>>`: every item as a segment.
unfoldable pub wrap_items {ℓ} : {T : Type ℓ} → List T → Segments T → Segments T
wrap_items [] segments = segments
wrap_items (t ∷ ts) segments = wrap_items ts (push segments (item t))

-- `for _ in 0..n`: move up to `n` segments from the iterator to the new array.
unfoldable pub fill {ℓ} : {T : Type ℓ} → ℕ → Segments T → Segments T → Segments T × Segments T
fill zero array rest = (array, rest)
fill (suc n) array nil = (array, nil)
fill (suc n) array (cons s rest) = fill n (push array s) rest

-- The `while let`: arrays of up to `n` segments each. The iterator's length bounds the rounds;
-- `none` means that the fuel ran out.
unfoldable pub group {ℓ} : {T : Type ℓ} → ℕ → ℕ → Segments T → Segments T → Option (Segments T)
unfolding fill
group n fuel new_segments nil = some new_segments
group n zero new_segments (cons s iter) = none
group n (suc fuel) new_segments (cons s iter) =
    let (array, rest) = fill (n - 1) (cons s nil) iter in
    group n fuel (push new_segments (segmented_array array)) rest

-- The outer `loop`: group until the segments fit.
unfoldable pub regroup {ℓ} : {T : Type ℓ} → ℕ → ℕ → Segments T → Option (Segments T)
unfolding group
regroup n zero segments = none
regroup n (suc fuel) segments =
    let rest = and_then (group n (length segments) nil segments) (regroup n fuel) in
    if leb (length segments) n then some segments else rest

-- `From<Vec<T>> for SegmentedArray<T, N>`, with one round of fuel for each item.
unfoldable pub from_vec {ℓ} : {T : Type ℓ} → ℕ → List T → Option (Segments T)
unfolding wrap_items regroup
from_vec n ts = let segments = wrap_items ts nil in regroup n (length segments + 1) segments

module _ {ℓ} {T : Type ℓ} (item_hash : T → List ℕ) (sha256 : List ℕ → List ℕ) where
  -- The two `hash`: the updates of the hasher are concatenated.
  unfoldable mutual
    pub hash_of_segment : Segment T → List ℕ
    hash_of_segment (item t) = item_hash t
    hash_of_segment (segmented_array segments) = sha256 (segment_hashes segments)
    hash_of_segment (unknown hash) = hash

    pub segment_hashes : Segments T → List ℕ
    segment_hashes nil = []
    segment_hashes (cons s segments) = hash_of_segment s ++ segment_hashes segments

  unfoldable pub hash : Segments T → List ℕ
  unfolding segment_hashes
  hash segments = sha256 (segment_hashes segments)

  -- `none` is the panic of an index out of bounds.
  unfoldable pub remove_segment : Segments T → ℕ → Option (Segments T)
  unfolding hash_of_segment
  remove_segment segments i = elim (get_elem? segments i) [
    | none ↦ none
    | some s ↦ some (set segments i (unknown (hash_of_segment s)))
  ]
