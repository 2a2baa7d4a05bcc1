-- ===== src/Tests/Trees.antt =====
-- Segmented arrays.
use tewta.Base.{ℕ, ◌≡◌, ◌≤◌, refl, arith, some, List, [], ◌∷◌, replicate}
use tewta.Segmented.{
  Segments, item, segmented_array, unknown, nil, cons, length, items, from_vec, hash,
  hash_of_segment, remove_segment,
}
use tewta.Segmented.Build.{AllBounded, from_vec_total}
use tewta.Segmented.Hash.{Hidden, AllHidden, whole, hidden, inside, end, both, hash-remove_segment}
use tewta.Tests.Samples.{digest}

abbrev item_hash : ℕ → List ℕ
item_hash n = replicate 32 n

abbrev leaf : Segments ℕ
leaf = cons (item 2) (cons (item 3) nil)

abbrev tree : Segments ℕ
tree = cons (item 1) (cons (segmented_array leaf) nil)

-- The same with an item of the inner array hidden.
abbrev pruned : Segments ℕ
pruned =
    cons (item 1) (cons (segmented_array (cons (unknown (replicate 32 2)) (cons (item 3) nil))) nil)

pruned-AllHidden : AllHidden item_hash digest tree pruned
unfolding hash_of_segment
pruned-AllHidden =
    both (whole (item 1)) (both (inside (both hidden_2 (both (whole (item 3)) end))) end)
  where
    hidden_2 : Hidden item_hash digest (item 2) (unknown (replicate 32 2))
    hidden_2 = hidden (item 2)

abbrev numbers : List ℕ
numbers = 1 ∷ 2 ∷ 3 ∷ []

built :
    from_vec 2 numbers
    ≡ some (
        cons
          (segmented_array (cons (item 1) (cons (item 2) nil)))
          (cons (segmented_array (cons (item 3) nil)) nil))
unfolding from_vec
built = refl

from_vec_total_example :
    (array : Segments ℕ) × (from_vec 2 numbers ≡ some array)
    × (items array ≡ numbers)
    × (length array ≤ 2)
    × AllBounded 2 array
from_vec_total_example = from_vec_total 2 numbers (omega arith)

hash-remove_segment_example :
    (b : Segments ℕ) × (remove_segment item_hash digest tree 1 ≡ some b)
    × (hash item_hash digest b ≡ hash item_hash digest tree)
    × AllHidden item_hash digest tree b
hash-remove_segment_example = hash-remove_segment item_hash digest tree 1 (omega arith)
