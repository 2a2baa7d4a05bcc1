-- ===== src/Peer/Bucket.antt =====
-- `bucket` of src/peers.rs.
use tewta.Base.{
  ℕ, ◌+◌, ◌-◌, ◌*◌, ◌<◌, ◌≤◌, ◌≡◌, refl, sym, ◌∙◌, List, [], ◌∷◌, All, length, bit_xor, bit_and,
  arith, ◌↔◌, ◌≢◌, Option, none, some, Bool, true, false, ◌&&◌, ◌||◌, ◌==◌, all_below,
  at_of_all_below, Option-cases, inl, inr, not,
}
use tewta.Base.Bits.{bit_xor_comm, bit_xor_self, eq_of_bit_xor, bit_xor-lt}
use tewta.Peer.Order.{eq_of_bytes}
use tewta.Peer.{PeerId, IsPeerId, IsByte, byte_bucket, bucket_from, bucket}

-- A test of an optional pair, to check equations by evaluation.
abbrev pub is_pair : ℕ → ℕ → Option (ℕ × ℕ) → Bool
is_pair a b none = false
is_pair a b (some (x, y)) = x == a && y == b

pub is_pair_sound : (a b : ℕ) (o : Option (ℕ × ℕ)) → is_pair a b o ≡ true → o ≡ some (a, b)
is_pair_sound a b none h = cc
is_pair_sound a b (some (x, y)) h = ground arith

pub is_pair_complete : (a b : ℕ) (o : Option (ℕ × ℕ)) → o ≡ some (a, b) → is_pair a b o ≡ true
is_pair_complete a b none h = cc
is_pair_complete a b (some (x, y)) h = ground arith

-- The four values that the source lists are all that `distance & mask` takes.
abbrev listed : ℕ → ℕ → Bool
listed unit d =
    let bits = bit_and d (unit * 3) in
    bits == 0 || bits == unit || bits == unit * 2 || bits == unit * 3

two_bits_table :
    (all_below 256 (listed 0b01000000) ≡ true)
    × (all_below 256 (listed 0b00010000) ≡ true)
    × (all_below 256 (listed 0b00000100) ≡ true)
    × (all_below 256 (listed 0b00000001) ≡ true)
unfolding all_below
two_bits_table = (refl, refl, refl, refl)

-- No byte reaches an arm `unreachable!()`.
pub two_bits_exhaustive :
    (d : ℕ)
    → IsByte d
    → (listed 0b01000000 d ≡ true)
      × (listed 0b00010000 d ≡ true)
      × (listed 0b00000100 d ≡ true)
      × (listed 0b00000001 d ≡ true)
two_bits_exhaustive d h = (
  at_of_all_below 256 (listed 0b01000000) d two_bits_table.0 h,
  at_of_all_below 256 (listed 0b00010000) d two_bits_table.1 h,
  at_of_all_below 256 (listed 0b00000100) d two_bits_table.2 h,
  at_of_all_below 256 (listed 0b00000001) d two_bits_table.3 h,
)

-- A byte has a level below 4 and a bucket below 3, unless it is zero.
abbrev in_bounds : ℕ → Option (ℕ × ℕ) → Bool
in_bounds d none = d == 0
in_bounds d (some (level, id)) = not (d == 0) && 3 == level + (3 - level) && 2 == id + (2 - id)

byte_bucket_table : all_below 256 (λ d. in_bounds d (byte_bucket d)) ≡ true
unfolding all_below byte_bucket
byte_bucket_table = refl

-- What one round of the loop can answer for a byte.
abbrev ByteBucket : ℕ → Option (ℕ × ℕ) → Type 0
ByteBucket d none = d ≡ 0
ByteBucket d (some (level, id)) = (d ≢ 0) × (level < 4) × (id < 3)

in_bounds_sound : (d : ℕ) (o : Option (ℕ × ℕ)) → in_bounds d o ≡ true → ByteBucket d o
in_bounds_sound d none h = ground arith
in_bounds_sound d (some (level, id)) h = ground arith

pub byte_bucket_cases : (d : ℕ) → IsByte d → ByteBucket d (byte_bucket d)
byte_bucket_cases d h =
    in_bounds_sound d (byte_bucket d)
      (at_of_all_below 256 (λ d. in_bounds d (byte_bucket d)) d byte_bucket_table h)

pub byte_bucket-none : (d : ℕ) → IsByte d → byte_bucket d ≡ none → d ≡ 0
byte_bucket-none d h e = rw e at (byte_bucket_cases d h)

pub byte_bucket-some :
    (d level id : ℕ)
    → IsByte d
    → byte_bucket d ≡ some (level, id)
    → (d ≢ 0) × (level < 4) × (id < 3)
byte_bucket-some d level id h e = rw e at (byte_bucket_cases d h)

-- An answer names a level among those of the bytes left, and one of the 3 buckets.
pub bucket_from_bounds :
    (i level id : ℕ) (xs ys : List ℕ)
    → All IsByte xs
    → All IsByte ys
    → bucket_from i xs ys ≡ some (level, id)
    → (4 * i ≤ level) × (level < 4 * (i + length xs)) × (id < 3)
unfolding bucket_from
bucket_from_bounds i level id [] ys p q e = cc
bucket_from_bounds i level id (x ∷ xs) [] p q e = cc
bucket_from_bounds i level id (x ∷ xs) (y ∷ ys) (px, ps) (py, qs) e =
    elim (Option-cases (byte_bucket (bit_xor x y))) [
      | inl empty ↦ ground (arith, empty, bucket_from_bounds (i + 1) level id xs ys ps qs)
      | inr ((l, k), full) ↦ ground (
        arith,
        full,
        byte_bucket-some (bit_xor x y) l k (bit_xor-lt 8 x y px py) full,
        bucket_from_bounds (i + 1) level id xs ys ps qs,
      )
    ]

-- A bucket is one of 128 levels and 3 buckets in each.
pub bucket_bounds :
    (p q : PeerId) (level id : ℕ)
    → IsPeerId p
    → IsPeerId q
    → bucket p q ≡ some (level, id)
    → (level < 128) × (id < 3)
unfolding bucket
bucket_bounds p q level id hp hq e =
    let b = bucket_from_bounds 0 level id p.bytes q.bytes hp.in_range hq.in_range e in
    (omega (arith, b.1, hp.sized), b.2)

bucket_from_comm : (i : ℕ) (xs ys : List ℕ) → bucket_from i xs ys ≡ bucket_from i ys xs
unfolding bucket_from
bucket_from_comm i [] [] = refl
bucket_from_comm i [] (y ∷ ys) = refl
bucket_from_comm i (x ∷ xs) [] = refl
bucket_from_comm i (x ∷ xs) (y ∷ ys) =
    ground (arith, bit_xor_comm x y, bucket_from_comm (i + 1) xs ys)

-- Two identifiers are in the same bucket of one another.
pub bucket_comm : (p q : PeerId) → bucket p q ≡ bucket q p
unfolding bucket
bucket_comm p q = bucket_from_comm 0 p.bytes q.bytes

bucket_from_self : (i : ℕ) (xs : List ℕ) → bucket_from i xs xs ≡ none
unfolding bucket_from
bucket_from_self i [] = refl
bucket_from_self i (x ∷ xs) = rw (bit_xor_self x) (bucket_from_self (i + 1) xs)

eq_of_bucket_from :
    (i : ℕ) (xs ys : List ℕ)
    → length xs ≡ length ys
    → All IsByte xs
    → All IsByte ys
    → bucket_from i xs ys ≡ none
    → xs ≡ ys
unfolding bucket_from
eq_of_bucket_from i [] [] h p q e = refl
eq_of_bucket_from i [] (y ∷ ys) h p q e = absurd (omega arith)
eq_of_bucket_from i (x ∷ xs) [] h p q e = absurd (omega arith)
eq_of_bucket_from i (x ∷ xs) (y ∷ ys) h (px, ps) (py, qs) e = ground (
  arith,
  byte_bucket-none (bit_xor x y) (bit_xor-lt 8 x y px py),
  eq_of_bit_xor x y,
  eq_of_bucket_from (i + 1) xs ys (omega arith) ps qs,
)

-- Only an identifier itself is in no bucket.
pub bucket-none_iff : (p q : PeerId) → IsPeerId p → IsPeerId q → (bucket p q ≡ none) ↔ (p ≡ q)
unfolding bucket
bucket-none_iff p q hp hq = (
  λ e.
      eq_of_bytes p q
        (eq_of_bucket_from 0 p.bytes q.bytes (hp.sized ∙ sym hq.sized) hp.in_range hq.in_range e),
  λ e. rw e (bucket_from_self 0 q.bytes),
)
