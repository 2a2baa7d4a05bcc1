-- ===== src/Peer/Closeness.antt =====
-- The buckets of src/peers.rs against the order of distances.
use Prim.Native.Nat.Ordering.{lt}
use tewta.Base.{
  ℕ, zero, suc, ◌+◌, ◌*◌, ◌<◌, ◌≤◌, ◌≡◌, ◌≢◌, refl, ap, List, [], ◌∷◌, All, bit_xor, arith, Option,
  none, some, Bool, true, ◌&&◌, ltb, leb, all_below, at_of_all_below, Option-cases, ◌⊎◌, inl, inr,
}
use tewta.Base.Bits.{bit_xor-lt}
use tewta.Peer.{
  PeerId, IsPeerId, IsByte, byte_bucket, bucket_from, bucket, cmp_bytes, xor_bytes, distance,
}
use tewta.Peer.Bucket.{byte_bucket-none, byte_bucket-some, bucket_from_bounds}

-- The value of the lower bit of a level's pair.
abbrev unit : ℕ → ℕ
unit zero = 64
unit (suc zero) = 16
unit (suc (suc zero)) = 4
unit _ = 1

abbrev sized : ℕ → Option (ℕ × ℕ) → Bool
sized d none = true
sized d (some (level, id)) = leb ((id + 1) * unit level) d && ltb d ((id + 2) * unit level)

sized_table : all_below 256 (λ d. sized d (byte_bucket d)) ≡ true
unfolding all_below byte_bucket
sized_table = refl

-- A byte in bucket `id` of a level has exactly that pair as its leading bits.
byte_bucket_size :
    (d level id : ℕ)
    → IsByte d
    → byte_bucket d ≡ some (level, id)
    → ((id + 1) * unit level ≤ d) × (d < (id + 2) * unit level)
byte_bucket_size d level id h e =
    let table = rw e at (at_of_all_below 256 (λ d. sized d (byte_bucket d)) d sized_table h) in
    ground arith

-- The first bucket is farther: it is on a lower level, or it is a later bucket of the same level.
abbrev pub Farther : ℕ × ℕ → ℕ × ℕ → Type 0
Farther (level, id) (level', id') = (level < level') ⊎ ((level ≡ level') × (id' < id))

unit_step : (a b : ℕ) → a < b → b < 4 → 4 * unit b ≤ unit a
unit_step zero zero h k = absurd (omega arith)
unit_step zero (suc zero) h k = omega arith
unit_step zero (suc (suc zero)) h k = omega arith
unit_step zero (suc (suc (suc b))) h k = omega arith
unit_step (suc zero) (suc (suc zero)) h k = omega arith
unit_step (suc zero) (suc (suc (suc b))) h k = omega arith
unit_step (suc (suc zero)) (suc (suc (suc b))) h k = omega arith
unit_step a b h k = absurd (omega arith)

byte-Farther :
    (d e a i b j : ℕ)
    → IsByte d
    → IsByte e
    → byte_bucket d ≡ some (a, i)
    → byte_bucket e ≡ some (b, j)
    → Farther (a, i) (b, j)
    → e < d
byte-Farther d e a i b j hd he p q (inl lower) = grind (
  arith,
  byte_bucket_size d a i hd p,
  byte_bucket_size e b j he q,
  byte_bucket-some e b j he q,
  unit_step a b lower,
)
byte-Farther d e a i b j hd he p q (inr (same, later)) =
    grind (arith, byte_bucket_size d a i hd p, byte_bucket_size e b j he q, ap unit same)

-- A round that does not pass on to the next byte answers within its own four levels.
answer_here :
    (k level id c y : ℕ) (s ys : List ℕ)
    → IsByte c
    → IsByte y
    → bucket_from k (c ∷ s) (y ∷ ys) ≡ some (level, id)
    → bit_xor c y ≢ 0
    → level < 4 * k + 4
unfolding bucket_from
answer_here k level id c y s ys hc hy e h =
    let he = bit_xor-lt 8 c y hc hy in
    elim (Option-cases (byte_bucket (bit_xor c y))) [
      | inl near ↦ absurd (h (byte_bucket-none (bit_xor c y) he near))
      | inr ((b, j), at) ↦ ground (arith, at, byte_bucket-some (bit_xor c y) b j he at)
    ]

-- The same for two identifiers, byte by byte.
closer_from :
    (k level id level' id' : ℕ) (s xs ys : List ℕ)
    → All IsByte s
    → All IsByte xs
    → All IsByte ys
    → bucket_from k s xs ≡ some (level, id)
    → bucket_from k s ys ≡ some (level', id')
    → Farther (level, id) (level', id')
    → cmp_bytes (xor_bytes s ys) (xor_bytes s xs) ≡ lt
unfolding bucket_from xor_bytes cmp_bytes
closer_from k level id level' id' [] xs ys hs hx hy p q f = cc
closer_from k level id level' id' (c ∷ s) [] ys hs hx hy p q f = cc
closer_from k level id level' id' (c ∷ s) (x ∷ xs) [] hs hx hy p q f = cc
closer_from k level id level' id' (c ∷ s) (x ∷ xs) (y ∷ ys) (hc, hs) (px, hx) (py, hy) p q f =
    let d = bit_xor c x in
    let e = bit_xor c y in
    let hd = bit_xor-lt 8 c x hc px in
    let he = bit_xor-lt 8 c y hc py in
    let rest = closer_from (k + 1) level id level' id' s xs ys hs hx hy in
    elim (Option-cases (byte_bucket d)) [
      | inl near ↦ ground (
        arith,
        byte_bucket-none d hd near,
        bucket_from_bounds (k + 1) level id s xs hs hx,
        answer_here k level' id' c y s ys hc py q,
        rest,
        f,
      )
      | inr ((a, i), at) ↦ elim (Option-cases (byte_bucket e)) [
        | inl near ↦ ground (arith, byte_bucket-none e he near, byte_bucket-some d a i hd at, at)
        | inr ((b, j), at') ↦ ground (
          arith,
          at,
          at',
          byte_bucket-some d a i hd at,
          byte_bucket-some e b j he at',
          byte-Farther d e a i b j hd he at at',
          f,
        )
      ]
    ]

-- A peer in a later bucket of `self` is nearer to it: one on a higher level, or on the same level
-- in a bucket of a smaller index, has the smaller XOR distance.
pub cmp-distance_of_Farther :
    (self p q : PeerId) (level id level' id' : ℕ)
    → IsPeerId self
    → IsPeerId p
    → IsPeerId q
    → bucket self p ≡ some (level, id)
    → bucket self q ≡ some (level', id')
    → Farther (level, id) (level', id')
    → cmp_bytes (distance self q) (distance self p) ≡ lt
unfolding bucket distance
cmp-distance_of_Farther self p q level id level' id' hs hp hq =
    closer_from 0 level id level' id' self.bytes p.bytes q.bytes hs.in_range hp.in_range hq.in_range
