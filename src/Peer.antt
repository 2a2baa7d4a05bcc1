-- ===== src/Peer.antt =====
-- src/peers.rs: peer identifiers, their XOR distance, their order and the Kademlia buckets.
-- A byte is a number below 256; the loops over `0..32` walk the two arrays together.
pub mod Distance
pub mod Order
pub mod Bucket
pub mod Generate
pub mod Closeness
pub mod Text
use Prim.Native.Nat.{compare, Ordering}
use Prim.Native.Nat.Ordering.{lt, eq, gt}
use tewta.Base.{
  ℕ, zero, suc, ◌+◌, ◌*◌, ◌/◌, ◌%◌, ◌<◌, bit_and, bit_xor, ◌≡◌, refl, Bool, true, false, Option,
  none, some, List, [], ◌∷◌, ◌++◌, map, ltb, ◌==◌, if◌then◌else◌, length, All, take, drop,
  get_elem?, ◌&&◌,
}

-- `struct PeerID`: the boxed array of 32 bytes.
pub record PeerId : Type 0 where
  pub bytes : List ℕ

abbrev pub KeyId : Type 0
KeyId = PeerId

abbrev pub IsByte : ℕ → Type 0
IsByte b = b < 256

-- The array's type `[u8; 32]`.
pub record IsBytes32 (bytes : List ℕ) : Type 0 where
  pub sized : length bytes ≡ 32
  pub in_range : All IsByte bytes

abbrev pub IsPeerId : PeerId → Type 0
IsPeerId p = IsBytes32 p.bytes

-- The loop of `distance`.
unfoldable pub xor_bytes : List ℕ → List ℕ → List ℕ
xor_bytes (a ∷ xs) (b ∷ ys) = bit_xor a b ∷ xor_bytes xs ys
xor_bytes _ _ = []

unfoldable pub distance : PeerId → PeerId → List ℕ
unfolding xor_bytes
distance self other = xor_bytes self.bytes other.bytes

-- The loop of `matches`: the mask may be shorter than the arrays. An index past the arrays, which
-- panics, is the last clause; the callers refuse masks of more than 32 bytes first.
unfoldable pub masked_eq : List ℕ → List ℕ → List ℕ → Bool
masked_eq _ _ [] = true
masked_eq (a ∷ xs) (b ∷ ys) (m ∷ mask) =
    if bit_and a m == bit_and b m then masked_eq xs ys mask else false
masked_eq _ _ _ = false

unfoldable pub matches : PeerId → PeerId → List ℕ → Bool
unfolding masked_eq
matches self other mask = masked_eq self.bytes other.bytes mask

-- One `match distance & unit * 3`, where the two bits are worth `unit` and `unit * 2`. A fourth
-- value is `unit * 3`; the source's last arm, for any other, is `unreachable!()`.
unfoldable pub two_bits : ℕ → ℕ → Option ℕ
two_bits distance unit =
    let bits = bit_and distance (unit * 3) in
    if bits == 0
    then none
    else if bits == unit
    then some 0
    else if bits == unit * 2
    then some 1
    else some 2

-- The four matches of one round: the level within the byte, and the bucket.
unfoldable pub byte_bucket : ℕ → Option (ℕ × ℕ)
unfolding two_bits
byte_bucket distance = elim (two_bits distance 0b01000000) [
  | some id ↦ some (0, id)
  | none ↦ elim (two_bits distance 0b00010000) [
    | some id ↦ some (1, id)
    | none ↦ elim (two_bits distance 0b00000100) [
      | some id ↦ some (2, id)
      | none ↦ elim (two_bits distance 0b00000001) [ some id ↦ some (3, id) | none ↦ none ]
    ]
  ]
]

-- The loop of `bucket` from index `i` on.
unfoldable pub bucket_from : ℕ → List ℕ → List ℕ → Option (ℕ × ℕ)
bucket_from i (a ∷ xs) (b ∷ ys) =
    let distance = bit_xor a b in
    let rest = bucket_from (i + 1) xs ys in
    if distance == 0
    then rest
    else elim (byte_bucket distance) [ some (level, id) ↦ some (4 * i + level, id) | none ↦ rest ]
bucket_from _ _ _ = none

unfoldable pub bucket : PeerId → PeerId → Option (ℕ × ℕ)
unfolding bucket_from
bucket self other = bucket_from 0 self.bytes other.bytes

-- The constants that `generate_in_bucket` flips in byte `level / 4`.
unfoldable pub bucket_bits : ℕ → ℕ → ℕ
bucket_bits zero zero = 0b01000000
bucket_bits zero (suc zero) = 0b10000000
bucket_bits zero _ = 0b11000000
bucket_bits (suc zero) zero = 0b00010000
bucket_bits (suc zero) (suc zero) = 0b00100000
bucket_bits (suc zero) _ = 0b00110000
bucket_bits (suc (suc zero)) zero = 0b00000100
bucket_bits (suc (suc zero)) (suc zero) = 0b00001000
bucket_bits (suc (suc zero)) _ = 0b00001100
bucket_bits _ zero = 0b00000001
bucket_bits _ (suc zero) = 0b00000010
bucket_bits _ _ = 0b00000011

-- The three copies: the bytes before `i`, byte `i` with `bits` flipped, and the bytes after `i`.
unfoldable pub flip_byte : List ℕ → ℕ → ℕ → List ℕ
flip_byte bytes i bits = elim (get_elem? bytes i) [
  | none ↦ bytes
  | some b ↦ take i bytes ++ bit_xor b bits ∷ drop (suc i) bytes
]

-- `none` is a failed assertion.
unfoldable pub generate_in_bucket : PeerId → ℕ → ℕ → Option PeerId
unfolding flip_byte bucket_bits
generate_in_bucket self bucket_level bucket_id =
    if ltb bucket_level 128 && ltb bucket_id 3
    then some (record {
      bytes = flip_byte self.bytes (bucket_level / 4) (bucket_bits (bucket_level % 4) bucket_id);
    })
    else none

-- `Ord for [u8; 32]`: the first two bytes that differ decide.
unfoldable pub cmp_bytes : List ℕ → List ℕ → Ordering
cmp_bytes [] [] = eq
cmp_bytes [] (b ∷ ys) = lt
cmp_bytes (a ∷ xs) [] = gt
cmp_bytes (a ∷ xs) (b ∷ ys) = elim (compare a b) [ lt ↦ lt | gt ↦ gt | eq ↦ cmp_bytes xs ys ]

unfoldable pub cmp : PeerId → PeerId → Ordering
unfolding cmp_bytes
cmp self other = cmp_bytes self.bytes other.bytes

-- The derived `==`.
unfoldable pub eq_bytes : List ℕ → List ℕ → Bool
eq_bytes [] [] = true
eq_bytes (a ∷ xs) (b ∷ ys) = if a == b then eq_bytes xs ys else false
eq_bytes _ _ = false

unfoldable pub eq_peer : PeerId → PeerId → Bool
unfolding eq_bytes
eq_peer self other = eq_bytes self.bytes other.bytes
