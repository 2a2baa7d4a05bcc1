-- ===== src/Discovery/Mask.antt =====
-- The request of src/node/discovery.rs against `matches` and `bucket` of src/peers.rs.
use tewta.Base.{
  ℕ, zero, suc, ◌+◌, ◌*◌, ◌/◌, ◌%◌, ◌<◌, ◌≡◌, refl, List, [], ◌∷◌, ◌++◌, All, length, replicate,
  bit_xor, bit_and, arith, ◌↔◌, some, Bool, true, ◌&&◌, ◌==◌, if◌then◌else◌, all_below,
  at_of_all_below, Option-cases, inl, inr, not, ==_iff, subst,
}
use tewta.Base.Bits.{
  bit_xor_comm, bit_xor_self, bit_xor_cancel, eq_of_bit_xor, bit_xor-lt, bit_and-bit_xor,
}
use tewta.Peer.{
  PeerId, IsPeerId, IsByte, byte_bucket, bucket_from, bucket, bucket_bits, flip_byte,
  generate_in_bucket, masked_eq, matches,
}
use tewta.Peer.Bucket.{
  is_pair, is_pair_sound, is_pair_complete, bucket_from_bounds, byte_bucket-none, byte_bucket-some,
}
use tewta.Peer.Generate.{flip_byte-zero, flip_byte-suc, generate_in_bucket-some}
use tewta.Discovery.{last_mask, bucket_mask}

-- A byte's distance shows the constant's bits under the mask exactly if it falls into the bucket.
abbrev fits : ℕ → ℕ → ℕ → Bool
fits level id d =
    let masked = bit_and d (last_mask level) == bit_and (bucket_bits level id) (last_mask level) in
    if is_pair level id (byte_bucket d) then masked else not masked

abbrev fits_level : ℕ → Bool
fits_level level =
    all_below 256 (fits level 0) && all_below 256 (fits level 1) && all_below 256 (fits level 2)

fits_table :
    (fits_level 0 ≡ true) × (fits_level 1 ≡ true) × (fits_level 2 ≡ true) × (fits_level 3 ≡ true)
unfolding all_below bucket_bits byte_bucket last_mask
fits_table = (refl, refl, refl, refl)

fits_id : (level id d : ℕ) → fits_level level ≡ true → id < 3 → IsByte d → fits level id d ≡ true
fits_id level zero d h k b = at_of_all_below 256 (fits level 0) d (ground arith) b
fits_id level (suc zero) d h k b = at_of_all_below 256 (fits level 1) d (ground arith) b
fits_id level (suc (suc zero)) d h k b = at_of_all_below 256 (fits level 2) d (ground arith) b
fits_id level (suc (suc (suc n))) d h k b = absurd (omega arith)

fits_lem : (level id d : ℕ) → level < 4 → id < 3 → IsByte d → fits level id d ≡ true
fits_lem zero id d l k b = fits_id 0 id d fits_table.0 k b
fits_lem (suc zero) id d l k b = fits_id 1 id d fits_table.1 k b
fits_lem (suc (suc zero)) id d l k b = fits_id 2 id d fits_table.2 k b
fits_lem (suc (suc (suc zero))) id d l k b = fits_id 3 id d fits_table.3 k b
fits_lem (suc (suc (suc (suc n)))) id d l k b = absurd (omega arith)

fits-hit :
    (level id d : ℕ)
    → level < 4
    → id < 3
    → IsByte d
    → bit_and d (last_mask level) ≡ bit_and (bucket_bits level id) (last_mask level)
    → byte_bucket d ≡ some (level, id)
fits-hit level id d l k b e =
    is_pair_sound level id (byte_bucket d) (ground (arith, fits_lem level id d l k b))

fits-masked :
    (level id d : ℕ)
    → level < 4
    → id < 3
    → IsByte d
    → byte_bucket d ≡ some (level, id)
    → bit_and d (last_mask level) ≡ bit_and (bucket_bits level id) (last_mask level)
fits-masked level id d l k b e =
    ground (arith, is_pair_complete level id (byte_bucket d) e, fits_lem level id d l k b)

-- Bits agree under a mask exactly if their exclusive or has none there.
and_eq_of_xor :
    (n x c m : ℕ) → bit_and n m ≡ bit_and (bit_xor x c) m → bit_and (bit_xor n x) m ≡ bit_and c m
and_eq_of_xor n x c m e = cc (
  bit_and-bit_xor n x m,
  bit_and-bit_xor x c m,
  bit_xor_comm (bit_and n m) (bit_and x m),
  bit_xor_cancel (bit_and x m) (bit_and c m),
)

xor_eq_of_and :
    (n x c m : ℕ) → bit_and (bit_xor n x) m ≡ bit_and c m → bit_and n m ≡ bit_and (bit_xor x c) m
xor_eq_of_and n x c m e = cc (
  bit_and-bit_xor n x m,
  bit_and-bit_xor x c m,
  bit_xor_comm (bit_and n m) (bit_and x m),
  bit_xor_cancel (bit_and x m) (bit_and n m),
)

all_ones_table : all_below 256 (λ b. bit_and b 0xFF == b) ≡ true
unfolding all_below
all_ones_table = refl

bit_and_all_ones : (b : ℕ) → IsByte b → bit_and b 0xFF ≡ b
bit_and_all_ones b h =
    (==_iff _ b).0 (at_of_all_below 256 (λ b. bit_and b 0xFF == b) b all_ones_table h)

-- The request's target and mask, byte by byte.
module _ (level id : ℕ) (small : level < 4) (listed : id < 3) where
  abbrev aimed : List ℕ → ℕ → List ℕ
  aimed xs i = flip_byte xs i (bucket_bits level id)

  abbrev mask : ℕ → List ℕ
  mask i = replicate i 0xFF ++ last_mask level ∷ []

  bucket_of_masked :
      (k i : ℕ) (ns xs : List ℕ)
      → i < length xs
      → All IsByte ns
      → All IsByte xs
      → masked_eq ns (aimed xs i) (mask i) ≡ true
      → bucket_from k ns xs ≡ some (4 * (k + i) + level, id)
  unfolding masked_eq bucket_from
  bucket_of_masked k i ns [] h p q e = absurd (omega arith)
  bucket_of_masked k zero [] (x ∷ xs) h p q e = cc
  bucket_of_masked k (suc i) [] (x ∷ xs) h p q e = cc
  bucket_of_masked k zero (n ∷ ns) (x ∷ xs) h (pn, ps) (px, qs) e =
      let d = bit_xor n x in
      let byte = bit_xor-lt 8 n x pn px in
      ground (
        arith,
        flip_byte-zero x (bucket_bits level id) xs,
        rw (flip_byte-zero x (bucket_bits level id) xs) at e,
        and_eq_of_xor n x (bucket_bits level id) (last_mask level),
        fits-hit level id d small listed byte,
        byte_bucket-some d level id byte,
      )
  bucket_of_masked k (suc i) (n ∷ ns) (x ∷ xs) h (pn, ps) (px, qs) e = ground (
    arith,
    rw (flip_byte-suc x i (bucket_bits level id) xs) at e,
    bit_and_all_ones n pn,
    bit_and_all_ones x px,
    bit_xor_self x,
    bucket_of_masked (k + 1) i ns xs (omega arith) ps qs,
  )

  masked_of_bucket :
      (k i : ℕ) (ns xs : List ℕ)
      → i < length xs
      → All IsByte ns
      → All IsByte xs
      → bucket_from k ns xs ≡ some (4 * (k + i) + level, id)
      → masked_eq ns (aimed xs i) (mask i) ≡ true
  unfolding masked_eq bucket_from
  masked_of_bucket k i ns [] h p q e = absurd (omega arith)
  masked_of_bucket k i [] (x ∷ xs) h p q e = cc
  masked_of_bucket k zero (n ∷ ns) (x ∷ xs) h (pn, ps) (px, qs) e =
      let d = bit_xor n x in
      let byte = bit_xor-lt 8 n x pn px in
      rw (flip_byte-zero x (bucket_bits level id) xs) (
        ground (
          arith,
          byte_bucket-none d byte,
          bucket_from_bounds (k + 1) (4 * k + level) id ns xs ps qs,
          xor_eq_of_and n x (bucket_bits level id) (last_mask level),
          fits-masked level id d small listed byte,
        ))
  masked_of_bucket k (suc i) (n ∷ ns) (x ∷ xs) h (pn, ps) (px, qs) e =
      let byte = bit_xor-lt 8 n x pn px in
      rw (flip_byte-suc x i (bucket_bits level id) xs)
        (elim (Option-cases (byte_bucket (bit_xor n x))) [
          | inl empty ↦ ground (
            arith,
            byte_bucket-none (bit_xor n x) byte,
            eq_of_bit_xor n x,
            masked_of_bucket (k + 1) i ns xs (omega arith) ps qs,
          )
          | inr ((l, j), full) ↦ ground (
            arith,
            full,
            byte_bucket-some (bit_xor n x) l j byte full,
            eq_of_bit_xor n x,
            masked_of_bucket (k + 1) i ns xs (omega arith) ps qs,
          )
        ])

-- For the identifiers of a node and of a peer, and every level below 128 and bucket below 3: the
-- peer matches the target and the mask of the node's request exactly if it lies in the requested
-- bucket of the node.
pub matches-bucket :
    (self peer target : PeerId) (level id : ℕ)
    → IsPeerId self
    → IsPeerId peer
    → level < 128
    → id < 3
    → generate_in_bucket self level id ≡ some target
    → (matches peer target (bucket_mask level) ≡ true) ↔ (bucket peer self ≡ some (level, id))
unfolding matches bucket bucket_mask
matches-bucket self peer target level id hs hp l k e =
    let same : record { bytes = aimed (level % 4) id (omega arith) k self.bytes (level / 4) }
        ≡ target =
      cc (generate_in_bucket-some self level id l k) in
    let inside : level / 4 < length self.bytes = omega (arith, hs.sized) in
    let join : 4 * (0 + level / 4) + level % 4 ≡ level = omega arith in
    subst
      (λ (t : PeerId).
        (matches peer t (bucket_mask level) ≡ true) ↔ (bucket peer self ≡ some (level, id)))
      same
      (
        λ m. rw join at (
            bucket_of_masked (level % 4) id (omega arith) k 0 (level / 4) peer.bytes self.bytes
              inside hp.in_range hs.in_range m),
        λ b.
            masked_of_bucket (level % 4) id (omega arith) k 0 (level / 4) peer.bytes self.bytes
              inside hp.in_range hs.in_range (rw join b),
      )
