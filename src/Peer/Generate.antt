-- ===== src/Peer/Generate.antt =====
-- `generate_in_bucket` of src/peers.rs against `bucket`.
use tewta.Base.{
  ℕ, zero, suc, ◌+◌, ◌*◌, ◌/◌, ◌%◌, ◌<◌, ◌≡◌, refl, ap, ◌∙◌, List, [], ◌∷◌, All, length, bit_xor,
  arith, ◌≢◌, some, Bool, true, ◌&&◌, ltb,
}
use tewta.Base.Bits.{bit_xor_self, bit_xor_cancel, bit_xor-lt}
use tewta.Peer.{
  PeerId, IsPeerId, IsByte, IsBytes32, byte_bucket, bucket_from, bucket, bucket_bits, flip_byte,
  generate_in_bucket,
}
use tewta.Peer.Bucket.{is_pair, is_pair_sound, byte_bucket-some}

-- Each of the twelve constants is a byte whose own bucket is the one that it stands for.
abbrev places : ℕ → ℕ → Bool
places level id =
    let bits = bucket_bits level id in ltb bits 256 && is_pair level id (byte_bucket bits)

abbrev places_level : ℕ → Bool
places_level level = places level 0 && places level 1 && places level 2

places_table :
    (places_level 0 ≡ true)
    × (places_level 1 ≡ true)
    × (places_level 2 ≡ true)
    × (places_level 3 ≡ true)
unfolding bucket_bits byte_bucket
places_table = (refl, refl, refl, refl)

places_id : (level id : ℕ) → places_level level ≡ true → id < 3 → places level id ≡ true
places_id level zero h k = ground arith
places_id level (suc zero) h k = ground arith
places_id level (suc (suc zero)) h k = ground arith
places_id level (suc (suc (suc n))) h k = absurd (omega arith)

places_lem : (level id : ℕ) → level < 4 → id < 3 → places level id ≡ true
places_lem zero id l k = places_id 0 id places_table.0 k
places_lem (suc zero) id l k = places_id 1 id places_table.1 k
places_lem (suc (suc zero)) id l k = places_id 2 id places_table.2 k
places_lem (suc (suc (suc zero))) id l k = places_id 3 id places_table.3 k
places_lem (suc (suc (suc (suc n)))) id l k = absurd (omega arith)

pub bucket_bits-IsByte : (level id : ℕ) → level < 4 → id < 3 → IsByte (bucket_bits level id)
bucket_bits-IsByte level id l k = ground (arith, places_lem level id l k)

pub byte_bucket-bucket_bits :
    (level id : ℕ) → level < 4 → id < 3 → byte_bucket (bucket_bits level id) ≡ some (level, id)
byte_bucket-bucket_bits level id l k =
    is_pair_sound level id (byte_bucket (bucket_bits level id))
      (ground (arith, places_lem level id l k))

pub flip_byte-suc :
    (x i bits : ℕ) (xs : List ℕ) → flip_byte (x ∷ xs) (suc i) bits ≡ x ∷ flip_byte xs i bits
unfolding flip_byte
flip_byte-suc x i bits xs = ground arith

pub flip_byte-zero : (x bits : ℕ) (xs : List ℕ) → flip_byte (x ∷ xs) 0 bits ≡ bit_xor x bits ∷ xs
unfolding flip_byte
flip_byte-zero x bits xs = refl

pub length-flip_byte : (xs : List ℕ) (i bits : ℕ) → length (flip_byte xs i bits) ≡ length xs
length-flip_byte [] i bits = unfold flip_byte in refl
length-flip_byte (x ∷ xs) zero bits = unfold flip_byte in refl
length-flip_byte (x ∷ xs) (suc i) bits =
    omega (arith, ap length (flip_byte-suc x i bits xs), length-flip_byte xs i bits)

flip_byte-All :
    (xs : List ℕ) (i bits : ℕ) → IsByte bits → All IsByte xs → All IsByte (flip_byte xs i bits)
flip_byte-All [] i bits b h = unfold flip_byte in tt
flip_byte-All (x ∷ xs) zero bits b (px, h) = unfold flip_byte in (bit_xor-lt 8 x bits px b, h)
flip_byte-All (x ∷ xs) (suc i) bits b (px, h) =
    rw (flip_byte-suc x i bits xs) (px, flip_byte-All xs i bits b h)

-- The generated target, with its assertion met.
pub generate_in_bucket-some :
    (p : PeerId) (level id : ℕ)
    → level < 128
    → id < 3
    → generate_in_bucket p level id
      ≡ some (record { bytes = flip_byte p.bytes (level / 4) (bucket_bits (level % 4) id) })
unfolding generate_in_bucket
generate_in_bucket-some p level id h k = ground arith

-- The target is an identifier.
pub flip_byte-IsBytes32 :
    (xs : List ℕ) (i bits : ℕ) → IsByte bits → IsBytes32 xs → IsBytes32 (flip_byte xs i bits)
flip_byte-IsBytes32 xs i bits b h = record {
  sized = length-flip_byte xs i bits ∙ h.sized;
  in_range = flip_byte-All xs i bits b h.in_range;
}

bucket_from-flip_byte :
    (k i bits level id : ℕ) (xs : List ℕ)
    → i < length xs
    → byte_bucket bits ≡ some (level, id)
    → bits ≢ 0
    → bucket_from k xs (flip_byte xs i bits) ≡ some (4 * (k + i) + level, id)
unfolding bucket_from
bucket_from-flip_byte k i bits level id [] h b n = absurd (omega arith)
bucket_from-flip_byte k zero bits level id (x ∷ xs) h b n =
    rw (flip_byte-zero x bits xs) (ground (arith, bit_xor_cancel x bits))
bucket_from-flip_byte k (suc i) bits level id (x ∷ xs) h b n = rw (flip_byte-suc x i bits xs) (
    ground
      (arith, bit_xor_self x, bucket_from-flip_byte (k + 1) i bits level id xs (omega arith) b n))

-- The promise of `generate_in_bucket`: for an identifier, and for every level below 128 and
-- bucket below 3, its target is an identifier and lies in that bucket.
pub bucket-generate_in_bucket :
    (p : PeerId) (level id : ℕ)
    → IsPeerId p
    → level < 128
    → id < 3
    → (target : PeerId) × (generate_in_bucket p level id ≡ some target)
      × IsPeerId target
      × (bucket p target ≡ some (level, id))
bucket-generate_in_bucket p level id h l k =
    let bits = bucket_bits (level % 4) id in
    let at = byte_bucket-bucket_bits (level % 4) id (omega arith) k in
    let byte = bucket_bits-IsByte (level % 4) id (omega arith) k in
    let found =
      bucket_from-flip_byte 0 (level / 4) bits (level % 4) id p.bytes (omega (arith, h.sized)) at
        (byte_bucket-some bits (level % 4) id byte at).0 in
    (
      record { bytes = flip_byte p.bytes (level / 4) bits },
      generate_in_bucket-some p level id l k,
      flip_byte-IsBytes32 p.bytes (level / 4) bits byte h,
      unfold bucket in (found ∙ ap (λ n. some (n, id)) (omega arith)),
    )
