-- ===== src/Signed/Verified.antt =====
-- Signing and verifying in src/signed_data.rs.
use tewta.Base.{ℕ, List, ◌++◌, ◌≡◌, sym, ap, ◌∙◌, arith, inl, inr}
use tewta.Base.Result.{ok, Result-cases}
use tewta.Crypto.{Rsa, IsRsa, Parcel}
use tewta.Peer.{PeerId, IsPeerId, IsBytes32}
use tewta.Signed.{SignedData, peer_id_of, verify, into_verified, sign}

module _ (r : Rsa) (sha256 : List ℕ → List ℕ) where
  -- With a digest of 32 bytes every public key has an identifier.
  pub peer_id_of-IsPeerId :
      ((bytes : List ℕ) → IsBytes32 (sha256 bytes))
      → (key : r.PublicKey) → IsPeerId (peer_id_of r sha256 key)
  unfolding peer_id_of
  peer_id_of-IsPeerId digest key = digest (r.to_bytes_le (r.e key) ++ r.to_bytes_le (r.n key))

module _ (r : Rsa) (documented : IsRsa r) (sha256 : List ℕ → List ℕ) where
  module _ {ProtocolError T : Type 0} (parcel : Parcel ProtocolError T) where
    -- What a node signs with its own key pair is verified, and names that node: with a crate that
    -- behaves as documented.
    pub into_verified-sign :
        (t : T) (key : r.PrivateKey) (salt : ℕ) (signed : SignedData T)
        → sign r sha256 parcel t (r.public_of key) key salt ≡ ok signed
        → into_verified r sha256 parcel signed ≡ ok (peer_id_of r sha256 (r.public_of key), t)
    unfolding sign verify into_verified
    into_verified-sign t key salt signed e = elim (Result-cases (parcel.raw_bytes t)) [
      | inr (x, bad) ↦ absurd (ground (arith, bad))
      | inl (bytes, raw) ↦ elim (Result-cases (r.sign key salt (sha256 bytes))) [
        | inr (x, bad) ↦ absurd (ground (arith, raw, bad))
        | inl (signature, made) ↦ ground (
          arith,
          raw,
          made,
          documented.public_key_parts key,
          documented.from_bytes_le-to_bytes_le (r.e (r.public_of key)),
          documented.from_bytes_le-to_bytes_le (r.n (r.public_of key)),
          documented.verify-sign key salt (sha256 bytes) signature made,
        )
      ]
    ]

-- What a successful verification says of the data: a key that the crate accepts, whose signature
-- of the data's digest it is.
pub record SignedBy (r : Rsa) (sha256 : List ℕ → List ℕ) {ProtocolError T : Type 0}
    (parcel : Parcel ProtocolError T) (signed : SignedData T) (id : PeerId) (t : T) : Type 0 where
  pub key : r.PublicKey
  pub bytes : List ℕ
  pub accepted :
      r.public_key
        (r.from_bytes_le signed.rsa_public_key_modulus)
        (r.from_bytes_le signed.rsa_public_key_exponent)
      ≡ ok key
  pub raw : parcel.raw_bytes t ≡ ok bytes
  pub valid : r.verify key (sha256 bytes) signed.signature ≡ ok tt
  pub named : id ≡ peer_id_of r sha256 key

-- Data that is verified is signed under the key that names its peer, and is handed on unchanged.
pub into_verified_sound :
    (r : Rsa) (sha256 : List ℕ → List ℕ) {ProtocolError T : Type 0}
    (parcel : Parcel ProtocolError T) (signed : SignedData T) (id : PeerId) (t : T)
    → into_verified r sha256 parcel signed ≡ ok (id, t)
    → SignedBy r sha256 parcel signed id t × (t ≡ signed.payload)
unfolding verify into_verified
into_verified_sound r sha256 parcel signed id t e =
    let n = r.from_bytes_le signed.rsa_public_key_modulus in
    let m = r.from_bytes_le signed.rsa_public_key_exponent in
    elim (Result-cases (r.public_key n m)) [
      | inr (x, bad) ↦ absurd (ground (arith, bad))
      | inl (key, accepted) ↦ elim (Result-cases (parcel.raw_bytes signed.payload)) [
        | inr (x, bad) ↦ absurd (ground (arith, accepted, bad))
        | inl (bytes, raw) ↦ elim (Result-cases (r.verify key (sha256 bytes) signed.signature)) [
          | inr (x, bad) ↦ absurd (ground (arith, accepted, raw, bad))
          | inl (tt, valid) ↦
              let whole : signed.payload ≡ t = ground (arith, accepted, raw, valid) in
              (
                record {
                  key = key;
                  bytes = bytes;
                  accepted = accepted;
                  raw = ap parcel.raw_bytes (sym whole) ∙ raw;
                  valid = valid;
                  named = ground (arith, accepted, raw, valid);
                },
                sym whole,
              )
        ]
      ]
    ]
