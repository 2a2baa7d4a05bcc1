-- ===== src/Tests/Samples.antt =====
-- Identifiers, a digest, and a crate of keys for the tests. The keys are pairs of byte strings, and
-- a signature is the digest itself: what is documented of the crate holds of them.
use tewta.Base.{ℕ, ◌≡◌, refl, sym, List, [], ◌∷◌, length-replicate, replicate, All, if◌then◌else◌}
use tewta.Base.Result.{Result, ok, err}
use tewta.Crypto.{Rsa, IsRsa}
use tewta.Peer.{PeerId, IsPeerId, IsByte, eq_bytes}
use tewta.Peer.Order.{eq_bytes_refl}

-- The identifier of 32 equal bytes.
abbrev pub peer : ℕ → PeerId
peer b = record { bytes = replicate 32 b }

All-replicate : (n b : ℕ) → IsByte b → All IsByte (replicate n b)
All-replicate ℕ.zero b h = tt
All-replicate (ℕ.suc n) b h = (h, All-replicate n b h)

pub peer-IsPeerId : (b : ℕ) → IsByte b → IsPeerId (peer b)
peer-IsPeerId b h = record { sized = length-replicate 32 b; in_range = All-replicate 32 b h }

-- A digest: the first byte, 32 times.
abbrev pub digest : List ℕ → List ℕ
digest [] = replicate 32 0
digest (b ∷ bytes) = replicate 32 b

abbrev verify : List ℕ → List ℕ → Result (Unit {0}) (Unit {0})
verify hash signature = if eq_bytes hash signature then ok tt else err tt

abbrev pub plain_rsa : Rsa
plain_rsa = record {
  BigUint = List ℕ;
  PublicKey = List ℕ × List ℕ;
  PrivateKey = List ℕ × List ℕ;
  Error = Unit {0};
  from_bytes_le = λ b. b;
  to_bytes_le = λ b. b;
  public_key = λ n e. ok (n, e);
  n = λ k. k.0;
  e = λ k. k.1;
  public_of = λ k. k;
  sign = λ k salt hash. ok hash;
  verify = λ k hash signature. verify hash signature;
  encrypt = λ k seed message. ok message;
  decrypt = λ k cipher. ok cipher;
}

verify-signature :
    (hash signature : List ℕ)
    → ◌≡◌ {A = Result (Unit {0}) (List ℕ)} (ok hash) (ok signature)
    → verify hash signature ≡ ok tt
verify-signature hash signature e =
    let same : hash ≡ signature = cc e in rw (same, eq_bytes_refl signature) refl

pub plain_rsa-IsRsa : IsRsa plain_rsa
plain_rsa-IsRsa = record {
  from_bytes_le-to_bytes_le = λ b. refl;
  public_key_parts = λ k. refl;
  verify-sign = λ k salt hash signature e. verify-signature hash signature e;
  decrypt-encrypt = λ k seed message cipher e. sym e;
}
