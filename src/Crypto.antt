-- ===== src/Crypto.antt =====
-- What the program uses of the crates `rsa`, `sha2` and `protocol`, as parameters.
use tewta.Base.{ℕ, ◌≡◌, List}
use tewta.Base.Result.{Result, ok}

-- Keys, and the operations on them. Random salts are arguments.
pub record Rsa : Type 1 where
  pub BigUint : Type 0
  pub PublicKey : Type 0
  pub PrivateKey : Type 0
  pub Error : Type 0
  pub from_bytes_le : List ℕ → BigUint
  pub to_bytes_le : BigUint → List ℕ
  -- `RsaPublicKey::new(n, e)`.
  pub public_key : BigUint → BigUint → Result Error PublicKey
  pub n : PublicKey → BigUint
  pub e : PublicKey → BigUint
  -- `RsaPublicKey::from(&private_key)`.
  pub public_of : PrivateKey → PublicKey
  pub sign : PrivateKey → ℕ → List ℕ → Result Error (List ℕ)
  pub verify : PublicKey → List ℕ → List ℕ → Result Error (Unit {0})
  pub encrypt : PublicKey → ℕ → List ℕ → Result Error (List ℕ)
  pub decrypt : PrivateKey → List ℕ → Result Error (List ℕ)

-- The documented behaviour of that crate: numbers keep their value through bytes, a key is made
-- of its parts, and the private key answers to its public key.
pub record IsRsa (r : Rsa) : Type 0 where
  pub from_bytes_le-to_bytes_le : (b : r.BigUint) → r.from_bytes_le (r.to_bytes_le b) ≡ b
  pub public_key_parts :
      (k : r.PrivateKey)
      → r.public_key (r.n (r.public_of k)) (r.e (r.public_of k)) ≡ ok (r.public_of k)
  pub verify-sign :
      (k : r.PrivateKey) (salt : ℕ) (hash signature : List ℕ)
      → r.sign k salt hash ≡ ok signature
      → r.verify (r.public_of k) hash signature ≡ ok tt
  pub decrypt-encrypt :
      (k : r.PrivateKey) (seed : ℕ) (message cipher : List ℕ)
      → r.encrypt (r.public_of k) seed message ≡ ok cipher
      → r.decrypt k cipher ≡ ok message

-- The trait `Parcel` of a type: `raw_bytes` and `from_raw_bytes` with the program's settings.
pub record Parcel (E : Type 0) (T : Type 0) : Type 0 where
  pub raw_bytes : T → Result E (List ℕ)
  pub from_raw_bytes : List ℕ → Result E T

-- Whatever is written is read back.
pub record IsParcel {E T : Type 0} (p : Parcel E T) : Type 0 where
  pub from_raw_bytes-raw_bytes :
      (t : T) (bytes : List ℕ) → p.raw_bytes t ≡ ok bytes → p.from_raw_bytes bytes ≡ ok t
