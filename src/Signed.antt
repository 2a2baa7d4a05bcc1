-- ===== src/Signed.antt =====
-- src/signed_data.rs, and the identifier of a public key from src/peers.rs.
pub mod Verified
use tewta.Base.{ℕ, List, [], ◌∷◌, ◌++◌, ◌≡◌}
use tewta.Base.Result.{Result, ok, err, ◌>>=◌, map_err, Fault, failed, unwrap}
use tewta.Crypto.{Rsa, Parcel}
use tewta.Peer.{PeerId}

pub record SignedData (T : Type 0) : Type 0 where
  pub payload : T
  pub rsa_public_key_exponent : List ℕ
  pub rsa_public_key_modulus : List ℕ
  pub signature : List ℕ

module _ (r : Rsa) (sha256 : List ℕ → List ℕ) where
  -- `PeerID::from(&RsaPublicKey)`.
  unfoldable pub peer_id_of : r.PublicKey → PeerId
  peer_id_of key = record { bytes = sha256 (r.to_bytes_le (r.e key) ++ r.to_bytes_le (r.n key)) }

  module _ {ProtocolError T : Type 0} (parcel : Parcel ProtocolError T) where
    unfoldable pub verify : SignedData T → Result (Fault r.Error) PeerId
    unfolding peer_id_of
    verify self = do
      let n = r.from_bytes_le self.rsa_public_key_modulus
      let e = r.from_bytes_le self.rsa_public_key_exponent
      rsa_public_key ← map_err failed (r.public_key n e)
      bytes ← unwrap (parcel.raw_bytes self.payload)
      let hash = sha256 bytes
      _ ← map_err failed (r.verify rsa_public_key hash self.signature)
      ok (peer_id_of rsa_public_key)

    unfoldable pub into_verified : SignedData T → Result (Fault r.Error) (PeerId × T)
    unfolding verify
    into_verified self = do peer_id ← verify self; ok (peer_id, self.payload)

    unfoldable pub sign : T → r.PublicKey → r.PrivateKey → ℕ → Result (Fault r.Error) (SignedData T)
    sign self rsa_public_key rsa_private_key salt = do
      bytes ← unwrap (parcel.raw_bytes self)
      let hash = sha256 bytes
      signature ← map_err failed (r.sign rsa_private_key salt hash)
      ok (record {
        payload = self;
        rsa_public_key_exponent = r.to_bytes_le (r.e rsa_public_key);
        rsa_public_key_modulus = r.to_bytes_le (r.n rsa_public_key);
        signature = signature;
      })
