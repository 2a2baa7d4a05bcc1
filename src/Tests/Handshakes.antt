-- ===== src/Tests/Handshakes.antt =====
-- A handshake of two nodes, and signed data.
use tewta.Base.{
  ℕ, ◌+◌, ◌≡◌, ◌≢◌, ◌⊎◌, refl, arith, true, false, Option, none, [], ◌∷◌, ◌++◌, replicate,
}
use tewta.Base.Result.{ok, err}
use tewta.Crypto.{Parcel}
use tewta.Handshake.{Local, Random, handshake_raw, as_expected}
use tewta.Handshake.Honest.{Script, IsHonest, wrote, handshake_raw-honest}
use tewta.Handshake.Session.{Io}
use tewta.Node.Join.{handshake}
use tewta.Node.Join.Guards.{Taken, Refused, handshake_guards}
use tewta.Node.Connections.{ConnectionPool}
use tewta.Peer.{PeerId}
use tewta.Peer.Order.{eq_peer_iff}
use tewta.Peer.{eq_peer, eq_bytes}
use tewta.Signed.{SignedData, peer_id_of, sign, into_verified}
use tewta.Signed.Verified.{SignedBy, into_verified-sign, into_verified_sound}
use tewta.Tests.Codec.{wire, wire-IsParcel}
use tewta.Tests.Samples.{peer, digest, plain_rsa, plain_rsa-IsRsa}

-- A node whose key's exponent is the byte `b`.
abbrev pub local : ℕ → Local plain_rsa
local b = record {
  rsa_private_key = (b ∷ [], b ∷ []);
  rsa_public_key = (b ∷ [], b ∷ []);
  peer_id = peer b;
  addr = "local-1";
  connected = λ p. false;
}

abbrev pub random : ℕ → Random
random b = record { nonce = replicate 16 b; aes_key_part = replicate 16 (b + 100); oaep_seed = 0 }

local-IsHonest :
    (b : ℕ) → IsHonest wire wire-IsParcel plain_rsa plain_rsa-IsRsa digest (local b) (random b)
unfolding peer_id_of
local-IsHonest b = record { key_pair = refl; named = refl; nonce_sized = refl; part_sized = refl }

abbrev script :
    (a b : ℕ)
    → Script wire wire-IsParcel plain_rsa plain_rsa-IsRsa digest
        (local a)
        (random a)
        (b ∷ [], b ∷ [])
        (replicate 16 b)
script a b = record {
  version = 0 ∷ 0 ∷ 0 ∷ 1 ∷ [];
  rsa = 1 ∷ 1 ∷ 1 ∷ a ∷ a ∷ replicate 16 a;
  plain = 2 ∷ 16 ∷ (replicate 16 (a + 100) ++ replicate 16 b);
  cipher = 2 ∷ 16 ∷ (replicate 16 (a + 100) ++ replicate 16 b);
  ehlo = 3 ∷ [];
  raw_version = refl;
  raw_rsa = refl;
  raw_aes = refl;
  encrypted = refl;
  raw_ehlo = refl;
  version_fits = omega arith;
  rsa_fits = omega arith;
  cipher_fits = omega arith;
  ehlo_fits = omega arith;
}

distinct : peer 5 ≢ peer 6
unfolding eq_peer
distinct h = cc ((eq_peer_iff (peer 5) (peer 6)).1 h)

abbrev pub start : Io
start = record {
  inbound = wrote wire wire-IsParcel plain_rsa plain_rsa-IsRsa digest (script 6 5) [];
  outbound = [];
}

abbrev pub done : Io
done = record {
  inbound = [];
  outbound = wrote wire wire-IsParcel plain_rsa plain_rsa-IsRsa digest (script 5 6) [];
}

pub run :
    (whom : Option PeerId)
    → as_expected wire plain_rsa digest whom (peer 6) ≡ true
    → handshake_raw wire plain_rsa digest (local 5) (random 5) whom start
      ≡ (ok (peer 6, "local-1"), done)
run whom e =
    handshake_raw-honest wire wire-IsParcel plain_rsa plain_rsa-IsRsa digest (local 5) (local 6)
      (random 5) (random 6) (local-IsHonest 5) (local-IsHonest 6) (script 5 6) (script 6 5) whom []
      [] distinct e refl

handshake_raw-honest_example :
    handshake_raw wire plain_rsa digest (local 5) (random 5) none start
    ≡ (ok (peer 6, "local-1"), done)
handshake_raw-honest_example =
    handshake_raw-honest wire wire-IsParcel plain_rsa plain_rsa-IsRsa digest (local 5) (local 6)
      (random 5) (random 6) (local-IsHonest 5) (local-IsHonest 6) (script 5 6) (script 6 5) none []
      [] distinct refl refl

abbrev pool : ConnectionPool
pool = record { connections = []; our_peer_id = peer 5 }

handshake_guards_example :
    ((id : PeerId) × ((handshake wire plain_rsa digest (local 5) (random 5) none start pool).result
        ≡ ok id)
      × Taken wire plain_rsa digest
          (local 5)
          (random 5)
          none
          pool
          (handshake wire plain_rsa digest (local 5) (random 5) none start pool).pool
          id)
    ⊎ Refused wire plain_rsa digest pool
        (handshake wire plain_rsa digest (local 5) (random 5) none start pool)
handshake_guards_example =
    handshake_guards wire plain_rsa digest (local 5) (random 5) none start pool

-- Data of one number.
abbrev numbers : Parcel (Unit {0}) ℕ
numbers = record {
  raw_bytes = λ n. ok (n ∷ []);
  from_raw_bytes = λ bytes. elim bytes [ [] ↦ err tt | n ∷ _ ↦ ok n ];
}

abbrev signed : SignedData ℕ
signed = record {
  payload = 7;
  rsa_public_key_exponent = 5 ∷ [];
  rsa_public_key_modulus = 5 ∷ [];
  signature = replicate 32 7;
}

signs : sign plain_rsa digest numbers 7 (5 ∷ [], 5 ∷ []) (5 ∷ [], 5 ∷ []) 0 ≡ ok signed
unfolding sign
signs = refl

verified :
    into_verified plain_rsa digest numbers signed
    ≡ ok (peer_id_of plain_rsa digest (5 ∷ [], 5 ∷ []), 7)
unfolding into_verified eq_bytes
verified = refl

into_verified-sign_example :
    into_verified plain_rsa digest numbers signed
    ≡ ok (peer_id_of plain_rsa digest (5 ∷ [], 5 ∷ []), 7)
into_verified-sign_example =
    into_verified-sign plain_rsa plain_rsa-IsRsa digest numbers 7 (5 ∷ [], 5 ∷ []) 0 signed signs

into_verified_sound_example :
    SignedBy plain_rsa digest numbers signed (peer_id_of plain_rsa digest (5 ∷ [], 5 ∷ [])) 7
    × (7 ≡ signed.payload)
into_verified_sound_example =
    into_verified_sound plain_rsa digest numbers signed
      (peer_id_of plain_rsa digest (5 ∷ [], 5 ∷ [])) 7 verified
