-- ===== src/Tests/Codec.antt =====
-- A wire format for the tests, of the packets of a handshake and of pings. A field is behind its
-- length; the packets with a text are those of one text.
use text.Mathlib.Text.{◌==◌}
use text.Mathlib.TextEquality.{eq_iff}
use tewta.Base.{
  ℕ, zero, suc, ◌≡◌, refl, ap, Bool-cases, inl, inr, List, [], ◌∷◌, ◌++◌, length, take, drop,
  take-length-append, drop-length-append, if◌then◌else◌,
}
use tewta.Base.Result.{Result, ok, err}
use tewta.Crypto.{Parcel, IsParcel}
use tewta.Packets.{Packet, protocol_version, init_rsa, init_aes, ehlo, ping}

abbrev flat : List (ℕ × ℕ × ℕ) → List ℕ
flat [] = []
flat ((a, b, c) ∷ versions) = a ∷ b ∷ c ∷ flat versions

abbrev unflat : List ℕ → List (ℕ × ℕ × ℕ)
unflat (a ∷ b ∷ c ∷ bytes) = (a, b, c) ∷ unflat bytes
unflat _ = []

unflat-flat : (versions : List (ℕ × ℕ × ℕ)) → unflat (flat versions) ≡ versions
unflat-flat [] = refl
unflat-flat ((a, b, c) ∷ versions) = ap (λ vs. (a, b, c) ∷ vs) (unflat-flat versions)

abbrev write : Packet → Result (Unit {0}) (List ℕ)
write (protocol_version p) =
    if p.protocol == "tewta" then ok (0 ∷ flat p.supported_versions) else err tt
write (init_rsa p) = ok (
    1
    ∷ length p.rsa_public_key_exponent
    ∷ length p.rsa_public_key_modulus
    ∷ (p.rsa_public_key_exponent ++ (p.rsa_public_key_modulus ++ p.nonce)))
write (init_aes p) = ok (2 ∷ length p.aes_key_part ∷ (p.aes_key_part ++ p.nonce))
write (ehlo p) = if p.addr == "local-1" then ok (3 ∷ []) else err tt
write (ping p) = ok (4 ∷ p.ping_id ∷ [])
write _ = err tt

abbrev parse : List ℕ → Result (Unit {0}) Packet
parse (zero ∷ bytes) =
    ok (protocol_version (record { protocol = "tewta"; supported_versions = unflat bytes }))
parse ((suc zero) ∷ e ∷ m ∷ bytes) = ok (
    init_rsa (record {
      rsa_public_key_exponent = take e bytes;
      rsa_public_key_modulus = take m (drop e bytes);
      nonce = drop m (drop e bytes);
    }))
parse ((suc (suc zero)) ∷ k ∷ bytes) =
    ok (init_aes (record { aes_key_part = take k bytes; nonce = drop k bytes }))
parse ((suc (suc (suc zero))) ∷ bytes) = ok (ehlo (record { addr = "local-1" }))
parse ((suc (suc (suc (suc zero)))) ∷ i ∷ bytes) = ok (ping (record { ping_id = i }))
parse _ = err tt

abbrev pub wire : Parcel (Unit {0}) Packet
wire = record { raw_bytes = λ p. write p; from_raw_bytes = λ bytes. parse bytes }

parse-write : (p : Packet) (bytes : List ℕ) → write p ≡ ok bytes → parse bytes ≡ ok p
parse-write (protocol_version p) bytes e = elim (Bool-cases (p.protocol == "tewta")) [
  | inl same ↦
      let its : 0 ∷ flat p.supported_versions ≡ bytes = cc (rw same at e) in
      let text : p.protocol ≡ "tewta" = (eq_iff p.protocol "tewta").0 same in
      rw (← its) (rw (unflat-flat p.supported_versions, text) refl)
  | inr other ↦ absurd (cc (rw other at e))
]
parse-write (init_rsa p) bytes e =
    let x = p.rsa_public_key_exponent in
    let m = p.rsa_public_key_modulus in
    let its : 1 ∷ length x ∷ length m ∷ (x ++ (m ++ p.nonce)) ≡ bytes = cc e in
    rw (← its) (
      rw
        (
          take-length-append x (m ++ p.nonce),
          drop-length-append x (m ++ p.nonce),
          take-length-append m p.nonce,
          drop-length-append m p.nonce,
        )
        refl)
parse-write (init_aes p) bytes e =
    let k = p.aes_key_part in
    let its : 2 ∷ length k ∷ (k ++ p.nonce) ≡ bytes = cc e in
    rw (← its) (rw (take-length-append k p.nonce, drop-length-append k p.nonce) refl)
parse-write (ehlo p) bytes e = elim (Bool-cases (p.addr == "local-1")) [
  | inl same ↦
      let its : 3 ∷ [] ≡ bytes = cc (rw same at e) in
      let text : p.addr ≡ "local-1" = (eq_iff p.addr "local-1").0 same in rw (← its) (rw text refl)
  | inr other ↦ absurd (cc (rw other at e))
]
parse-write (ping p) bytes e = let its : 4 ∷ p.ping_id ∷ [] ≡ bytes = cc e in rw (← its) refl
parse-write _ bytes e = cc e

pub wire-IsParcel : IsParcel wire
wire-IsParcel = record { from_raw_bytes-raw_bytes = parse-write }
