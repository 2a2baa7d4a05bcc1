-- ===== src/Handshake/Honest.antt =====
-- src/node/handshake.rs between two nodes that keep to it.
use tewta.Base.{
  ℕ, true, false, Option, some, List, [], ◌++◌, length, ◌≡◌, ◌≢◌, ◌<◌, refl, ap, arith,
  append_assoc, append-nil, Option-cases, inl, inr,
}
use tewta.Base.Result.{ok}
use tewta.Crypto.{Rsa, IsRsa, Parcel, IsParcel}
use tewta.Frame.{frame, max_packet_size}
use tewta.Frame.RoundTrip.{read_frame-frame}
use tewta.Handshake.Session.{Io}
use tewta.Handshake.{
  Local, Random, aes_key, write, send, read, receive, check_peer, as_expected, our_version, our_rsa,
  our_aes, our_ehlo, handshake_raw, exchange_keys, exchange_aes_parts, exchange_addrs,
  contains_version, accept_version, accept_rsa, accept_aes,
}
use tewta.Packets.{Packet}
use tewta.Peer.{PeerId}
use tewta.Peer.Order.{cmp-IsLawful, eq_peer_iff, eq_bytes_refl}
use tewta.Signed.{peer_id_of}

-- Both peers put the two parts in the same order: they have the same key, or neither has one.
pub aes_key_agrees :
    (ours theirs : PeerId) (our_part their_part : List ℕ)
    → aes_key ours theirs our_part their_part ≡ aes_key theirs ours their_part our_part
unfolding aes_key
aes_key_agrees ours theirs our_part their_part = ground (
  arith,
  cmp-IsLawful.lt_of_reversed ours theirs,
  cmp-IsLawful.gt_of_reversed ours theirs,
  cmp-IsLawful.is_equal ours theirs,
  cmp-IsLawful.reflexive ours,
)

aes_key-some :
    (ours theirs : PeerId) (our_part their_part : List ℕ)
    → ours ≢ theirs
    → (key : List ℕ) × (aes_key ours theirs our_part their_part ≡ some key)
unfolding aes_key
aes_key-some ours theirs our_part their_part distinct =
    elim (Option-cases (aes_key ours theirs our_part their_part)) [
      | inl e ↦ absurd (ground (arith, e, cmp-IsLawful.is_equal ours theirs))
      | inr key ↦ key
    ]

append_four :
    (out p q r s : List ℕ) → (((out ++ p) ++ q) ++ r) ++ s ≡ out ++ (p ++ (q ++ (r ++ (s ++ []))))
append_four out p q r s = simp (append_assoc, append-nil)

abbrev halves : List ℕ → List ℕ → Io
halves inbound outbound = record { inbound = inbound; outbound = outbound }

module _ {E : Type 0} (wire : Parcel E Packet) (lossless : IsParcel wire) (r : Rsa)
    (documented : IsRsa r) (sha256 : List ℕ → List ℕ) where
  send-ok :
      (p : Packet) (bytes : List ℕ) (io : Io)
      → wire.raw_bytes p ≡ ok bytes
      → send wire r sha256 p io ≡ (ok tt, record io { outbound = io.outbound ++ frame bytes })
  unfolding send write
  send-ok p bytes io e = ground (arith, e)

  read-ok :
      (bytes rest out : List ℕ)
      → length bytes < max_packet_size
      → read wire r sha256 (record { inbound = frame bytes ++ rest; outbound = out })
        ≡ (ok bytes, record { inbound = rest; outbound = out })
  unfolding read
  read-ok bytes rest out fits = ground (arith, read_frame-frame bytes rest fits)

  write-ok :
      (bytes : List ℕ) (io : Io)
      → write wire r sha256 bytes io ≡ (ok tt, record io { outbound = io.outbound ++ frame bytes })
  unfolding write
  write-ok bytes io = refl

  receive-ok :
      (p : Packet) (bytes rest out : List ℕ)
      → wire.raw_bytes p ≡ ok bytes
      → length bytes < max_packet_size
      → receive wire r sha256 (record { inbound = frame bytes ++ rest; outbound = out })
        ≡ (ok p, record { inbound = rest; outbound = out })
  unfolding receive
  receive-ok p bytes rest out e fits =
      ground (arith, read-ok bytes rest out fits, lossless.from_raw_bytes-raw_bytes p bytes e)

  -- The bytes of the four packets that a node sends to one whose key and nonce it has received.
  pub record Script (self : Local r) (random : Random) (their_key : r.PublicKey)
      (their_nonce : List ℕ) : Type 0 where
    pub version : List ℕ
    pub rsa : List ℕ
    pub plain : List ℕ
    pub cipher : List ℕ
    pub ehlo : List ℕ
    pub raw_version : wire.raw_bytes (our_version wire r sha256) ≡ ok version
    pub raw_rsa : wire.raw_bytes (our_rsa wire r sha256 self random) ≡ ok rsa
    pub raw_aes : wire.raw_bytes (our_aes wire r sha256 random their_nonce) ≡ ok plain
    pub encrypted : r.encrypt their_key random.oaep_seed plain ≡ ok cipher
    pub raw_ehlo : wire.raw_bytes (our_ehlo wire r sha256 self) ≡ ok ehlo
    pub version_fits : length version < max_packet_size
    pub rsa_fits : length rsa < max_packet_size
    pub cipher_fits : length cipher < max_packet_size
    pub ehlo_fits : length ehlo < max_packet_size

  -- The bytes of a script, with the bytes that follow.
  abbrev pub wrote :
      {self : Local r} {random : Random} {key : r.PublicKey} {nonce : List ℕ}
      → Script self random key nonce
      → List ℕ
      → List ℕ
  wrote s rest = frame s.version ++ (frame s.rsa ++ (frame s.cipher ++ (frame s.ehlo ++ rest)))

  -- A node with a key pair of its own, the identifier of that key, and random bytes of full length.
  pub record IsHonest (self : Local r) (random : Random) : Type 0 where
    pub key_pair : self.rsa_public_key ≡ r.public_of self.rsa_private_key
    pub named : self.peer_id ≡ peer_id_of r sha256 self.rsa_public_key
    pub nonce_sized : length random.nonce ≡ 16
    pub part_sized : length random.aes_key_part ≡ 16

  check_peer-ok :
      (self : Local r) (expected : Option PeerId) (theirs : PeerId) (io : Io)
      → self.peer_id ≢ theirs
      → as_expected wire r sha256 expected theirs ≡ true
      → self.connected theirs ≡ false
      → check_peer wire r sha256 self expected theirs io ≡ (ok tt, io)
  unfolding check_peer
  check_peer-ok self expected theirs io distinct e free =
      ground (arith, (eq_peer_iff self.peer_id theirs).0)

  accept_version-ok :
      (io : Io) → accept_version wire r sha256 (our_version wire r sha256) io ≡ (ok tt, io)
  unfolding contains_version
  accept_version-ok io = refl

  accept_rsa-ok :
      (self : Local r) (random : Random) (io : Io)
      → IsHonest self random
      → accept_rsa wire r sha256 (our_rsa wire r sha256 self random) io
        ≡ (ok (self.rsa_public_key, random.nonce), io)
  accept_rsa-ok self random io h = ground (
    arith,
    h.nonce_sized,
    documented.from_bytes_le-to_bytes_le (r.n self.rsa_public_key),
    documented.from_bytes_le-to_bytes_le (r.e self.rsa_public_key),
    rw (← h.key_pair) at (documented.public_key_parts self.rsa_private_key),
  )

  accept_aes-ok :
      (random : Random) (nonce : List ℕ) (io : Io)
      → length random.aes_key_part ≡ 16
      → accept_aes wire r sha256 nonce (our_aes wire r sha256 random nonce) io
        ≡ (ok random.aes_key_part, io)
  accept_aes-ok random nonce io h = ground (arith, h, eq_bytes_refl nonce)

  module _ (a b : Local r) (random_a random_b : Random) (ha : IsHonest a random_a)
      (hb : IsHonest b random_b) (sa : Script a random_a b.rsa_public_key random_b.nonce)
      (sb : Script b random_b a.rsa_public_key random_a.nonce) where
    -- Let two nodes have key pairs, the identifiers of their keys and random bytes of full
    -- length, let the crates behave as documented, and let the packets of both serialize, and
    -- encrypt, to fewer bytes than the limit. A node whose input is what the other writes then
    -- completes, with the other's identifier and address, and has written its own four packets
    -- after what it wrote before: when the two are distinct, the other is the one that was
    -- expected, if one was, and the pool does not hold it.
    pub handshake_raw-honest :
        (expected : Option PeerId) (rest out : List ℕ)
        → a.peer_id ≢ b.peer_id
        → as_expected wire r sha256 expected b.peer_id ≡ true
        → a.connected b.peer_id ≡ false
        → handshake_raw wire r sha256 a random_a expected
            (record { inbound = wrote sb rest; outbound = out })
          ≡ (ok (b.peer_id, b.addr), record { inbound = rest; outbound = out ++ wrote sa [] })
    unfolding handshake_raw exchange_keys exchange_aes_parts exchange_addrs
    handshake_raw-honest expected rest out distinct e free =
        let t3 = frame sb.ehlo ++ rest in
        let t2 = frame sb.cipher ++ t3 in
        let t1 = frame sb.rsa ++ t2 in
        let o1 = out ++ frame sa.version in
        let o2 = o1 ++ frame sa.rsa in
        let o3 = o2 ++ frame sa.cipher in
        let o4 = o3 ++ frame sa.ehlo in
        let key =
          aes_key-some a.peer_id b.peer_id random_a.aes_key_part random_b.aes_key_part distinct in
        let opened =
          documented.decrypt-encrypt a.rsa_private_key random_b.oaep_seed sb.plain sb.cipher
            (rw (← ha.key_pair) sb.encrypted) in
        rw
          (
            send-ok (our_version wire r sha256) sa.version (halves (wrote sb rest) out)
                sa.raw_version,
            receive-ok (our_version wire r sha256) sb.version t1 o1 sb.raw_version sb.version_fits,
            accept_version-ok,
            send-ok (our_rsa wire r sha256 a random_a) sa.rsa (halves t1 o1) sa.raw_rsa,
            receive-ok (our_rsa wire r sha256 b random_b) sb.rsa t2 o2 sb.raw_rsa sb.rsa_fits,
            accept_rsa-ok b random_b (halves t2 o2) hb,
            ← hb.named,
            check_peer-ok a expected b.peer_id (halves t2 o2) distinct e free,
            sa.raw_aes,
            sa.encrypted,
            write-ok sa.cipher (halves t2 o2),
            read-ok sb.cipher t3 o3 sb.cipher_fits,
            opened,
            lossless.from_raw_bytes-raw_bytes (our_aes wire r sha256 random_b random_a.nonce)
                sb.plain sb.raw_aes,
            accept_aes-ok random_b random_a.nonce (halves t3 o3) hb.part_sized,
            key.1,
            send-ok (our_ehlo wire r sha256 a) sa.ehlo (halves t3 o3) sa.raw_ehlo,
            receive-ok (our_ehlo wire r sha256 b) sb.ehlo rest o4 sb.raw_ehlo sb.ehlo_fits,
          )
          (ap (λ (o : List ℕ). (ok (b.peer_id, b.addr), halves rest o))
            (append_four out (frame sa.version) (frame sa.rsa) (frame sa.cipher) (frame sa.ehlo)))
