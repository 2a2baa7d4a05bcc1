-- ===== src/Handshake/Guards.antt =====
-- The checks of src/node/handshake.rs, seen from its end.
use Prim.Native.String.{String}
use tewta.Base.{
  ℕ, true, false, Option, none, some, List, length, ◌≡◌, ◌≢◌, refl, arith, ◌==◌, Bool-cases, inl,
  inr, ◌∙◌, ap,
}
use tewta.Base.Result.{ok, ok_or, ok_or-eq-ok}
use tewta.Crypto.{Rsa, Parcel}
use tewta.Handshake.Error.{same_peer, protocol_error, rsa_error}
use tewta.Handshake.Session.{Io, after-eq-ok, stepped, lift, lift-eq-ok, ◌>>=◌}
use tewta.Handshake.{
  Local, Random, aes_key, our_aes, read, write, exchange_keys, exchange_aes_parts, exchange_addrs,
  check_peer, as_expected, accept_aes, handshake_raw,
}
use tewta.Packets.{Packet, InitAesPacket}
use tewta.Peer.{PeerId, eq_peer, eq_bytes}
use tewta.Peer.Order.{eq_peer_iff, eq_of_eq_bytes}
use tewta.Signed.{peer_id_of}

module _ {E : Type 0} (wire : Parcel E Packet) (r : Rsa) (sha256 : List ℕ → List ℕ) where
  -- The peer is another one, the one that was expected if one was, and not in the pool.
  pub record Welcome (self : Local r) (expected : Option PeerId) (id : PeerId) : Type 0 where
    pub distinct : self.peer_id ≢ id
    pub as_dialled : (p : PeerId) → expected ≡ some p → p ≡ id
    pub free : self.connected id ≡ false

  -- Under our public key, the peer has sent a half of the AES key and the nonce that we had drawn.
  pub record Answered (self : Local r) (random : Random) (part : List ℕ) : Type 0 where
    pub cipher : List ℕ
    pub plain : List ℕ
    pub answer : InitAesPacket
    pub opened : r.decrypt self.rsa_private_key cipher ≡ ok plain
    pub parsed : wire.from_raw_bytes plain ≡ ok (Packet.init_aes answer)
    pub nonce_copied : answer.nonce ≡ random.nonce
    pub part_sized : length answer.aes_key_part ≡ 16
    pub its_part : answer.aes_key_part ≡ part

  pub record Admitted (self : Local r) (random : Random) (expected : Option PeerId) (id : PeerId)
      : Type 0 where
    pub their_key : r.PublicKey
    pub named : id ≡ peer_id_of r sha256 their_key
    pub welcome : Welcome self expected id
    pub part : List ℕ
    pub answered : Answered self random part
    pub key : List ℕ
    pub key_made : aes_key self.peer_id id random.aes_key_part part ≡ some key

  expected_lem :
      (expected : Option PeerId) (id : PeerId)
      → as_expected wire r sha256 expected id ≡ true
      → (p : PeerId) → expected ≡ some p
      → p ≡ id
  expected_lem none id e p h = cc
  expected_lem (some q) id e p h = ground (arith, h, e, (eq_peer_iff q id).0)

  check_peer-Welcome :
      (self : Local r) (expected : Option PeerId) (id : PeerId) (io : Io) {io' : Io}
      → check_peer wire r sha256 self expected id io ≡ (ok tt, io')
      → Welcome self expected id
  unfolding check_peer
  check_peer-Welcome self expected id io e = elim (Bool-cases (eq_peer self.peer_id id)) [
    | inl same ↦ absurd (cc (rw same at e))
    | inr other ↦ elim (Bool-cases (as_expected wire r sha256 expected id)) [
      | inr bad ↦ absurd (cc (rw (other, bad) at e))
      | inl good ↦ elim (Bool-cases (self.connected id)) [
        | inl present ↦ absurd (cc (rw (other, good, present) at e))
        | inr free ↦ record {
          distinct = λ h. ground (arith, other, (eq_peer_iff self.peer_id id).1 h);
          as_dialled = expected_lem expected id good;
          free = free;
        }
      ]
    ]
  ]

  accept_aes_lem :
      (nonce : List ℕ) (p : Packet) (io : Io) {part : List ℕ} {io' : Io}
      → accept_aes wire r sha256 nonce p io ≡ (ok part, io')
      → (answer : InitAesPacket) × (p ≡ Packet.init_aes answer)
        × (answer.nonce ≡ nonce)
        × (length answer.aes_key_part ≡ 16)
        × (answer.aes_key_part ≡ part)
  accept_aes_lem nonce (Packet.init_aes p) io e = elim (Bool-cases (length p.aes_key_part == 16)) [
    | inr bad ↦ absurd (ground (arith, bad))
    | inl sized ↦ elim (Bool-cases (eq_bytes p.nonce nonce)) [
      | inr bad ↦ absurd (ground (arith, sized, bad))
      | inl copied ↦ (
        p,
        refl,
        eq_of_eq_bytes p.nonce nonce copied,
        ground (arith, sized),
        ground (arith, sized, copied),
      )
    ]
  ]
  accept_aes_lem nonce _ io e = cc e

  opened-Answered :
      (self : Local r) (random : Random) (cipher : List ℕ) (io : Io) {part : List ℕ} {io' : Io}
      → (lift rsa_error (r.decrypt self.rsa_private_key cipher) >>= λ plain.
            lift protocol_error (wire.from_raw_bytes plain)
            >>= accept_aes wire r sha256 random.nonce)
          io
        ≡ (ok part, io')
      → Answered self random part
  opened-Answered self random cipher io e =
      elim (after-eq-ok (lift rsa_error (r.decrypt self.rsa_private_key cipher) io) _ e) [
        | stepped plain io1 opened e ↦
            elim (after-eq-ok (lift protocol_error (wire.from_raw_bytes plain) io1) _ e) [
              | stepped theirs io2 parsed e ↦
                  let (answer, is_aes, copied, sized, its) =
                    accept_aes_lem random.nonce theirs io2 e in
                  record {
                    cipher = cipher;
                    plain = plain;
                    answer = answer;
                    opened = lift-eq-ok rsa_error (r.decrypt self.rsa_private_key cipher) io opened;
                    parsed =
                        lift-eq-ok protocol_error (wire.from_raw_bytes plain) io1 parsed
                        ∙ ap ok is_aes;
                    nonce_copied = copied;
                    part_sized = sized;
                    its_part = its;
                  }
            ]
      ]

  exchange_aes_parts-Answered :
      (self : Local r) (random : Random) (key : r.PublicKey) (nonce : List ℕ) (io : Io)
      {part : List ℕ} {io' : Io}
      → exchange_aes_parts wire r sha256 self random key nonce io ≡ (ok part, io')
      → Answered self random part
  unfolding exchange_aes_parts
  exchange_aes_parts-Answered self random key nonce io e =
      elim (after-eq-ok
        (lift protocol_error (wire.raw_bytes (our_aes wire r sha256 random nonce)) io) _ e) [
          | stepped plain io1 _ e ↦
              elim (after-eq-ok (lift rsa_error (r.encrypt key random.oaep_seed plain) io1) _ e) [
                | stepped cipher io2 _ e ↦ elim (after-eq-ok (write wire r sha256 cipher io2) _ e) [
                  | stepped tt io3 _ e ↦ elim (after-eq-ok (read wire r sha256 io3) _ e) [
                    | stepped cipher io4 _ e ↦ opened-Answered self random cipher io4 e
                  ]
                ]
              ]
        ]

  pub handshake_raw-Admitted :
      (self : Local r) (random : Random) (expected : Option PeerId) (io io' : Io) (id : PeerId)
      (addr : String)
      → handshake_raw wire r sha256 self random expected io ≡ (ok (id, addr), io')
      → Admitted self random expected id
  unfolding handshake_raw
  handshake_raw-Admitted self random expected io io' id addr e =
      elim (after-eq-ok (exchange_keys wire r sha256 self random io) _ e) [
        | stepped k io1 _ e ↦
            let theirs = peer_id_of r sha256 k.0 in
            elim (after-eq-ok (check_peer wire r sha256 self expected theirs io1) _ e) [
              | stepped tt io2 checked e ↦
                  elim (after-eq-ok (exchange_aes_parts wire r sha256 self random k.0 k.1 io2) _
                    e) [
                      | stepped part io3 exchanged e ↦
                          let made =
                            ok_or (aes_key self.peer_id theirs random.aes_key_part part)
                              same_peer in
                          elim (after-eq-ok (lift (λ e. e) made io3) _ e) [
                            | stepped key io4 is_made e ↦
                                elim (after-eq-ok (exchange_addrs wire r sha256 self io4) _ e) [
                                  | stepped its_addr io5 _ e ↦
                                      let named : id ≡ theirs = cc e in
                                      record {
                                        their_key = k.0;
                                        named = named;
                                        welcome =
                                            rw named
                                              (check_peer-Welcome self expected theirs io1 checked);
                                        part = part;
                                        answered =
                                            exchange_aes_parts-Answered self random k.0 k.1 io2
                                              exchanged;
                                        key = key;
                                        key_made = rw named (
                                            ok_or-eq-ok
                                              (aes_key self.peer_id theirs random.aes_key_part part)
                                              same_peer (lift-eq-ok (λ e. e) made io3 is_made));
                                      }
                                ]
                          ]
                    ]
            ]
      ]
