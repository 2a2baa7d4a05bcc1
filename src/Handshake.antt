-- ===== src/Handshake.antt =====
-- src/node/handshake.rs: the handshake of two nodes over a stream. The bytes that the peer sends
-- are the input of a run, up to the end of the stream, and the bytes that are written are its
-- output; a write does not fail. Random bytes are arguments. Encryption is on, as by default.
pub mod Error
pub mod Session
pub mod Guards
pub mod Honest
use Prim.Native.Nat.Ordering.{lt, eq, gt}
use Prim.Native.String.{String}
use tewta.Base.{
  ℕ, Bool, true, false, Option, none, some, List, [], ◌∷◌, ◌++◌, length, ◌==◌, if◌then◌else◌, ◌&&◌,
  not,
}
use tewta.Base.Result.{Result, ok, err, ok_or}
use Error.{
  HandshakeError, unsupported_version, unexpected_packet, invalid_aes_key_lenght, invalid_nonce,
  invalid_nonce_copy, packet_too_large, already_connected, same_peer, identity_mismatch,
  peer_quitted, from_protocol, from_rsa, from_io, unexpected_eof, handshake_to_quit,
}
use Session.{Io, M, ◌>>=◌, ◌>>◌, pure, fail, ensure, lift}
use tewta.Crypto.{Rsa, Parcel}
use tewta.Frame
use tewta.Frame.{FrameRead, read_frame, frame}
use tewta.Packets.{
  Packet, QuitPacket, ToQuit, to_quit, ProtocolVersionPacket, InitRsaPacket, InitAesPacket,
  EhloPacket,
}
use tewta.Peer.{PeerId, cmp, eq_peer, eq_bytes}
use tewta.Signed.{peer_id_of}

-- The version that this program speaks: `PROTOCOL_VERSION`.
abbrev pub protocol_version : ℕ × ℕ × ℕ
protocol_version = (0, 0, 1)

-- `Vec::contains` of a version.
unfoldable pub contains_version : ℕ × ℕ × ℕ → List (ℕ × ℕ × ℕ) → Bool
contains_version v [] = false
contains_version (a, b, c) ((x, y, z) ∷ versions) =
    if a == x && b == y && c == z then true else contains_version (a, b, c) versions

-- The two halves of the AES key: the peer with the lower identifier puts its part first. `none`
-- is the error for equal identifiers.
unfoldable pub aes_key : PeerId → PeerId → List ℕ → List ℕ → Option (List ℕ)
aes_key ours theirs our_part their_part = elim (cmp ours theirs) [
  | lt ↦ some (our_part ++ their_part)
  | gt ↦ some (their_part ++ our_part)
  | eq ↦ none
]

-- What a run knows of its node. `connected` is the pool's answer when it is asked.
pub record Local (r : Rsa) : Type 0 where
  pub rsa_private_key : r.PrivateKey
  pub rsa_public_key : r.PublicKey
  pub peer_id : PeerId
  pub addr : String
  pub connected : PeerId → Bool

-- The node, when its pool answers so.
abbrev pub asking : {r : Rsa} → (PeerId → Bool) → Local r → Local r
asking connected self = record self { connected = connected }

-- The random bytes of a run.
pub record Random : Type 0 where
  pub nonce : List ℕ
  pub aes_key_part : List ℕ
  pub oaep_seed : ℕ

module _ {E : Type 0} (wire : Parcel E Packet) (r : Rsa) (sha256 : List ℕ → List ℕ) where
  abbrev pub H : Type 0 → Type 0
  H A = M (HandshakeError E r.Error) A

  unfoldable pub write : List ℕ → H (Unit {0})
  write p io = (ok tt, record io { outbound = io.outbound ++ frame p })

  unfoldable pub send : Packet → H (Unit {0})
  unfolding write
  send p = do bytes ← lift from_protocol (wire.raw_bytes p); write bytes

  abbrev pub received : FrameRead → H (List ℕ)
  received (Frame.packet p rest) io = (ok p, record io { inbound = rest })
  received Frame.too_large io = (err packet_too_large, io)
  received Frame.unexpected_eof io = (err (from_io unexpected_eof), io)

  unfoldable pub read : H (List ℕ)
  read io = received (read_frame io.inbound) io

  unfoldable pub receive : H Packet
  unfolding read
  receive = do bytes ← read; lift from_protocol (wire.from_raw_bytes bytes)

  -- Their protocol version.
  abbrev pub accept_version : Packet → H (Unit {0})
  accept_version (Packet.protocol_version p) =
      ensure (contains_version protocol_version p.supported_versions) unsupported_version
  accept_version (Packet.quit p) = fail (peer_quitted p)
  accept_version _ = fail unexpected_packet

  -- Their public key, and the nonce to send back.
  abbrev pub accept_rsa : Packet → H (r.PublicKey × List ℕ)
  accept_rsa (Packet.init_rsa p) = do
    let n = r.from_bytes_le p.rsa_public_key_modulus
    let e = r.from_bytes_le p.rsa_public_key_exponent
    ensure (length p.nonce == 16) invalid_nonce
    key ← lift from_rsa (r.public_key n e)
    pure (key, p.nonce)
  accept_rsa (Packet.quit p) = fail (peer_quitted p)
  accept_rsa _ = fail unexpected_packet

  -- Their half of the AES key, behind a copy of our nonce.
  abbrev pub accept_aes : List ℕ → Packet → H (List ℕ)
  accept_aes our_nonce (Packet.init_aes p) = do
    ensure (length p.aes_key_part == 16) invalid_aes_key_lenght
    ensure (eq_bytes p.nonce our_nonce) invalid_nonce_copy
    pure p.aes_key_part
  accept_aes our_nonce (Packet.quit p) = fail (peer_quitted p)
  accept_aes our_nonce _ = fail unexpected_packet

  -- Their address.
  abbrev pub accept_ehlo : Packet → H String
  accept_ehlo (Packet.ehlo p) = pure p.addr
  accept_ehlo (Packet.quit p) = fail (peer_quitted p)
  accept_ehlo _ = fail unexpected_packet

  -- "Prevent invalid connections".
  abbrev pub as_expected : Option PeerId → PeerId → Bool
  as_expected none theirs = true
  as_expected (some expected) theirs = eq_peer expected theirs

  unfoldable pub check_peer : Local r → Option PeerId → PeerId → H (Unit {0})
  check_peer self expected_peer_id their_peer_id = do
    ensure (not (eq_peer self.peer_id their_peer_id)) same_peer
    ensure (as_expected expected_peer_id their_peer_id) identity_mismatch
    ensure (not (self.connected their_peer_id)) already_connected

  abbrev pub our_version : Packet
  our_version =
      Packet.protocol_version
        (record { protocol = "tewta"; supported_versions = protocol_version ∷ [] })

  abbrev pub our_rsa : Local r → Random → Packet
  our_rsa self random = Packet.init_rsa (record {
    rsa_public_key_exponent = r.to_bytes_le (r.e self.rsa_public_key);
    rsa_public_key_modulus = r.to_bytes_le (r.n self.rsa_public_key);
    nonce = random.nonce;
  })

  abbrev pub our_aes : Random → List ℕ → Packet
  our_aes random their_nonce =
      Packet.init_aes (record { aes_key_part = random.aes_key_part; nonce = their_nonce })

  abbrev pub our_ehlo : Local r → Packet
  our_ehlo self = Packet.ehlo (record { addr = self.addr })

  -- The versions, then the public keys.
  unfoldable pub exchange_keys : Local r → Random → H (r.PublicKey × List ℕ)
  exchange_keys self random = do
    send our_version
    theirs ← receive
    accept_version theirs
    send (our_rsa self random)
    theirs ← receive
    accept_rsa theirs

  -- Our half of the AES key under their public key, and theirs under ours.
  unfoldable pub exchange_aes_parts : Local r → Random → r.PublicKey → List ℕ → H (List ℕ)
  exchange_aes_parts self random their_public_key their_nonce = do
    plain ← lift from_protocol (wire.raw_bytes (our_aes random their_nonce))
    cipher ← lift from_rsa (r.encrypt their_public_key random.oaep_seed plain)
    write cipher
    cipher ← read
    plain ← lift from_rsa (r.decrypt self.rsa_private_key cipher)
    theirs ← lift from_protocol (wire.from_raw_bytes plain)
    accept_aes random.nonce theirs

  unfoldable pub exchange_addrs : Local r → H String
  exchange_addrs self = do send (our_ehlo self); theirs ← receive; accept_ehlo theirs

  unfoldable pub handshake_raw : Local r → Random → Option PeerId → H (PeerId × String)
  handshake_raw self random expected_peer_id = do
    (their_public_key, their_nonce) ← exchange_keys self random
    let their_peer_id = peer_id_of r sha256 their_public_key
    check_peer self expected_peer_id their_peer_id
    their_aes_key_part ← exchange_aes_parts self random their_public_key their_nonce
    _ ←
        lift (λ e. e)
          (ok_or (aes_key self.peer_id their_peer_id random.aes_key_part their_aes_key_part)
            same_peer)
    addr ← exchange_addrs self
    pure (their_peer_id, addr)
