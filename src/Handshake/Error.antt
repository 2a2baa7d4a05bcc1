-- ===== src/Handshake/Error.antt =====
-- The errors of src/node/handshake.rs and the quit packet that each is reported by.
use Prim.Native.String.{String}
use tewta.Base.{Bool, true, false, none}
use tewta.Packets.{QuitPacket, ToQuit}

-- The kinds of `std::io::Error` that reading meets.
pub data IoError : Type 0 where
  unexpected_eof : IoError

pub data HandshakeError (ProtocolError RsaError : Type 0) : Type 0 where
  unsupported_version unexpected_packet invalid_aes_key_lenght :
      HandshakeError ProtocolError RsaError
  invalid_nonce invalid_nonce_copy packet_too_large : HandshakeError ProtocolError RsaError
  already_connected same_peer identity_mismatch : HandshakeError ProtocolError RsaError
  peer_quitted : QuitPacket → HandshakeError ProtocolError RsaError
  protocol_error : ProtocolError → HandshakeError ProtocolError RsaError
  rsa_error : RsaError → HandshakeError ProtocolError RsaError
  io_error : IoError → HandshakeError ProtocolError RsaError
  stream_reunition_failure : HandshakeError ProtocolError RsaError

module _ {P R : Type 0} where
  -- The conversions of `?`.
  abbrev pub from_io : IoError → HandshakeError P R
  from_io e = io_error e

  abbrev pub from_protocol : P → HandshakeError P R
  from_protocol e = protocol_error e

  abbrev pub from_rsa : R → HandshakeError P R
  from_rsa e = rsa_error e

  unfoldable pub reason_code : HandshakeError P R → String
  reason_code unsupported_version = "HandshakeError::UnsupportedVersion"
  reason_code unexpected_packet = "HandshakeError::UnexpectedPacket"
  reason_code invalid_aes_key_lenght = "HandshakeError::InvalidAesKeyLenght"
  reason_code invalid_nonce = "HandshakeError::InvalidNonce"
  reason_code invalid_nonce_copy = "HandshakeError::InvalidNonceCopy"
  reason_code packet_too_large = "HandshakeError::PacketTooLarge"
  reason_code already_connected = "HandshakeError::AlreadyConnected"
  reason_code same_peer = "HandshakeError::SamePeer"
  reason_code identity_mismatch = "HandshakeError::IdentityMismatch"
  reason_code (peer_quitted p) = "HandshakeError::PeerQuitted"
  reason_code (protocol_error e) = "HandshakeError::ProtocolError"
  reason_code (rsa_error e) = "HandshakeError::RsaError"
  reason_code (io_error e) = "HandshakeError::IoError"
  reason_code stream_reunition_failure = "HandshakeError::StreamReunitionFailure"

  unfoldable pub report_fault : HandshakeError P R → Bool
  report_fault unexpected_packet = true
  report_fault invalid_nonce = true
  report_fault invalid_nonce_copy = true
  report_fault (protocol_error e) = true
  report_fault _ = false

  -- `ToQuit for HandshakeError`.
  abbrev pub handshake_to_quit : ToQuit (HandshakeError P R)
  handshake_to_quit = record {
    reason_code = reason_code;
    message = λ _. none;
    report_fault = report_fault;
  }
