-- ===== src/Packets.antt =====
-- src/packets.rs, and the data that packets carry: src/account/snapshot.rs and the DHT values of
-- src/node/dht.rs. A text is a native string, a `Vec<u8>` a list of numbers below 256.
use Prim.Native.String.{String}
use tewta.Base.{ℕ, Bool, Option, List}
use tewta.Peer.{PeerId, KeyId}
use tewta.Signed.{SignedData}

pub record AccountSnapshotDescriptor : Type 0 where
  pub timestamp : ℕ
  pub hash : List ℕ

pub record DhtValue : Type 0 where
  pub cached_addr : Option String
  pub account_snapshot_desc : SignedData AccountSnapshotDescriptor

pub record ProtocolVersionPacket : Type 0 where
  pub protocol : String
  pub supported_versions : List (ℕ × ℕ × ℕ)

pub record InitRsaPacket : Type 0 where
  pub rsa_public_key_exponent : List ℕ
  pub rsa_public_key_modulus : List ℕ
  pub nonce : List ℕ

pub record InitAesPacket : Type 0 where
  pub aes_key_part : List ℕ
  pub nonce : List ℕ

pub record EhloPacket : Type 0 where
  pub addr : String

pub record DiscoverPeersPacket : Type 0 where
  pub request_id : ℕ
  pub target : PeerId
  pub mask : List ℕ
  pub limit : ℕ

pub record DiscoverPeersRespPacket : Type 0 where
  pub request_id : ℕ
  pub peers : List (PeerId × String)

pub record FindDhtValuePacket : Type 0 where
  pub request_id : ℕ
  pub key : KeyId
  pub limit_peers : ℕ
  pub limit_values : ℕ

pub data DhtLookupResult : Type 0 where
  found : List DhtValue → DhtLookupResult
  not_found : List (PeerId × String) → DhtLookupResult

pub record FindDhtValueRespPacket : Type 0 where
  pub request_id : ℕ
  pub result : DhtLookupResult

pub record FindPeerPacket : Type 0 where
  pub request_id : ℕ
  pub peer_id : PeerId
  pub limit : ℕ

pub record FindPeerRespPacket : Type 0 where
  pub request_id : ℕ
  pub peers : List (PeerId × String)

pub record StoreDhtValuePacket : Type 0 where
  pub key_id : KeyId
  pub value : SignedData DhtValue

pub record PingPacket : Type 0 where
  pub ping_id : ℕ

pub record QuitPacket : Type 0 where
  pub reason_code : String
  pub message : Option String
  pub report_fault : Bool

pub data Packet : Type 0 where
  protocol_version : ProtocolVersionPacket → Packet
  init_rsa : InitRsaPacket → Packet
  init_aes : InitAesPacket → Packet
  ehlo : EhloPacket → Packet
  discover_peers : DiscoverPeersPacket → Packet
  discover_peers_resp : DiscoverPeersRespPacket → Packet
  find_dht_value : FindDhtValuePacket → Packet
  find_dht_value_resp : FindDhtValueRespPacket → Packet
  find_peer : FindPeerPacket → Packet
  find_peer_resp : FindPeerRespPacket → Packet
  store_dht_value : StoreDhtValuePacket → Packet
  ping : PingPacket → Packet
  pong : PingPacket → Packet
  quit : QuitPacket → Packet

-- The trait `ToQuit`: what it asks of an error, and the packet that it makes of it.
pub record ToQuit (E : Type 0) : Type 0 where
  pub reason_code : E → String
  pub message : E → Option String
  pub report_fault : E → Bool

abbrev pub to_quit : {E : Type 0} → ToQuit E → E → QuitPacket
to_quit t e = record {
  reason_code = t.reason_code e;
  message = t.message e;
  report_fault = t.report_fault e;
}
