-- ===== src/Node/Connections.antt =====
-- src/node/connections.rs: the pool of connections, a map from peers to what the node holds of each.
-- The lock makes every method one step on the pool. A write to a stream does not fail, and is seen
-- in the bytes of its write half.
pub mod Reading
pub mod Delivery
pub mod Discovery
pub mod Buckets
pub mod OverStream
use Prim.Native.String.{String}
use tewta.Base.{
  ℕ, zero, suc, ◌*◌, ◌/◌, Bool, true, false, Option, none, some, List, [], ◌∷◌, ◌++◌, length,
  erase_idx, map, filter, ltb, leb, ◌==◌, ◌&&◌, min, if◌then◌else◌,
}
use tewta.Base.Result.{Result, ok, err, Fault, failed, panicked}
use tewta.Crypto.{Parcel}
use tewta.Frame.{frame}
use tewta.Node.Events.{EventListeners, event}
use tewta.Packets.{Packet, QuitPacket, DiscoverPeersPacket, DiscoverPeersRespPacket}
use tewta.Peer.{PeerId, matches, bucket}
use tewta.PeerMap
use tewta.PeerMap.{PeerMap}

-- The task that reads from a peer: the peer, and the bytes that come from it.
pub record ReadTask : Type 0 where
  pub peer_id : PeerId
  pub inbound : List ℕ

pub record PeerInfo : Type 0 where
  pub addr : String
  pub write_stream : List ℕ
  pub ping_nanos : Option ℕ
  pub read_stream_task : ReadTask

pub record ConnectionPool : Type 0 where
  pub connections : PeerMap PeerInfo
  pub our_peer_id : PeerId

abbrev pub max_discovery_peers_returned : ℕ
max_discovery_peers_returned = 64

abbrev pub kademlia_bucket_size : ℕ
kademlia_bucket_size = 8

abbrev pub new : PeerId → ConnectionPool
new our_peer_id = record { connections = []; our_peer_id = our_peer_id }

abbrev pub is_quit : Packet → Bool
is_quit (Packet.quit p) = true
is_quit _ = false

abbrev pub written : List ℕ → PeerInfo → PeerInfo
written bytes peer = record peer { write_stream = peer.write_stream ++ frame bytes }

abbrev pub already_connected : Packet
already_connected =
    Packet.quit (record {
      reason_code = "InsertError::AlreadyConnected";
      message = none;
      report_fault = false;
    })

module _ {E : Type 0} (wire : Parcel E Packet) where
  -- A packet that does not serialize, or a peer without connection, is logged and dropped.
  unfoldable pub send_packet_unchecked : PeerId → Packet → ConnectionPool → ConnectionPool
  send_packet_unchecked peer_id p self = elim (wire.raw_bytes p) [
    | err e ↦ self
    | ok bytes ↦ record self {
      connections = PeerMap.modify peer_id (written bytes) self.connections;
    }
  ]

  -- `none` is the panic of the assertion.
  unfoldable pub send_packet : PeerId → Packet → ConnectionPool → Option ConnectionPool
  send_packet peer_id p self =
      if is_quit p then none else some (send_packet_unchecked peer_id p self)

  -- The listeners are those of `on_disconnect`. The removed task is aborted.
  unfoldable pub disconnect :
      PeerId
      → QuitPacket
      → ConnectionPool
      → EventListeners PeerId
      → ConnectionPool × EventListeners PeerId
  unfolding send_packet_unchecked
  disconnect n quit_packet self on_disconnect =
      let self = send_packet_unchecked n (Packet.quit quit_packet) self in
      elim (PeerMap.get n self.connections) [
        | none ↦ (self, on_disconnect)
        | some peer ↦
            (record self { connections = PeerMap.remove n self.connections }, event n on_disconnect)
      ]

  -- `failed w` is `Err(())` with what the write half has then seen, `panicked` the failure of
  -- `expect`.
  unfoldable pub insert :
      PeerId → List ℕ → List ℕ → String → ConnectionPool → Result (Fault (List ℕ)) ConnectionPool
  insert peer_id r w addr self =
      let peer : PeerInfo = record {
        addr = addr;
        write_stream = w;
        ping_nanos = none;
        read_stream_task = record { peer_id = peer_id; inbound = r };
      } in
      if PeerMap.contains_key peer_id self.connections
      then elim (wire.raw_bytes already_connected) [
        | ok p ↦ err (failed (w ++ frame p))
        | err e ↦ err panicked
      ]
      else ok (record self { connections = PeerMap.insert peer_id peer self.connections })

unfoldable pub set_ping : PeerId → ℕ → ConnectionPool → ConnectionPool
set_ping n ping_nanos self = record self {
  connections = PeerMap.modify n (λ p. record p { ping_nanos = some ping_nanos }) self.connections;
}

abbrev pub len : ConnectionPool → ℕ
len self = length self.connections

abbrev pub peers : ConnectionPool → List PeerId
peers self = PeerMap.keys self.connections

abbrev pub with_addr : PeerId × PeerInfo → PeerId × String
with_addr (n, p) = (n, p.addr)

abbrev pub peers_with_addrs : ConnectionPool → List (PeerId × String)
peers_with_addrs self = map with_addr self.connections

unfoldable pub contains : PeerId → ConnectionPool → Bool
contains peer_id self = PeerMap.contains_key peer_id self.connections

abbrev pub is_bucket : ℕ → ℕ → Option (ℕ × ℕ) → Bool
is_bucket level id none = false
is_bucket level id (some (l, i)) = l == level && i == id

unfoldable pub peers_on_bucket : ℕ → ℕ → ConnectionPool → List PeerId
peers_on_bucket bucket_level bucket_id self =
    filter (λ n. is_bucket bucket_level bucket_id (bucket n self.our_peer_id)) (peers self)

abbrev pub is_under : ℕ → Option (ℕ × ℕ) → Bool
is_under level none = false
is_under level (some (l, i)) = leb l level

unfoldable pub peers_on_bucket_and_under : ℕ → ConnectionPool → List PeerId
peers_on_bucket_and_under bucket_level self =
    filter (λ n. is_under bucket_level (bucket n self.our_peer_id)) (peers self)

-- The loop that collects the answers, in the order of the map.
unfoldable pub matching : PeerId → List ℕ → PeerMap PeerInfo → List (PeerId × String)
matching target mask [] = []
matching target mask ((peer_id, peer) ∷ rest) =
    let others = matching target mask rest in
    if matches peer_id target mask then (peer_id, peer.addr) ∷ others else others

-- `while peers.len() > max_len { peers.remove(max_len * 2/3); }`. As fuel, the number of peers is
-- enough; the index is in range.
unfoldable pub shorten {ℓ} : {A : Type ℓ} → ℕ → ℕ → List A → List A
shorten zero max_len peers = peers
shorten (suc fuel) max_len peers =
    let less = shorten fuel max_len (erase_idx peers (max_len * 2 / 3)) in
    if ltb max_len (length peers) then less else peers

-- `shuffle` stands for the order that the crate `rand` draws.
unfoldable pub prepare_discover_peers_response :
    (List (PeerId × String) → List (PeerId × String))
    → DiscoverPeersPacket
    → ConnectionPool
    → DiscoverPeersRespPacket
prepare_discover_peers_response shuffle p self =
    let peers = shuffle (matching p.target p.mask self.connections) in
    let max_len = min p.limit max_discovery_peers_returned in
    record { request_id = p.request_id; peers = shorten (length peers) max_len peers }

-- The buckets of one level for which a discovery is spawned, and if an empty one ends the loops.
unfoldable pub refresh_ids : ConnectionPool → ℕ → List ℕ → List (ℕ × ℕ) × Bool
refresh_ids self bucket_level [] = ([], false)
refresh_ids self bucket_level (bucket_id ∷ ids) =
    let missing = ltb (length (peers_on_bucket bucket_level bucket_id self)) kademlia_bucket_size in
    let spawned = if missing then (bucket_level, bucket_id) ∷ [] else [] in
    let (others, done) = refresh_ids self bucket_level ids in
    if length (peers_on_bucket bucket_level bucket_id self) == 0
    then (spawned, true)
    else (spawned ++ others, done)

unfoldable pub refresh_levels : ConnectionPool → ℕ → ℕ → List (ℕ × ℕ)
refresh_levels self bucket_level zero = []
refresh_levels self bucket_level (suc remaining) =
    let (spawned, done) = refresh_ids self bucket_level (0 ∷ 1 ∷ 2 ∷ []) in
    let others = refresh_levels self (suc bucket_level) remaining in
    if done then spawned else spawned ++ others

-- The arguments of the calls of `discover_peers_in_bucket` that are spawned, in order.
abbrev pub refresh_buckets : ConnectionPool → List (ℕ × ℕ)
refresh_buckets self = refresh_levels self 0 128
