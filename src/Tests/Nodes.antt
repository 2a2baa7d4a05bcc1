-- ===== src/Tests/Nodes.antt =====
-- The parts of a node.
use Prim.Native.String.{String}
use tewta.Base.{ℕ, ◌≡◌, ◌≢◌, refl, arith, true, false, none, some, List, [], ◌∷◌, ◌++◌, filter}
use tewta.Logging
use tewta.Node.Closest.{closest}
use tewta.Node.Closest.Laws.{Division, closest-Division}
use tewta.Node.Connections.{PeerInfo, ConnectionPool, refresh_buckets}
use tewta.Node.Connections.Buckets.{has_room, up_to_empty, buckets_from, refresh_buckets_lem}
use tewta.Node.Connections.Delivery.{Sendable}
use tewta.Node.Counter
use tewta.Node.Counter.{next, advance, next_distinct}
use tewta.Node.Dht
use tewta.Node.Dht.{DhtStore}
use tewta.Node.Dht.Laws.{values, get-set}
use tewta.Node.Dispatch.{Node}
use tewta.Node.Events
use tewta.Node.Events.{Channel, EventListeners, event}
use tewta.Packets.{Packet, ping, DhtValue, DiscoverPeersPacket}
use tewta.Peer.{PeerId, cmp}
use tewta.PeerMap
use tewta.PeerMap.{IsSorted}
use tewta.Tests.Codec.{wire, wire-IsParcel}
use tewta.Tests.Samples.{peer}

abbrev pub info : PeerId → PeerInfo
info id = record {
  addr = "local-9";
  write_stream = 1 ∷ [];
  ping_nanos = none;
  read_stream_task = record { peer_id = id; inbound = [] };
}

abbrev pub pool : ConnectionPool
pool = record {
  connections = (peer 9, info (peer 9)) ∷ (peer 130, info (peer 130)) ∷ [];
  our_peer_id = peer 7;
}

pub pool-IsSorted : IsSorted pool.connections
unfolding cmp
pool-IsSorted = ((refl, tt), (tt, tt))

pub in_pool : PeerMap.get (peer 9) pool.connections ≡ some (info (peer 9))
unfolding PeerMap.get cmp
in_pool = refl

pub ping-Sendable : (i : ℕ) → Sendable wire wire-IsParcel (ping (record { ping_id = i }))
ping-Sendable i = record { not_quit = refl; bytes = 4 ∷ i ∷ []; raw = refl; fits = omega arith }

abbrev pub pings : List Packet
pings = ping (record { ping_id = 1 }) ∷ ping (record { ping_id = 2 }) ∷ []

abbrev request : DiscoverPeersPacket
request = record { request_id = 5; target = peer 9; mask = 0xFF ∷ []; limit = 1 }

abbrev pub kept_order : List (PeerId × String) → List (PeerId × String)
kept_order peers = peers

refresh_buckets_lem_example :
    refresh_buckets pool ≡ filter (has_room pool) (up_to_empty pool (buckets_from pool 0 128))
refresh_buckets_lem_example = refresh_buckets_lem pool

abbrev contacts : List (PeerId × String)
contacts = (peer 130, "local-1") ∷ (peer 9, "local-2") ∷ []

closest-Division_example : Division (peer 7) 1 contacts (closest (peer 7) 1 contacts)
closest-Division_example = closest-Division (peer 7) 1 contacts

abbrev pub value : DhtValue
value = record {
  cached_addr = some "local-9";
  account_snapshot_desc = record {
    payload = record { timestamp = 1; hash = [] };
    rsa_public_key_exponent = [];
    rsa_public_key_modulus = [];
    signature = [];
  };
}

abbrev pub store : DhtStore
store = record { table = (peer 9, []) ∷ [] }

get-set_example :
    ((Dht.get (peer 9) (Dht.set (peer 9) value store)).0
      ≡ some (values (peer 9) store ++ value ∷ []))
    × ((q : PeerId)
        → q ≢ peer 9
        → (Dht.get q (Dht.set (peer 9) value store)).0 ≡ (Dht.get q store).0)
get-set_example = get-set (peer 9) value store

abbrev channels : EventListeners ℕ
channels = record {
  listeners =
      record { receiver_dropped = false; queue = [] }
      ∷ record { receiver_dropped = true; queue = [] }
      ∷ [];
}

abbrev pub node : Node
node = record {
  connections = pool;
  dht = store;
  peer_id = peer 0;
  addr = "local-0";
  ll = Logging.from 1;
  ping_id_counter = Counter.default;
  discover_peer_req_counter = Counter.default;
  dht_req_counter = Counter.default;
  on_ping_packet = Events.default;
  on_pong_packet = Events.default;
  on_quit_packet = Events.default;
  on_discover_peers_packet = Events.default;
  on_discover_peers_resp_packet = Events.default;
  on_find_dht_value_packet = Events.default;
  on_find_dht_value_resp_packet = Events.default;
  on_find_peer_packet = Events.default;
  on_find_peer_resp_packet = Events.default;
  on_store_dht_value_packet = Events.default;
  on_disconnect = Events.default;
}

abbrev a_ping : Packet
a_ping = ping (record { ping_id = 1 })
