-- ===== src/Tests/Lives.antt =====
-- A node that pings, looks up, discovers and bootstraps.
use Prim.Native.String.{String}
use tewta.Base.{ℕ, ◌+◌, ◌≡◌, refl, false, Option, none, some, List, [], ◌∷◌, ◌^◌, ◌<◌, ◌⊎◌, drop}
use tewta.Base.Result.{Result, ok}
use tewta.Crypto.{Parcel}
use tewta.Handshake.Session.{Io}
use tewta.Network.{connect, local_addr, is_local, parse_usize, panicked}
use tewta.Network.Reaches.{Served, connect-Served}
use tewta.Node.Arrivals.{
  on_packets, received, await_response, listens_for_responses, listens_for_peers, listens_for_pongs,
  lookup_responses, peers_responses, pongs,
}
use tewta.Node.Arrivals.Heard.{on_packets-received}
use tewta.Node.Connections.{len, contains}
use tewta.Node.Discover.Loop.{Search, Input, discover_peers_in_bucket}
use tewta.Node.Discover.Loop.Bounds.{Keeps, lacking, discover_peers_in_bucket_bounds}
use tewta.Node.Dispatch.{Node}
use tewta.Node.Events.{Channel}
use tewta.Node.Life.{Round, bootstrap_peers}
use tewta.Node.Life.Bootstrap.{Filled, bootstrap_peers_bounds}
use tewta.Node.Ping.{ping_id_of, shown, ping_peer, ping_command}
use tewta.Node.Ping.Outcomes.{IsPinged, waited, ping_peer-IsPinged}
use tewta.Node.Provider.{dht_lookup_on_single_provider}
use tewta.Node.Provider.Answers.{IsResponse, IsAnswer, dht_lookup_on_single_provider-IsAnswer}
use tewta.Packets.{Packet, PingPacket, not_found}
use tewta.Peer.{PeerId}
use tewta.Stream.{TestStream}
use tewta.Tests.Codec.{wire}
use tewta.Tests.Handshakes.{local, random, start}
use tewta.Tests.Nodes.{node, kept_order, pool-IsSorted}
use tewta.Tests.Samples.{peer, digest, plain_rsa}

-- A pong and the response to a lookup, both with the number 0, from peer 9, and a pong of another.
abbrev pub arrivals : List (PeerId × Packet)
arrivals =
    (peer 130, Packet.pong (record { ping_id = 0 }))
    ∷ (peer 9, Packet.pong (record { ping_id = 0 }))
    ∷ (peer 9, Packet.find_dht_value_resp (record { request_id = 0; result = not_found [] }))
    ∷ []

on_packets-received_example :
    (received
        (on_packets wire kept_order arrivals
          (listens_for_responses node)).on_find_dht_value_resp_packet
      ≡ lookup_responses arrivals)
    × (received
          (on_packets wire kept_order arrivals
            (listens_for_peers node)).on_discover_peers_resp_packet
        ≡ peers_responses arrivals)
    × (received (on_packets wire kept_order arrivals (listens_for_pongs node)).on_pong_packet
        ≡ pongs arrivals)
on_packets-received_example = on_packets-received wire kept_order arrivals node

abbrev pub no_stream : String → Option Io
no_stream addr = none

dht_lookup_on_single_provider-IsAnswer_example :
    IsAnswer wire kept_order plain_rsa digest node
      (peer 9)
      arrivals
      (contains (peer 9) node.connections)
      (dht_lookup_on_single_provider wire kept_order plain_rsa digest no_stream
        (local 5)
        (random 5)
        (peer 4)
        (peer 9, "local-9")
        arrivals
        node)
dht_lookup_on_single_provider-IsAnswer_example =
    dht_lookup_on_single_provider-IsAnswer wire kept_order plain_rsa digest no_stream (local 5)
      (random 5) (peer 4) (peer 9) "local-9" arrivals node pool-IsSorted

ping_peer-IsPinged_example :
    let answer = await_response ping_id_of 0 (peer 9) (pongs []) in
    ((after : Node) × (ping_peer wire kept_order (peer 9) 70 arrivals [] node ≡ some after)
      × IsPinged wire kept_order
          (peer 9)
          70
          (waited wire kept_order (peer 9) arrivals [] node)
          after
          answer)
    × ((after : Node) × (ping_command wire kept_order (peer 9) 70 arrivals [] node
          ≡ some (after, shown wire kept_order 70 answer))
        × (after.connections ≡ (waited wire kept_order (peer 9) arrivals [] node).connections))
    × ((pong : PingPacket) → answer ≡ some pong → IsResponse ping_id_of 0 (peer 9) (pongs []) pong)
ping_peer-IsPinged_example =
    ping_peer-IsPinged wire kept_order (peer 9) 70 arrivals [] node pool-IsSorted

-- The input of a handshake that succeeds, with the expected peer or any.
abbrev input : Input
input = record {
  stream = some start;
  random = random 5;
  connected = λ p. false;
  arrivals = arrivals;
}

abbrev search : Search
search = record {
  node = node;
  target = peer 6;
  mask = [];
  loop = record {
    providers = peer 9 ∷ [];
    candidates = (peer 6, "local-6") ∷ [];
    old_candidates = [];
    missing_peers = 8;
  };
}

discover_peers_in_bucket_bounds_example :
    Keeps
      (len node.connections + lacking node.connections 3 1)
      (discover_peers_in_bucket wire kept_order plain_rsa digest (local 5) 3 1 (input ∷ []) node)
discover_peers_in_bucket_bounds_example =
    discover_peers_in_bucket_bounds wire kept_order plain_rsa digest (local 5) 3 1 (input ∷ []) node
      pool-IsSorted

abbrev write_quit : Packet → Result (Unit {0}) (List ℕ)
write_quit (Packet.quit p) = ok (9 ∷ [])
write_quit p = wire.raw_bytes p

-- The wire format with quit packets, which hold nothing.
abbrev quit_wire : Parcel (Unit {0}) Packet
quit_wire = record { raw_bytes = λ p. write_quit p; from_raw_bytes = wire.from_raw_bytes }

abbrev rounds : ℕ → Round quit_wire plain_rsa digest
rounds n = record {
  stream = some start;
  timed_out = false;
  random = random 5;
  connected = λ p. false;
}

bootstrap_peers_bounds_example :
    (after : Node) × (bootstrap_peers quit_wire plain_rsa digest (local 5) rounds 3 node
      ≡ some after)
    × Filled 3 node after
bootstrap_peers_bounds_example =
    bootstrap_peers_bounds quit_wire plain_rsa digest (9 ∷ []) refl (local 5) rounds 3 node
      pool-IsSorted

abbrev listeners : List (Channel TestStream)
listeners = record { receiver_dropped = false; queue = [] } ∷ []

connect-Served_example :
    ((n : ℕ) → n < 2 ^ 64 → Served 0 9 n listeners (connect 0 9 (local_addr n) listeners))
    × ((addr : List ℕ)
        → (is_local addr ≡ false) ⊎ (parse_usize (drop 6 addr) ≡ none)
        → connect 0 9 addr listeners ≡ panicked)
connect-Served_example = connect-Served 0 9 listeners
