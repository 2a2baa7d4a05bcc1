-- ===== src/Tests/Histories.antt =====
-- A node that accepts a connection, pings, stores a value and looks one up.
use tewta.Base.{false, none, List, [], ◌∷◌}
use tewta.Node.Connections.{ConnectionPool}
use tewta.Packets.{Packet}
use tewta.PeerMap
use tewta.Node.Dispatch.{Node}
use tewta.Node.History.Tasks.{Task, receives, accepts, pings, stores}
use tewta.Node.Life.{new}
use tewta.Tests.Codec.{wire}
use tewta.Tests.Handshakes.{random, start, done}
use tewta.Tests.Nodes.{kept_order, value}
use tewta.Tests.Samples.{peer, digest, plain_rsa}

abbrev newborn : Node
newborn = new plain_rsa digest (5 ∷ [], 5 ∷ []) "local-1"

abbrev later_tasks : List (Task wire kept_order plain_rsa digest)
later_tasks =
    pings (peer 6) 70 [] ((peer 6, Packet.pong (record { ping_id = 0 })) ∷ [])
    ∷ stores (peer 4) value
    ∷ receives ((peer 6, Packet.ping (record { ping_id = 1 })) ∷ [])
    ∷ []

abbrev tasks : List (Task wire kept_order plain_rsa digest)
tasks = accepts (λ p. false) (random 5) false start ∷ later_tasks

-- The pool once the peer is in.
abbrev joined_pool : ConnectionPool
joined_pool = record {
  connections =
      (
        peer 6,
        record {
          addr = "local-1";
          write_stream = done.outbound;
          ping_nanos = none;
          read_stream_task = record { peer_id = peer 6; inbound = [] };
        },
      )
      ∷ [];
  our_peer_id = peer 5;
}

abbrev empty_pool : ConnectionPool
empty_pool = record { connections = []; our_peer_id = peer 5 }

abbrev introduced : Node
introduced = record newborn { connections = joined_pool }
