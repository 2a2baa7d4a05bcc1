-- ===== src/Lib.antt =====
-- A node of a peer-to-peer network (Rust, edition 2021). Nodes meet over streams, prove the
-- possession of an RSA key in a handshake, keep one another in a pool of connections that is cut
-- into Kademlia buckets, answer one another's packets, look for peers, and store values by key.
-- Beside it stand the parser of the test console, a hash tree of segments, and the in-memory
-- streams and registry of a test network.
--
-- The parts and their files:
--   Peer, Peer/Text: src/peers.rs. An identifier is the list of its 32 bytes; distance, matches,
--     bucket, generate_in_bucket, cmp, fmt and from_str carry their names. A loop over an index is
--     recursion on the bytes.
--   Discovery: the mask that discover_peers_in_bucket in src/node/discovery.rs asks with.
--   Segmented: src/segmented_array.rs, as two mutual types. from_vec has one round of fuel for each
--     item, since a round at least halves the number of segments; the inner loop has the length of
--     its iterator.
--   Commands: src/commands. The loop over items has one round for each byte, since a round reads a
--     byte or more. Commands/Channel is the channel that brings the commands of the console.
--   Account: src/account/account.rs, data without operations. Logging: the levels of
--     src/logging.rs.
--   Stream: src/stream.rs. A poll is two sections, one for each lock it takes; Stream/Schedule is
--     the relation of their interleavings in one direction, over all sequences of steps.
--   Network: connect of src/lib.rs. A number of n has at most n + 1 digits, which is the fuel of
--     digits.
--   Signed, Crypto: src/signed_data.rs. Crypto holds what stands for the crates rsa and protocol:
--     records of operations, and what is documented of them as hypotheses. SHA-256 is a function of
--     bytes that every definition takes.
--   Packets: src/packets.rs.
--   Frame: the length prefix that src/node/connections.rs and src/node/handshake.rs write and read.
--   Handshake: handshake_raw of src/node/handshake.rs over the two halves of a stream: the bytes to
--     read and the bytes written. Handshake/Session has the steps and their sequence. Node/Join is
--     handshake itself, which enters the peer in the pool or sends a quit packet.
--   PeerMap: BTreeMap of the standard library, by its entries in ascending order.
--   Node/Connections: the pool of src/node/connections.rs, each method one step under the lock.
--     Node/Connections/Reading is the task that insert spawns; the length of the stream is its fuel,
--     since a frame takes four bytes.
--   Node/Counter, Node/Events, Node/Dht: src/node/counter.rs, events.rs, and the store of dht.rs.
--   Node/Closest, Node/Dispatch: on_packet of src/node/node.rs, with the sort by distance.
--   Node/Lookup: dht_lookup of src/node/dht.rs. Which lookup ends next, and with what, is an event;
--     a run is a list of events. The loop that fills up has KADEMLIA_ALPHA rounds, since a round
--     adds a lookup.
--   Node/Arrivals: packets that on_packet handles while a task waits for a response, and that wait.
--   Node/Provider: the two lookups on a single provider, dht_lookup_on_single_provider and
--     dht_lookup_on_already_connected_provider of src/node/dht.rs.
--   Node/Discover: the loop of discover_peers_in_bucket. What the others do is a parameter; a round
--     for every provider and every contact that is named is enough. Node/Discover/Loop is the
--     function on the node: its streams, random bytes and arriving packets are given, one for each
--     turn, and it says where it stands when they are used up.
--   Node/Ping, Node/Life: the ping of a peer, Node::new, bootstrap_peers, on_connection and
--     on_command of src/node/node.rs.
--   Node/History: the relation of the smallest steps that tasks take on the node, each under the lock
--     of the pool once, in any interleaving. Node/History/Tasks runs whole tasks one after the other.
--   Base: names of the library, lists measured by native numbers, bits, results. Tests: samples, a
--     small wire format, and the theorems at concrete inputs.
--
-- They meet as in the program: Node/Dispatch calls Node/Connections, Node/Dht, Node/Closest and
-- Node/Events; Node/Join runs Handshake and inserts in Node/Connections; the reading task gives
-- packets to Node/Dispatch, which is how Node/Arrivals calls it. Node/Provider, Node/Discover/Loop,
-- Node/Ping and Node/Life run on the node of Node/Dispatch: they connect by Node/Join, send through
-- Node/Connections, and hear of answers by Node/Arrivals. Node/Connections/OverStream lets the
-- pool write into Stream and the reading task read from it; Network hands out its streams.
--
-- A panic is a value: none, or a fault beside the errors. Lengths and numbers are natural numbers;
-- where the source wraps around, the remainder is written out. Writes to a stream do not fail.
--
-- Not modelled: what is printed and its format, debug_buckets among it; the weak references and the
-- spawning of tasks, whose bodies are functions here; the intervals at which the tasks of Node::new
-- run; main and the programs under tests; the arrays of src/util.rs, which are overwritten before
-- they are read; the hashes of the items of a segmented array, a parameter. In the functions that
-- wait for a response, the packets that arrive are handled, and no other task opens or closes a
-- listener or starts a handshake meanwhile; Node/History is where tasks interleave. on_command
-- names the lookup it starts and does not run it. Of tokio, clap, rand, rsa, sha2 and protocol only
-- what is called is a parameter.
pub mod Account
pub mod Base
pub mod Peer
pub mod Discovery
pub mod Segmented
pub mod Commands
pub mod Crypto
pub mod Signed
pub mod Stream
pub mod Packets
pub mod Frame
pub mod PeerMap
pub mod Handshake
pub mod Logging
pub mod Network
pub mod Node
pub mod Tests
