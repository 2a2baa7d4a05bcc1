-- ===== src/Node/Life.antt =====
-- `Node::new`, `bootstrap_peers`, `on_connection` and `on_command` of src/node/node.rs. The tasks
-- that `new` spawns are the functions of this file and of its neighbours: `bootstrap_peers`, the
-- ping of each peer, and `refresh_buckets`.
pub mod Bootstrap
use Prim.Native.String.{String}
use tewta.Base.{
  ℕ, zero, suc, Bool, true, false, Option, none, some, List, leb, if◌then◌else◌, and_then,
}
use tewta.Base.Result.{Result, ok, err, Fault, failed, panicked, out_of_fuel}
use tewta.Commands.{Command}
use tewta.Crypto.{Rsa, Parcel}
use tewta.Handshake.{Local, Random, asking}
use tewta.Handshake.Error.{HandshakeError}
use tewta.Handshake.Session.{Io}
use tewta.Logging
use tewta.Node.Connections.{ConnectionPool, len, refresh_buckets}
use tewta.Node.Connections
use tewta.Node.Counter
use tewta.Node.Dht
use tewta.Node.Dispatch.{Node}
use tewta.Node.Events
use tewta.Node.Events.{listen}
use tewta.Node.Join.{Joined, handshake}
use tewta.Node.Ping.{ping_command}
use tewta.Packets.{Packet}
use tewta.Peer.{PeerId, KeyId}
use tewta.Signed.{peer_id_of}

-- A node, before its tasks run. One of them listens for disconnections from the start.
unfoldable pub new : (r : Rsa) → (List ℕ → List ℕ) → r.PublicKey → String → Node
new r sha256 public_key addr = record {
  connections = Connections.new (peer_id_of r sha256 public_key);
  dht = Dht.default;
  peer_id = peer_id_of r sha256 public_key;
  addr = addr;
  ll = Logging.from 1;
  ping_id_counter = Counter.default;
  discover_peer_req_counter = Counter.default;
  dht_req_counter = Counter.default;
  on_ping_packet = Events.default;
  on_pong_packet = Events.default;
  on_quit_packet = Events.default;
  on_discover_peers_packet = Events.default;
  on_discover_peers_resp_packet = Events.default;
  on_find_dht_value_packet = Events.default;
  on_find_dht_value_resp_packet = Events.default;
  on_find_peer_packet = Events.default;
  on_find_peer_resp_packet = Events.default;
  on_store_dht_value_packet = Events.default;
  on_disconnect = listen Events.default;
}

module _ {E : Type 0} (wire : Parcel E Packet) (r : Rsa) (sha256 : List ℕ → List ℕ) where
  -- `none` is a panic of the handshake.
  abbrev pub entered :
      Result (Fault (HandshakeError E r.Error)) PeerId → Node → Option (Node × Option PeerId)
  entered (ok peer_id) self = some (self, some peer_id)
  entered (err (failed e)) self = some (self, none)
  entered (err panicked) self = none
  entered (err out_of_fuel) self = none

  -- The peer that the handshake has taken in, if any. A handshake that does not end in time is
  -- dropped, and has not reached the pool.
  unfoldable pub on_connection :
      Local r → Random → (timed_out : Bool) → Io → Node → Option (Node × Option PeerId)
  on_connection keys random true io self = some (self, none)
  on_connection keys random false io self =
      let joined = handshake wire r sha256 keys random none io self.connections in
      entered joined.result (record self { connections = joined.pool })

  -- A round: the stream that `connect` gives for the address that is drawn, if it gives one, and
  -- what the pool answers to the handshake.
  pub record Round : Type 0 where
    pub stream : Option Io
    pub timed_out : Bool
    pub random : Random
    pub connected : PeerId → Bool

  abbrev pub attempt : Local r → Round → Option Io → Node → Option Node
  attempt keys round none self = some self
  attempt keys round (some io) self =
      and_then (on_connection (asking round.connected keys) round.random round.timed_out io self)
        (λ (run : Node × Option PeerId). some run.0)

  -- `for _ in 0..node_count`, with `rounds` giving each round.
  unfoldable pub bootstrap_peers : Local r → (ℕ → Round) → (node_count : ℕ) → Node → Option Node
  bootstrap_peers keys rounds zero self = some self
  bootstrap_peers keys rounds (suc n) self =
      and_then (attempt keys (rounds n) (rounds n).stream self) (λ self.
        let rest = bootstrap_peers keys rounds n self in
        if leb 5 (len self.connections) then some self else rest)

-- What a command shows or calls.
pub data Report : Type 0 where
  conn_count : ℕ → Report
  debug_buckets : Report
  buckets_refreshed : List (ℕ × ℕ) → Report
  ping_shown : Option ℕ → Report
  silent : Report
  own_id : PeerId → Report
  looks_up : KeyId → Report
  shown : Command → Report

module _ {E : Type 0} (wire : Parcel E Packet)
    (shuffle : List (PeerId × String) → List (PeerId × String)) where
  abbrev pub reported : Option (Node × Option ℕ) → Option (Node × Report)
  reported none = none
  reported (some (self, millis)) = some (self, ping_shown millis)

  -- The call of `dht_lookup` is named, whose result is dropped. `nanos`, `before` and `during` are
  -- those of a ping.
  unfoldable pub on_command :
      ℕ → (before during : List (PeerId × Packet)) → Command → Node → Option (Node × Report)
  on_command nanos before during Command.conns self = some (self, conn_count (len self.connections))
  on_command nanos before during Command.buckets self = some (self, debug_buckets)
  on_command nanos before during Command.refresh_buckets self =
      some (self, buckets_refreshed (refresh_buckets self.connections))
  on_command nanos before during (Command.ping node_id) self =
      reported (ping_command wire shuffle node_id nanos before during self)
  on_command nanos before during (Command.set_log_level level) self =
      some (record self { ll = Logging.set level self.ll }, silent)
  on_command nanos before during Command.id self = some (self, own_id self.peer_id)
  on_command nanos before during (Command.find key) self = some (self, looks_up key)
  on_command nanos before during c self = some (self, shown c)
