-- ===== src/Node/History/Tasks.antt =====
-- The tasks and calls of a node of src/node, one after the other: each as a whole is a sequence of
-- the steps that its state goes through.
use Prim.Native.String.{String}
use tewta.Base.{ℕ, Bool, Option, none, some, List, [], ◌∷◌, and_then}
use tewta.Commands.{Command}
use tewta.Crypto.{Rsa, Parcel}
use tewta.Handshake.{Local, Random, asking}
use tewta.Handshake.Session.{Io}
use tewta.Node.Arrivals.{on_packets}
use tewta.Node.Dht
use tewta.Node.Discover.Loop.{
  Turn, goes_on, leaves, waits, crashes, Input, discover_peers_in_bucket,
}
use tewta.Node.Dispatch.{Node}
use tewta.Node.Life.{Report, Round, on_connection, bootstrap_peers, on_command}
use tewta.Node.Ping.{ping_peer}
use tewta.Node.Provider.{
  Outcome, done, waiting, panicked, out_of_fuel, dht_lookup_on_single_provider,
}
use tewta.Packets.{Packet, DhtValue}
use tewta.Peer.{PeerId, KeyId}

-- The node as a lookup leaves it, or a discovery.
abbrev pub looked_up : {E R : Type 0} → Outcome E R → Option Node
looked_up (done result self) = some self
looked_up (waiting self) = some self
looked_up panicked = none
looked_up out_of_fuel = none

abbrev pub discovered : Turn → Option Node
discovered (goes_on s) = some s.node
discovered (leaves s) = some s.node
discovered (waits s) = some s.node
discovered crashes = none

module _ {E : Type 0} (wire : Parcel E Packet)
    (shuffle : List (PeerId × String) → List (PeerId × String)) (r : Rsa)
    (sha256 : List ℕ → List ℕ) where
  -- A task, and what it meets: the packets, the streams, the random bytes, and what the pool
  -- answers to a handshake.
  pub data Task : Type 0 where
    receives : List (PeerId × Packet) → Task
    accepts : (PeerId → Bool) → Random → (timed_out : Bool) → Io → Task
    bootstraps : (ℕ → Round wire r sha256) → (node_count : ℕ) → Task
    pings : PeerId → ℕ → (before during : List (PeerId × Packet)) → Task
    looks_up :
        (PeerId → Bool)
        → Random
        → (String → Option Io)
        → KeyId
        → PeerId × String
        → List (PeerId × Packet)
        → Task
    discovers : (bucket_level bucket_id : ℕ) → List Input → Task
    commands : ℕ → (before during : List (PeerId × Packet)) → Command → Task
    stores : KeyId → DhtValue → Task

  module _ (keys : Local r) where
    -- `none` is a panic.
    unfoldable pub run_task : Task → Node → Option Node
    run_task (receives arrivals) self = some (on_packets wire shuffle arrivals self)
    run_task (accepts connected random timed_out io) self =
        and_then (on_connection wire r sha256 (asking connected keys) random timed_out io self)
          (λ (run : Node × Option PeerId). some run.0)
    run_task (bootstraps rounds n) self = bootstrap_peers wire r sha256 keys rounds n self
    run_task (pings peer nanos before during) self =
        ping_peer wire shuffle peer nanos before during self
    run_task (looks_up connected random connect key provider arrivals) self = looked_up (
        dht_lookup_on_single_provider wire shuffle r sha256 connect (asking connected keys) random
          key provider arrivals self)
    run_task (discovers level id inputs) self =
        discovered (discover_peers_in_bucket wire shuffle r sha256 keys level id inputs self)
    run_task (commands nanos before during c) self =
        and_then (on_command wire shuffle nanos before during c self)
          (λ (run : Node × Report). some run.0)
    run_task (stores key v) self = some (record self { dht = Dht.set key v self.dht })

    unfoldable pub run_tasks : List Task → Node → Option Node
    run_tasks [] self = some self
    run_tasks (task ∷ tasks) self = and_then (run_task task self) (λ self. run_tasks tasks self)
