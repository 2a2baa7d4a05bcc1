-- ===== src/Node/Ping.antt =====
-- The task of `Node::new` in src/node/node.rs that pings a peer, and the command that does. The
-- packets that the node handles meanwhile are given: those before the task listens for pongs, and
-- those from then on, until the pong has come or the time is over.
pub mod Outcomes
use Prim.Native.String.{String}
use tewta.Base.{ℕ, ◌/◌, Bool, false, Option, none, some, List, and_then}
use tewta.Crypto.{Parcel}
use tewta.Node.Arrivals.{on_packets, received, dropped, await_response, listens_for_pongs}
use tewta.Node.Connections.{ConnectionPool, send_packet, disconnect, set_ping}
use tewta.Node.Counter.{next}
use tewta.Node.Dispatch.{Node}
use tewta.Packets.{Packet, PingPacket, QuitPacket}
use tewta.Peer.{PeerId}

abbrev pub timeout : QuitPacket
timeout = record { reason_code = "Timeout"; message = none; report_fault = false }

abbrev pub ping_id_of : PingPacket → ℕ
ping_id_of p = p.ping_id

abbrev pub quits_listening : Node → Node
quits_listening self = record self { on_pong_packet = dropped self.on_pong_packet }

module _ {E : Type 0} (wire : Parcel E Packet)
    (shuffle : List (PeerId × String) → List (PeerId × String)) where
  -- The number of the ping, and the node that has sent it.
  unfoldable pub send_ping : PeerId → Node → ℕ × Option Node
  send_ping peer_id self =
      let (counter, ping_id) = next self.ping_id_counter in
      let sent =
        send_packet wire peer_id (Packet.ping (record { ping_id = ping_id })) self.connections in
      (
        ping_id,
        and_then sent (λ c. some (record self { ping_id_counter = counter; connections = c })),
      )

  -- The node at the end of the wait, and the pong that has ended it.
  unfoldable pub receive_pong :
      ℕ → PeerId → (before during : List (PeerId × Packet)) → Node → Node × Option PingPacket
  unfolding await_response
  receive_pong ping_id peer_id before during self =
      let self = listens_for_pongs (on_packets wire shuffle before self) in
      let self = on_packets wire shuffle during self in
      (
        quits_listening self,
        await_response ping_id_of ping_id peer_id (received self.on_pong_packet),
      )

  abbrev pub handle_result : PeerId → ℕ → Node → Option PingPacket → Node
  handle_result peer_id nanos self (some pong) = record self {
    connections = set_ping peer_id nanos self.connections;
  }
  handle_result peer_id nanos self none =
      let (connections, on_disconnect) =
        disconnect wire peer_id timeout self.connections self.on_disconnect in
      record self { connections = connections; on_disconnect = on_disconnect }

  -- The part of the task for one peer: the pong comes `nanos` after the ping, if it comes.
  unfoldable pub ping_peer :
      PeerId → ℕ → (before during : List (PeerId × Packet)) → Node → Option Node
  unfolding send_ping receive_pong
  ping_peer peer_id nanos before during self =
      let (ping_id, sent) = send_ping peer_id self in
      and_then sent (λ self.
        let (self, pong) = receive_pong ping_id peer_id before during self in
        some (handle_result peer_id nanos self pong))

  -- "Ping is {} ms", or "Timed out".
  abbrev pub shown : ℕ → Option PingPacket → Option ℕ
  shown nanos none = none
  shown nanos (some pong) = some (nanos / 1000000)

  -- `Command::Ping`: what is shown, which no connection depends on.
  unfoldable pub ping_command :
      PeerId → ℕ → (before during : List (PeerId × Packet)) → Node → Option (Node × Option ℕ)
  unfolding send_ping receive_pong
  ping_command node_id nanos before during self =
      let (ping_id, sent) = send_ping node_id self in
      and_then sent (λ self.
        let (self, pong) = receive_pong ping_id node_id before during self in
        some (self, shown nanos pong))
