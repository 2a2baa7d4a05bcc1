-- ===== src/Node/Ping/Outcomes.antt =====
-- How a ping of src/node/node.rs ends for the peer.
use Prim.Native.String.{String}
use tewta.Base.{ℕ, ◌≡◌, refl, ap, Option, none, some, List}
use tewta.Crypto.{Parcel}
use tewta.Node.Arrivals.{on_packets, await_response, listens_for_pongs, pongs}
use tewta.Node.Arrivals.Heard.{on_packets-received}
use tewta.Node.Arrivals.Pool.{send-Settled, on_packets-Settled, disconnect-absent}
use tewta.Node.Connections.{PeerInfo, send_packet, send_packet_unchecked, set_ping}
use tewta.Node.Counter.{next}
use tewta.Node.Dispatch.{Node}
use tewta.Node.Ping.{
  timeout, ping_id_of, quits_listening, send_ping, receive_pong, handle_result, ping_peer, shown,
  ping_command,
}
use tewta.Node.Provider.Answers.{IsResponse, await_response-IsResponse}
use tewta.Packets.{Packet, PingPacket}
use tewta.Peer.{PeerId}
use tewta.PeerMap
use tewta.PeerMap.{IsSorted}
use tewta.PeerMap.Laws.{get-modify_self}

module _ {E : Type 0} (wire : Parcel E Packet)
    (shuffle : List (PeerId × String) → List (PeerId × String)) where
  abbrev pinged : PeerId → Node → Node
  pinged peer self = record self {
    ping_id_counter = (next self.ping_id_counter).0;
    connections =
        send_packet_unchecked wire peer
          (Packet.ping (record { ping_id = self.ping_id_counter.value })) self.connections;
  }

  -- The pool when the wait is over.
  abbrev pub waited : PeerId → (before during : List (PeerId × Packet)) → Node → Node
  waited peer before during self =
      on_packets wire shuffle during
        (listens_for_pongs (on_packets wire shuffle before (pinged peer self)))

  waited-IsSorted :
      (peer : PeerId) (before during : List (PeerId × Packet)) (self : Node)
      → IsSorted self.connections.connections
      → IsSorted (waited peer before during self).connections.connections
  waited-IsSorted peer before during self s =
      let ping = Packet.ping (record { ping_id = self.ping_id_counter.value }) in
      let listening = listens_for_pongs (on_packets wire shuffle before (pinged peer self)) in
      (on_packets-Settled wire shuffle during listening).sorted (
        (on_packets-Settled wire shuffle before (pinged peer self)).sorted
          ((send-Settled wire peer ping self.connections).sorted s))

  pong_lem :
      (peer : PeerId) (before during : List (PeerId × Packet)) (self : Node)
      → receive_pong wire shuffle self.ping_id_counter.value peer before during (pinged peer self)
        ≡ (
          quits_listening (waited peer before during self),
          await_response ping_id_of self.ping_id_counter.value peer (pongs during),
        )
  unfolding receive_pong
  pong_lem peer before during self =
      ap
        (λ es. (
          quits_listening (waited peer before during self),
          await_response ping_id_of self.ping_id_counter.value peer es,
        ))
        (on_packets-received wire shuffle during
          (on_packets wire shuffle before (pinged peer self))).2

  -- What a ping that took `nanos` does to the peer in the pool: its entry has the duration; or it
  -- is gone.
  abbrev pub IsPinged : PeerId → ℕ → (waited after : Node) → Option PingPacket → Type 0
  IsPinged peer nanos waited after (some pong) =
      (info : PeerInfo)
      → PeerMap.get peer waited.connections.connections ≡ some info
      → PeerMap.get peer after.connections.connections
        ≡ some (record info { ping_nanos = some nanos })
  IsPinged peer nanos waited after none = PeerMap.get peer after.connections.connections ≡ none

  result-IsPinged :
      (peer : PeerId) (nanos : ℕ) (self : Node) (pong : Option PingPacket)
      → IsSorted self.connections.connections
      → IsPinged peer nanos self
          (handle_result wire shuffle peer nanos (quits_listening self) pong)
          pong
  unfolding set_ping
  result-IsPinged peer nanos self (some pong) s = λ info e.
      get-modify_self peer (λ p. record p { ping_nanos = some nanos }) info
        self.connections.connections e
  result-IsPinged peer nanos self none s =
      disconnect-absent wire peer timeout self.connections self.on_disconnect s

  -- Let the peers of the pool ascend. What counts are the pongs that the node handles once the task
  -- listens: the first of them that comes from the peer with the number of the ping. If there is
  -- one, the entry that the peer still has then takes the duration, and the command shows it in
  -- milliseconds. If there is none, the peer is disconnected and the command shows that the time is
  -- over: also when a pong with that number has come from the peer before the task listens.
  pub ping_peer-IsPinged :
      (peer : PeerId) (nanos : ℕ) (before during : List (PeerId × Packet)) (self : Node)
      → IsSorted self.connections.connections
      → let answer = await_response ping_id_of self.ping_id_counter.value peer (pongs during) in
        ((after : Node) × (ping_peer wire shuffle peer nanos before during self ≡ some after)
          × IsPinged peer nanos (waited peer before during self) after answer)
        × ((after : Node) × (ping_command wire shuffle peer nanos before during self
              ≡ some (after, shown wire shuffle nanos answer))
            × (after.connections ≡ (waited peer before during self).connections))
        × ((pong : PingPacket)
            → answer ≡ some pong
            → IsResponse ping_id_of self.ping_id_counter.value peer (pongs during) pong)
  unfolding ping_peer ping_command send_ping send_packet next
  ping_peer-IsPinged peer nanos before during self s =
      let answer = await_response ping_id_of self.ping_id_counter.value peer (pongs during) in
      let mid = waited peer before during self in
      (
        (
          handle_result wire shuffle peer nanos (quits_listening mid) answer,
          ap
              (λ (run : Node × Option PingPacket).
                some (handle_result wire shuffle peer nanos run.0 run.1))
              (pong_lem peer before during self),
          result-IsPinged peer nanos mid answer (waited-IsSorted peer before during self s),
        ),
        (
          quits_listening mid,
          ap (λ (run : Node × Option PingPacket). some (run.0, shown wire shuffle nanos run.1))
              (pong_lem peer before during self),
          refl,
        ),
        λ pong e.
            await_response-IsResponse ping_id_of self.ping_id_counter.value peer (pongs during) pong
              e,
      )
