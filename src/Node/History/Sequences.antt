-- ===== src/Node/History/Sequences.antt =====
-- The steps that the tasks and calls of src/node go through.
use Prim.Native.String.{String}
use tewta.Base.{
  ℕ, zero, suc, ◌≡◌, refl, sym, subst, Bool, true, false, Option, none, some, List, [], ◌∷◌,
  and_then, leb, if◌then◌else◌,
}
use tewta.Base.Result.{Result, ok, err, Fault, failed}
use tewta.Commands.{Command}
use tewta.Crypto.{Rsa, Parcel}
use tewta.Handshake.{Local, Random, asking}
use tewta.Handshake.Error.{HandshakeError}
use tewta.Handshake.Session.{Io}
use tewta.Node.Arrivals.{handle, on_packets, listens_for_pongs}
use tewta.Node.Connections.{send_packet, send_packet_unchecked, len}
use tewta.Node.Counter.{next}
use tewta.Node.Dispatch.{Node}
use tewta.Node.History.{
  Aside, Step, moves_aside, handles, sends, joins, is_pinged, stores, Steps, stays, goes,
}
use tewta.Node.History
use tewta.Node.Join.{handshake}
use tewta.Node.Life.{
  Report, Round, entered, on_connection, attempt, bootstrap_peers, reported, on_command,
}
use tewta.Node.Ping.{send_ping, receive_pong, handle_result, ping_peer, ping_command, timeout}
use tewta.Packets.{Packet, PingPacket}
use tewta.Peer.{PeerId}

module _ {E : Type 0} (wire : Parcel E Packet)
    (shuffle : List (PeerId × String) → List (PeerId × String)) (r : Rsa) (sha256 : List ℕ → List ℕ)
    (keys : Local r) where
  abbrev pub Leading : Node → Node → Type 0
  Leading = Steps wire shuffle r sha256 keys

  pub one : {s t : Node} → Step wire shuffle r sha256 keys s t → Leading s t
  one step = goes (stays refl) step

  pub trans : {s m t : Node} → Leading s m → Leading m t → Leading s t
  trans first (stays e) = subst {A = Node} (Leading _) (sym e) first
  trans first (goes rest step) = goes (trans first rest) step

  -- A call that may panic leads to the node that it returns.
  abbrev pub Leads : Node → Option Node → Type 0
  Leads s none = Unit
  Leads s (some t) = Leading s t

  pub after-Leads : {s m : Node} (o : Option Node) → Leading s m → Leads m o → Leads s o
  after-Leads none h l = tt
  after-Leads (some t) h l = trans h l

  pub and_then-Leads :
      (s : Node) (o : Option Node) (f : Node → Option Node)
      → Leads s o
      → ((m : Node) → Leads m (f m))
      → Leads s (and_then o f)
  and_then-Leads s none f h k = tt
  and_then-Leads s (some m) f h k = after-Leads (f m) h (k m)

  pub on_packets-Leading :
      (arrivals : List (PeerId × Packet)) (self : Node)
      → Leading self (on_packets wire shuffle arrivals self)
  unfolding on_packets
  on_packets-Leading [] self = stays refl
  on_packets-Leading ((n, p) ∷ arrivals) self =
      trans (one (handles n p refl)) (on_packets-Leading arrivals (handle wire shuffle n p self))

  pub aside :
      {s t : Node}
      → t.connections ≡ s.connections
      → t.dht ≡ s.dht
      → t.peer_id ≡ s.peer_id
      → t.addr ≡ s.addr
      → Leading s t
  aside c d i a = one (moves_aside (record { connections = c; dht = d; peer_id = i; addr = a }))

  -- What is returned of a connection or a command, besides the node, does not matter.
  entered-Leads :
      {s t : Node} (result : Result (Fault (HandshakeError E r.Error)) PeerId)
      → Leading s t
      → Leads s
          (and_then (entered wire r sha256 result t) (λ (run : Node × Option PeerId). some run.0))
  entered-Leads (ok id) p = p
  entered-Leads (err (failed x)) p = p
  entered-Leads (err Fault.panicked) p = tt
  entered-Leads (err Fault.out_of_fuel) p = tt

  pub connection-Leads :
      (connected : PeerId → Bool) (random : Random) (timed_out : Bool) (io : Io) (self : Node)
      → Leads self (
          and_then
            (on_connection wire r sha256 (asking connected keys) random timed_out io self)
            (λ (run : Node × Option PeerId). some run.0))
  unfolding on_connection
  connection-Leads connected random true io self = stays refl
  connection-Leads connected random false io self =
      let j = handshake wire r sha256 (asking connected keys) random none io self.connections in
      entered-Leads j.result (one (joins connected random none io refl))

  attempt-Leads :
      (round : Round wire r sha256) (stream : Option Io) (self : Node)
      → Leads self (attempt wire r sha256 keys round stream self)
  attempt-Leads round none self = stays refl
  attempt-Leads round (some io) self =
      connection-Leads round.connected round.random round.timed_out io self

  stops-Leads :
      {s : Node} (t : Node) (rest : Option Node) (enough : Bool)
      → Leading s t
      → Leads s rest
      → Leads s (if enough then some t else rest)
  stops-Leads t rest true p l = p
  stops-Leads t rest false p l = l

  pub bootstrap-Leads :
      (rounds : ℕ → Round wire r sha256) (n : ℕ) (self : Node)
      → Leads self (bootstrap_peers wire r sha256 keys rounds n self)
  unfolding bootstrap_peers
  bootstrap-Leads rounds zero self = stays refl
  bootstrap-Leads rounds (suc n) self =
      and_then-Leads self (attempt wire r sha256 keys (rounds n) (rounds n).stream self) _
        (attempt-Leads (rounds n) (rounds n).stream self)
        (λ m.
          stops-Leads m (bootstrap_peers wire r sha256 keys rounds n m) (leb 5 (len m.connections))
            (stays refl) (bootstrap-Leads rounds n m))

  -- A request: a number is drawn, and the packet is sent.
  send_ping-Leads : (peer : PeerId) (self : Node) → Leads self (send_ping wire shuffle peer self).1
  unfolding send_ping send_packet next
  send_ping-Leads peer self =
      let p = Packet.ping (record { ping_id = self.ping_id_counter.value }) in
      trans (one (sends peer p (send_packet_unchecked wire peer p self.connections) refl refl))
        (aside refl refl refl refl)

  receive_pong-Leading :
      (id : ℕ) (peer : PeerId) (before during : List (PeerId × Packet)) (self : Node)
      → Leading self (receive_pong wire shuffle id peer before during self).0
  unfolding receive_pong
  receive_pong-Leading id peer before during self =
      let waits = listens_for_pongs (on_packets wire shuffle before self) in
      trans (on_packets-Leading before self) (
        trans (aside refl refl refl refl)
          (trans (on_packets-Leading during waits) (aside refl refl refl refl)))

  handle_result-Leading :
      (peer : PeerId) (nanos : ℕ) (self : Node) (pong : Option PingPacket)
      → Leading self (handle_result wire shuffle peer nanos self pong)
  handle_result-Leading peer nanos self (some pong) = one (is_pinged peer nanos refl)
  handle_result-Leading peer nanos self none = one (History.leaves peer timeout refl)

  pub ping-Leads :
      (peer : PeerId) (nanos : ℕ) (before during : List (PeerId × Packet)) (self : Node)
      → Leads self (ping_peer wire shuffle peer nanos before during self)
  unfolding ping_peer
  ping-Leads peer nanos before during self =
      let (id, sent) = send_ping wire shuffle peer self in
      and_then-Leads self sent _ (send_ping-Leads peer self) (λ m.
        trans (receive_pong-Leading id peer before during m) (
          handle_result-Leading peer nanos (receive_pong wire shuffle id peer before during m).0
            (receive_pong wire shuffle id peer before during m).1))

  reported-Leads :
      (s : Node) (o : Option (Node × Option ℕ))
      → Leads s (and_then o (λ (run : Node × Option ℕ). some run.0))
      → Leads s (and_then (reported wire shuffle o) (λ (run : Node × Report). some run.0))
  reported-Leads s none l = tt
  reported-Leads s (some (t, millis)) l = l

  shown-Leads :
      (s : Node) (sent : Option Node) (f : Node → Option (Node × Option ℕ))
      → Leads s sent
      → ((m : Node) → Leads m (and_then (f m) (λ (run : Node × Option ℕ). some run.0)))
      → Leads s (and_then (and_then sent f) (λ (run : Node × Option ℕ). some run.0))
  shown-Leads s none f h k = tt
  shown-Leads s (some m) f h k = after-Leads (and_then (f m) (λ run. some run.0)) h (k m)

  pub command-Leads :
      (nanos : ℕ) (before during : List (PeerId × Packet)) (c : Command) (self : Node)
      → Leads self (
          and_then
            (on_command wire shuffle nanos before during c self)
            (λ (run : Node × Report). some run.0))
  unfolding on_command ping_command
  command-Leads nanos before during (Command.ping peer) self =
      let (id, sent) = send_ping wire shuffle peer self in
      reported-Leads self (ping_command wire shuffle peer nanos before during self) (
        shown-Leads self sent _ (send_ping-Leads peer self)
          (λ m. receive_pong-Leading id peer before during m))
  command-Leads nanos before during (Command.set_log_level level) self = aside refl refl refl refl
  command-Leads nanos before during c self = stays refl
