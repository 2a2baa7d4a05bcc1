-- ===== src/Node/Arrivals/Heard.antt =====
-- What the listeners of a node hear of the packets that `on_packet` of src/node/node.rs handles.
use Prim.Native.String.{String}
use tewta.Base.{
  ◌≡◌, refl, sym, ap, ◌∙◌, arith, false, List, [], ◌∷◌, ◌++◌, append_assoc, append-nil,
}
use tewta.Crypto.{Parcel}
use tewta.Node.Connections.{send_packet}
use tewta.Node.Dispatch.{
  Node, reply, on_discover_peers, on_find_dht_value, on_find_peer, on_quit, on_packet,
}
use tewta.Node.Arrivals.{
  handle, on_packets, all_heard, lookup_response, peers_response, pong, lookup_responses,
  peers_responses, pongs, last_queue, received, listens_for_responses, listens_for_peers,
  listens_for_pongs,
}
use tewta.Node.Events.{Channel, EventListeners, listen}
use tewta.Node.Events.Delivery.{delivered, deliver, event-deliver}
use tewta.Packets.{Packet, PingPacket, FindDhtValueRespPacket, DiscoverPeersRespPacket}
use tewta.Peer.{PeerId}

module _ {ℓ} {T : Type ℓ} where
  unfoldable pub deliver_all : List T → List (Channel T) → List (Channel T)
  deliver_all [] ls = ls
  deliver_all (e ∷ es) ls = deliver_all es (deliver e ls)

  deliver-append :
      (e : T) (xs ys : List (Channel T)) → deliver e (xs ++ ys) ≡ deliver e xs ++ deliver e ys
  deliver-append e [] ys = refl
  deliver-append e (x ∷ xs) ys =
      ap (λ l. delivered e x ++ l) (deliver-append e xs ys)
      ∙ sym (append_assoc (delivered e x) (deliver e xs) (deliver e ys))

  -- A channel that is read, behind others.
  abbrev open_channel : List T → Channel T
  open_channel queue = record { receiver_dropped = false; queue = queue }

  pub deliver_all-last :
      (es queue : List T) (xs : List (Channel T))
      → deliver_all es (xs ++ open_channel queue ∷ [])
        ≡ deliver_all es xs ++ open_channel (queue ++ es) ∷ []
  unfolding deliver_all
  deliver_all-last [] queue xs = ap (λ q. xs ++ open_channel q ∷ []) (sym (append-nil queue))
  deliver_all-last (e ∷ es) queue xs =
      ap (deliver_all es) (deliver-append e xs (open_channel queue ∷ []))
      ∙ deliver_all-last es (queue ++ e ∷ []) (deliver e xs)
      ∙ ap (λ q. deliver_all es (deliver e xs) ++ open_channel q ∷ [])
          (append_assoc queue (e ∷ []) es)

  pub last_queue-append :
      (xs : List (Channel T)) (c : Channel T) → last_queue (xs ++ c ∷ []) ≡ c.queue
  unfolding last_queue
  last_queue-append [] c = refl
  last_queue-append (x ∷ []) c = refl
  last_queue-append (x ∷ y ∷ xs) c = last_queue-append (y ∷ xs) c

  deliver_all-append :
      (ds es : List T) (ls : List (Channel T))
      → deliver_all (ds ++ es) ls ≡ deliver_all es (deliver_all ds ls)
  unfolding deliver_all
  deliver_all-append [] es ls = refl
  deliver_all-append (d ∷ ds) es ls = deliver_all-append ds es (deliver d ls)

  -- What the listener that was added last hears.
  last_heard :
      (es : List T) (self : EventListeners T)
      → last_queue (deliver_all es (listen self).listeners) ≡ es
  unfolding listen
  last_heard es self =
      ap last_queue (deliver_all-last es [] self.listeners)
      ∙ last_queue-append (deliver_all es self.listeners) (open_channel es)

module _ {E : Type 0} (wire : Parcel E Packet)
    (shuffle : List (PeerId × String) → List (PeerId × String)) where
  abbrev resp_listeners : Node → List (Channel (PeerId × FindDhtValueRespPacket))
  resp_listeners self = self.on_find_dht_value_resp_packet.listeners

  abbrev peers_listeners : Node → List (Channel (PeerId × DiscoverPeersRespPacket))
  peers_listeners self = self.on_discover_peers_resp_packet.listeners

  abbrev pong_listeners : Node → List (Channel (PeerId × PingPacket))
  pong_listeners self = self.on_pong_packet.listeners

  -- A packet brings `heard` to the listeners `ls`.
  abbrev Brings : {T : Type 0} → (PeerId → Packet → List T) → (Node → List (Channel T)) → Type 0
  Brings heard ls =
      (n : PeerId) (p : Packet) (self : Node)
      → ls (handle wire shuffle n p self) ≡ deliver_all (heard n p) (ls self)

  resp-Brings : Brings lookup_response resp_listeners
  unfolding handle on_packet on_discover_peers on_find_dht_value on_find_peer on_quit reply
      send_packet deliver_all
  resp-Brings n (Packet.find_dht_value_resp p) self =
      ground (arith, event-deliver (n, p) self.on_find_dht_value_resp_packet)
  resp-Brings n p self = ground arith

  peers-Brings : Brings peers_response peers_listeners
  unfolding handle on_packet on_discover_peers on_find_dht_value on_find_peer on_quit reply
      send_packet deliver_all
  peers-Brings n (Packet.discover_peers_resp p) self =
      ground (arith, event-deliver (n, p) self.on_discover_peers_resp_packet)
  peers-Brings n p self = ground arith

  pong-Brings : Brings pong pong_listeners
  unfolding handle on_packet on_discover_peers on_find_dht_value on_find_peer on_quit reply
      send_packet deliver_all
  pong-Brings n (Packet.pong p) self = event-deliver (n, p) self.on_pong_packet
  pong-Brings n p self = ground arith

  on_packets-deliver :
      {T : Type 0} (heard : PeerId → Packet → List T) (ls : Node → List (Channel T))
      → Brings heard ls
      → (arrivals : List (PeerId × Packet)) (self : Node)
      → ls (on_packets wire shuffle arrivals self)
        ≡ deliver_all (all_heard heard arrivals) (ls self)
  unfolding on_packets all_heard
  on_packets-deliver heard ls brings [] self = unfold deliver_all in refl
  on_packets-deliver heard ls brings ((n, p) ∷ arrivals) self =
      on_packets-deliver heard ls brings arrivals (handle wire shuffle n p self)
      ∙ ap (deliver_all (all_heard heard arrivals)) (brings n p self)
      ∙ sym (deliver_all-append (heard n p) (all_heard heard arrivals) (ls self))

  -- A task that begins to listen, while the node handles the packets after it, receives each
  -- response to a lookup or to a discovery that is not too large, or each pong, once and in order,
  -- and nothing else.
  pub on_packets-received :
      (arrivals : List (PeerId × Packet)) (self : Node)
      → (received
            (on_packets wire shuffle arrivals
              (listens_for_responses self)).on_find_dht_value_resp_packet
          ≡ lookup_responses arrivals)
        × (received
              (on_packets wire shuffle arrivals
                (listens_for_peers self)).on_discover_peers_resp_packet
            ≡ peers_responses arrivals)
        × (received (on_packets wire shuffle arrivals (listens_for_pongs self)).on_pong_packet
            ≡ pongs arrivals)
  unfolding listen
  on_packets-received arrivals self = (
    ap last_queue (
          on_packets-deliver lookup_response resp_listeners resp-Brings arrivals
            (listens_for_responses self))
        ∙ last_heard (lookup_responses arrivals) self.on_find_dht_value_resp_packet,
    ap last_queue (
          on_packets-deliver peers_response peers_listeners peers-Brings arrivals
            (listens_for_peers self))
        ∙ last_heard (peers_responses arrivals) self.on_discover_peers_resp_packet,
    ap last_queue
          (on_packets-deliver pong pong_listeners pong-Brings arrivals (listens_for_pongs self))
        ∙ last_heard (pongs arrivals) self.on_pong_packet,
  )
