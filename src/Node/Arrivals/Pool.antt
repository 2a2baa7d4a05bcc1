-- ===== src/Node/Arrivals/Pool.antt =====
-- The order and the size of the pool while `on_packet` of src/node/node.rs handles packets.
use Prim.Native.String.{String}
use tewta.Base.{
  ℕ, ◌≡◌, ◌≤◌, refl, ◌∙◌, none, Bool, true, false, if◌then◌else◌, arith, inl, inr, List, [], ◌∷◌,
  some, Option-cases, ltb, length,
}
use tewta.Base.Result.{Result-cases}
use tewta.Crypto.{Parcel}
use tewta.Node.Arrivals.{handle, on_packets}
use tewta.Node.Connections.{
  ConnectionPool, PeerInfo, set_ping, send_packet, send_packet_unchecked, disconnect, written,
  max_discovery_peers_returned,
}
use tewta.Node.Dispatch.{
  Node, reply, on_discover_peers, on_find_dht_value, on_find_peer, on_quit, on_packet,
  quit_received, too_many, max_dht_peers_returned,
}
use tewta.Node.Events.{EventListeners}
use tewta.Packets.{Packet, QuitPacket}
use tewta.Peer.{PeerId}
use tewta.PeerMap
use tewta.PeerMap.{PeerMap, IsSorted}
use tewta.PeerMap.Laws.{modify-IsSorted, remove-IsSorted, get-remove_self}

length-modify :
    {V : Type 0} (k : PeerId) (f : V → V) (m : PeerMap V) → length (PeerMap.modify k f m) ≡ length m
unfolding PeerMap.modify
length-modify k f [] = refl
length-modify k f ((j, w) ∷ m) = ground (arith, length-modify k f m)

length-remove : {V : Type 0} (k : PeerId) (m : PeerMap V) → length (PeerMap.remove k m) ≤ length m
unfolding PeerMap.remove
length-remove k [] = omega arith
length-remove k ((j, w) ∷ m) = ground (arith, length-remove k m)

get-modify-none :
    {V : Type 0} (k q : PeerId) (f : V → V) (m : PeerMap V)
    → PeerMap.get q m ≡ none
    → PeerMap.get q (PeerMap.modify k f m) ≡ none
unfolding PeerMap.modify PeerMap.get
get-modify-none k q f [] e = refl
get-modify-none k q f ((j, w) ∷ m) e = ground (arith, e, get-modify-none k q f m)

get-remove-none :
    {V : Type 0} (k q : PeerId) (m : PeerMap V)
    → PeerMap.get q m ≡ none
    → PeerMap.get q (PeerMap.remove k m) ≡ none
unfolding PeerMap.remove PeerMap.get
get-remove-none k q [] e = refl
get-remove-none k q ((j, w) ∷ m) e = ground (arith, e, get-remove-none k q m)

-- A pool that came from another by changes of entries and removals.
pub record Settled (before after : ConnectionPool) : Type 0 where
  pub sorted : IsSorted before.connections → IsSorted after.connections
  pub no_more : length after.connections ≤ length before.connections
  pub none_new :
      (q : PeerId)
      → PeerMap.get q before.connections ≡ none
      → PeerMap.get q after.connections ≡ none
  pub same_owner : after.our_peer_id ≡ before.our_peer_id

same-Settled : (c : ConnectionPool) → Settled c c
same-Settled c = record {
  sorted = λ s. s;
  no_more = omega arith;
  none_new = λ q e. e;
  same_owner = refl;
}

modify-Settled :
    (n : PeerId) (f : PeerInfo → PeerInfo) (c : ConnectionPool)
    → Settled c (record c { connections = PeerMap.modify n f c.connections })
modify-Settled n f c = record {
  sorted = modify-IsSorted n f c.connections;
  no_more = omega (arith, length-modify n f c.connections);
  none_new = λ q. get-modify-none n q f c.connections;
  same_owner = refl;
}

pub set_ping-Settled :
    (n : PeerId) (nanos : ℕ) (c : ConnectionPool) → Settled c (set_ping n nanos c)
unfolding set_ping
set_ping-Settled n nanos c = modify-Settled n (λ p. record p { ping_nanos = some nanos }) c

module _ {E : Type 0} (wire : Parcel E Packet) where
  pub send-Settled :
      (n : PeerId) (p : Packet) (c : ConnectionPool) → Settled c (send_packet_unchecked wire n p c)
  unfolding send_packet_unchecked
  send-Settled n p c = elim (Result-cases (wire.raw_bytes p)) [
    | inl (bytes, e) ↦ rw (e, send_packet_unchecked) (modify-Settled n (written bytes) c)
    | inr (x, e) ↦ rw (e, send_packet_unchecked) (same-Settled c)
  ]

  pub disconnect-Settled :
      (n : PeerId) (p : QuitPacket) (c : ConnectionPool) (l : EventListeners PeerId)
      → Settled c (disconnect wire n p c l).0
  unfolding disconnect
  disconnect-Settled n p c l =
      let c' = send_packet_unchecked wire n (Packet.quit p) c in
      let sent = send-Settled n (Packet.quit p) c in
      elim (Option-cases (PeerMap.get n c'.connections)) [
        | inl e ↦ rw (e, disconnect) sent
        | inr (peer, e) ↦
            rw (e, disconnect)
              (record {
                sorted = λ s. remove-IsSorted n c'.connections (sent.sorted s);
                no_more = omega (arith, length-remove n c'.connections, sent.no_more);
                none_new = λ q e. get-remove-none n q c'.connections (sent.none_new q e);
                same_owner = sent.same_owner;
              })
      ]

  pub disconnect-absent :
      (n : PeerId) (p : QuitPacket) (c : ConnectionPool) (l : EventListeners PeerId)
      → IsSorted c.connections
      → PeerMap.get n (disconnect wire n p c l).0.connections ≡ none
  unfolding disconnect
  disconnect-absent n p c l s =
      let c' = send_packet_unchecked wire n (Packet.quit p) c in
      elim (Option-cases (PeerMap.get n c'.connections)) [
        | inl e ↦ ground (arith, e)
        | inr (peer, e) ↦
            let sent = (send-Settled n (Packet.quit p) c).sorted s in
            ground (arith, e, get-remove_self n c'.connections sent)
      ]

  module _ (shuffle : List (PeerId × String) → List (PeerId × String)) where
    -- A packet that is dropped by a test, or else handled.
    if-Settled :
        (n : PeerId) (p : Packet) (self after : Node) (dropped : Bool)
        → on_packet wire shuffle n p self ≡ (if dropped then some self else some after)
        → Settled self.connections after.connections
        → Settled self.connections (handle wire shuffle n p self).connections
    unfolding handle
    if-Settled n p self after true e h = rw (e, handle) (same-Settled self.connections)
    if-Settled n p self after false e h = rw (e, handle) h

    pub handle-Settled :
        (n : PeerId) (p : Packet) (self : Node)
        → Settled self.connections (handle wire shuffle n p self).connections
    unfolding handle on_packet on_discover_peers on_find_dht_value on_find_peer on_quit reply
        send_packet
    handle-Settled n (Packet.quit p) self =
        disconnect-Settled n quit_received self.connections self.on_disconnect
    handle-Settled n (Packet.discover_peers p) self =
        if-Settled n (Packet.discover_peers p) self _ (ltb 32 (length p.mask)) refl
          (send-Settled n _ self.connections)
    handle-Settled n (Packet.find_dht_value p) self = send-Settled n _ self.connections
    handle-Settled n (Packet.find_peer p) self = send-Settled n _ self.connections
    handle-Settled n (Packet.ping p) self = send-Settled n _ self.connections
    handle-Settled n (Packet.discover_peers_resp p) self =
        if-Settled n (Packet.discover_peers_resp p) self _
          (ltb max_discovery_peers_returned (length p.peers)) refl (same-Settled self.connections)
    handle-Settled n (Packet.find_dht_value_resp p) self =
        if-Settled n (Packet.find_dht_value_resp p) self _ (too_many p.result) refl
          (same-Settled self.connections)
    handle-Settled n (Packet.find_peer_resp p) self =
        if-Settled n (Packet.find_peer_resp p) self _ (ltb max_dht_peers_returned (length p.peers))
          refl (same-Settled self.connections)
    handle-Settled n p self = same-Settled self.connections

    pub on_packets-Settled :
        (arrivals : List (PeerId × Packet)) (self : Node)
        → Settled self.connections (on_packets wire shuffle arrivals self).connections
    unfolding on_packets
    on_packets-Settled [] self = same-Settled self.connections
    on_packets-Settled ((n, p) ∷ arrivals) self =
        let first = handle-Settled n p self in
        let rest = on_packets-Settled arrivals (handle wire shuffle n p self) in
        record {
          sorted = λ s. rest.sorted (first.sorted s);
          no_more = omega (arith, first.no_more, rest.no_more);
          none_new = λ q e. rest.none_new q (first.none_new q e);
          same_owner = rest.same_owner ∙ first.same_owner;
        }
