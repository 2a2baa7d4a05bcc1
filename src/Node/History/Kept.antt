-- ===== src/Node/History/Kept.antt =====
-- The identity of a node and the order of its store while `on_packet` of src/node/node.rs handles
-- packets.
use Prim.Native.String.{String}
use tewta.Base.{◌≡◌, refl, Bool, true, false, if◌then◌else◌, List, some, ltb, length}
use tewta.Crypto.{Parcel}
use tewta.Node.Arrivals.{handle}
use tewta.Node.Connections.{send_packet, max_discovery_peers_returned}
use tewta.Node.Dht.Laws.{get-after_get}
use tewta.Node.Dispatch.{
  Node, reply, on_discover_peers, on_find_dht_value, on_find_peer, on_quit, on_packet, too_many,
  max_dht_peers_returned,
}
use tewta.Packets.{Packet}
use tewta.Peer.{PeerId}
use tewta.PeerMap.{IsSorted}

pub record Kept (before after : Node) : Type 0 where
  pub peer_id : after.peer_id ≡ before.peer_id
  pub addr : after.addr ≡ before.addr
  pub dht_sorted : IsSorted before.dht.table → IsSorted after.dht.table

alike-Kept :
    {before after : Node}
    → after.peer_id ≡ before.peer_id
    → after.addr ≡ before.addr
    → after.dht ≡ before.dht
    → Kept before after
alike-Kept i a d = record { peer_id = i; addr = a; dht_sorted = λ s. rw d s }

same-Kept : (self : Node) → Kept self self
same-Kept self = alike-Kept refl refl refl

module _ {E : Type 0} (wire : Parcel E Packet)
    (shuffle : List (PeerId × String) → List (PeerId × String)) where
  if-Kept :
      (n : PeerId) (p : Packet) (self after : Node) (dropped : Bool)
      → on_packet wire shuffle n p self ≡ (if dropped then some self else some after)
      → Kept self after
      → Kept self (handle wire shuffle n p self)
  unfolding handle
  if-Kept n p self after true e h = rw (e, handle) (same-Kept self)
  if-Kept n p self after false e h = rw (e, handle) h

  pub handle-Kept :
      (n : PeerId) (p : Packet) (self : Node) → Kept self (handle wire shuffle n p self)
  unfolding handle on_packet on_discover_peers on_find_dht_value on_find_peer on_quit reply
      send_packet
  handle-Kept n (Packet.quit p) self = alike-Kept refl refl refl
  handle-Kept n (Packet.discover_peers p) self =
      if-Kept n (Packet.discover_peers p) self _ (ltb 32 (length p.mask)) refl
        (alike-Kept refl refl refl)
  handle-Kept n (Packet.find_dht_value p) self = record {
    peer_id = refl;
    addr = refl;
    dht_sorted = λ s. (get-after_get p.key p.key self.dht s).1;
  }
  handle-Kept n (Packet.find_peer p) self = alike-Kept refl refl refl
  handle-Kept n (Packet.ping p) self = alike-Kept refl refl refl
  handle-Kept n (Packet.discover_peers_resp p) self =
      if-Kept n (Packet.discover_peers_resp p) self _
        (ltb max_discovery_peers_returned (length p.peers)) refl (alike-Kept refl refl refl)
  handle-Kept n (Packet.find_dht_value_resp p) self =
      if-Kept n (Packet.find_dht_value_resp p) self _ (too_many p.result) refl
        (alike-Kept refl refl refl)
  handle-Kept n (Packet.find_peer_resp p) self =
      if-Kept n (Packet.find_peer_resp p) self _ (ltb max_dht_peers_returned (length p.peers)) refl
        (alike-Kept refl refl refl)
  handle-Kept n p self = alike-Kept refl refl refl
