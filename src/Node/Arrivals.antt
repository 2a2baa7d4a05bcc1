-- ===== src/Node/Arrivals.antt =====
-- Packets that a node handles one after the other, by `on_packet` of src/node/node.rs, and the
-- response that a task waits for meanwhile.
pub mod Heard
pub mod Pool
use Prim.Native.String.{String}
use tewta.Base.{
  ℕ, Bool, true, false, ◌&&◌, Option, none, some, List, [], ◌∷◌, ◌++◌, ◌==◌, ltb, length,
  if◌then◌else◌,
}
use tewta.Crypto.{Parcel}
use tewta.Node.Connections.{max_discovery_peers_returned}
use tewta.Node.Dispatch.{Node, on_packet, too_many}
use tewta.Node.Events.{Channel, EventListeners, listen}
use tewta.Packets.{Packet, PingPacket, FindDhtValueRespPacket, DiscoverPeersRespPacket}
use tewta.Peer.{PeerId, eq_peer}

module _ {E : Type 0} (wire : Parcel E Packet)
    (shuffle : List (PeerId × String) → List (PeerId × String)) where
  -- A panic ends the task that reads from the peer, and not the node.
  unfoldable pub handle : PeerId → Packet → Node → Node
  handle n p self = elim (on_packet wire shuffle n p self) [ none ↦ self | some after ↦ after ]

  unfoldable pub on_packets : List (PeerId × Packet) → Node → Node
  on_packets [] self = self
  on_packets ((n, p) ∷ arrivals) self = on_packets arrivals (handle n p self)

module _ {ℓ} {T : Type ℓ} where
  -- The receiver that was made last, if no other was made since.
  unfoldable pub last_queue : List (Channel T) → List T
  last_queue [] = []
  last_queue (c ∷ []) = c.queue
  last_queue (c ∷ d ∷ cs) = last_queue (d ∷ cs)

  unfoldable pub drop_last : List (Channel T) → List (Channel T)
  drop_last [] = []
  drop_last (c ∷ []) = record c { receiver_dropped = true } ∷ []
  drop_last (c ∷ d ∷ cs) = c ∷ drop_last (d ∷ cs)

  abbrev pub received : EventListeners T → List T
  received self = last_queue self.listeners

  -- The end of the receiver's scope.
  abbrev pub dropped : EventListeners T → EventListeners T
  dropped self = record { listeners = drop_last self.listeners }

  -- `loop { let (n, p) = receiver.recv().await.unwrap(); if … { break p; } }` over what is received:
  -- `none` if the loop still waits behind it.
  unfoldable pub await_response : (T → ℕ) → ℕ → PeerId → List (PeerId × T) → Option T
  await_response id request_id peer [] = none
  await_response id request_id peer ((n, p) ∷ rest) =
      if id p == request_id && eq_peer n peer
      then some p
      else await_response id request_id peer rest

-- `on_find_dht_value_resp_packet.listen()`.
abbrev pub listens_for_responses : Node → Node
listens_for_responses self = record self {
  on_find_dht_value_resp_packet = listen self.on_find_dht_value_resp_packet;
}

-- `on_discover_peers_resp_packet.listen()`.
abbrev pub listens_for_peers : Node → Node
listens_for_peers self = record self {
  on_discover_peers_resp_packet = listen self.on_discover_peers_resp_packet;
}

-- `on_pong_packet.listen()`.
abbrev pub listens_for_pongs : Node → Node
listens_for_pongs self = record self { on_pong_packet = listen self.on_pong_packet }

-- What each packet brings to the listeners of one kind.
unfoldable pub all_heard {ℓ} :
    {T : Type ℓ} → (PeerId → Packet → List T) → List (PeerId × Packet) → List T
all_heard heard [] = []
all_heard heard ((n, p) ∷ arrivals) = heard n p ++ all_heard heard arrivals

-- A response to a lookup, if it does not hold too much.
abbrev pub lookup_response : PeerId → Packet → List (PeerId × FindDhtValueRespPacket)
lookup_response n (Packet.find_dht_value_resp p) = if too_many p.result then [] else (n, p) ∷ []
lookup_response n _ = []

-- A response to a discovery, if it does not hold too much.
abbrev pub peers_response : PeerId → Packet → List (PeerId × DiscoverPeersRespPacket)
peers_response n (Packet.discover_peers_resp p) =
    if ltb max_discovery_peers_returned (length p.peers) then [] else (n, p) ∷ []
peers_response n _ = []

abbrev pub pong : PeerId → Packet → List (PeerId × PingPacket)
pong n (Packet.pong p) = (n, p) ∷ []
pong n _ = []

abbrev pub lookup_responses : List (PeerId × Packet) → List (PeerId × FindDhtValueRespPacket)
lookup_responses = all_heard lookup_response

abbrev pub peers_responses : List (PeerId × Packet) → List (PeerId × DiscoverPeersRespPacket)
peers_responses = all_heard peers_response

abbrev pub pongs : List (PeerId × Packet) → List (PeerId × PingPacket)
pongs = all_heard pong
