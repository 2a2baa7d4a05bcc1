-- ===== src/Node/Dht.antt =====
-- src/node/dht.rs: the store of the values that peers have announced, by key.
pub mod Laws
use tewta.Base.{ℕ, Option, none, some, List, [], ◌∷◌, ◌++◌}
use tewta.Packets.{DhtValue}
use tewta.Peer.{KeyId}
use tewta.PeerMap
use tewta.PeerMap.{PeerMap}

pub record DhtStore : Type 0 where
  pub table : PeerMap (List DhtValue)

abbrev pub default : DhtStore
default = record { table = [] }

-- An empty list of values is removed on the way.
unfoldable pub get : KeyId → DhtStore → Option (List DhtValue) × DhtStore
get key self = elim (PeerMap.get key self.table) [
  | some [] ↦ (none, record { table = PeerMap.remove key self.table })
  | some (v ∷ vs) ↦ (some (v ∷ vs), self)
  | none ↦ (none, self)
]

-- `entry(key).or_insert_with(Vec::new).push(value)`.
unfoldable pub set : KeyId → DhtValue → DhtStore → DhtStore
set key value self = elim (PeerMap.get key self.table) [
  | some vs ↦ record { table = PeerMap.modify key (λ vs. vs ++ value ∷ []) self.table }
  | none ↦ record { table = PeerMap.insert key (value ∷ []) self.table }
]
