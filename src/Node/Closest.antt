-- ===== src/Node/Closest.antt =====
-- The peers closest to a key, as src/node/node.rs and src/node/dht.rs draw them from a list: a
-- stable sort by distance (`sort_by_key` of the standard library), and the first of the result.
pub mod Laws
use Prim.Native.Nat.Ordering.{lt, eq, gt}
use Prim.Native.String.{String}
use tewta.Base.{ℕ, List, [], ◌∷◌, take, min}
use tewta.Peer.{PeerId, cmp_bytes, distance}

-- Put in front of the elements that are not smaller.
unfoldable pub insert_by_distance :
    PeerId → PeerId × String → List (PeerId × String) → List (PeerId × String)
insert_by_distance key x [] = x ∷ []
insert_by_distance key x (y ∷ ys) = elim (cmp_bytes (distance x.0 key) (distance y.0 key)) [
  | gt ↦ y ∷ insert_by_distance key x ys
  | _ ↦ x ∷ y ∷ ys
]

-- `peers.sort_by_key(|(peer_id, _)| peer_id.distance(&key))`.
unfoldable pub sort_by_distance : PeerId → List (PeerId × String) → List (PeerId × String)
unfolding insert_by_distance
sort_by_distance key [] = []
sort_by_distance key (x ∷ xs) = insert_by_distance key x (sort_by_distance key xs)

-- Sorted and truncated.
unfoldable pub closest : PeerId → ℕ → List (PeerId × String) → List (PeerId × String)
closest key max_peers peers = take max_peers (sort_by_distance key peers)
