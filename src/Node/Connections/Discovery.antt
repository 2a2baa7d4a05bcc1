-- ===== src/Node/Connections/Discovery.antt =====
-- What `prepare_discover_peers_response` of src/node/connections.rs answers.
use Prim.Native.String.{String}
use tewta.Base.{ℕ, ◌≡◌, true, some, List, length, All}
use tewta.Node.Connections.{PeerInfo}
use tewta.Peer.{PeerId, matches}
use tewta.PeerMap
use tewta.PeerMap.{PeerMap}

-- An answer that the pool supports: a connected peer in the set that the request describes, under
-- the address that the peer gave.
pub record Supported (target : PeerId) (mask : List ℕ) (m : PeerMap PeerInfo) (e : PeerId × String)
    : Type 0 where
  pub peer : PeerInfo
  pub connected : PeerMap.get e.0 m ≡ some peer
  pub its_addr : e.1 ≡ peer.addr
  pub in_set : matches e.0 target mask ≡ true

-- What is documented of `shuffle`: the elements stay, in some order.
pub record IsShuffle (shuffle : List (PeerId × String) → List (PeerId × String)) : Type 1 where
  pub length-shuffle : (xs : List (PeerId × String)) → length (shuffle xs) ≡ length xs
  pub shuffle-All :
      (P : PeerId × String → Type 0) (xs : List (PeerId × String)) → All P xs → All P (shuffle xs)
