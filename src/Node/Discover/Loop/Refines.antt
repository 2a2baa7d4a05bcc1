-- ===== src/Node/Discover/Loop/Refines.antt =====
-- The loop of src/node/discovery.rs on the node, against the loop over what the other peers do.
use Prim.Native.String.{String}
use tewta.Base.{ℕ, ◌≡◌, Bool, true, false, Option, none, some, List, []}
use tewta.Base.Result.{Result, ok, err}
use tewta.Crypto.{Rsa, Parcel}
use tewta.Handshake.{Local, asking}
use tewta.Handshake.Session.{Io}
use tewta.Node.Arrivals.{await_response, peers_responses}
use tewta.Node.Connections.{ConnectionPool, contains}
use tewta.Node.Discover.{World, Discovery}
use tewta.Node.Discover
use tewta.Node.Discover.Loop.{Search, Turn, goes_on, leaves, waits, crashes, Input, request_id_of}
use tewta.Node.Dispatch.{Node}
use tewta.Node.Join.{handshake}
use tewta.Packets.{Packet, DiscoverPeersRespPacket}
use tewta.Peer.{PeerId}

abbrev is_some : {A : Type 0} → Option A → Bool
is_some none = false
is_some (some a) = true

abbrev is_ok : {E A : Type 0} → Result E A → Bool
is_ok (ok a) = true
is_ok (err e) = false

abbrev candidates_of : Option DiscoverPeersRespPacket → List (PeerId × String)
candidates_of none = []
candidates_of (some resp) = resp.peers

-- A turn of the node, seen by the loop over what the others do. A turn that waits or panics is no
-- round of that loop.
abbrev pub Follows : Discover.Round → Turn → Type 0
Follows round (goes_on s) = round ≡ Discover.goes_on s.loop
Follows round (leaves s) = round ≡ Discover.leaves s.loop
Follows round (waits s) = Unit
Follows round crashes = Unit

module _ {E : Type 0} (wire : Parcel E Packet)
    (shuffle : List (PeerId × String) → List (PeerId × String)) (r : Rsa) (sha256 : List ℕ → List ℕ)
    (keys : Local r) where
  abbrev welcomes_on : Input → ConnectionPool → PeerId → Option Io → Bool
  welcomes_on input pool peer none = false
  welcomes_on input pool peer (some io) =
      is_ok
        (handshake wire r sha256 (asking input.connected keys) input.random (some peer) io
          pool).result

  -- What the others do in a turn: the pool, the stream and the handshake of the candidate, and the
  -- first response that comes from the provider with the number of the request.
  abbrev pub world_of : Input → Search → World
  world_of input self = record {
    connected = λ candidate. contains candidate.0 self.node.connections;
    reachable = λ candidate. is_some input.stream;
    welcomes = λ candidate. welcomes_on input self.node.connections candidate.0 input.stream;
    response = λ provider. candidates_of (
        await_response request_id_of self.node.discover_peer_req_counter.value provider
          (peers_responses input.arrivals));
  }
