-- ===== src/Node/Provider/Answers.antt =====
-- What the lookups on a single provider in src/node/dht.rs end with.
use Prim.Native.String.{String}
use tewta.Base.{
  ℕ, ◌≡◌, ◌⊎◌, inl, inr, refl, sym, ap, ◌∙◌, subst, arith, Bool, true, false, not, ◌&&◌, Option,
  none, some, List, [], ◌∷◌, ◌++◌, ◌==◌, if◌then◌else◌, Bool-cases,
}
use tewta.Base.Result.{ok, err, Fault}
use tewta.Crypto.{Rsa, Parcel}
use tewta.Handshake.{Local, Random}
use tewta.Handshake.Error.{HandshakeError}
use tewta.Handshake.Session.{Io}
use tewta.Node.Arrivals.{on_packets, await_response, lookup_responses, listens_for_responses}
use tewta.Node.Arrivals.Heard.{on_packets-received}
use tewta.Node.Arrivals.Pool.{disconnect-absent, send-Settled, on_packets-Settled}
use tewta.Node.Connections.{ConnectionPool, send_packet, send_packet_unchecked, contains}
use tewta.Node.Counter.{next}
use tewta.Node.Dispatch.{Node}
use tewta.Node.Join.{Joined, handshake}
use tewta.Node.Join.Guards.{Refused, handshake_guards}
use tewta.Node.Join.Pool.{handshake-Grown}
use tewta.Node.Provider.{
  failed_to_connect, handshake_error, Outcome, done, waiting, mission_accomplished, request_id_of,
  lookup_request, request, wait, responded, disconnected, lookup_joined, lookup_connected,
  dht_lookup_on_already_connected_provider, dht_lookup_on_single_provider,
}
use tewta.Packets.{Packet, FindDhtValueRespPacket}
use tewta.Peer.{PeerId, KeyId, eq_peer}
use tewta.Peer.Order.{eq_peer_iff}
use tewta.PeerMap
use tewta.PeerMap.{IsSorted}

-- The response that ends a wait: it has the number of the request, comes from the peer that was
-- asked, and is the first such.
pub record IsResponse {T : Type 0} (id : T → ℕ) (request_id : ℕ) (peer : PeerId)
    (es : List (PeerId × T)) (p : T) : Type 0 where
  pub earlier : List (PeerId × T)
  pub later : List (PeerId × T)
  pub split : es ≡ earlier ++ (peer, p) ∷ later
  pub numbered : id p ≡ request_id
  pub first : await_response id request_id peer earlier ≡ none

module _ {T : Type 0} (id : T → ℕ) (request_id : ℕ) (peer : PeerId) where
  pub await_response-IsResponse :
      (es : List (PeerId × T)) (p : T)
      → await_response id request_id peer es ≡ some p
      → IsResponse id request_id peer es p
  unfolding await_response
  await_response-IsResponse [] p e = cc
  await_response-IsResponse ((n, q) ∷ es) p e =
      elim (Bool-cases (id q == request_id && eq_peer n peer)) [
        | inl here ↦
            let same : q ≡ p = cc (rw here at e) in
            let from : n ≡ peer = (eq_peer_iff n peer).0 (ground (arith, here)) in
            record {
              earlier = [];
              later = es;
              split = rw (from, same) refl;
              numbered = ground (arith, here, same);
              first = refl;
            }
        | inr not_here ↦
            let rest = await_response-IsResponse es p (rw not_here at e) in
            record {
              earlier = (n, q) ∷ rest.earlier;
              later = rest.later;
              split = ap (λ l. (n, q) ∷ l) rest.split;
              numbered = rest.numbered;
              first = rw not_here rest.first;
            }
      ]

module _ {E : Type 0} (wire : Parcel E Packet)
    (shuffle : List (PeerId × String) → List (PeerId × String)) where
  -- The node that has sent a request, and then the node that listens too.
  abbrev sent : KeyId → PeerId → Node → Node
  sent key peer self = record self {
    dht_req_counter = (next self.dht_req_counter).0;
    connections =
        send_packet_unchecked wire peer (lookup_request wire shuffle key self.dht_req_counter.value)
          self.connections;
  }

  abbrev asked : KeyId → PeerId → Node → Node
  asked key peer self = listens_for_responses (sent key peer self)

  wait_lem :
      (key : KeyId) (peer : PeerId) (arrivals : List (PeerId × Packet)) (self : Node) (id : ℕ)
      → wait wire shuffle id peer (on_packets wire shuffle arrivals (asked key peer self))
        ≡ await_response request_id_of id peer (lookup_responses arrivals)
  unfolding wait
  wait_lem key peer arrivals self id =
      ap (await_response request_id_of id peer)
        (on_packets-received wire shuffle arrivals (sent key peer self)).0

  -- The node once the packets are handled.
  abbrev after_wait : KeyId → PeerId → List (PeerId × Packet) → Node → Node
  after_wait key peer arrivals self = on_packets wire shuffle arrivals (asked key peer self)

  after_wait-IsSorted :
      (key : KeyId) (peer : PeerId) (arrivals : List (PeerId × Packet)) (self : Node)
      → IsSorted self.connections.connections
      → IsSorted (after_wait key peer arrivals self).connections.connections
  after_wait-IsSorted key peer arrivals self s =
      let request = lookup_request wire shuffle key self.dht_req_counter.value in
      (on_packets-Settled wire shuffle arrivals (asked key peer self)).sorted
        ((send-Settled wire peer request self.connections).sorted s)

  module _ (r : Rsa) (sha256 : List ℕ → List ℕ) where
    -- What the end of a lookup says, for a node, a peer, the packets of the wait, and if the peer
    -- is connected before.
    abbrev pub IsAnswer : Node → PeerId → List (PeerId × Packet) → Bool → Outcome E r.Error → Type 0
    IsAnswer self peer arrivals connected (done (ok result) after) =
        ((p : FindDhtValueRespPacket) × IsResponse request_id_of self.dht_req_counter.value peer
            (lookup_responses arrivals) p
          × (p.result ≡ result))
        × (connected ≡ false → PeerMap.get peer after.connections.connections ≡ none)
    IsAnswer self peer arrivals connected (done (err e) after) =
        (connected ≡ false)
        × (after.connections ≡ self.connections)
        × ((e ≡ failed_to_connect) ⊎ ((x : HandshakeError E r.Error) × (e ≡ handshake_error x)))
    IsAnswer self peer arrivals connected (waiting after) =
        await_response request_id_of self.dht_req_counter.value peer (lookup_responses arrivals)
        ≡ none
    IsAnswer self peer arrivals connected _ = connected ≡ false

    responded-IsAnswer :
        (self : Node) (peer : PeerId) (arrivals : List (PeerId × Packet)) (after : Node)
        (resp : Option FindDhtValueRespPacket)
        → await_response request_id_of self.dht_req_counter.value peer (lookup_responses arrivals)
          ≡ resp
        → IsAnswer self peer arrivals true (responded wire shuffle r sha256 resp after)
    responded-IsAnswer self peer arrivals after none e = e
    responded-IsAnswer self peer arrivals after (some p) e = (
      (
        p,
        await_response-IsResponse request_id_of self.dht_req_counter.value peer
            (lookup_responses arrivals) p e,
        refl,
      ),
      λ x. cc,
    )

    disconnected-IsAnswer :
        (self : Node) (peer : PeerId) (arrivals : List (PeerId × Packet)) (after : Node)
        (resp : Option FindDhtValueRespPacket)
        → IsSorted after.connections.connections
        → await_response request_id_of self.dht_req_counter.value peer (lookup_responses arrivals)
          ≡ resp
        → IsAnswer self peer arrivals false
            (disconnected wire shuffle r sha256 self.dht_req_counter.value peer resp after)
    disconnected-IsAnswer self peer arrivals after none s e = e
    disconnected-IsAnswer self peer arrivals after (some p) s e =
        let found =
          await_response-IsResponse request_id_of self.dht_req_counter.value peer
            (lookup_responses arrivals) p e in
        let matches : not (p.request_id == self.dht_req_counter.value) ≡ false =
          ground (arith, found.numbered) in
        rw (matches, IsAnswer)
          (
            (p, found, refl),
            λ x.
                disconnect-absent wire peer mission_accomplished after.connections
                  after.on_disconnect s,
          )

    taken-IsAnswer :
        (key : KeyId) (peer : PeerId) (arrivals : List (PeerId × Packet)) (self : Node)
        (pool : ConnectionPool)
        → IsSorted pool.connections
        → IsAnswer self peer arrivals false (
            lookup_joined wire shuffle r sha256 key arrivals
              (ok peer)
              (record self { connections = pool }))
    unfolding request send_packet next
    taken-IsAnswer key peer arrivals self pool s =
        let id = self.dht_req_counter.value in
        let joined : Node = record self { connections = pool } in
        let after = after_wait key peer arrivals joined in
        subst
          (λ w.
            IsAnswer self peer arrivals false (disconnected wire shuffle r sha256 id peer w after))
          (sym (wait_lem key peer arrivals joined id))
          (disconnected-IsAnswer self peer arrivals after
            (await_response request_id_of id peer (lookup_responses arrivals))
            (after_wait-IsSorted key peer arrivals joined s) refl)

    known-IsAnswer :
        (key : KeyId) (peer : PeerId) (arrivals : List (PeerId × Packet)) (self : Node)
        → IsAnswer self peer arrivals true
            (dht_lookup_on_already_connected_provider wire shuffle r sha256 key peer arrivals self)
    unfolding dht_lookup_on_already_connected_provider request send_packet next
    known-IsAnswer key peer arrivals self =
        let id = self.dht_req_counter.value in
        subst
          (λ w.
            IsAnswer self peer arrivals true
              (responded wire shuffle r sha256 w (after_wait key peer arrivals self)))
          (sym (wait_lem key peer arrivals self id))
          (responded-IsAnswer self peer arrivals (after_wait key peer arrivals self)
            (await_response request_id_of self.dht_req_counter.value peer
              (lookup_responses arrivals))
            refl)

    joined-IsAnswer :
        (key : KeyId) (peer : PeerId) (arrivals : List (PeerId × Packet)) (self : Node)
        (joined : Joined wire r sha256)
        → IsSorted joined.pool.connections
        → ((id : PeerId) × (joined.result ≡ ok id) × (peer ≡ id))
          ⊎ Refused wire r sha256 self.connections joined
        → IsAnswer self peer arrivals false (
            lookup_joined wire shuffle r sha256 key arrivals joined.result
              (record self { connections = joined.pool }))
    joined-IsAnswer key peer arrivals self joined s (inl (id, e, same)) =
        let pool : Node = record self { connections = joined.pool } in
        subst
          (λ x.
            IsAnswer self peer arrivals false
              (lookup_joined wire shuffle r sha256 key arrivals x pool))
          (sym (e ∙ ap ok (sym same))) (taken-IsAnswer key peer arrivals self joined.pool s)
    joined-IsAnswer key peer arrivals self joined s (inr (kept, (Fault.failed x, e))) =
        rw e (refl, kept, inr (x, refl))
    joined-IsAnswer key peer arrivals self joined s (inr (kept, (Fault.panicked, e))) = rw e refl
    joined-IsAnswer key peer arrivals self joined s (inr (kept, (Fault.out_of_fuel, e))) = rw e refl

    connected-IsAnswer :
        (key : KeyId) (peer : PeerId) (keys : Local r) (random : Random)
        (arrivals : List (PeerId × Packet)) (stream : Option Io) (self : Node)
        → IsSorted self.connections.connections
        → IsAnswer self peer arrivals false
            (lookup_connected wire shuffle r sha256 key peer keys random arrivals stream self)
    connected-IsAnswer key peer keys random arrivals none self s = (refl, refl, inl refl)
    connected-IsAnswer key peer keys random arrivals (some io) self s =
        let joined = handshake wire r sha256 keys random (some peer) io self.connections in
        let sorted =
          (handshake-Grown wire r sha256 keys random (some peer) io self.connections).sorted s in
        joined-IsAnswer key peer arrivals self joined sorted
          (elim (handshake_guards wire r sha256 keys random (some peer) io self.connections) [
            | inl (id, e, taken) ↦ inl (id, e, taken.admitted.welcome.as_dialled peer refl)
            | inr kept ↦ inr kept
          ])

    either-IsAnswer :
        (connect : String → Option Io) (keys : Local r) (random : Random) (key : KeyId)
        (peer : PeerId) (addr : String) (arrivals : List (PeerId × Packet)) (self : Node)
        → IsSorted self.connections.connections
        → (connected : Bool)
        → IsAnswer self peer arrivals connected (
            if connected
            then dht_lookup_on_already_connected_provider wire shuffle r sha256 key peer arrivals
                self
            else lookup_connected wire shuffle r sha256 key peer keys random arrivals
                (connect addr)
                self)
    either-IsAnswer connect keys random key peer addr arrivals self s true =
        known-IsAnswer key peer arrivals self
    either-IsAnswer connect keys random key peer addr arrivals self s false =
        connected-IsAnswer key peer keys random arrivals (connect addr) self s

    -- Let the peers of the pool ascend. A lookup that ends well gives the result of the first
    -- response, among those that arrive from the peer and are not too large, that has the number
    -- of the request; and if the peer was not connected, it is not connected then either. It waits
    -- only if there is no such response. A lookup ends in an error, a panic or without fuel only
    -- for a peer that was not connected; the error is that of connecting or of the handshake, never
    -- one of the others, and leaves the pool as it was.
    pub dht_lookup_on_single_provider-IsAnswer :
        (connect : String → Option Io) (keys : Local r) (random : Random) (key : KeyId)
        (peer : PeerId) (addr : String) (arrivals : List (PeerId × Packet)) (self : Node)
        → IsSorted self.connections.connections
        → IsAnswer self peer arrivals (contains peer self.connections) (
            dht_lookup_on_single_provider wire shuffle r sha256 connect keys random key
              (peer, addr)
              arrivals
              self)
    unfolding dht_lookup_on_single_provider
    dht_lookup_on_single_provider-IsAnswer connect keys random key peer addr arrivals self s =
        either-IsAnswer connect keys random key peer addr arrivals self s
          (contains peer self.connections)
