-- ===== src/Node/History/Connected.antt =====
-- The pool and the store of a node of src/node/node.rs, whatever its tasks have done.
use Prim.Native.String.{String}
use tewta.Base.{
  ℕ, ◌≡◌, ◌≢◌, sym, ◌∙◌, subst, arith, inl, inr, Bool, true, false, Option, none, some, List,
  Bool-cases,
}
use tewta.Crypto.{Rsa, Parcel}
use tewta.Handshake.{Local, Random, asking}
use tewta.Handshake.Guards.{Admitted}
use tewta.Handshake.Session.{Io}
use tewta.Node.Arrivals.Pool.{
  Settled, send-Settled, set_ping-Settled, disconnect-Settled, handle-Settled,
}
use tewta.Node.Connections.{ConnectionPool, contains, is_quit, send_packet, send_packet_unchecked}
use tewta.Node.Dht.Laws.{set-IsSorted}
use tewta.Node.Dispatch.{Node}
use tewta.Node.History.{
  Step, moves_aside, handles, sends, joins, leaves, is_pinged, stores, Steps, stays, goes,
}
use tewta.Node.History.Kept.{handle-Kept}
use tewta.Node.Join.{handshake}
use tewta.Node.Join.Guards.{handshake_guards}
use tewta.Node.Join.Pool.{handshake-Grown}
use tewta.Packets.{Packet}
use tewta.Peer.{PeerId, eq_peer}
use tewta.Peer.Order.{eq_peer_iff}
use tewta.PeerMap
use tewta.PeerMap.{IsSorted}
use tewta.Signed.{peer_id_of}

module _ {E : Type 0} (wire : Parcel E Packet) (r : Rsa) (sha256 : List ℕ → List ℕ)
    (keys : Local r) where
  -- A handshake has admitted the peer.
  pub record Introduced (q : PeerId) : Type 0 where
    pub connected : PeerId → Bool
    pub random : Random
    pub expected : Option PeerId
    pub admitted : Admitted wire r sha256 (asking connected keys) random expected q

  pub record IsPool (pool : ConnectionPool) : Type 0 where
    pub sorted : IsSorted pool.connections
    pub owner : pool.our_peer_id ≡ keys.peer_id
    pub introduced : (q : PeerId) → PeerMap.get q pool.connections ≢ none → Introduced q

  pub record IsNode (self : Node) : Type 0 where
    pub pool : IsPool self.connections
    pub identity : self.peer_id ≡ keys.peer_id
    pub dht_sorted : IsSorted self.dht.table

  settled-IsPool :
      {before after : ConnectionPool} → Settled before after → IsPool before → IsPool after
  settled-IsPool h i = record {
    sorted = h.sorted i.sorted;
    owner = h.same_owner ∙ i.owner;
    introduced = λ q there. i.introduced q (λ absent. there (h.none_new q absent));
  }

  handshake-IsPool :
      (connected : PeerId → Bool) (random : Random) (expected : Option PeerId) (io : Io)
      (pool : ConnectionPool)
      → IsPool pool
      → IsPool (handshake wire r sha256 (asking connected keys) random expected io pool).pool
  handshake-IsPool connected random expected io pool i =
      let grown = handshake-Grown wire r sha256 (asking connected keys) random expected io pool in
      elim (handshake_guards wire r sha256 (asking connected keys) random expected io pool) [
        | inr (same, f) ↦ subst {A = ConnectionPool} IsPool (sym same) i
        | inl (id, e, taken) ↦ record {
          sorted = grown.sorted i.sorted;
          owner = grown.same_owner ∙ i.owner;
          introduced = λ q there. elim (Bool-cases (eq_peer q id)) [
            | inl same ↦ subst Introduced (sym ((eq_peer_iff q id).0 same)) (record {
              connected = connected;
              random = random;
              expected = expected;
              admitted = taken.admitted;
            })
            | inr other ↦
                let apart : q ≢ id = λ h. ground (arith, other, (eq_peer_iff q id).1 h) in
                i.introduced q (λ absent. there (taken.others q apart ∙ absent))
          ];
        }
      ]

  sent-Settled :
      (n : PeerId) (p : Packet) (pool after : ConnectionPool)
      → send_packet wire n p pool ≡ some after
      → Settled pool after
  unfolding send_packet
  sent-Settled n p pool after e = elim (Bool-cases (is_quit p)) [
    | inl quit ↦ absurd (cc (rw quit at e))
    | inr other ↦
        let same : send_packet_unchecked wire n p pool ≡ after = cc (rw other at e) in
        subst (Settled pool) same (send-Settled wire n p pool)
  ]

  module _ (shuffle : List (PeerId × String) → List (PeerId × String)) where
    Step-IsNode : {s t : Node} → Step wire shuffle r sha256 keys s t → IsNode s → IsNode t
    Step-IsNode {s} {t} (moves_aside a) i = record {
      pool = subst {A = ConnectionPool} IsPool (sym a.connections) i.pool;
      identity = a.peer_id ∙ i.identity;
      dht_sorted = rw a.dht i.dht_sorted;
    }
    Step-IsNode {s} {t} (handles n p e) i =
        let k = handle-Kept wire shuffle n p s in
        subst {A = Node} IsNode (sym e) (record {
          pool = settled-IsPool (handle-Settled wire shuffle n p s) i.pool;
          identity = k.peer_id ∙ i.identity;
          dht_sorted = k.dht_sorted i.dht_sorted;
        })
    Step-IsNode {s} {t} (sends n p c e f) i = subst {A = Node} IsNode (sym f) (record {
      pool = settled-IsPool (sent-Settled n p s.connections c e) i.pool;
      identity = i.identity;
      dht_sorted = i.dht_sorted;
    })
    Step-IsNode {s} {t} (joins connected random expected io e) i =
        subst {A = Node} IsNode (sym e) (record {
          pool = handshake-IsPool connected random expected io s.connections i.pool;
          identity = i.identity;
          dht_sorted = i.dht_sorted;
        })
    Step-IsNode {s} {t} (leaves n p e) i = subst {A = Node} IsNode (sym e) (record {
      pool = settled-IsPool (disconnect-Settled wire n p s.connections s.on_disconnect) i.pool;
      identity = i.identity;
      dht_sorted = i.dht_sorted;
    })
    Step-IsNode {s} {t} (is_pinged n nanos e) i = subst {A = Node} IsNode (sym e) (record {
      pool = settled-IsPool (set_ping-Settled n nanos s.connections) i.pool;
      identity = i.identity;
      dht_sorted = i.dht_sorted;
    })
    Step-IsNode {s} {t} (stores key v e) i = subst {A = Node} IsNode (sym e) (record {
      pool = i.pool;
      identity = i.identity;
      dht_sorted = set-IsSorted key v s.dht i.dht_sorted;
    })

    pub Steps-IsNode : {s t : Node} → Steps wire shuffle r sha256 keys s t → IsNode s → IsNode t
    Steps-IsNode {s} (stays e) i = subst {A = Node} IsNode (sym e) i
    Steps-IsNode {s} (goes steps step) i = Step-IsNode step (Steps-IsNode steps i)

    -- What every reachable node keeps.
    pub record Guarded (self : Node) : Type 0 where
      pub identity : self.peer_id ≡ peer_id_of r sha256 keys.rsa_public_key
      pub sorted : IsSorted self.connections.connections
      pub dht_sorted : IsSorted self.dht.table
      pub introduced : (q : PeerId) → contains q self.connections ≡ true → Introduced q
      pub not_itself : contains self.peer_id self.connections ≡ false
