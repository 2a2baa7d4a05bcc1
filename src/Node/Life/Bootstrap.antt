-- ===== src/Node/Life/Bootstrap.antt =====
-- The pool of a node that looks for its first peers, by `bootstrap_peers` of src/node/node.rs.
use tewta.Base.{
  ℕ, zero, suc, ◌+◌, ◌≤◌, ◌≡◌, refl, subst, arith, Bool, true, false, Option, none, some, List, max,
  leb, and_then, Bool-cases, Option-cases, inl, inr,
}
use tewta.Base.Result.{Result, ok, err, Fault, failed, panicked, out_of_fuel}
use tewta.Crypto.{Rsa, Parcel}
use tewta.Handshake.{Local, Random, asking}
use tewta.Handshake.Error.{HandshakeError}
use tewta.Handshake.Session.{Io}
use tewta.Node.Connections.{ConnectionPool, len}
use tewta.Node.Connections.{already_connected}
use tewta.Node.Dispatch.{Node}
use tewta.Node.Join.{handshake}
use tewta.Node.Join.Pool.{Grown, same-Grown, handshake-Grown}
use tewta.Node.Join.Returns.{Returns, value, error, handshake-Returns}
use tewta.Node.Life.{entered, on_connection, Round, attempt, bootstrap_peers}
use tewta.Packets.{Packet}
use tewta.Peer.{PeerId}
use tewta.PeerMap.{IsSorted}

-- The pool after `n` rounds.
pub record Filled (n : ℕ) (self after : Node) : Type 0 where
  pub sorted : IsSorted after.connections.connections
  pub at_most : len after.connections ≤ len self.connections + n
  pub capped : len after.connections ≤ max 5 (len self.connections + 1)

-- What a round returns is the node that it made.
returned-Grown :
    (pool : ConnectionPool) (self after : Node)
    → Grown pool self.connections
    → some self ≡ some after
    → Grown pool after.connections
returned-Grown pool self after g e =
    let same : self ≡ after = cc e in subst {A = Node} (λ n. Grown pool n.connections) same g

module _ {E : Type 0} (wire : Parcel E Packet) (r : Rsa) (sha256 : List ℕ → List ℕ) where
  entered-Grown :
      (pool : ConnectionPool) (result : Result (Fault (HandshakeError E r.Error)) PeerId)
      (self after : Node)
      → Grown pool self.connections
      → and_then (entered wire r sha256 result self) (λ (run : Node × Option PeerId). some run.0)
        ≡ some after
      → Grown pool after.connections
  entered-Grown pool (ok id) self after g e = returned-Grown pool self after g e
  entered-Grown pool (err (failed x)) self after g e = returned-Grown pool self after g e
  entered-Grown pool (err panicked) self after g e = cc e
  entered-Grown pool (err out_of_fuel) self after g e = cc e

  connection-Grown :
      (keys : Local r) (random : Random) (timed_out : Bool) (io : Io) (self after : Node)
      → and_then
          (on_connection wire r sha256 keys random timed_out io self)
          (λ (run : Node × Option PeerId). some run.0)
        ≡ some after
      → Grown self.connections after.connections
  unfolding on_connection
  connection-Grown keys random true io self after e =
      returned-Grown self.connections self after (same-Grown self.connections) e
  connection-Grown keys random false io self after e =
      let joined = handshake wire r sha256 keys random none io self.connections in
      let entered_self : Node = record self { connections = joined.pool } in
      entered-Grown self.connections joined.result entered_self after
        (handshake-Grown wire r sha256 keys random none io self.connections) e

  attempt-Grown :
      (keys : Local r) (round : Round wire r sha256) (stream : Option Io) (self after : Node)
      → attempt wire r sha256 keys round stream self ≡ some after
      → Grown self.connections after.connections
  attempt-Grown keys round none self after e =
      returned-Grown self.connections self after (same-Grown self.connections) e
  attempt-Grown keys round (some io) self after e =
      connection-Grown (asking round.connected keys) round.random round.timed_out io self after e

  stopped-Filled :
      (n : ℕ) (self mid after : Node)
      → Grown self.connections mid.connections
      → IsSorted self.connections.connections
      → some mid ≡ some after
      → Filled (suc n) self after
  stopped-Filled n self mid after g s e =
      let same : mid ≡ after = cc e in
      subst {A = Node} (Filled (suc n) self) same (record {
        sorted = g.sorted s;
        at_most = omega (arith, g.one_more);
        capped = omega (arith, g.one_more);
      })

  bootstrap_peers-Filled :
      (keys : Local r) (rounds : ℕ → Round wire r sha256) (n : ℕ) (self after : Node)
      → IsSorted self.connections.connections
      → bootstrap_peers wire r sha256 keys rounds n self ≡ some after
      → Filled n self after
  unfolding bootstrap_peers
  bootstrap_peers-Filled keys rounds zero self after s e =
      let same : self ≡ after = cc e in
      subst {A = Node} (Filled 0 self) same
        (record { sorted = s; at_most = omega arith; capped = omega arith })
  bootstrap_peers-Filled keys rounds (suc n) self after s e =
      elim (Option-cases (attempt wire r sha256 keys (rounds n) (rounds n).stream self)) [
        | inl panic ↦ absurd (cc (rw panic at e))
        | inr (mid, tried) ↦
            let g = attempt-Grown keys (rounds n) (rounds n).stream self mid tried in
            elim (Bool-cases (leb 5 (len mid.connections))) [
              | inl enough ↦ stopped-Filled n self mid after g s (rw (tried, enough) at e)
              | inr few ↦
                  let rest =
                    bootstrap_peers-Filled keys rounds n mid after (g.sorted s)
                      (rw (tried, few) at e) in
                  record {
                    sorted = rest.sorted;
                    at_most = omega (arith, g.one_more, rest.at_most);
                    capped = ground (arith, few, rest.capped);
                  }
            ]
      ]

  module _ (raw : List ℕ) (h : wire.raw_bytes already_connected ≡ ok raw) where
    entered-returns :
        (result : Result (Fault (HandshakeError E r.Error)) PeerId) (self : Node)
        → Returns result
        → (after : Node) × (and_then
              (entered wire r sha256 result self)
              (λ (run : Node × Option PeerId). some run.0)
            ≡ some after)
    entered-returns (ok id) self ends = (self, refl)
    entered-returns (err (failed x)) self ends = (self, refl)
    entered-returns (err panicked) self (value a e) = cc e
    entered-returns (err panicked) self (error x e) = cc e
    entered-returns (err out_of_fuel) self (value a e) = cc e
    entered-returns (err out_of_fuel) self (error x e) = cc e

    connection-returns :
        (keys : Local r) (random : Random) (timed_out : Bool) (io : Io) (self : Node)
        → (after : Node) × (and_then
              (on_connection wire r sha256 keys random timed_out io self)
              (λ (run : Node × Option PeerId). some run.0)
            ≡ some after)
    unfolding on_connection
    connection-returns keys random true io self = (self, refl)
    connection-returns keys random false io self =
        let joined = handshake wire r sha256 keys random none io self.connections in
        entered-returns joined.result (record self { connections = joined.pool })
          (handshake-Returns wire raw h r sha256 keys random none io self.connections)

    attempt-returns :
        (keys : Local r) (round : Round wire r sha256) (stream : Option Io) (self : Node)
        → (after : Node) × (attempt wire r sha256 keys round stream self ≡ some after)
    attempt-returns keys round none self = (self, refl)
    attempt-returns keys round (some io) self =
        connection-returns (asking round.connected keys) round.random round.timed_out io self

    bootstrap_returns :
        (keys : Local r) (rounds : ℕ → Round wire r sha256) (n : ℕ) (self : Node)
        → (after : Node) × (bootstrap_peers wire r sha256 keys rounds n self ≡ some after)
    unfolding bootstrap_peers
    bootstrap_returns keys rounds zero self = (self, refl)
    bootstrap_returns keys rounds (suc n) self =
        let (mid, tried) = attempt-returns keys (rounds n) (rounds n).stream self in
        elim (Bool-cases (leb 5 (len mid.connections))) [
          | inl enough ↦ (mid, rw (tried, enough) refl)
          | inr few ↦
              let (after, rest) = bootstrap_returns keys rounds n mid in
              (after, rw (tried, few) rest)
        ]

    -- Let the peers of the pool ascend, and let the quit packet for a peer that is connected already
    -- serialize. Then a bootstrap of `n` rounds returns, whatever streams it is given; the peers
    -- ascend still; there are at most `n` more, and at most five, or one more than before if that
    -- is more.
    pub bootstrap_peers_bounds :
        (keys : Local r) (rounds : ℕ → Round wire r sha256) (n : ℕ) (self : Node)
        → IsSorted self.connections.connections
        → (after : Node) × (bootstrap_peers wire r sha256 keys rounds n self ≡ some after)
          × Filled n self after
    bootstrap_peers_bounds keys rounds n self s =
        let (after, e) = bootstrap_returns keys rounds n self in
        (after, e, bootstrap_peers-Filled keys rounds n self after s e)
