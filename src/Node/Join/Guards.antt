-- ===== src/Node/Join/Guards.antt =====
-- `Node::handshake` of src/node/handshake.rs: its outcomes and the pool.
use Prim.Native.String.{String}
use tewta.Base.{ℕ, Option, none, some, List, ◌≡◌, ◌≢◌, refl, ap, ◌⊎◌, inl, inr, Bool-cases}
use tewta.Base.Result.{Result, ok, err, Fault, failed, panicked, out_of_fuel, Result-cases}
use tewta.Crypto.{Rsa, Parcel}
use tewta.Handshake.{Local, Random, handshake_raw}
use tewta.Handshake.Error.{HandshakeError, already_connected, protocol_error, handshake_to_quit}
use tewta.Handshake.Guards.{Admitted, handshake_raw-Admitted}
use tewta.Handshake.Session.{Io}
use tewta.Node.Connections.{ConnectionPool, PeerInfo, ReadTask, insert}
use tewta.Node.Connections
use tewta.Node.Join.{Joined, enter, leave, finish, handshake}
use tewta.Packets.{Packet, to_quit}
use tewta.Peer.{PeerId}
use tewta.PeerMap
use tewta.PeerMap.{PeerMap, contains_key}
use tewta.PeerMap.Laws.{get_of_contains_key, get-insert_self, get-insert_ne}

module _ {E : Type 0} (wire : Parcel E Packet) (r : Rsa) (sha256 : List ℕ → List ℕ) where
  -- The peer that a call took in: a peer that the handshake admits, that was not in the pool,
  -- that is there now without a ping, and beside which no entry has changed.
  pub record Taken (self : Local r) (random : Random) (expected : Option PeerId)
      (pool : ConnectionPool) (after : ConnectionPool) (id : PeerId) : Type 0 where
    pub admitted : Admitted wire r sha256 self random expected id
    pub was_absent : PeerMap.get id pool.connections ≡ none
    pub peer : PeerInfo
    pub present : PeerMap.get id after.connections ≡ some peer
    pub no_ping : peer.ping_nanos ≡ none
    pub reads : peer.read_stream_task.peer_id ≡ id
    pub others :
        (q : PeerId) → q ≢ id → PeerMap.get q after.connections ≡ PeerMap.get q pool.connections

  -- The call ended without a peer, and left the pool as it was.
  abbrev pub Refused : ConnectionPool → Joined wire r sha256 → Type 0
  Refused pool j = (j.pool ≡ pool) × ((f : Fault (HandshakeError E r.Error)) × (j.result ≡ err f))

  abbrev fresh : PeerId → List ℕ → List ℕ → String → PeerInfo
  fresh id inbound outbound addr = record {
    addr = addr;
    write_stream = outbound;
    ping_nanos = none;
    read_stream_task = record { peer_id = id; inbound = inbound };
  }

  insert_lem :
      (id : PeerId) (inbound outbound : List ℕ) (addr : String) (pool after : ConnectionPool)
      → insert wire id inbound outbound addr pool ≡ ok after
      → (PeerMap.get id pool.connections ≡ none)
        × (after.connections ≡ PeerMap.insert id (fresh id inbound outbound addr) pool.connections)
  unfolding insert
  insert_lem id inbound outbound addr pool after e =
      elim (Bool-cases (contains_key id pool.connections)) [
        | inl there ↦ elim (Result-cases (wire.raw_bytes Connections.already_connected)) [
          | inl (p, raw) ↦ absurd (cc (rw (there, raw) at e))
          | inr (x, raw) ↦ absurd (cc (rw (there, raw) at e))
        ]
        | inr absent ↦
            let made = PeerMap.insert id (fresh id inbound outbound addr) pool.connections in
            let whole : after ≡ record pool { connections = made } = cc (rw absent at e) in
            (
              get_of_contains_key id pool.connections absent,
              ap (λ (c : ConnectionPool). c.connections) whole,
            )
      ]

  insert-Taken :
      (self : Local r) (random : Random) (expected : Option PeerId) (pool after : ConnectionPool)
      (id : PeerId) (inbound outbound : List ℕ) (addr : String)
      → Admitted wire r sha256 self random expected id
      → insert wire id inbound outbound addr pool ≡ ok after
      → Taken self random expected pool after id
  insert-Taken self random expected pool after id inbound outbound addr a e =
      let (absent, made) = insert_lem id inbound outbound addr pool after e in
      let peer = fresh id inbound outbound addr in
      record {
        admitted = a;
        was_absent = absent;
        peer = peer;
        present = rw made (get-insert_self id peer pool.connections);
        no_ping = refl;
        reads = refl;
        others = λ q n. rw made (get-insert_ne id q peer pool.connections n);
      }

  enter_lem :
      (pool : ConnectionPool) (id : PeerId) (io : Io)
      (made : Result (Fault (List ℕ)) ConnectionPool)
      → ((after : ConnectionPool) × (made ≡ ok after)
          × (enter wire r sha256 id io pool made
              ≡ record { result = ok id; io = io; pool = after }))
        ⊎ Refused pool (enter wire r sha256 id io pool made)
  enter_lem pool id io (ok after) = inl (after, refl, refl)
  enter_lem pool id io (err (failed w)) = inr (refl, (failed already_connected, refl))
  enter_lem pool id io (err panicked) = inr (refl, (panicked, refl))
  enter_lem pool id io (err out_of_fuel) = inr (refl, (out_of_fuel, refl))

  leave_lem :
      (x : HandshakeError E r.Error) (io : Io) (pool : ConnectionPool) (p : Result E (List ℕ))
      → Refused pool (leave wire r sha256 x io pool p)
  leave_lem x io pool (ok p) = (refl, (failed x, refl))
  leave_lem x io pool (err e) = (refl, (failed (protocol_error e), refl))

  finish_lem :
      (self : Local r) (random : Random) (expected : Option PeerId) (pool : ConnectionPool)
      (run : Result (HandshakeError E r.Error) (PeerId × String) × Io)
      → ((id : PeerId) (addr : String) (io' : Io)
          → run ≡ (ok (id, addr), io')
          → Admitted wire r sha256 self random expected id)
      → ((id : PeerId) × ((finish wire r sha256 pool run).result ≡ ok id)
          × Taken self random expected pool (finish wire r sha256 pool run).pool id)
        ⊎ Refused pool (finish wire r sha256 pool run)
  finish_lem self random expected pool (err e, io) h =
      inr (leave_lem e io pool (wire.raw_bytes (Packet.quit (to_quit handshake_to_quit e))))
  finish_lem self random expected pool (ok (id, addr), io) h =
      elim (enter_lem pool id io (insert wire id io.inbound io.outbound addr pool)) [
        | inr kept ↦ inr kept
        | inl (after, made, e) ↦ inl (
          id,
          ap Joined.result e,
          rw e (
              insert-Taken self random expected pool after id io.inbound io.outbound addr
                (h id addr io refl) made),
        )
      ]

  -- A call either takes a peer in, and returns its identifier, or returns an error (or panics) and
  -- leaves the pool as it was. The peer is one that the handshake admits; it was not in the pool,
  -- so that no connection is replaced; and the entries of all other peers stay.
  pub handshake_guards :
      (self : Local r) (random : Random) (expected : Option PeerId) (io : Io)
      (pool : ConnectionPool)
      → ((id : PeerId) × ((handshake wire r sha256 self random expected io pool).result ≡ ok id)
          × Taken self random expected pool
              (handshake wire r sha256 self random expected io pool).pool
              id)
        ⊎ Refused pool (handshake wire r sha256 self random expected io pool)
  unfolding handshake
  handshake_guards self random expected io pool =
      finish_lem self random expected pool (handshake_raw wire r sha256 self random expected io)
        (λ id addr io' e.
          handshake_raw-Admitted wire r sha256 self random expected io io' id addr e)
