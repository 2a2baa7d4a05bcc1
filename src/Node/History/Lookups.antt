-- ===== src/Node/History/Lookups.antt =====
-- The steps that a lookup on a single provider of src/node/dht.rs goes through.
use Prim.Native.String.{String}
use tewta.Base.{ℕ, refl, Bool, true, false, Option, none, some, List, ◌==◌, not, if◌then◌else◌}
use tewta.Base.Result.{Result, ok, err, Fault, failed}
use tewta.Crypto.{Rsa, Parcel}
use tewta.Handshake.{Local, Random, asking}
use tewta.Handshake.Error.{HandshakeError}
use tewta.Handshake.Session.{Io}
use tewta.Node.Arrivals.{on_packets, listens_for_responses}
use tewta.Node.Connections.{send_packet, send_packet_unchecked, contains}
use tewta.Node.Counter.{next}
use tewta.Node.Dispatch.{Node}
use tewta.Node.History.{sends, joins, leaves, stays}
use tewta.Node.History.Sequences.{
  Leading, Leads, one, trans, aside, after-Leads, on_packets-Leading,
}
use tewta.Node.History.Tasks.{looked_up}
use tewta.Node.Join.{handshake}
use tewta.Node.Provider.{
  Outcome, lookup_request, request, wait, mission_accomplished, responded, disconnected,
  lookup_joined, lookup_connected, dht_lookup_on_already_connected_provider,
  dht_lookup_on_single_provider,
}
use tewta.Packets.{Packet, FindDhtValueRespPacket}
use tewta.Peer.{PeerId, KeyId}

module _ {E : Type 0} (wire : Parcel E Packet)
    (shuffle : List (PeerId × String) → List (PeerId × String)) (r : Rsa) (sha256 : List ℕ → List ℕ)
    (keys : Local r) where
  abbrev Goes : Node → Node → Type 0
  Goes = Leading wire shuffle r sha256 keys

  abbrev Looks : Node → Outcome E r.Error → Type 0
  Looks s o = Leads wire shuffle r sha256 keys s (looked_up o)

  responded-Looks :
      {s : Node} (resp : Option FindDhtValueRespPacket) (self : Node)
      → Goes s self
      → Looks s (responded wire shuffle r sha256 resp self)
  responded-Looks none self p = p
  responded-Looks (some resp) self p =
      trans wire shuffle r sha256 keys p (aside wire shuffle r sha256 keys refl refl refl refl)

  either-Looks :
      (s : Node) (a b : Outcome E r.Error) (c : Bool)
      → Looks s a
      → Looks s b
      → Looks s (if c then a else b)
  either-Looks s a b true p q = p
  either-Looks s a b false p q = q

  disconnected-Looks :
      {s : Node} (id : ℕ) (peer : PeerId) (resp : Option FindDhtValueRespPacket) (self : Node)
      → Goes s self
      → Looks s (disconnected wire shuffle r sha256 id peer resp self)
  disconnected-Looks id peer none self p = p
  disconnected-Looks id peer (some resp) self p =
      let path = trans wire shuffle r sha256 keys p (
        trans wire shuffle r sha256 keys
          (one wire shuffle r sha256 keys (leaves peer mission_accomplished refl))
          (aside wire shuffle r sha256 keys refl refl refl refl)) in
      either-Looks _ _ _ (not (resp.request_id == id)) path path

  request-Leads :
      (key : KeyId) (peer : PeerId) (self : Node)
      → Leads wire shuffle r sha256 keys self (request wire shuffle key peer self).1
  unfolding request send_packet next
  request-Leads key peer self =
      let p = lookup_request wire shuffle key self.dht_req_counter.value in
      let counted : Node =
        listens_for_responses (record self { dht_req_counter = (next self.dht_req_counter).0 }) in
      let sent : Node = record counted {
        connections = send_packet_unchecked wire peer p self.connections;
      } in
      trans wire shuffle r sha256 keys
        (aside wire shuffle r sha256 keys {s = self} {t = counted} refl refl refl refl)
        (one wire shuffle r sha256 keys {s = counted} {t = sent}
          (sends peer p sent.connections refl refl))

  sent-Looks :
      (s : Node) (sent : Option Node) (k : Node → Outcome E r.Error)
      → Leads wire shuffle r sha256 keys s sent
      → ((m : Node) → Looks m (k m))
      → Looks s (elim sent [ none ↦ Outcome.panicked | some self ↦ k self ])
  sent-Looks s none k l h = tt
  sent-Looks s (some m) k l h = after-Leads wire shuffle r sha256 keys (looked_up (k m)) l (h m)

  already_connected-Looks :
      (key : KeyId) (peer : PeerId) (arrivals : List (PeerId × Packet)) (self : Node)
      → Looks self
          (dht_lookup_on_already_connected_provider wire shuffle r sha256 key peer arrivals self)
  unfolding dht_lookup_on_already_connected_provider
  already_connected-Looks key peer arrivals self =
      let (id, sent) = request wire shuffle key peer self in
      sent-Looks self sent _ (request-Leads key peer self) (λ m.
        let m' = on_packets wire shuffle arrivals m in
        responded-Looks (wait wire shuffle id peer m') m'
          (on_packets-Leading wire shuffle r sha256 keys arrivals m))

  joined-Looks :
      {s : Node} (key : KeyId) (arrivals : List (PeerId × Packet))
      (result : Result (Fault (HandshakeError E r.Error)) PeerId) (self : Node)
      → Goes s self
      → Looks s (lookup_joined wire shuffle r sha256 key arrivals result self)
  joined-Looks key arrivals (err (failed e)) self p = p
  joined-Looks key arrivals (err Fault.panicked) self p = tt
  joined-Looks key arrivals (err Fault.out_of_fuel) self p = tt
  joined-Looks key arrivals (ok peer) self p =
      let (id, sent) = request wire shuffle key peer self in
      sent-Looks _ sent _
        (after-Leads wire shuffle r sha256 keys sent p (request-Leads key peer self))
        (λ m.
          let m' = on_packets wire shuffle arrivals m in
          disconnected-Looks id peer (wait wire shuffle id peer m') m'
            (on_packets-Leading wire shuffle r sha256 keys arrivals m))

  connected-Looks :
      (connected : PeerId → Bool) (random : Random) (key : KeyId) (peer : PeerId)
      (arrivals : List (PeerId × Packet)) (stream : Option Io) (self : Node)
      → Looks self (
          lookup_connected wire shuffle r sha256 key peer
            (asking connected keys)
            random
            arrivals
            stream
            self)
  connected-Looks connected random key peer arrivals none self = stays refl
  connected-Looks connected random key peer arrivals (some io) self =
      let joined =
        handshake wire r sha256 (asking connected keys) random (some peer) io self.connections in
      joined-Looks key arrivals joined.result (record self { connections = joined.pool })
        (one wire shuffle r sha256 keys (joins connected random (some peer) io refl))

  pub lookup-Leads :
      (connected : PeerId → Bool) (random : Random) (connect : String → Option Io) (key : KeyId)
      (peer : PeerId) (addr : String) (arrivals : List (PeerId × Packet)) (self : Node)
      → Looks self (
          dht_lookup_on_single_provider wire shuffle r sha256 connect
            (asking connected keys)
            random
            key
            (peer, addr)
            arrivals
            self)
  unfolding dht_lookup_on_single_provider
  lookup-Leads connected random connect key peer addr arrivals self =
      either-Looks self _ _ (contains peer self.connections)
        (already_connected-Looks key peer arrivals self)
        (connected-Looks connected random key peer arrivals (connect addr) self)
