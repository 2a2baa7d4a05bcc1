-- ===== src/Node/Dht/Laws.antt =====
-- Reads from the store of src/node/dht.rs.
use tewta.Base.{
  Option, none, some, List, [], ◌∷◌, ◌++◌, ◌≡◌, ◌≢◌, refl, ap, arith, Option-cases, Bool-cases, inl,
  inr,
}
use tewta.Node.Dht.{DhtStore, get, set}
use tewta.Packets.{DhtValue}
use tewta.Peer.{KeyId, eq_peer}
use tewta.Peer.Order.{eq_peer_iff}
use tewta.PeerMap
use tewta.PeerMap.{IsSorted}
use tewta.PeerMap.Laws.{
  get-insert_self, get-insert_ne, get-modify_self, get-modify_ne, get-remove_self, get-remove_ne,
  remove-IsSorted, insert-IsSorted, modify-IsSorted,
}

abbrev unwrap_or_empty : Option (List DhtValue) → List DhtValue
unwrap_or_empty none = []
unwrap_or_empty (some vs) = vs

-- The values under a key.
abbrev pub values : KeyId → DhtStore → List DhtValue
values key self = unwrap_or_empty (PeerMap.get key self.table)

-- The answer that a list of values makes.
abbrev pub answer : List DhtValue → Option (List DhtValue)
answer [] = none
answer (v ∷ vs) = some (v ∷ vs)

get_lem : (key : KeyId) (self : DhtStore) → (get key self).0 ≡ answer (values key self)
unfolding get
get_lem key self = ground arith

values-set_self :
    (key : KeyId) (v : DhtValue) (self : DhtStore)
    → values key (set key v self) ≡ values key self ++ v ∷ []
unfolding set
values-set_self key v self = elim (Option-cases (PeerMap.get key self.table)) [
  | inl absent ↦ ground (arith, absent, get-insert_self key (v ∷ []) self.table)
  | inr (vs, there) ↦ ground (arith, there, get-modify_self key (λ vs. vs ++ v ∷ []) vs self.table)
]

values-set_ne :
    (key q : KeyId) (v : DhtValue) (self : DhtStore)
    → q ≢ key
    → values q (set key v self) ≡ values q self
unfolding set
values-set_ne key q v self n = elim (Option-cases (PeerMap.get key self.table)) [
  | inl absent ↦ ground (arith, absent, get-insert_ne key q (v ∷ []) self.table n)
  | inr (vs, there) ↦ ground (arith, there, get-modify_ne key q (λ vs. vs ++ v ∷ []) self.table n)
]

append-answer : (xs : List DhtValue) (v : DhtValue) → answer (xs ++ v ∷ []) ≡ some (xs ++ v ∷ [])
append-answer [] v = refl
append-answer (x ∷ xs) v = refl

-- A value that is stored is the last that its key answers, behind those stored before; the answers
-- of the other keys stay.
pub get-set :
    (key : KeyId) (v : DhtValue) (self : DhtStore)
    → ((get key (set key v self)).0 ≡ some (values key self ++ v ∷ []))
      × ((q : KeyId) → q ≢ key → (get q (set key v self)).0 ≡ (get q self).0)
get-set key v self = (
  rw (get_lem key (set key v self), values-set_self key v self) (append-answer (values key self) v),
  λ q n. rw (get_lem q (set key v self), get_lem q self, values-set_ne key q v self n) refl,
)

data Entry (o : Option (List DhtValue)) : Type 0 where
  missing : o ≡ none → Entry o
  empty : o ≡ some [] → Entry o
  filled : (v : DhtValue) (vs : List DhtValue) → o ≡ some (v ∷ vs) → Entry o

entry : (o : Option (List DhtValue)) → Entry o
entry none = missing refl
entry (some []) = empty refl
entry (some (v ∷ vs)) = filled v vs refl

values-remove :
    (key q : KeyId) (self : DhtStore)
    → IsSorted self.table
    → PeerMap.get key self.table ≡ some []
    → values q (record { table = PeerMap.remove key self.table }) ≡ values q self
values-remove key q self s e = elim (Bool-cases (eq_peer q key)) [
  | inl same ↦
      let here : q ≡ key = (eq_peer_iff q key).0 same in
      rw (here, get-remove_self key self.table s, e) refl
  | inr other ↦
      let apart : q ≢ key = λ h. ground (arith, other, (eq_peer_iff q key).1 h) in
      rw (get-remove_ne key q self.table apart) refl
]

-- The store after a read.
store_missing :
    (key : KeyId) (self : DhtStore) → PeerMap.get key self.table ≡ none → (get key self).1 ≡ self
unfolding get
store_missing key self e = ground (arith, e)

store_empty :
    (key : KeyId) (self : DhtStore)
    → PeerMap.get key self.table ≡ some []
    → (get key self).1 ≡ record { table = PeerMap.remove key self.table }
unfolding get
store_empty key self e = ground (arith, e)

store_filled :
    (key : KeyId) (self : DhtStore) (v : DhtValue) (vs : List DhtValue)
    → PeerMap.get key self.table ≡ some (v ∷ vs)
    → (get key self).1 ≡ self
unfolding get
store_filled key self v vs e = ground (arith, e)

after_get :
    (key q : KeyId) (self : DhtStore)
    → IsSorted self.table
    → (values q (get key self).1 ≡ values q self) × IsSorted (get key self).1.table
after_get key q self s = elim (entry (PeerMap.get key self.table)) [
  | missing e ↦ rw (store_missing key self e) (refl, s)
  | empty e ↦
      rw (store_empty key self e) (values-remove key q self s e, remove-IsSorted key self.table s)
  | filled v vs e ↦ rw (store_filled key self v vs e) (refl, s)
]

-- The read removes an empty entry, and nothing that can be seen by another read: on a table whose
-- keys ascend, which stay so.
pub get-after_get :
    (key q : KeyId) (self : DhtStore)
    → IsSorted self.table
    → ((get q (get key self).1).0 ≡ (get q self).0) × IsSorted (get key self).1.table
get-after_get key q self s =
    let (same, sorted) = after_get key q self s in
    (rw (get_lem q (get key self).1, get_lem q self) (ap answer same), sorted)

pub set-IsSorted :
    (key : KeyId) (v : DhtValue) (self : DhtStore)
    → IsSorted self.table
    → IsSorted (set key v self).table
unfolding set
set-IsSorted key v self s = elim (Option-cases (PeerMap.get key self.table)) [
  | inl absent ↦ rw (absent, set) (insert-IsSorted key (v ∷ []) self.table s)
  | inr (vs, there) ↦ rw (there, set) (modify-IsSorted key (λ vs. vs ++ v ∷ []) self.table s)
]
