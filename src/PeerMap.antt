-- ===== src/PeerMap.antt =====
-- `BTreeMap<PeerID, V>` of the standard library, as the list of its entries in ascending order of
-- keys: the order in which the program iterates it. `cmp` is that of src/peers.rs.
pub mod Laws
use Prim.Native.Nat.Ordering.{lt, eq, gt}
use tewta.Base.{ℕ, Bool, true, false, Option, none, some, List, [], ◌∷◌, ◌≡◌, ◌≢◌, map, length, All}
use tewta.Peer.{PeerId, cmp}

abbrev pub PeerMap {ℓ} : Type ℓ → Type ℓ
PeerMap V = List (PeerId × V)

module _ {ℓ} {V : Type ℓ} where
  unfoldable pub get : PeerId → PeerMap V → Option V
  get k [] = none
  get k ((j, v) ∷ m) = elim (cmp k j) [ eq ↦ some v | _ ↦ get k m ]

  unfoldable pub contains_key : PeerId → PeerMap V → Bool
  unfolding get
  contains_key k m = elim (get k m) [ none ↦ false | some v ↦ true ]

  unfoldable pub insert : PeerId → V → PeerMap V → PeerMap V
  insert k v [] = (k, v) ∷ []
  insert k v ((j, w) ∷ m) = elim (cmp k j) [
    | lt ↦ (k, v) ∷ (j, w) ∷ m
    | eq ↦ (k, v) ∷ m
    | gt ↦ (j, w) ∷ insert k v m
  ]

  unfoldable pub remove : PeerId → PeerMap V → PeerMap V
  remove k [] = []
  remove k ((j, w) ∷ m) = elim (cmp k j) [ eq ↦ m | _ ↦ (j, w) ∷ remove k m ]

  -- A change of the value at a key, through `get_mut`.
  unfoldable pub modify : PeerId → (V → V) → PeerMap V → PeerMap V
  modify k f [] = []
  modify k f ((j, w) ∷ m) = elim (cmp k j) [ eq ↦ (j, f w) ∷ m | _ ↦ (j, w) ∷ modify k f m ]

  abbrev pub keys : PeerMap V → List PeerId
  keys [] = []
  keys ((j, w) ∷ m) = j ∷ keys m

  abbrev pub Above : PeerId → PeerMap V → Type 0
  Above k = All (λ (e : PeerId × V). cmp k e.0 ≡ lt)

  -- Ascending keys, so no key twice.
  abbrev pub IsSorted : PeerMap V → Type 0
  IsSorted [] = Unit {0}
  IsSorted ((j, w) ∷ m) = Above j m × IsSorted m
