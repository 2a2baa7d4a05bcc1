-- ===== src/PeerMap/Laws.antt =====
-- Reads of the map after its changes, and the order of its keys.
use Prim.Native.Nat.Ordering.{lt}
use tewta.Base.{false, none, some, [], ◌∷◌, ◌≡◌, ◌≢◌, refl, All-imp, arith}
use tewta.Peer.{PeerId, cmp}
use tewta.Peer.Order.{IsLawful, cmp-IsLawful}
use tewta.PeerMap.{PeerMap, get, contains_key, insert, remove, modify, Above, IsSorted}

abbrev o : IsLawful cmp
o = cmp-IsLawful

module _ {ℓ} {V : Type ℓ} where
  pub get_of_contains_key : (k : PeerId) (m : PeerMap V) → contains_key k m ≡ false → get k m ≡ none
  unfolding contains_key
  get_of_contains_key k m h = ground (arith, h)

  pub get-insert_self : (k : PeerId) (v : V) (m : PeerMap V) → get k (insert k v m) ≡ some v
  unfolding get insert
  get-insert_self k v [] = ground (arith, o.reflexive k)
  get-insert_self k v ((j, w) ∷ m) = ground (arith, o.reflexive k, get-insert_self k v m)

  pub get-insert_ne :
      (k q : PeerId) (v : V) (m : PeerMap V) → q ≢ k → get q (insert k v m) ≡ get q m
  unfolding get insert
  get-insert_ne k q v [] n = ground (arith, o.is_equal q k)
  get-insert_ne k q v ((j, w) ∷ m) n =
      ground (arith, o.is_equal q k, o.is_equal k j, get-insert_ne k q v m)

  -- A key below all others is not there.
  pub get-Above : (k : PeerId) (m : PeerMap V) → Above k m → get k m ≡ none
  unfolding get
  get-Above k [] a = refl
  get-Above k ((j, w) ∷ m) (h, a) = ground (arith, h, get-Above k m a)

  pub get-remove_self : (k : PeerId) (m : PeerMap V) → IsSorted m → get k (remove k m) ≡ none
  unfolding get remove
  get-remove_self k [] s = refl
  get-remove_self k ((j, w) ∷ m) (a, s) =
      ground (arith, o.is_equal k j, get-Above j m a, get-remove_self k m s)

  pub get-remove_ne : (k q : PeerId) (m : PeerMap V) → q ≢ k → get q (remove k m) ≡ get q m
  unfolding get remove
  get-remove_ne k q [] n = refl
  get-remove_ne k q ((j, w) ∷ m) n =
      ground (arith, o.is_equal q j, o.is_equal k j, get-remove_ne k q m)

  Above-insert :
      (j k : PeerId) (v : V) (m : PeerMap V) → cmp j k ≡ lt → Above j m → Above j (insert k v m)
  unfolding insert
  Above-insert j k v [] h a = (h, tt)
  Above-insert j k v ((i, w) ∷ m) h (b, a) = ground (arith, Above-insert j k v m h a)

  Above-remove : (j k : PeerId) (m : PeerMap V) → Above j m → Above j (remove k m)
  unfolding remove
  Above-remove j k [] a = tt
  Above-remove j k ((i, w) ∷ m) (b, a) = ground (arith, Above-remove j k m a)

  Above-modify : (j k : PeerId) (f : V → V) (m : PeerMap V) → Above j m → Above j (modify k f m)
  unfolding modify
  Above-modify j k f [] a = tt
  Above-modify j k f ((i, w) ∷ m) (b, a) = ground (arith, Above-modify j k f m a)

  Above-trans : (k j : PeerId) (m : PeerMap V) → cmp k j ≡ lt → Above j m → Above k m
  Above-trans k j m h a = All-imp (λ e b. o.transitive k j e.0 h b) m a

  pub insert-IsSorted : (k : PeerId) (v : V) (m : PeerMap V) → IsSorted m → IsSorted (insert k v m)
  unfolding insert
  insert-IsSorted k v [] s = (tt, tt)
  insert-IsSorted k v ((j, w) ∷ m) (a, s) = ground (
    arith,
    o.is_equal k j,
    o.lt_of_reversed k j,
    Above-trans k j m,
    Above-insert j k v m,
    insert-IsSorted k v m s,
  )

  pub remove-IsSorted : (k : PeerId) (m : PeerMap V) → IsSorted m → IsSorted (remove k m)
  unfolding remove
  remove-IsSorted k [] s = tt
  remove-IsSorted k ((j, w) ∷ m) (a, s) =
      ground (arith, Above-remove j k m a, remove-IsSorted k m s)

  pub modify-IsSorted :
      (k : PeerId) (f : V → V) (m : PeerMap V) → IsSorted m → IsSorted (modify k f m)
  unfolding modify
  modify-IsSorted k f [] s = tt
  modify-IsSorted k f ((j, w) ∷ m) (a, s) =
      ground (arith, Above-modify j k f m a, modify-IsSorted k f m s)

  pub get-modify_self :
      (k : PeerId) (f : V → V) (v : V) (m : PeerMap V)
      → get k m ≡ some v
      → get k (modify k f m) ≡ some (f v)
  unfolding get modify
  get-modify_self k f v [] h = cc
  get-modify_self k f v ((j, w) ∷ m) h = ground (arith, get-modify_self k f v m)

  pub get-modify_ne :
      (k q : PeerId) (f : V → V) (m : PeerMap V) → q ≢ k → get q (modify k f m) ≡ get q m
  unfolding get modify
  get-modify_ne k q f [] n = refl
  get-modify_ne k q f ((j, w) ∷ m) n =
      ground (arith, o.is_equal q j, o.is_equal k j, get-modify_ne k q f m)
