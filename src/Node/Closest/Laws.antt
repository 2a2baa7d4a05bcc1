-- ===== src/Node/Closest/Laws.antt =====
-- The peers that src/node/node.rs takes against those that it leaves out.
use Prim.Native.Nat.{Ordering}
use Prim.Native.Nat.Ordering.{lt, eq, gt}
use Prim.Native.String.{String}
use mathlib.Core.List.{Perm}
use mathlib.Core.List.Perm
use tewta.Base.{
  ℕ, zero, suc, ◌≡◌, ◌≢◌, refl, List, [], ◌∷◌, ◌++◌, length, take, drop, min, All, All-imp,
  All-drop, take-append-drop, length-take, arith,
}
use tewta.Node.Closest.{insert_by_distance, sort_by_distance, closest}
use tewta.Peer.{PeerId, cmp_bytes, distance}
use tewta.Peer.Order.{cmp_bytes-IsLawful}

abbrev Contact : Type 0
Contact = PeerId × String

abbrev pub NoFarther : PeerId → PeerId × String → PeerId × String → Type 0
NoFarther key a b = cmp_bytes (distance a.0 key) (distance b.0 key) ≢ gt

NoFarther-trans :
    (key : PeerId) (a b c : Contact) → NoFarther key a b → NoFarther key b c → NoFarther key a c
NoFarther-trans key a b c h k =
    let o = cmp_bytes-IsLawful in
    let x = distance a.0 key in
    let y = distance b.0 key in
    let z = distance c.0 key in ground (arith, o.transitive x y z, o.is_equal x y, o.is_equal y z)

NoFarther-of_gt :
    (key : PeerId) (a b : Contact)
    → cmp_bytes (distance a.0 key) (distance b.0 key) ≡ gt
    → NoFarther key b a
NoFarther-of_gt key a b h =
    ground (arith, cmp_bytes-IsLawful.lt_of_reversed (distance a.0 key) (distance b.0 key))

abbrev pub IsAscending : PeerId → List Contact → Type 0
IsAscending key [] = Unit {0}
IsAscending key (x ∷ xs) = All (NoFarther key x) xs × IsAscending key xs

data Placed (key : PeerId) (x y : Contact) : Type 0 where
  behind : cmp_bytes (distance x.0 key) (distance y.0 key) ≡ gt → Placed key x y
  before :
      NoFarther key x y
      → ((ys : List Contact) → insert_by_distance key x (y ∷ ys) ≡ x ∷ y ∷ ys)
      → Placed key x y

placed : (key : PeerId) (x y : Contact) → Placed key x y
unfolding insert_by_distance
placed key x y = go (cmp_bytes (distance x.0 key) (distance y.0 key)) refl
  where
    go : (o : Ordering) → cmp_bytes (distance x.0 key) (distance y.0 key) ≡ o → Placed key x y
    go gt e = behind e
    go lt e = before (λ h. ground (arith, e, h)) (λ ys. ground (arith, e))
    go eq e = before (λ h. ground (arith, e, h)) (λ ys. ground (arith, e))

insert_behind :
    (key : PeerId) (x y : Contact) (ys : List Contact)
    → cmp_bytes (distance x.0 key) (distance y.0 key) ≡ gt
    → insert_by_distance key x (y ∷ ys) ≡ y ∷ insert_by_distance key x ys
unfolding insert_by_distance
insert_behind key x y ys e = ground (arith, e)

insert_nil : (key : PeerId) (x : Contact) → insert_by_distance key x [] ≡ x ∷ []
unfolding insert_by_distance
insert_nil key x = refl

insert-Perm :
    (key : PeerId) (x : Contact) (ys : List Contact) → Perm (insert_by_distance key x ys) (x ∷ ys)
insert-Perm key x [] = rw (insert_nil key x) Perm.rfl
insert-Perm key x (y ∷ ys) = elim (placed key x y) [
  | behind e ↦
      rw (insert_behind key x y ys e)
        (Perm.trans (Perm.cons y (insert-Perm key x ys)) (Perm.swap x y ys))
  | before h e ↦ rw (e ys) Perm.rfl
]

sort-Perm : (key : PeerId) (xs : List Contact) → Perm (sort_by_distance key xs) xs
unfolding sort_by_distance
sort-Perm key [] = Perm.rfl
sort-Perm key (x ∷ xs) =
    Perm.trans (insert-Perm key x (sort_by_distance key xs)) (Perm.cons x (sort-Perm key xs))

insert-All :
    (P : Contact → Type 0) (key : PeerId) (x : Contact) (ys : List Contact)
    → P x
    → All P ys
    → All P (insert_by_distance key x ys)
insert-All P key x [] p h = rw (insert_nil key x) (p, tt)
insert-All P key x (y ∷ ys) p (q, h) = elim (placed key x y) [
  | behind e ↦ rw (insert_behind key x y ys e) (q, insert-All P key x ys p h)
  | before _ e ↦ rw (e ys) (p, (q, h))
]

insert-IsAscending :
    (key : PeerId) (x : Contact) (ys : List Contact)
    → IsAscending key ys
    → IsAscending key (insert_by_distance key x ys)
insert-IsAscending key x [] h = rw (insert_nil key x) (tt, tt)
insert-IsAscending key x (y ∷ ys) (b, h) = elim (placed key x y) [
  | behind e ↦ rw (insert_behind key x y ys e) (
    insert-All (NoFarther key y) key x ys (NoFarther-of_gt key x y e) b,
    insert-IsAscending key x ys h,
  )
  | before le e ↦ rw (e ys) ((le, All-imp (λ z. NoFarther-trans key x y z le) ys b), (b, h))
]

pub sort-IsAscending :
    (key : PeerId) (xs : List Contact) → IsAscending key (sort_by_distance key xs)
unfolding sort_by_distance
sort-IsAscending key [] = tt
sort-IsAscending key (x ∷ xs) =
    insert-IsAscending key x (sort_by_distance key xs) (sort-IsAscending key xs)

first_NoFarther :
    (key : PeerId) (n : ℕ) (xs : List Contact)
    → IsAscending key xs
    → All (λ a. All (NoFarther key a) (drop n xs)) (take n xs)
first_NoFarther key zero xs h = tt
first_NoFarther key (suc n) [] h = tt
first_NoFarther key (suc n) (x ∷ xs) (b, h) =
    (All-drop (NoFarther key x) n xs b, first_NoFarther key n xs h)

-- How the peers divide into those that are taken and those that are left out.
pub record Division (key : PeerId) (max_peers : ℕ) (peers taken : List (PeerId × String))
    : Type 0 where
  pub left_out : List (PeerId × String)
  pub all_there : Perm (taken ++ left_out) peers
  pub count : length taken ≡ min max_peers (length (taken ++ left_out))
  pub nearest : All (λ a. All (NoFarther key a) left_out) taken

-- As many peers as are wanted, or all, and no peer that is left out is closer to the key than one
-- that is taken; the two together are the given peers.
pub closest-Division :
    (key : PeerId) (max_peers : ℕ) (peers : List (PeerId × String))
    → Division key max_peers peers (closest key max_peers peers)
unfolding closest
closest-Division key max_peers peers =
    let sorted = sort_by_distance key peers in
    record {
      left_out = drop max_peers sorted;
      all_there = rw (take-append-drop max_peers sorted) (sort-Perm key peers);
      count = rw (take-append-drop max_peers sorted) (length-take max_peers sorted);
      nearest = first_NoFarther key max_peers sorted (sort-IsAscending key peers);
    }
