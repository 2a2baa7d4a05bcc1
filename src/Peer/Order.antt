-- ===== src/Peer/Order.antt =====
-- The order of identifiers and of distances in src/peers.rs: `Ord for [u8; 32]`, byte by byte.
use Prim.Native.Nat.{Ordering}
use Prim.Native.Nat.Ordering.{lt, eq, gt}
use tewta.Base.{ℕ, ◌≡◌, refl, ◌↔◌, List, [], ◌∷◌, true, arith}
use tewta.Peer.{PeerId, cmp_bytes, cmp, eq_bytes, eq_peer}

-- What the trait `Ord` asks of `cmp`.
pub record IsLawful {ℓ} {Key : Type ℓ} (order : Key → Key → Ordering) : Type ℓ where
  pub transitive : (x y z : Key) → order x y ≡ lt → order y z ≡ lt → order x z ≡ lt
  pub reflexive : (x : Key) → order x x ≡ eq
  pub gt_of_reversed : (x y : Key) → order x y ≡ lt → order y x ≡ gt
  pub lt_of_reversed : (x y : Key) → order x y ≡ gt → order y x ≡ lt
  pub is_equal : (x y : Key) → order x y ≡ eq → x ≡ y

pub cmp_bytes_refl : (xs : List ℕ) → cmp_bytes xs xs ≡ eq
unfolding cmp_bytes
cmp_bytes_refl [] = refl
cmp_bytes_refl (x ∷ xs) = ground (arith, cmp_bytes_refl xs)

pub eq_of_cmp_bytes : (xs ys : List ℕ) → cmp_bytes xs ys ≡ eq → xs ≡ ys
unfolding cmp_bytes
eq_of_cmp_bytes [] [] h = refl
eq_of_cmp_bytes [] (y ∷ ys) h = cc
eq_of_cmp_bytes (x ∷ xs) [] h = cc
eq_of_cmp_bytes (x ∷ xs) (y ∷ ys) h = ground (arith, eq_of_cmp_bytes xs ys)

pub lt_of_gt_bytes : (xs ys : List ℕ) → cmp_bytes xs ys ≡ gt → cmp_bytes ys xs ≡ lt
unfolding cmp_bytes
lt_of_gt_bytes [] [] h = cc
lt_of_gt_bytes [] (y ∷ ys) h = cc
lt_of_gt_bytes (x ∷ xs) [] h = refl
lt_of_gt_bytes (x ∷ xs) (y ∷ ys) h = ground (arith, lt_of_gt_bytes xs ys)

pub gt_of_lt_bytes : (xs ys : List ℕ) → cmp_bytes xs ys ≡ lt → cmp_bytes ys xs ≡ gt
unfolding cmp_bytes
gt_of_lt_bytes [] [] h = cc
gt_of_lt_bytes [] (y ∷ ys) h = refl
gt_of_lt_bytes (x ∷ xs) [] h = cc
gt_of_lt_bytes (x ∷ xs) (y ∷ ys) h = ground (arith, gt_of_lt_bytes xs ys)

pub lt_trans_bytes :
    (xs ys zs : List ℕ) → cmp_bytes xs ys ≡ lt → cmp_bytes ys zs ≡ lt → cmp_bytes xs zs ≡ lt
unfolding cmp_bytes
lt_trans_bytes [] [] zs h k = cc
lt_trans_bytes [] (y ∷ ys) [] h k = cc
lt_trans_bytes [] (y ∷ ys) (z ∷ zs) h k = refl
lt_trans_bytes (x ∷ xs) [] zs h k = cc
lt_trans_bytes (x ∷ xs) (y ∷ ys) [] h k = cc
lt_trans_bytes (x ∷ xs) (y ∷ ys) (z ∷ zs) h k = ground (arith, lt_trans_bytes xs ys zs)

-- Byte arrays are totally ordered.
pub cmp_bytes-IsLawful : IsLawful cmp_bytes
cmp_bytes-IsLawful = record {
  reflexive = cmp_bytes_refl;
  is_equal = eq_of_cmp_bytes;
  lt_of_reversed = lt_of_gt_bytes;
  gt_of_reversed = gt_of_lt_bytes;
  transitive = lt_trans_bytes;
}

pub eq_of_bytes : (p q : PeerId) → p.bytes ≡ q.bytes → p ≡ q
eq_of_bytes p q e = λ i. record { bytes = e i }

pub cmp-IsLawful : IsLawful cmp
unfolding cmp
cmp-IsLawful = record {
  reflexive = λ p. cmp_bytes_refl p.bytes;
  is_equal = λ p q h. eq_of_bytes p q (eq_of_cmp_bytes p.bytes q.bytes h);
  lt_of_reversed = λ p q. lt_of_gt_bytes p.bytes q.bytes;
  gt_of_reversed = λ p q. gt_of_lt_bytes p.bytes q.bytes;
  transitive = λ p q r. lt_trans_bytes p.bytes q.bytes r.bytes;
}

pub eq_bytes_refl : (xs : List ℕ) → eq_bytes xs xs ≡ true
unfolding eq_bytes
eq_bytes_refl [] = refl
eq_bytes_refl (x ∷ xs) = ground (arith, eq_bytes_refl xs)

pub eq_of_eq_bytes : (xs ys : List ℕ) → eq_bytes xs ys ≡ true → xs ≡ ys
unfolding eq_bytes
eq_of_eq_bytes [] [] h = refl
eq_of_eq_bytes [] (y ∷ ys) h = cc
eq_of_eq_bytes (x ∷ xs) [] h = cc
eq_of_eq_bytes (x ∷ xs) (y ∷ ys) h = ground (arith, eq_of_eq_bytes xs ys)

-- The derived test decides equality.
pub eq_peer_iff : (p q : PeerId) → (eq_peer p q ≡ true) ↔ (p ≡ q)
unfolding eq_peer
eq_peer_iff p q =
    (λ h. eq_of_bytes p q (eq_of_eq_bytes p.bytes q.bytes h), λ e. rw e (eq_bytes_refl q.bytes))
