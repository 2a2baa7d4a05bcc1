-- ===== src/Peer/Distance.antt =====
-- `distance` of src/peers.rs.
use tewta.Base.{ℕ, ◌≡◌, refl, ap, ◌∙◌, List, [], ◌∷◌, All, length, replicate, bit_xor, arith, ◌↔◌}
use tewta.Base.Bits.{
  bit_xor_comm, bit_xor_self, bit_xor_assoc, bit_xor_cancel, eq_of_bit_xor, bit_xor-lt,
}
use tewta.Peer.{PeerId, IsPeerId, IsByte, IsBytes32, xor_bytes, distance}

length-xor_bytes : (xs ys : List ℕ) → length xs ≡ length ys → length (xor_bytes xs ys) ≡ length xs
unfolding xor_bytes
length-xor_bytes [] ys h = refl
length-xor_bytes (x ∷ xs) [] h = absurd (omega arith)
length-xor_bytes (x ∷ xs) (y ∷ ys) h = omega (arith, length-xor_bytes xs ys (omega arith))

xor_bytes-All : (xs ys : List ℕ) → All IsByte xs → All IsByte ys → All IsByte (xor_bytes xs ys)
unfolding xor_bytes
xor_bytes-All [] ys p q = tt
xor_bytes-All (x ∷ xs) [] p q = tt
xor_bytes-All (x ∷ xs) (y ∷ ys) (px, ps) (py, qs) =
    (bit_xor-lt 8 x y px py, xor_bytes-All xs ys ps qs)

-- The distance of two identifiers is an array of 32 bytes.
pub distance-IsBytes32 : (p q : PeerId) → IsPeerId p → IsPeerId q → IsBytes32 (distance p q)
unfolding distance
distance-IsBytes32 p q hp hq = record {
  sized = length-xor_bytes p.bytes q.bytes (omega (arith, hp.sized, hq.sized)) ∙ hp.sized;
  in_range = xor_bytes-All p.bytes q.bytes hp.in_range hq.in_range;
}

xor_bytes_comm : (xs ys : List ℕ) → xor_bytes xs ys ≡ xor_bytes ys xs
unfolding xor_bytes
xor_bytes_comm [] [] = refl
xor_bytes_comm [] (y ∷ ys) = refl
xor_bytes_comm (x ∷ xs) [] = refl
xor_bytes_comm (x ∷ xs) (y ∷ ys) = cc (bit_xor_comm x y, xor_bytes_comm xs ys)

-- The distance is symmetric.
pub distance_comm : (p q : PeerId) → distance p q ≡ distance q p
unfolding distance
distance_comm p q = xor_bytes_comm p.bytes q.bytes

abbrev pub zeros : ℕ → List ℕ
zeros n = replicate n 0

xor_bytes_self : (xs : List ℕ) → xor_bytes xs xs ≡ zeros (length xs)
unfolding xor_bytes
xor_bytes_self [] = refl
xor_bytes_self (x ∷ xs) = cc (bit_xor_self x, xor_bytes_self xs)

eq_of_xor_bytes :
    (xs ys : List ℕ) → length xs ≡ length ys → xor_bytes xs ys ≡ zeros (length xs) → xs ≡ ys
unfolding xor_bytes
eq_of_xor_bytes [] [] h e = refl
eq_of_xor_bytes [] (y ∷ ys) h e = absurd (omega arith)
eq_of_xor_bytes (x ∷ xs) [] h e = absurd (omega arith)
eq_of_xor_bytes (x ∷ xs) (y ∷ ys) h e =
    ground (arith, eq_of_bit_xor x y, eq_of_xor_bytes xs ys (omega arith))

-- Between two identifiers the distance is zero exactly if they are equal.
pub distance-zero_iff :
    (p q : PeerId) → IsPeerId p → IsPeerId q → (distance p q ≡ zeros 32) ↔ (p ≡ q)
unfolding distance
distance-zero_iff p q hp hq = (
  λ e. λ i. record {
    bytes = eq_of_xor_bytes p.bytes q.bytes (omega (arith, hp.sized, hq.sized)) (rw hp.sized e) i;
  },
  λ e. rw (← e) (xor_bytes_self p.bytes ∙ ap zeros hp.sized),
)

xor_bytes_triangle :
    (xs ys zs : List ℕ)
    → length xs ≡ length ys
    → length ys ≡ length zs
    → xor_bytes (xor_bytes xs ys) (xor_bytes ys zs) ≡ xor_bytes xs zs
unfolding xor_bytes
xor_bytes_triangle [] ys zs h k = refl
xor_bytes_triangle (x ∷ xs) [] zs h k = absurd (omega arith)
xor_bytes_triangle (x ∷ xs) (y ∷ ys) [] h k = absurd (omega arith)
xor_bytes_triangle (x ∷ xs) (y ∷ ys) (z ∷ zs) h k = cc (
  bit_xor_assoc x y (bit_xor y z),
  bit_xor_cancel y z,
  xor_bytes_triangle xs ys zs (omega arith) (omega arith),
)

-- The triangle of three identifiers closes exactly: two sides determine the third.
pub distance_triangle :
    (p q r : PeerId)
    → IsPeerId p
    → IsPeerId q
    → IsPeerId r
    → xor_bytes (distance p q) (distance q r) ≡ distance p r
unfolding distance
distance_triangle p q r hp hq hr =
    xor_bytes_triangle p.bytes q.bytes r.bytes (omega (arith, hp.sized, hq.sized))
      (omega (arith, hq.sized, hr.sized))
