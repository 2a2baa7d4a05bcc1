-- ===== src/Network/Decimal.antt =====
-- The numbers in the addresses of src/lib.rs, printed and read.
use tewta.Base.{
  ℕ, zero, suc, ◌+◌, ◌-◌, ◌*◌, ◌/◌, ◌%◌, ◌^◌, ◌<◌, ◌≡◌, refl, ap, ◌∙◌, arith, true, some, List, [],
  ◌∷◌, ◌++◌, ltb, and_then, Bool-cases, inl, inr,
}
use tewta.Commands.{is_ascii_digit}
use tewta.Network.{digits, read_digits, parse_usize}

read_digits-append :
    (m d : ℕ) (s : List ℕ)
    → read_digits m (s ++ d ∷ []) ≡ and_then (read_digits m s) (λ k. read_digits k (d ∷ []))
unfolding read_digits
read_digits-append m d [] = refl
read_digits-append m d (c ∷ s) = ground (arith, read_digits-append (m * 10 + (c - b'0')) d s)

read_last : (n : ℕ) → n < 2 ^ 64 → read_digits (n / 10) ((b'0' + n % 10) ∷ []) ≡ some n
unfolding read_digits
read_last n h = ground arith

read_only : (n : ℕ) → n < 10 → read_digits 0 ((b'0' + n) ∷ []) ≡ some n
unfolding read_digits
read_only n h = ground arith

read_digits-digits : (fuel n : ℕ) → n < fuel → n < 2 ^ 64 → read_digits 0 (digits fuel n) ≡ some n
unfolding digits
read_digits-digits zero n f h = elim f [ ]
read_digits-digits (suc fuel) n f h = elim (Bool-cases (ltb n 10)) [
  | inl small ↦ rw small (read_only n (ground (arith, small)))
  | inr large ↦ rw large (
      read_digits-append 0 (b'0' + n % 10) (digits fuel (n / 10))
      ∙ ap (λ k. and_then k (λ k. read_digits k ((b'0' + n % 10) ∷ [])))
          (read_digits-digits fuel (n / 10) (ground (arith, large)) (omega arith))
      ∙ read_last n h)
]

-- The text starts with a digit.
abbrev StartsWithDigit : List ℕ → Type 0
StartsWithDigit [] = ⊥
StartsWithDigit (c ∷ s) = is_ascii_digit c ≡ true

start-append : (s t : List ℕ) → StartsWithDigit s → StartsWithDigit (s ++ t)
start-append [] t h = absurd h
start-append (c ∷ s) t h = h

digits-start : (fuel n : ℕ) → n < fuel → StartsWithDigit (digits fuel n)
unfolding digits
digits-start zero n f = elim f [ ]
digits-start (suc fuel) n f = elim (Bool-cases (ltb n 10)) [
  | inl small ↦ rw small (ground (arith, small))
  | inr large ↦ rw large (
      start-append (digits fuel (n / 10)) ((b'0' + n % 10) ∷ [])
        (digits-start fuel (n / 10) (ground (arith, large))))
]

parse_usize-read_digits : (s : List ℕ) → StartsWithDigit s → parse_usize s ≡ read_digits 0 s
unfolding parse_usize
parse_usize-read_digits [] h = absurd h
parse_usize-read_digits (c ∷ []) h = refl
parse_usize-read_digits (c ∷ d ∷ s) h = ground (arith, h)

-- A number of 64 bits that is printed in decimal digits is read back.
pub parse_usize-digits : (n : ℕ) → n < 2 ^ 64 → parse_usize (digits (n + 1) n) ≡ some n
parse_usize-digits n h =
    parse_usize-read_digits (digits (n + 1) n) (digits-start (n + 1) n (omega arith))
    ∙ read_digits-digits (n + 1) n (omega arith) h
