-- ===== src/Peer/Text/RoundTrip.antt =====
-- `Display` of src/peers.rs against `FromStr`.
use tewta.Base.{
  ℕ, zero, suc, ◌+◌, ◌-◌, ◌*◌, ◌/◌, ◌%◌, ◌<◌, ◌≤◌, ◌≡◌, refl, ap, ◌∙◌, true, false, none, some,
  List, [], ◌∷◌, ◌++◌, ◌==◌, length, take, drop, get_elem?, arith, All, length-append, All-append,
  Option-cases, inl, inr, sym, subst,
}
use native.Mathlib.Nat.{zero-add, suc-add}
use tewta.Base.Result.{Result-cases, >>=-eq-ok, ok, err}
use tewta.Peer.{PeerId, IsPeerId, IsByte}
use tewta.Peer.Text.{
  ParseIntError, empty, hex_char, fmt_bytes, fmt, to_digit, read_digits, from_str_radix,
  is_char_boundary, get, read_bytes, from_str, unwrap_or_empty,
}

hex_char-lt : (d : ℕ) → d < 16 → hex_char d < 128
unfolding hex_char
hex_char-lt d h = ground arith

hex_char-not_sign : (d : ℕ) → d < 16 → (hex_char d == b'+') ≡ false
unfolding hex_char
hex_char-not_sign d h = ground arith

to_digit-hex_char : (d : ℕ) → d < 16 → to_digit (hex_char d) ≡ some d
unfolding to_digit hex_char
to_digit-hex_char d h = ground arith

-- Two printed digits are read back as their byte.
from_str_radix-hex :
    (b : ℕ) → IsByte b → from_str_radix (hex_char (b / 16) ∷ hex_char (b % 16) ∷ []) ≡ ok b
unfolding from_str_radix
from_str_radix-hex b h = ground (
  arith,
  hex_char-not_sign (b / 16) (omega arith),
  to_digit-hex_char (b / 16) (omega arith),
  to_digit-hex_char (b % 16) (omega arith),
)

abbrev IsAscii : ℕ → Type 0
IsAscii c = c < 128

get_elem?-ascii : (s : List ℕ) (i c : ℕ) → All IsAscii s → get_elem? s i ≡ some c → c < 128
get_elem?-ascii [] i c h e = cc
get_elem?-ascii (x ∷ s) zero c (px, h) e = ground arith
get_elem?-ascii (x ∷ s) (suc i) c (px, h) e = get_elem?-ascii s i c h e

get_elem?-none : (s : List ℕ) (i : ℕ) → get_elem? s i ≡ none → length s ≤ i
get_elem?-none [] i e = omega arith
get_elem?-none (x ∷ s) zero e = cc
get_elem?-none (x ∷ s) (suc i) e = omega (arith, get_elem?-none s i e)

get_elem?-lt : (s : List ℕ) (i : ℕ) {c : ℕ} → get_elem? s i ≡ some c → i < length s
get_elem?-lt [] i e = cc
get_elem?-lt (x ∷ s) zero e = omega arith
get_elem?-lt (x ∷ s) (suc i) e = omega (arith, get_elem?-lt s i e)

-- Every position of an ASCII text, its end included, is a boundary, and there is none after it.
boundary-ascii : (s : List ℕ) (i : ℕ) → All IsAscii s → i ≤ length s → is_char_boundary s i ≡ true
unfolding is_char_boundary
boundary-ascii s i h le = elim (Option-cases (get_elem? s i)) [
  | inl e ↦ ground (arith, get_elem?-none s i e)
  | inr (c, e) ↦ ground (arith, get_elem?-ascii s i c h e)
]

get-ascii :
    (s : List ℕ) (i j : ℕ)
    → All IsAscii s
    → i ≤ j
    → j ≤ length s
    → get s i j ≡ some (take (j - i) (drop i s))
unfolding get
get-ascii s i j h le fits =
    ground (arith, boundary-ascii s i h (omega arith), boundary-ascii s j h fits)

drop-drop : (m n : ℕ) (s : List ℕ) → drop m (drop n s) ≡ drop (n + m) s
drop-drop m zero s = rw zero-add
drop-drop zero (suc n) [] = rw suc-add
drop-drop (suc m) (suc n) [] = rw suc-add
drop-drop m (suc n) (x ∷ s) = rw suc-add (drop-drop m n s)

read_bytes-fmt_bytes :
    (i : ℕ) (bytes s rest : List ℕ)
    → All IsByte bytes
    → All IsAscii s
    → i * 2 + 2 * length bytes ≤ length s
    → drop (i * 2) s ≡ fmt_bytes bytes ++ rest
    → read_bytes (length bytes) i s ≡ ok bytes
unfolding read_bytes fmt_bytes
read_bytes-fmt_bytes i [] s rest hb hs fits e = refl
read_bytes-fmt_bytes i (b ∷ bytes) s rest (pb, hb) hs fits e =
    let next : drop ((i + 1) * 2) s ≡ fmt_bytes bytes ++ rest =
      ap (λ n. drop n s) (omega arith) ∙ sym (drop-drop 2 (i * 2) s) ∙ ap (drop 2) e in
    let field : take (i * 2 + 2 - i * 2) (drop (i * 2) s)
        ≡ hex_char (b / 16) ∷ hex_char (b % 16) ∷ [] =
      ap (λ n. take n (drop (i * 2) s)) {y = 2} (omega arith) ∙ ap (take 2) e in
    rw (
      get-ascii s (i * 2) (i * 2 + 2) hs (omega arith) (omega arith),
      field,
      from_str_radix-hex b pb,
      read_bytes-fmt_bytes (i + 1) bytes s rest hb hs (omega arith) next,
    )

fmt_bytes-IsAscii : (bytes : List ℕ) → All IsByte bytes → All IsAscii (fmt_bytes bytes)
unfolding fmt_bytes
fmt_bytes-IsAscii [] h = tt
fmt_bytes-IsAscii (b ∷ bytes) (pb, h) = (
  hex_char-lt (b / 16) (omega arith),
  (hex_char-lt (b % 16) (omega arith), fmt_bytes-IsAscii bytes h),
)

length-fmt_bytes : (bytes : List ℕ) → length (fmt_bytes bytes) ≡ 2 * length bytes
unfolding fmt_bytes
length-fmt_bytes [] = omega arith
length-fmt_bytes (b ∷ bytes) = omega (arith, length-fmt_bytes bytes)

-- A printed identifier is read back, whatever ASCII text follows it.
pub from_str-fmt :
    (p : PeerId) (rest : List ℕ) → IsPeerId p → All IsAscii rest → from_str (fmt p ++ rest) ≡ ok p
unfolding from_str fmt
from_str-fmt p rest h ascii =
    let s = fmt_bytes p.bytes ++ rest in
    let all =
      All-append IsAscii (fmt_bytes p.bytes) rest (fmt_bytes-IsAscii p.bytes h.in_range) ascii in
    let read =
      read_bytes-fmt_bytes 0 p.bytes s rest h.in_range all
        (omega (arith, length-append (fmt_bytes p.bytes) rest, length-fmt_bytes p.bytes)) refl in
    rw (rw h.sized at read)

read_digits-lt : (n : ℕ) (s : List ℕ) {b : ℕ} → IsByte n → read_digits n s ≡ ok b → IsByte b
unfolding read_digits
read_digits-lt n [] h e = ground arith
read_digits-lt n (c ∷ s) {b} h e = elim (Option-cases (to_digit c)) [
  | inl f ↦ ground (arith, f)
  | inr (d, f) ↦ ground (arith, f, read_digits-lt (n * 16 + d) s {b = b})
]

from_str_radix-lt : (s : List ℕ) {b : ℕ} → from_str_radix s ≡ ok b → IsByte b
unfolding from_str_radix
from_str_radix-lt [] e = cc
from_str_radix-lt (c ∷ []) {b} e = ground (arith, read_digits-lt 0 (c ∷ []) {b = b})
from_str_radix-lt (c ∷ d ∷ s) {b} e =
    ground (arith, read_digits-lt 0 (d ∷ s) {b = b}, read_digits-lt 0 (c ∷ d ∷ s) {b = b})

read_bytes-IsByte :
    (n i : ℕ) (s : List ℕ) {bytes : List ℕ}
    → read_bytes n i s ≡ ok bytes
    → (length bytes ≡ n) × All IsByte bytes
unfolding read_bytes
read_bytes-IsByte zero i s {bytes} e = ground arith
read_bytes-IsByte (suc n) i s {bytes} e =
    let (byte, first, after) =
      >>=-eq-ok (from_str_radix (unwrap_or_empty (get s (i * 2) (i * 2 + 2)))) _ e in
    let (tail, rest, last) = >>=-eq-ok (read_bytes n (i + 1) s) _ after in
    let (sized, in_range) = read_bytes-IsByte n (i + 1) s rest in
    let whole : byte ∷ tail ≡ bytes = cc last in
    subst (λ (l : List ℕ). (length l ≡ suc n) × All IsByte l) whole
      (
        ap suc sized,
        (from_str_radix-lt (unwrap_or_empty (get s (i * 2) (i * 2 + 2))) first, in_range),
      )

-- Whatever is read is an identifier: 32 bytes in range.
pub from_str-IsPeerId : (s : List ℕ) {p : PeerId} → from_str s ≡ ok p → IsPeerId p
unfolding from_str
from_str-IsPeerId s {p} e =
    let (bytes, read, last) = >>=-eq-ok (read_bytes 32 0 s) _ e in
    let (sized, in_range) = read_bytes-IsByte 32 0 s read in
    let whole : record { bytes = bytes } ≡ p = cc last in
    subst IsPeerId whole (record { sized = sized; in_range = in_range })

get-none : (s : List ℕ) (i j : ℕ) → i < j → length s < j → get s i j ≡ none
unfolding get is_char_boundary
get-none s i j h short = elim (Option-cases (get_elem? s j)) [
  | inl e ↦ ground (arith, e)
  | inr (c, e) ↦ absurd (omega (arith, get_elem?-lt s j e))
]

read_bytes_short :
    (n i : ℕ) (s : List ℕ)
    → length s < 2 * (i + suc n)
    → (e : ParseIntError) × (read_bytes (suc n) i s ≡ err e)
unfolding read_bytes
read_bytes_short zero i s short =
    (empty, rw (get-none s (i * 2) (i * 2 + 2) (omega arith) (omega arith)))
read_bytes_short (suc n) i s short =
    elim (Result-cases (from_str_radix (unwrap_or_empty (get s (i * 2) (i * 2 + 2))))) [
      | inl (b, first) ↦
          let (e, rest) = read_bytes_short n (i + 1) s (omega arith) in (e, rw (first, rest))
      | inr (e, first) ↦ (e, rw first)
    ]

-- A text of fewer than 64 bytes is refused.
pub from_str_short : (s : List ℕ) → length s < 64 → (e : ParseIntError) × (from_str s ≡ err e)
unfolding from_str
from_str_short s h = let (e, read) = read_bytes_short 31 0 s h in (e, rw read)
