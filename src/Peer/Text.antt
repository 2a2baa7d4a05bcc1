-- ===== src/Peer/Text.antt =====
-- `Display` and `FromStr` of src/peers.rs. A text is the list of its UTF-8 bytes.
pub mod RoundTrip
use tewta.Base.{
  ℕ, zero, suc, ◌+◌, ◌-◌, ◌*◌, ◌/◌, ◌%◌, ◌≡◌, refl, Bool, true, ◌&&◌, ◌||◌, Option, none, some,
  List, [], ◌∷◌, ◌++◌, ltb, leb, ◌==◌, if◌then◌else◌, length, take, drop, get_elem?,
}
use tewta.Base.Result.{Result, ok, err, ◌>>=◌}
use tewta.Peer.{PeerId}

-- The kinds of `std::num::ParseIntError` that `u8::from_str_radix` reports.
pub data ParseIntError : Type 0 where
  empty invalid_digit pos_overflow : ParseIntError

-- A lower-case hexadecimal digit of `{:02x}`.
unfoldable pub hex_char : ℕ → ℕ
hex_char d = if ltb d 10 then b'0' + d else b'a' + (d - 10)

-- The loop of `fmt`: `write!(f, "{:02x}", byte)`.
unfoldable pub fmt_bytes : List ℕ → List ℕ
unfolding hex_char
fmt_bytes [] = []
fmt_bytes (b ∷ bytes) = hex_char (b / 16) ∷ hex_char (b % 16) ∷ fmt_bytes bytes

unfoldable pub fmt : PeerId → List ℕ
unfolding fmt_bytes
fmt p = fmt_bytes p.bytes

-- `char::to_digit(16)`.
unfoldable pub to_digit : ℕ → Option ℕ
to_digit c =
    if leb b'0' c && leb c b'9'
    then some (c - b'0')
    else if leb b'a' c && leb c b'f'
    then some (c - b'a' + 10)
    else if leb b'A' c && leb c b'F'
    then some (c - b'A' + 10)
    else none

-- The digits of `u8::from_str_radix(src, 16)`, with its overflow test.
unfoldable pub read_digits : ℕ → List ℕ → Result ParseIntError ℕ
unfolding to_digit
read_digits n [] = ok n
read_digits n (c ∷ src) = elim (to_digit c) [
  | none ↦ err invalid_digit
  | some d ↦ if ltb (n * 16 + d) 256 then read_digits (n * 16 + d) src else err pos_overflow
]

-- `u8::from_str_radix(src, 16)`: a sign `+` before at least one digit is passed over.
unfoldable pub from_str_radix : List ℕ → Result ParseIntError ℕ
unfolding read_digits
from_str_radix [] = err empty
from_str_radix (c ∷ []) =
    if c == b'+' || c == b'-' then err invalid_digit else read_digits 0 (c ∷ [])
from_str_radix (c ∷ d ∷ src) =
    if c == b'+' then read_digits 0 (d ∷ src) else read_digits 0 (c ∷ d ∷ src)

-- `str::is_char_boundary`: the byte there does not continue a character.
unfoldable pub is_char_boundary : List ℕ → ℕ → Bool
is_char_boundary s i =
    i == 0 || elim (get_elem? s i) [ none ↦ i == length s | some b ↦ ltb b 128 || leb 192 b ]

-- `str::get(from..to)`.
unfoldable pub get : List ℕ → ℕ → ℕ → Option (List ℕ)
unfolding is_char_boundary
get s from to =
    if leb from to && is_char_boundary s from && is_char_boundary s to
    then some (take (to - from) (drop from s))
    else none

abbrev unwrap_or_empty : Option (List ℕ) → List ℕ
unwrap_or_empty none = []
unwrap_or_empty (some s) = s

-- The loop of `from_str`, with `n` bytes left to write from index `i` on.
unfoldable pub read_bytes : ℕ → ℕ → List ℕ → Result ParseIntError (List ℕ)
unfolding get from_str_radix
read_bytes zero i s = ok []
read_bytes (suc n) i s = do
  byte ← from_str_radix (unwrap_or_empty (get s (i * 2) (i * 2 + 2)))
  bytes ← read_bytes n (i + 1) s
  ok (byte ∷ bytes)

unfoldable pub from_str : List ℕ → Result ParseIntError PeerId
unfolding read_bytes
from_str s = do bytes ← read_bytes 32 0 s; ok (record { bytes = bytes })
