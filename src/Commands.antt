-- ===== src/Commands.antt =====
-- src/commands/mod.rs, errors.rs and parsing.rs: the commands of the test console, and the prefix
-- that says which nodes a command is for. A text is the list of its characters. The parser looks
-- at bytes; a byte below 128 is a whole character, so the tests read the same.
pub mod Grammar
pub mod Denotes
pub mod Accepts
pub mod Sound
pub mod Totality
pub mod Channel
use Prim.Native.String.{String}
use tewta.Base.{
  ℕ, zero, suc, ◌+◌, ◌-◌, ◌*◌, ◌^◌, Bool, true, false, ◌&&◌, ◌||◌, Option, none, some, List, [],
  ◌∷◌, ◌++◌, ltb, leb, ◌==◌, if◌then◌else◌, length, take, drop, reverse,
}
use tewta.Base.Result.{
  Result, ok, err, ◌>>=◌, map_err, Fault, failed, panicked, out_of_fuel, map_failed,
}
use tewta.Peer.{PeerId, KeyId}

pub data Command : Type 0 where
  conns buckets refresh_buckets id : Command
  set_log_level : ℕ → Command
  ping : PeerId → Command
  find : KeyId → Command
  add : Bool → Bool → List String → Command
  fetch : Bool → Bool → Option String → Command
  commit : Option String → Bool → Command

-- `clap::Error` is a parameter.
pub data CommandParsingError (ClapError : Type 0) : Type 0 where
  prefix : String → CommandParsingError ClapError
  clap : ClapError → CommandParsingError ClapError

abbrev pub from_str : {ClapError : Type 0} → String → CommandParsingError ClapError
from_str s = prefix s

abbrev pub from_clap : {ClapError : Type 0} → ClapError → CommandParsingError ClapError
from_clap e = clap e

-- `Display`, with that of `clap::Error`.
abbrev pub fmt :
    {ClapError : Type 0} → (ClapError → String) → CommandParsingError ClapError → String
fmt fmt_clap (prefix e) = e
fmt fmt_clap (clap e) = fmt_clap e

pub data DestinatorItem : Type 0 where
  single : ℕ → DestinatorItem
  range : ℕ → ℕ → DestinatorItem

abbrev pub is_ascii_digit : ℕ → Bool
is_ascii_digit c = leb b'0' c && leb c b'9'

-- The loop of `read_number`: the index of the first byte that is no digit. `none` is the panic of
-- `input[i]` at the end of the input.
unfoldable pub digits_end : List ℕ → ℕ → Option ℕ
digits_end [] i = none
digits_end (c ∷ input) i = if is_ascii_digit c then digits_end input (i + 1) else some i

-- `str::parse::<usize>` of digits; a `usize` has 64 bits. `none` is an overflow.
unfoldable pub parse_usize : ℕ → List ℕ → Option ℕ
parse_usize n [] = some n
parse_usize n (c ∷ s) =
    let next = n * 10 + (c - b'0') in if ltb next (2 ^ 64) then parse_usize next s else none

-- `unwrap` of the parsed number.
abbrev unwrap_number : List ℕ → Option ℕ → Result (Fault String) (List ℕ × ℕ)
unwrap_number rest none = err panicked
unwrap_number rest (some n) = ok (rest, n)

abbrev number_until : List ℕ → Option ℕ → Result (Fault String) (List ℕ × ℕ)
number_until input none = err panicked
number_until input (some i) =
    if i == 0
    then err (failed "No number found")
    else unwrap_number (drop i input) (parse_usize 0 (take i input))

unfoldable pub read_number : List ℕ → Result (Fault String) (List ℕ × ℕ)
unfolding digits_end parse_usize
read_number input = number_until input (digits_end input 0)

-- `input.starts_with` of one byte.
abbrev pub starts_with : ℕ → List ℕ → Bool
starts_with b [] = false
starts_with b (c ∷ input) = c == b

unfoldable pub read_destinator_item : List ℕ → Result (Fault String) (List ℕ × DestinatorItem)
read_destinator_item input = do
  (input, first) ← map_err (map_failed (λ _. "No first number found")) (read_number input)
  let after_dash = do
    (input, second) ←
        map_err (map_failed (λ _. "No second number found")) (read_number (drop 1 input))
    ok (input, range first second)
  if starts_with b' ' input || starts_with b',' input
      then ok (input, single first)
      else if starts_with b'-' input
      then after_dash
      else err (failed "No destinator item found")

-- The first loop of `read_destinators`. A round reads at least one byte.
unfoldable pub read_items :
    ℕ → List ℕ → List DestinatorItem → Result (Fault String) (List ℕ × List DestinatorItem)
read_items zero input destinator_items = err out_of_fuel
read_items (suc fuel) input destinator_items = do
  (input, destinator) ← read_destinator_item input
  let items = destinator_items ++ destinator ∷ []
  let again = read_items fuel (drop 1 input) items
  if starts_with b',' input
      then again
      else if starts_with b' ' input
      then ok (drop 1 input, items)
      else err (failed "Strange character in destinator sequence")

-- `first..=second`: `n` numbers from `first` on.
unfoldable pub count_from : ℕ → ℕ → List ℕ
count_from first zero = []
count_from first (suc n) = first ∷ count_from (first + 1) n

-- The second loop of `read_destinators`.
unfoldable pub expand : List DestinatorItem → List ℕ → List ℕ
unfolding count_from
expand [] destinators = destinators
expand (single n ∷ items) destinators = expand items (destinators ++ n ∷ [])
expand (range first second ∷ items) destinators =
    expand items (destinators ++ count_from first (second + 1 - first))

unfoldable pub read_destinators : List ℕ → Result (Fault String) (List ℕ × List ℕ)
unfolding read_items read_destinator_item expand
read_destinators input = do
  (input, destinator_items) ← read_items (length input + 1) input []
  ok (input, expand destinator_items [])

-- `char::is_whitespace`.
abbrev pub is_whitespace : ℕ → Bool
is_whitespace c =
    (leb 9 c && leb c 13)
    || c == 32
    || c == 0x85
    || c == 0xA0
    || c == 0x1680
    || (leb 0x2000 c && leb c 0x200A)
    || c == 0x2028
    || c == 0x2029
    || c == 0x202F
    || c == 0x205F
    || c == 0x3000

unfoldable pub trim_start : List ℕ → List ℕ
trim_start [] = []
trim_start (c ∷ s) = if is_whitespace c then trim_start s else c ∷ s

-- `str::trim`.
unfoldable pub trim : List ℕ → List ℕ
unfolding trim_start
trim s = reverse (trim_start (reverse (trim_start s)))

-- `str::split(' ')`: the field so far, and the fields after it.
unfoldable pub split_spaces : List ℕ → List ℕ → List (List ℕ)
split_spaces field [] = field ∷ []
split_spaces field (c ∷ s) = elim (c == b' ') [
  | true ↦ field ∷ split_spaces [] s
  | false ↦ split_spaces (field ++ c ∷ []) s
]

abbrev program_name : List ℕ
program_name = b'T' ∷ b'e' ∷ b'w' ∷ b't' ∷ b'a' ∷ []

-- `Command::from_iter_safe` is derived by structopt.
module _ {ClapError : Type 0} (from_iter_safe : List (List ℕ) → Result ClapError Command) where
  unfoldable pub parse : List ℕ → Result (Fault (CommandParsingError ClapError)) (List ℕ × Command)
  unfolding read_destinators trim split_spaces
  parse input = do
    (input, destinators) ← map_err (map_failed from_str) (read_destinators input)
    command ←
        map_err (λ e. failed (from_clap e))
          (from_iter_safe (program_name ∷ split_spaces [] (trim input)))
    ok (destinators, command)
