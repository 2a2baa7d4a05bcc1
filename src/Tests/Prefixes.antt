-- ===== src/Tests/Prefixes.antt =====
-- Destinator prefixes.
use tewta.Base.{arith, ℕ, ◌≡◌, refl, some, List, [], ◌∷◌, ◌++◌}
use tewta.Base.Result.{Result, ok, err, panicked}
use tewta.Commands.{
  Command, DestinatorItem, read_destinators, read_number, parse, parse_usize, conns,
}
use tewta.Commands.Accepts.{read_destinators-append}
use tewta.Commands.Denotes.{Denotes, nothing, one, behind, counts}
use tewta.Commands.Grammar.{IsDigit, IsNumber, IsPrefix, single, range, last, more}
use tewta.Commands.Sound.{read_destinators_sound}
use tewta.Commands.Totality.{parse_digits_panics}

-- `2-4,7 `.
abbrev text : List ℕ
text = b'2' ∷ b'-' ∷ b'4' ∷ b',' ∷ b'7' ∷ b' ' ∷ []

abbrev items : List DestinatorItem
items = DestinatorItem.range 2 4 ∷ DestinatorItem.single 7 ∷ []

read_text : read_destinators (text ++ b'c' ∷ []) ≡ ok (b'c' ∷ [], 2 ∷ 3 ∷ 4 ∷ 7 ∷ [])
unfolding read_destinators read_number
read_text = refl

digit-IsNumber : (c n : ℕ) → IsDigit c → parse_usize 0 (c ∷ []) ≡ some n → IsNumber (c ∷ []) n
digit-IsNumber c n d e = record { some_digit = λ h. cc h; digits = (d, tt); value = e }

two : IsNumber (b'2' ∷ []) 2
unfolding parse_usize
two = digit-IsNumber b'2' 2 refl refl

four : IsNumber (b'4' ∷ []) 4
unfolding parse_usize
four = digit-IsNumber b'4' 4 refl refl

seven : IsNumber (b'7' ∷ []) 7
unfolding parse_usize
seven = digit-IsNumber b'7' 7 refl refl

text-IsPrefix : IsPrefix text items
text-IsPrefix =
    more (b'2' ∷ b'-' ∷ b'4' ∷ []) (b'7' ∷ b' ' ∷ []) (DestinatorItem.range 2 4)
      (range (b'2' ∷ []) (b'4' ∷ []) 2 4 two four refl refl)
      (last (b'7' ∷ []) (DestinatorItem.single 7) (single 7 seven refl) refl) refl

items-Denotes : Denotes items (2 ∷ 3 ∷ 4 ∷ 7 ∷ [])
items-Denotes =
    counts (omega arith)
      (counts (omega arith) (counts (omega arith) (behind (omega arith) (one nothing))))

read_destinators-append_example :
    read_destinators (text ++ b'c' ∷ []) ≡ ok (b'c' ∷ [], 2 ∷ 3 ∷ 4 ∷ 7 ∷ [])
read_destinators-append_example =
    read_destinators-append text (b'c' ∷ []) (2 ∷ 3 ∷ 4 ∷ 7 ∷ []) items text-IsPrefix items-Denotes

read_destinators_sound_example :
    (t : List ℕ) × (ds : List DestinatorItem) × (text ++ b'c' ∷ [] ≡ t ++ b'c' ∷ [])
    × IsPrefix t ds
    × Denotes ds (2 ∷ 3 ∷ 4 ∷ 7 ∷ [])
read_destinators_sound_example =
    read_destinators_sound (text ++ b'c' ∷ []) (b'c' ∷ []) (2 ∷ 3 ∷ 4 ∷ 7 ∷ []) read_text

abbrev no_clap : List (List ℕ) → Result (Unit {0}) Command
no_clap args = ok conns

parse_digits_panics_example : parse no_clap (b'4' ∷ b'2' ∷ []) ≡ err panicked
parse_digits_panics_example = parse_digits_panics no_clap (b'4' ∷ b'2' ∷ []) (refl, (refl, tt))
