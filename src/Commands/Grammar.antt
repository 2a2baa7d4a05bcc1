-- ===== src/Commands/Grammar.antt =====
-- The destinator prefixes that the comment of `Command` describes, such as `2-5,7 `: items with
-- commas between them, and a space after the last.
use tewta.Base.{ℕ, ◌≡◌, ◌≢◌, List, [], ◌∷◌, ◌++◌, All, some, true}
use tewta.Commands.{DestinatorItem, is_ascii_digit, parse_usize}

abbrev pub IsDigit : ℕ → Type 0
IsDigit c = is_ascii_digit c ≡ true

-- One or more digits that stand for a number of 64 bits.
pub record IsNumber (text : List ℕ) (n : ℕ) : Type 0 where
  pub some_digit : text ≢ []
  pub digits : All IsDigit text
  pub value : parse_usize 0 text ≡ some n

pub data IsItem (text : List ℕ) (d : DestinatorItem) : Type 0 where
  single : (n : ℕ) → IsNumber text n → d ≡ DestinatorItem.single n → IsItem text d
  range :
      (t u : List ℕ) (n m : ℕ)
      → IsNumber t n
      → IsNumber u m
      → text ≡ t ++ b'-' ∷ u
      → d ≡ DestinatorItem.range n m
      → IsItem text d

pub data IsPrefix : List ℕ → List DestinatorItem → Type 0 where
  last :
      {text : List ℕ} (t : List ℕ) (d : DestinatorItem)
      → IsItem t d
      → text ≡ t ++ b' ' ∷ []
      → IsPrefix text (d ∷ [])
  more :
      {text : List ℕ} {ds : List DestinatorItem} (t s : List ℕ) (d : DestinatorItem)
      → IsItem t d
      → IsPrefix s ds
      → text ≡ t ++ b',' ∷ s
      → IsPrefix text (d ∷ ds)
