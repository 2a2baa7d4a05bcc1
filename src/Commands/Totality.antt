-- ===== src/Commands/Totality.antt =====
-- src/commands/parsing.rs: the ends of its loops, and its panics.
use tewta.Base.{
  ℕ, zero, suc, ◌+◌, ◌<◌, ◌≡◌, ◌≢◌, refl, ap, List, [], ◌∷◌, ◌++◌, All, none, length, drop, arith,
  length-append, length-drop, inl, inr,
}
use tewta.Base.Result.{Result, err, Result-cases, panicked, out_of_fuel}
use tewta.Commands.{
  DestinatorItem, digits_end, read_number, read_destinator_item, read_items, read_destinators,
  Command, parse,
}
use tewta.Commands.Grammar.{IsDigit, IsItem, single, range}
use tewta.Commands.Sound.{read_destinator_item_sound}

read_number-ne-out_of_fuel : (input : List ℕ) → read_number input ≢ err out_of_fuel
unfolding read_number
read_number-ne-out_of_fuel input = ground arith

read_destinator_item-ne-out_of_fuel :
    (input : List ℕ) → read_destinator_item input ≢ err out_of_fuel
unfolding read_destinator_item
read_destinator_item-ne-out_of_fuel input e = elim (Result-cases (read_number input)) [
  | inr (f, bad) ↦ ground (arith, bad, read_number-ne-out_of_fuel input)
  | inl ((after, n), first) ↦ ground (arith, first, read_number-ne-out_of_fuel (drop 1 after))
]

length-pos : {A : Type 0} (l : List A) → l ≢ [] → 0 < length l
length-pos [] h = absurd (h refl)
length-pos (x ∷ l) h = omega arith

IsItem-pos : (text : List ℕ) (d : DestinatorItem) → IsItem text d → 0 < length text
IsItem-pos text d (single n number e) = length-pos text number.some_digit
IsItem-pos text d (range t u n m first second whole e) =
    omega (arith, ap length whole, length-append t (b'-' ∷ u))

read_items-ne-out_of_fuel :
    (fuel : ℕ) (input : List ℕ) (acc : List DestinatorItem)
    → length input < fuel
    → read_items fuel input acc ≢ err out_of_fuel
unfolding read_items
read_items-ne-out_of_fuel zero input acc enough e = omega arith
read_items-ne-out_of_fuel (suc fuel) input acc enough e =
    elim (Result-cases (read_destinator_item input)) [
      | inr (f, bad) ↦ ground (arith, bad, read_destinator_item-ne-out_of_fuel input)
      | inl ((after, d), first) ↦
          let item = read_destinator_item_sound input after d first in
          let fewer : length (drop 1 after) < fuel = omega (
            arith,
            ap length item.split,
            length-append item.text after,
            IsItem-pos item.text d item.is_item,
            length-drop 1 after,
          ) in
          ground (arith, first, read_items-ne-out_of_fuel fuel (drop 1 after) (acc ++ d ∷ []) fewer)
    ]

-- The loop of `read_destinators` ends on every input: one round for each byte is enough.
pub read_destinators_ends : (input : List ℕ) → read_destinators input ≢ err out_of_fuel
unfolding read_destinators
read_destinators_ends input =
    ground (arith, read_items-ne-out_of_fuel (length input + 1) input [] (omega arith))

digits_end-digits : (input : List ℕ) (i : ℕ) → All IsDigit input → digits_end input i ≡ none
unfolding digits_end
digits_end-digits [] i h = refl
digits_end-digits (c ∷ input) i (hc, h) = ground (arith, digits_end-digits input (i + 1) h)

-- A command line of digits only, the empty one included, panics: `read_number` indexes past its end.
pub parse_digits_panics :
    {ClapError : Type 0} (from_iter_safe : List (List ℕ) → Result ClapError Command)
    (input : List ℕ)
    → All IsDigit input
    → parse from_iter_safe input ≡ err panicked
unfolding parse read_destinators read_items read_destinator_item read_number
parse_digits_panics from_iter_safe input h = ground (arith, digits_end-digits input 0 h)
