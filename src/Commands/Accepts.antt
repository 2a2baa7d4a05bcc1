-- ===== src/Commands/Accepts.antt =====
-- src/commands/parsing.rs on the prefixes of the grammar.
use tewta.Base.{
  ℕ, zero, suc, ◌+◌, ◌≤◌, ◌≡◌, refl, ap, ◌∙◌, List, [], ◌∷◌, ◌++◌, All, some, false, length, arith,
  append_assoc, take-length-append, drop-length-append, length-append, ◌⊎◌, inl, inr,
}
use tewta.Base.Result.{ok}
use tewta.Commands.{
  DestinatorItem, is_ascii_digit, digits_end, read_number, read_destinator_item, read_items,
  read_destinators,
}
use tewta.Commands.Denotes.{Denotes, expand_complete}
use tewta.Commands.Grammar.{IsDigit, IsNumber, IsItem, IsPrefix, single, range, last, more}

digits_end-append :
    (t rest : List ℕ) (c i : ℕ)
    → All IsDigit t
    → is_ascii_digit c ≡ false
    → digits_end (t ++ c ∷ rest) i ≡ some (i + length t)
unfolding digits_end
digits_end-append [] rest c i h stop = ground (arith)
digits_end-append (d ∷ t) rest c i (hd, h) stop =
    ground (arith, digits_end-append t rest c (i + 1) h stop)

read_number-append :
    (t rest : List ℕ) (c n : ℕ)
    → IsNumber t n
    → is_ascii_digit c ≡ false
    → read_number (t ++ c ∷ rest) ≡ ok (c ∷ rest, n)
unfolding read_number
read_number-append [] rest c n h stop = absurd (h.some_digit refl)
read_number-append (d ∷ t) rest c n h stop =
    let found : digits_end ((d ∷ t) ++ c ∷ rest) 0 ≡ some (length (d ∷ t)) =
      digits_end-append (d ∷ t) rest c 0 h.digits stop ∙ ap some (omega arith) in
    ground (
      arith,
      found,
      take-length-append (d ∷ t) (c ∷ rest),
      drop-length-append (d ∷ t) (c ∷ rest),
      h.value,
    )

abbrev Ends : ℕ → Type 0
Ends c = (c ≡ b' ') ⊎ (c ≡ b',')

read_destinator_item-append :
    (t rest : List ℕ) (c : ℕ) (d : DestinatorItem)
    → IsItem t d
    → Ends c
    → read_destinator_item (t ++ c ∷ rest) ≡ ok (c ∷ rest, d)
unfolding read_destinator_item
read_destinator_item-append t rest c d (single n number e) ends =
    ground (arith, read_number-append t rest c n number, e)
read_destinator_item-append t rest c d (range a b n m first second whole e) ends =
    let split : t ++ c ∷ rest ≡ a ++ b'-' ∷ (b ++ c ∷ rest) =
      ap (λ l. l ++ c ∷ rest) whole ∙ append_assoc a (b'-' ∷ b) (c ∷ rest) in
    rw (split, read_number-append a (b ++ c ∷ rest) b'-' n first (refl))
      (ground (arith, read_number-append b rest c m second, e))

read_items-append :
    (fuel : ℕ) (s rest : List ℕ) (ds acc : List DestinatorItem)
    → IsPrefix s ds
    → length s ≤ fuel
    → read_items fuel (s ++ rest) acc ≡ ok (rest, acc ++ ds)
unfolding read_items
read_items-append zero s rest ds acc (last t d i e) enough =
    absurd (omega (arith, ap length e, length-append t (b' ' ∷ [])))
read_items-append zero s rest ds acc (more t u d i p e) enough =
    absurd (omega (arith, ap length e, length-append t (b',' ∷ u)))
read_items-append (suc fuel) s rest ds acc (last t d i e) enough =
    let split : s ++ rest ≡ t ++ b' ' ∷ rest =
      ap (λ l. l ++ rest) e ∙ append_assoc t (b' ' ∷ []) rest in
    rw (split, read_destinator_item-append t rest b' ' d i (inl refl))
read_items-append (suc fuel) s rest ds acc (more {ds = items} t u d i p e) enough =
    let split : s ++ rest ≡ t ++ b',' ∷ (u ++ rest) =
      ap (λ l. l ++ rest) e ∙ append_assoc t (b',' ∷ u) rest in
    let shorter : length u ≤ fuel = omega (arith, ap length e, length-append t (b',' ∷ u)) in
    rw (split, read_destinator_item-append t (u ++ rest) b',' d i (inr refl))
      (read_items-append fuel u rest items (acc ++ d ∷ []) p shorter
        ∙ ap (λ l. ok (rest, l)) (append_assoc acc (d ∷ []) items))

-- A prefix of the grammar is read to its end, whatever follows it, and the result is what its items
-- denote, in their order.
pub read_destinators-append :
    (s rest destinators : List ℕ) (ds : List DestinatorItem)
    → IsPrefix s ds
    → Denotes ds destinators
    → read_destinators (s ++ rest) ≡ ok (rest, destinators)
unfolding read_destinators
read_destinators-append s rest destinators ds p d =
    rw
      (
        read_items-append (length (s ++ rest) + 1) s rest ds [] p
            (omega (arith, length-append s rest)),
        expand_complete d,
      )
      refl
