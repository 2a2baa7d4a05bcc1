-- ===== src/Commands/Sound.antt =====
-- src/commands/parsing.rs on every input that it reads.
use tewta.Base.{
  subst, ℕ, zero, suc, ◌+◌, ◌≤◌, ◌<◌, ◌≡◌, ◌≢◌, refl, ap, sym, ◌∙◌, List, [], ◌∷◌, ◌++◌, All, some,
  true, length, take, drop, arith, append_assoc, inl, inr, Bool-cases, Option-cases,
  take-append-drop, ◌||◌,
}
use tewta.Base.Result.{ok, Result-cases}
use tewta.Commands.{
  DestinatorItem, is_ascii_digit, digits_end, parse_usize, read_number, read_destinator_item,
  read_items, expand, read_destinators, starts_with,
}
use tewta.Commands.Denotes.{Denotes, expand-Denotes}
use tewta.Commands.Grammar.{IsDigit, IsNumber, IsItem, IsPrefix, single, range, last, more}

digits_end-some :
    (input : List ℕ) (i : ℕ) {j : ℕ}
    → digits_end input i ≡ some j
    → (k : ℕ) × (j ≡ i + k) × All IsDigit (take k input) × (k ≤ length input)
unfolding digits_end
digits_end-some [] i e = cc
digits_end-some (c ∷ input) i {j} e = elim (Bool-cases (is_ascii_digit c)) [
  | inl digit ↦
      let (k, at, digits, inside) = digits_end-some input (i + 1) {j = j} (ground arith) in
      (suc k, omega (arith, at), (digit, digits), omega (arith, inside))
  | inr other ↦ (0, ground arith, tt, omega arith)
]

-- A number that is read stands at the front of the input.
record NumberRead (input rest : List ℕ) (n : ℕ) : Type 0 where
  pub text : List ℕ
  pub split : input ≡ text ++ rest
  number : IsNumber text n

take-ne-nil : {A : Type 0} (k : ℕ) (l : List A) → 0 < k → k ≤ length l → take k l ≢ []
take-ne-nil zero l h g = absurd (omega arith)
take-ne-nil (suc k) [] h g = absurd (omega arith)
take-ne-nil (suc k) (x ∷ l) h g = λ e. cc e

read_number_sound :
    (input rest : List ℕ) (n : ℕ) → read_number input ≡ ok (rest, n) → NumberRead input rest n
unfolding read_number
read_number_sound input rest n e = elim (Option-cases (digits_end input 0)) [
  | inl out ↦ absurd (ground (arith, out))
  | inr (j, at) ↦
      let (k, same, digits, inside) = digits_end-some input 0 at in
      let here : digits_end input 0 ≡ some k = at ∙ ap some (omega arith) in
      elim (Option-cases (parse_usize 0 (take k input))) [
        | inl over ↦ absurd (ground (arith, here, over))
        | inr (m, value) ↦ record {
          text = take k input;
          split =
              sym (take-append-drop k input)
              ∙ ap (λ l. take k input ++ l) (ground (arith, here, value));
          number = record {
            some_digit = take-ne-nil k input (ground (arith, here)) inside;
            digits = digits;
            value = value ∙ ap some (ground (arith, here, value));
          };
        }
      ]
]

pub record ItemRead (input rest : List ℕ) (d : DestinatorItem) : Type 0 where
  pub text : List ℕ
  pub split : input ≡ text ++ rest
  pub is_item : IsItem text d

starts_with-drop : (b : ℕ) (input : List ℕ) → starts_with b input ≡ true → input ≡ b ∷ drop 1 input
starts_with-drop b [] e = cc
starts_with-drop b (c ∷ input) e = ground arith

pub read_destinator_item_sound :
    (input rest : List ℕ) (d : DestinatorItem)
    → read_destinator_item input ≡ ok (rest, d)
    → ItemRead input rest d
unfolding read_destinator_item
read_destinator_item_sound input rest d e = elim (Result-cases (read_number input)) [
  | inr (f, bad) ↦ absurd (ground (arith, bad))
  | inl ((after, n), first) ↦
      let number = read_number_sound input after n first in
      elim (Bool-cases (starts_with b' ' after || starts_with b',' after)) [
        | inl ends ↦ record {
          text = number.text;
          split = number.split ∙ ap (λ l. number.text ++ l) (ground (arith, first, ends));
          is_item = single n number.number (ground (arith, first, ends));
        }
        | inr goes_on ↦ elim (Bool-cases (starts_with b'-' after)) [
          | inr strange ↦ absurd (ground (arith, first, goes_on, strange))
          | inl dash ↦ elim (Result-cases (read_number (drop 1 after))) [
            | inr (f, bad) ↦ absurd (ground (arith, first, goes_on, dash, bad))
            | inl ((later, m), second) ↦
                let other = read_number_sound (drop 1 after) later m second in
                let same : later ≡ rest = ground (arith, first, goes_on, dash, second) in
                record {
                  text = number.text ++ b'-' ∷ other.text;
                  split =
                      number.split
                      ∙ ap (λ l. number.text ++ l)
                          (starts_with-drop b'-' after dash
                            ∙ ap (λ l. b'-' ∷ l) (other.split ∙ ap (λ l. other.text ++ l) same))
                      ∙ sym (append_assoc number.text (b'-' ∷ other.text) rest);
                  is_item =
                      range number.text other.text n m number.number other.number refl
                        (ground (arith, first, goes_on, dash, second));
                }
          ]
        ]
      ]
]

record ItemsRead (input rest : List ℕ) (acc items : List DestinatorItem) : Type 0 where
  pub text : List ℕ
  read : List DestinatorItem
  pub split : input ≡ text ++ rest
  is_prefix : IsPrefix text read
  listed : items ≡ acc ++ read

read_items_sound :
    (fuel : ℕ) (input rest : List ℕ) (acc items : List DestinatorItem)
    → read_items fuel input acc ≡ ok (rest, items)
    → ItemsRead input rest acc items
unfolding read_items
read_items_sound zero input rest acc items e = cc
read_items_sound (suc fuel) input rest acc items e =
    elim (Result-cases (read_destinator_item input)) [
      | inr (f, bad) ↦ absurd (ground (arith, bad))
      | inl ((after, d), first) ↦
          let item = read_destinator_item_sound input after d first in
          elim (Bool-cases (starts_with b',' after)) [
            | inl comma ↦
                let others =
                  read_items_sound fuel (drop 1 after) rest (acc ++ d ∷ []) items
                    (ground (arith, first, comma)) in
                record {
                  text = item.text ++ b',' ∷ others.text;
                  read = d ∷ others.read;
                  split =
                      item.split
                      ∙ ap (λ l. item.text ++ l)
                          (starts_with-drop b',' after comma ∙ ap (λ l. b',' ∷ l) others.split)
                      ∙ sym (append_assoc item.text (b',' ∷ others.text) rest);
                  is_prefix = more item.text others.text d item.is_item others.is_prefix refl;
                  listed = others.listed ∙ append_assoc acc (d ∷ []) others.read;
                }
            | inr no_comma ↦ elim (Bool-cases (starts_with b' ' after)) [
              | inr strange ↦ absurd (ground (arith, first, no_comma, strange))
              | inl space ↦ record {
                text = item.text ++ b' ' ∷ [];
                read = d ∷ [];
                split =
                    item.split
                    ∙ ap (λ l. item.text ++ l)
                        (starts_with-drop b' ' after space
                          ∙ ap (λ l. b' ' ∷ l) (ground (arith, first, no_comma, space)))
                    ∙ sym (append_assoc item.text (b' ' ∷ []) rest);
                is_prefix = last item.text d item.is_item refl;
                listed = ground (arith, first, no_comma, space);
              }
            ]
          ]
    ]

-- Whatever is read is a prefix of the grammar at the front of the input, and the destinators are
-- what its items denote, in their order.
pub read_destinators_sound :
    (input rest destinators : List ℕ)
    → read_destinators input ≡ ok (rest, destinators)
    → (text : List ℕ) × (ds : List DestinatorItem) × (input ≡ text ++ rest)
      × IsPrefix text ds
      × Denotes ds destinators
unfolding read_destinators
read_destinators_sound input rest destinators e =
    elim (Result-cases (read_items (length input + 1) input [])) [
      | inr (f, bad) ↦ absurd (ground (arith, bad))
      | inl ((after, items), run) ↦
          let found = read_items_sound (length input + 1) input after [] items run in
          (
            found.text,
            found.read,
            found.split ∙ ap (λ l. found.text ++ l) (ground (arith, run)),
            found.is_prefix,
            subst (Denotes found.read) {x = expand found.read []} {y = destinators}
                (ground (arith, run, found.listed)) (expand-Denotes found.read),
          )
    ]
