-- ===== src/Commands/Denotes.antt =====
-- The numbers that items stand for, without lists of their expansion: a range counts up from its
-- first number, and is empty behind its last.
use tewta.Base.{
  ℕ, zero, suc, ◌+◌, ◌-◌, ◌≡◌, ◌≤◌, ◌<◌, refl, ap, sym, ◌∙◌, ◌⊎◌, inl, inr, Bool-cases, ltb, ltb→lt,
  List, [], ◌∷◌, ◌++◌, append_assoc, append-nil, arith,
}
use tewta.Commands.{DestinatorItem, single, range, expand, count_from}

pub data Denotes : List DestinatorItem → List ℕ → Type 0 where
  nothing : Denotes [] []
  one :
      {n : ℕ} {ds : List DestinatorItem} {ns : List ℕ}
      → Denotes ds ns
      → Denotes (single n ∷ ds) (n ∷ ns)
  behind :
      {first last : ℕ} {ds : List DestinatorItem} {ns : List ℕ}
      → last < first
      → Denotes ds ns
      → Denotes (range first last ∷ ds) ns
  counts :
      {first last : ℕ} {ds : List DestinatorItem} {ns : List ℕ}
      → first ≤ last
      → Denotes (range (first + 1) last ∷ ds) ns
      → Denotes (range first last ∷ ds) (first ∷ ns)

expand_onto : (ds : List DestinatorItem) (ns : List ℕ) → expand ds ns ≡ ns ++ expand ds []
unfolding expand
expand_onto [] ns = sym (append-nil ns)
expand_onto (single n ∷ ds) ns =
    expand_onto ds (ns ++ n ∷ [])
    ∙ append_assoc ns (n ∷ []) (expand ds [])
    ∙ ap (λ l. ns ++ l) (sym (expand_onto ds (n ∷ [])))
expand_onto (range first last ∷ ds) ns =
    let c = count_from first (last + 1 - first) in
    expand_onto ds (ns ++ c)
    ∙ append_assoc ns c (expand ds [])
    ∙ ap (λ l. ns ++ l) (sym (expand_onto ds c))

expand_one : (n : ℕ) (ds : List DestinatorItem) → expand (single n ∷ ds) [] ≡ n ∷ expand ds []
unfolding expand
expand_one n ds = expand_onto ds (n ∷ [])

expand_behind :
    (first last : ℕ) (ds : List DestinatorItem)
    → last < first
    → expand (range first last ∷ ds) [] ≡ expand ds []
unfolding expand count_from
expand_behind first last ds h =
    ap (λ n. expand ds (count_from first n)) {x = last + 1 - first} {y = 0} (omega arith)

expand_counts :
    (first last : ℕ) (ds : List DestinatorItem)
    → first ≤ last
    → expand (range first last ∷ ds) [] ≡ first ∷ expand (range (first + 1) last ∷ ds) []
unfolding expand count_from
expand_counts first last ds h =
    let n = last + 1 - (first + 1) in
    ap (λ n. expand ds (count_from first n)) {x = last + 1 - first} {y = suc n} (omega arith)
    ∙ expand_onto ds (first ∷ count_from (first + 1) n)
    ∙ ap (λ l. first ∷ l) (sym (expand_onto ds (count_from (first + 1) n)))

-- The loop of `read_destinators` lists what the items denote.
pub expand_complete : {ds : List DestinatorItem} {ns : List ℕ} → Denotes ds ns → expand ds [] ≡ ns
unfolding expand
expand_complete nothing = refl
expand_complete (one {n} {ds} d) = expand_one n ds ∙ ap (λ l. n ∷ l) (expand_complete d)
expand_complete (behind {first} {last} {ds} h d) = expand_behind first last ds h ∙ expand_complete d
expand_complete (counts {first} {last} {ds} h d) =
    expand_counts first last ds h ∙ ap (λ l. first ∷ l) (expand_complete d)

range-Denotes :
    (n first last : ℕ) (ds : List DestinatorItem)
    → last + 1 ≤ first + n
    → Denotes ds (expand ds [])
    → Denotes (range first last ∷ ds) (expand (range first last ∷ ds) [])
range-Denotes zero first last ds h d =
    rw (expand_behind first last ds (omega arith)) (behind (omega arith) d)
range-Denotes (suc n) first last ds h d = elim (order_cases first last) [
  | inl less ↦ rw (expand_behind first last ds less) (behind less d)
  | inr most ↦
      rw (expand_counts first last ds most)
        (counts most (range-Denotes n (first + 1) last ds (omega arith) d))
]
  where
    order_cases : (a b : ℕ) → (b < a) ⊎ (a ≤ b)
    order_cases a b = elim (Bool-cases (ltb b a)) [
      | inl e ↦ inl (ltb→lt b a e)
      | inr e ↦ inr (ground (arith, e))
    ]

pub expand-Denotes : (ds : List DestinatorItem) → Denotes ds (expand ds [])
unfolding expand
expand-Denotes [] = nothing
expand-Denotes (single n ∷ ds) = rw (expand_one n ds) (one (expand-Denotes ds))
expand-Denotes (range first last ∷ ds) =
    range-Denotes (last + 1) first last ds (omega arith) (expand-Denotes ds)
