-- ===== src/Base/Result.antt =====
-- `Result<A, E>`, and the operator `?`.
use mathlib.Core.Path.{◌≡◌, refl}
use mathlib.Core.Logic.{◌⊎◌, inl, inr}
use mathlib.Core.Option.{Option, none, some}

pub data Result {ℓ κ} (E : Type ℓ) (A : Type κ) : Type (ℓ ⊔ κ) where
  ok : A → Result E A
  err : E → Result E A

infixl 5 ◌>>=◌
abbrev pub ◌>>=◌ {ℓ κ μ} :
    {E : Type ℓ} {A : Type κ} {B : Type μ} → Result E A → (A → Result E B) → Result E B
ok a >>= f = f a
err e >>= f = err e

-- `Option::ok_or`.
abbrev pub ok_or {ℓ κ} : {E : Type ℓ} {A : Type κ} → Option A → E → Result E A
ok_or none e = err e
ok_or (some a) e = ok a

pub ok_or-eq-ok {ℓ κ} :
    {E : Type ℓ} {A : Type κ} (o : Option A) (e : E) {a : A} → ok_or o e ≡ ok a → o ≡ some a
ok_or-eq-ok none e h = cc h
ok_or-eq-ok (some b) e h = cc h

-- `Result::map_err`.
abbrev pub map_err {ℓ κ μ} :
    {E : Type ℓ} {F : Type κ} {A : Type μ} → (E → F) → Result E A → Result F A
map_err f (ok a) = ok a
map_err f (err e) = err (f e)

-- Inversion of a chain that succeeded.
pub >>=-eq-ok {ℓ κ μ} :
    {Err : Type ℓ} {X : Type κ} {Y : Type μ} (r : Result Err X) (next : X → Result Err Y) {y : Y}
    → (r >>= next) ≡ ok y
    → (x : X) × (r ≡ ok x) × (next x ≡ ok y)
>>=-eq-ok (ok x) next chained = (x, refl, chained)
>>=-eq-ok (err x) next chained = cc chained

pub Result-cases {ℓ κ} :
    {E : Type ℓ} {A : Type κ} (r : Result E A) → ((a : A) × (r ≡ ok a)) ⊎ ((e : E) × (r ≡ err e))
Result-cases (ok a) = inl (a, refl)
Result-cases (err e) = inr (e, refl)

-- How a call ends without a value: by `Err`, by a panic, or (in the model alone) without fuel.
pub data Fault {ℓ} (E : Type ℓ) : Type ℓ where
  failed : E → Fault E
  panicked out_of_fuel : Fault E

abbrev pub map_failed {ℓ κ} : {E : Type ℓ} {F : Type κ} → (E → F) → Fault E → Fault F
map_failed f (failed e) = failed (f e)
map_failed f panicked = panicked
map_failed f out_of_fuel = out_of_fuel

-- `unwrap` of a result.
abbrev pub unwrap {ℓ κ μ} : {E : Type ℓ} {F : Type κ} {A : Type μ} → Result F A → Result (Fault E) A
unwrap (ok a) = ok a
unwrap (err e) = err panicked
