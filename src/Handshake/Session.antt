-- ===== src/Handshake/Session.antt =====
-- A stream's two halves as a state, and steps that read, write and may fail.
use tewta.Base.{ℕ, List, Bool, true, false, ◌≡◌, refl}
use tewta.Base.Result.{Result, ok, err}

-- The two halves of the stream.
pub record Io : Type 0 where
  pub inbound : List ℕ
  pub outbound : List ℕ

-- A step reads and writes, and may fail: what it wrote before stays written.
abbrev pub M : Type 0 → Type 0 → Type 0
M E A = Io → Result E A × Io

abbrev pub after : {E A B : Type 0} → Result E A × Io → (A → M E B) → Result E B × Io
after (ok a, io) f = f a io
after (err e, io) f = (err e, io)

infixl 5 ◌>>=◌ ◌>>◌
abbrev pub ◌>>=◌ : {E A B : Type 0} → M E A → (A → M E B) → M E B
◌>>=◌ m f io = after (m io) f

abbrev pub ◌>>◌ : {E B : Type 0} → M E (Unit {0}) → M E B → M E B
m >> k = m >>= λ _. k

abbrev pub pure : {E A : Type 0} → A → M E A
pure a io = (ok a, io)

abbrev pub fail : {E A : Type 0} → E → M E A
fail e io = (err e, io)

-- `return Err(e)` unless the test holds.
abbrev pub ensure : {E : Type 0} → Bool → E → M E (Unit {0})
ensure true e = pure tt
ensure false e = fail e

-- `?` on a result, whose error is converted.
abbrev pub lift : {E F A : Type 0} → (F → E) → Result F A → M E A
lift f (ok a) = pure a
lift f (err e) = fail (f e)

-- What a chain that succeeded has gone through.
pub data Stepped {E A B : Type 0} (s : Result E A × Io) (f : A → M E B) (b : B) (io' : Io)
    : Type 0 where
  stepped : (a : A) (mid : Io) → s ≡ (ok a, mid) → f a mid ≡ (ok b, io') → Stepped s f b io'

pub after-eq-ok :
    {E A B : Type 0} (s : Result E A × Io) (f : A → M E B) {b : B} {io' : Io}
    → after s f ≡ (ok b, io')
    → Stepped s f b io'
after-eq-ok (ok a, mid) f e = stepped a mid refl e
after-eq-ok (err x, mid) f e = cc e

pub ensure-eq-ok :
    {E : Type 0} (test : Bool) (x : E) (io : Io) {io' : Io}
    → ensure test x io ≡ (ok tt, io')
    → test ≡ true
ensure-eq-ok true x io e = refl
ensure-eq-ok false x io e = cc e

pub lift-eq-ok :
    {E F A : Type 0} (f : F → E) (r : Result F A) (io : Io) {a : A} {io' : Io}
    → lift f r io ≡ (ok a, io')
    → r ≡ ok a
lift-eq-ok f (ok a) io e = cc e
lift-eq-ok f (err x) io e = cc e
