-- ===== src/Prelude/Results.antt =====
-- `Result` as the monad of code that returns early with an error by `?`.
use mathlib.Core.Path.{◌≡◌, refl}
use mathlib.Core.Bool.{Bool, true, false}
use mathlib.Core.Option.{Option, none, some}

pub data Result (E A : Type 0) : Type 0 where
  ok : A → Result E A
  err : E → Result E A

infixl 5 ◌>>?◌
abbrev pub ◌>>?◌ : {E A B : Type 0} → Result E A → (A → Result E B) → Result E B
ok a >>? f = f a
err e >>? f = err e

-- `if b { return Err(e) }`
abbrev pub unless : {E : Type 0} → Bool → E → Result E Unit
unless true e = err e
unless false e = ok tt

pub >>?-eq-ok :
    {E A B : Type 0} (m : Result E A) (f : A → Result E B) {b : B}
    → (m >>? f) ≡ ok b
    → (a : A) × (m ≡ ok a) × (f a ≡ ok b)
>>?-eq-ok (ok a) f e = (a, refl, e)
>>?-eq-ok (err x) f e = cc

pub unless-eq-ok : {E : Type 0} (b : Bool) (e : E) {u : Unit} → unless b e ≡ ok u → b ≡ false
unless-eq-ok true e h = cc
unless-eq-ok false e h = refl

abbrev pub ok_or : {E A : Type 0} → E → Option A → Result E A
ok_or e none = err e
ok_or e (some a) = ok a

pub ok_or-eq-ok : {E A : Type 0} (e : E) (o : Option A) {a : A} → ok_or e o ≡ ok a → o ≡ some a
ok_or-eq-ok e none h = cc
ok_or-eq-ok e (some a) h = cc

pub ok-injective : {E A : Type 0} {a b : A} → ◌≡◌ {A = Result E A} (ok a) (ok b) → a ≡ b
ok-injective e = cc
