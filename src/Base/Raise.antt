-- ===== src/Base/Raise.antt =====
-- Code that may raise: a value or the exception. Sequencing stops at the first exception.
use mathlib.Core.Path.{◌≡◌, refl, subst}
use mathlib.Core.Bool.{Bool, true, false}
use mathlib.Core.Option.{Option, none, some}
use cislunar_ground_platform.Base.Tests.{if◌then◌else◌}

pub data Result (E : Type 0) (A : Type 0) : Type 0 where
  ok : A → Result E A
  err : E → Result E A

infixl 5 ◌>>=◌ ◌>>◌
abbrev pub ◌>>=◌ : {E A B : Type 0} → Result E A → (A → Result E B) → Result E B
ok value >>= next = next value
err raised >>= next = err raised

abbrev pub ◌>>◌ : {E B : Type 0} → Result E (Unit {0}) → Result E B → Result E B
check >> rest = check >>= λ passed. rest

-- `if c: raise e`
abbrev pub raise_if : {E : Type 0} → Bool → E → Result E (Unit {0})
raise_if true e = err e
raise_if false e = ok tt

-- A lookup that raises where there is nothing.
abbrev pub or_raise : {E A : Type 0} → Option A → E → Result E A
or_raise none e = err e
or_raise (some a) e = ok a

pub >>=-eq-ok :
    {E A B : Type 0} (step : Result E A) (next : A → Result E B) {b : B}
    → (step >>= next) ≡ ok b
    → (value : A) × (step ≡ ok value) × (next value ≡ ok b)
>>=-eq-ok (ok value) next returned = (value, refl, returned)
>>=-eq-ok (err raised) next returned = cc

pub or_raise-eq-ok :
    {E A : Type 0} (o : Option A) (e : E) {a : A} → or_raise o e ≡ ok a → o ≡ some a
or_raise-eq-ok none e h = cc
or_raise-eq-ok (some a) e h = cc

pub raise_if-eq-ok : {E : Type 0} (b : Bool) (e : E) → raise_if b e ≡ ok tt → b ≡ false
raise_if-eq-ok true e h = cc
raise_if-eq-ok false e h = refl

pub ok-injective : {E A : Type 0} {a b : A} → ◌≡◌ {A = Result E A} (ok a) (ok b) → a ≡ b
ok-injective h = cc

-- The call returns, and its value satisfies `P`.
abbrev pub Ensures : {E A : Type 0} → (A → Type 0) → Result E A → Type 0
Ensures P (ok a) = P a
Ensures P (err e) = ⊥

pub Ensures-ok :
    {E A : Type 0} (P : A → Type 0) (m : Result E A) → Ensures P m → (a : A) × (m ≡ ok a) × P a
Ensures-ok P (ok a) h = (a, refl, h)
Ensures-ok P (err e) h = absurd h

-- If the call returns, its value satisfies `P`.
abbrev pub OnOk : {E A : Type 0} → (A → Type 0) → Result E A → Type 0
OnOk P (ok a) = P a
OnOk P (err e) = Unit {0}

pub OnOk-bind :
    {E A B : Type 0} (P : B → Type 0) (m : Result E A) (f : A → Result E B)
    → ((a : A) → m ≡ ok a → OnOk P (f a))
    → OnOk P (m >>= f)
OnOk-bind P (ok a) f h = h a refl
OnOk-bind P (err e) f h = tt

pub OnOk-apply :
    {E A : Type 0} (P : A → Type 0) (m : Result E A) {a : A} → OnOk P m → m ≡ ok a → P a
OnOk-apply P (ok b) h e = subst P (ok-injective e) h
OnOk-apply P (err b) h e = cc

pub OnOk-if :
    {E A : Type 0} (P : A → Type 0) (b : Bool) (m n : Result E A)
    → OnOk P m
    → OnOk P n
    → OnOk P (if b then m else n)
OnOk-if P true m n hm hn = hm
OnOk-if P false m n hm hn = hn

-- What returns has passed the check before it.
pub raise_if-passed :
    {E B : Type 0} (b : Bool) (e : E) (rest : Result E B) {value : B}
    → (raise_if b e >> rest) ≡ ok value
    → rest ≡ ok value
raise_if-passed true e rest h = cc
raise_if-passed false e rest h = h
