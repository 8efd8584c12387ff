-- ===== src/Prelude/Outcomes.antt =====
-- A call that may raise: its value, or the exception.
use mathlib.Core.Path.{◌≡◌, refl}
use mathlib.Core.Logic.{◌⊎◌, inl, inr}
use mathlib.Core.Bool.{Bool, true, false}
use mathlib.Core.Option.{Option, none, some}
use levelup_bench.Prelude.Tests.{if◌then◌else◌}

pub data Result {ℓ} (E A : Type ℓ) : Type ℓ where
  ok : A → Result E A
  raise : E → Result E A

infixl 5 ◌>>=◌ ◌>>◌
abbrev pub ◌>>=◌ {ℓ} : {E A B : Type ℓ} → Result E A → (A → Result E B) → Result E B
ok a >>= f = f a
raise e >>= f = raise e

abbrev pub ◌>>◌ {ℓ} : {E A B : Type ℓ} → Result E A → Result E B → Result E B
m >> k = m >>= λ _. k

-- `if failed: raise error`
abbrev pub raise_if : {E : Type 0} → Bool → E → Result E Unit
raise_if true e = raise e
raise_if false e = ok tt

-- A chain of calls that succeeds has passed through the value of its first call.
pub >>=-eq-ok {ℓ} :
    {E S T : Type ℓ} (first : Result E S) (next : S → Result E T) {t : T}
    → (first >>= next) ≡ ok t
    → (s : S) × (first ≡ ok s) × (next s ≡ ok t)
>>=-eq-ok (ok s) next p = (s, refl, p)
>>=-eq-ok (raise e) next p = cc

pub Result-cases {ℓ} :
    {E A : Type ℓ} (r : Result E A) → ((e : E) × (r ≡ raise e)) ⊎ ((a : A) × (r ≡ ok a))
Result-cases (ok a) = inr (a, refl)
Result-cases (raise e) = inl (e, refl)

pub ok-injective {ℓ} : {E A : Type ℓ} {a b : A} → ◌≡◌ {A = Result E A} (ok a) (ok b) → a ≡ b
ok-injective h = cc h

-- What a guarded call that succeeds has passed.
pub raise_if-eq-ok :
    {E A : Type 0} (b : Bool) (f : E) (m : Result E A) {a : A}
    → (raise_if b f >> m) ≡ ok a
    → (b ≡ false) × (m ≡ ok a)
raise_if-eq-ok true f m h = cc
raise_if-eq-ok false f m h = (refl, h)

-- A guarded lookup that succeeds has passed the guard and found something.
pub lookup-eq-ok :
    {E A B : Type 0} (refused : Bool) (found : Option A) (e f : E) (k : A → B) {b : B}
    → (if refused then raise e else elim found [ none ↦ raise f | some a ↦ ok (k a) ]) ≡ ok b
    → (a : A) × (found ≡ some a) × (k a ≡ b)
lookup-eq-ok true found e f k h = cc
lookup-eq-ok false none e f k h = cc
lookup-eq-ok false (some a) e f k h = (a, refl, ok-injective h)
