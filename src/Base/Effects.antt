-- ===== src/Base/Effects.antt =====
-- What a call of Go code comes to. `panic` is a run-time panic or a `log.Fatalf`, which end the
-- program; `no_fuel` belongs to the model only.
use mathlib.Core.Path.{◌≡◌, refl}

pub data Outcome {ℓ} (A : Type ℓ) : Type ℓ where
  done : A → Outcome A
  panic : Outcome A
  no_fuel : Outcome A

infixl 5 ◌>>=◌ ◌>>◌
abbrev pub ◌>>=◌ {ℓ κ} : {A : Type ℓ} {B : Type κ} → Outcome A → (A → Outcome B) → Outcome B
done a >>= f = f a
panic >>= f = panic
no_fuel >>= f = no_fuel

abbrev pub ◌>>◌ {ℓ κ} : {A : Type ℓ} {B : Type κ} → Outcome A → Outcome B → Outcome B
m >> k = m >>= λ _. k

-- The result is a value of which `P` holds.
abbrev pub Returns {ℓ} : {A : Type ℓ} → (A → Type 0) → Outcome A → Type 0
Returns P (done a) = P a
Returns P panic = ⊥
Returns P no_fuel = ⊥

-- The code does not panic, and if the fuel suffices the result is a value of which `P` holds.
abbrev pub Safe {ℓ} : {A : Type ℓ} → (A → Type 0) → Outcome A → Type 0
Safe P (done a) = P a
Safe P panic = ⊥
Safe P no_fuel = Unit

pub Safe-mono {ℓ} :
    {A : Type ℓ} (P Q : A → Type 0) (o : Outcome A) → ((a : A) → P a → Q a) → Safe P o → Safe Q o
Safe-mono P Q (done a) f h = f a h
Safe-mono P Q panic f h = h
Safe-mono P Q no_fuel f h = tt

pub Safe-bind {ℓ κ} :
    {A : Type ℓ} {B : Type κ} (P : A → Type 0) (Q : B → Type 0) (o : Outcome A) (f : A → Outcome B)
    → Safe P o
    → ((a : A) → P a → Safe Q (f a))
    → Safe Q (o >>= f)
Safe-bind P Q (done a) f h k = k a h
Safe-bind P Q panic f h k = h
Safe-bind P Q no_fuel f h k = tt

pub Returns-mono {ℓ} :
    {A : Type ℓ} (P Q : A → Type 0) (o : Outcome A)
    → ((a : A) → P a → Q a)
    → Returns P o
    → Returns Q o
Returns-mono P Q (done a) f h = f a h
Returns-mono P Q panic f h = h
Returns-mono P Q no_fuel f h = h

pub Returns-bind {ℓ κ} :
    {A : Type ℓ} {B : Type κ} (P : A → Type 0) (Q : B → Type 0) (o : Outcome A) (f : A → Outcome B)
    → Returns P o
    → ((a : A) → P a → Returns Q (f a))
    → Returns Q (o >>= f)
Returns-bind P Q (done a) f h k = k a h
Returns-bind P Q panic f h k = h
Returns-bind P Q no_fuel f h k = h

-- The value that is returned, with what holds of it.
pub Returns-done {ℓ} :
    {A : Type ℓ} (P : A → Type 0) (o : Outcome A) → Returns P o → (a : A) × (o ≡ done a) × P a
Returns-done P (done a) h = (a, refl, h)
Returns-done P panic h = absurd h
Returns-done P no_fuel h = absurd h

pub Returns-value {ℓ} :
    {A : Type ℓ} (P : A → Type 0) (o : Outcome A) (a : A) → o ≡ done a → P a → Returns P o
Returns-value P o a e h = rw e h
