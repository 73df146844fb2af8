-- ===== src/Base/Run.antt =====
-- What a call of the kernel's code comes to. `ASSERT` and `PANIC` (include/kernel/debug.h) end in
-- `panicSpin`, which prints and spins for ever: the `panic` of the model. The build passes
-- `-DNDEBUG`, and debug.h checks the assertions where NDEBUG is defined.
use mathlib.Core.Bool.{Bool, true, false}
use mathlib.Core.Path.{◌≡◌, refl, subst}

-- `out_of_fuel` is a loop that did not end in the rounds that the model gives it.
pub data Run {ℓ} (A : Type ℓ) : Type ℓ where
  ok : A → Run A
  panic : Run A
  out_of_fuel : Run A

infixl 5 ◌>>=◌ ◌>>◌
abbrev pub ◌>>=◌ {ℓ κ} : {A : Type ℓ} {B : Type κ} → Run A → (A → Run B) → Run B
ok a >>= f = f a
panic >>= f = panic
out_of_fuel >>= f = out_of_fuel

abbrev pub ◌>>◌ {ℓ} : {B : Type ℓ} → Run (Unit {0}) → Run B → Run B
m >> k = m >>= λ _. k

-- `ASSERT(condition)`
abbrev pub assert : Bool → Run (Unit {0})
assert true = ok tt
assert false = panic

-- What a call returns, if it returns, has the property.
pub record Gives {ℓ} {A : Type ℓ} (P : A → Type 0) (m : Run A) : Type ℓ where
  pub gives : (a : A) → m ≡ ok a → P a

pub Gives-ok {ℓ} : {A : Type ℓ} {P : A → Type 0} (a : A) → P a → Gives P (ok a)
Gives-ok {P = P} a p = record { gives = λ b e. let same : a ≡ b = cc in subst P same p }

pub Gives-panic {ℓ} : {A : Type ℓ} {P : A → Type 0} → Gives P panic
Gives-panic = record { gives = λ b e. absurd cc }

pub Gives-out_of_fuel {ℓ} : {A : Type ℓ} {P : A → Type 0} → Gives P out_of_fuel
Gives-out_of_fuel = record { gives = λ b e. absurd cc }

pub Gives-bind {ℓ κ} :
    {A : Type ℓ} {B : Type κ} {P : B → Type 0} (Q : A → Type 0) (m : Run A) (f : A → Run B)
    → Gives Q m
    → ((a : A) → Q a → Gives P (f a))
    → Gives P (m >>= f)
Gives-bind Q (ok a) f h g = g a (h.gives a refl)
Gives-bind Q panic f h g = Gives-panic
Gives-bind Q out_of_fuel f h g = Gives-out_of_fuel

pub Gives-any {ℓ} : {A : Type ℓ} (m : Run A) → Gives (λ a. Unit) m
Gives-any m = record { gives = λ a e. tt }
