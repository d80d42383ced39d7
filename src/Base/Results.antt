-- ===== src/Base/Results.antt =====
-- What a run of the C++ code comes to: a value, a recursion cut off by its fuel, or an operation
-- that the language leaves undefined (a read out of bounds, the use of an invalid iterator), or a
-- call of abort().
use mathlib.Core.Path.{◌≡◌, ap, ◌∙◌, refl}
use mathlib.Core.Option.{Option, none, some}

pub data Result {ℓ} (A : Type ℓ) : Type ℓ where
  ok : A → Result A
  out_of_fuel : Result A
  undefined : Result A
  aborted : Result A

infixl 5 ◌>>=◌
abbrev pub ◌>>=◌ {ℓ κ} : {A : Type ℓ} {B : Type κ} → Result A → (A → Result B) → Result B
ok a >>= f = f a
out_of_fuel >>= f = out_of_fuel
undefined >>= f = undefined
aborted >>= f = aborted

-- What a search that aborts, or an exception that nothing catches, comes to.
abbrev pub of_option {ℓ} : {A : Type ℓ} → Option A → Result A
of_option none = aborted
of_option (some a) = ok a

-- A first step that gives a value, and the rest of the run.
pub step_ok {ℓ κ} :
    {A : Type ℓ} {B : Type κ} (m : Result A) (a : A) (f : A → Result B) (r : Result B)
    → m ≡ ok a
    → f a ≡ r
    → (m >>= f) ≡ r
step_ok m a f r e h = ap (λ n. n >>= f) e ∙ h

-- A first step that aborts.
pub step_aborted {ℓ κ} :
    {A : Type ℓ} {B : Type κ} (m : Result A) (f : A → Result B) → m ≡ aborted → (m >>= f) ≡ aborted
step_aborted m f e = ap (λ n. n >>= f) e

pub ok-inj {ℓ} : {A : Type ℓ} (a b : A) → ok a ≡ ok b → a ≡ b
ok-inj a b e = ap (λ run. elim run [ ok c ↦ c | out_of_fuel ↦ a | undefined ↦ a | aborted ↦ a ]) e

-- A run that gives a value has given one at its first step.
pub step_inv {ℓ κ} :
    {A : Type ℓ} {B : Type κ} (m : Result A) (f : A → Result B) (b : B)
    → (m >>= f) ≡ ok b
    → (a : A) × (m ≡ ok a) × (f a ≡ ok b)
step_inv (ok a) f b e = (a, refl, e)
step_inv out_of_fuel f b e = absurd (cc e)
step_inv undefined f b e = absurd (cc e)
step_inv aborted f b e = absurd (cc e)
