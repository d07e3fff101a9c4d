-- ===== src/Base/Results.antt =====
-- What running a piece of the C++ code comes to.
use mathlib.Core.Path.{◌≡◌, refl}
use mathlib.Core.Bool.{Bool, true, false}

-- `ok`: it returns. `fault`: undefined behaviour, such as an access outside allocated memory.
-- `hang`: it never returns (`assert` of ecs_assert.h is an endless loop).
pub data Outcome {ℓ} (A : Type ℓ) : Type ℓ where
  ok : A → Outcome A
  fault : Outcome A
  hang : Outcome A

infixl 5 ◌>>=◌ ◌>>◌
abbrev pub ◌>>=◌ {ℓ κ} : {A : Type ℓ} {B : Type κ} → Outcome A → (A → Outcome B) → Outcome B
ok a >>= f = f a
fault >>= f = fault
hang >>= f = hang

abbrev pub ◌>>◌ {ℓ κ} : {A : Type ℓ} {B : Type κ} → Outcome A → Outcome B → Outcome B
m >> k = m >>= λ _. k

-- `if(!b)` is undefined behaviour here.
abbrev pub require : Bool → Outcome (Unit {0})
require true = ok tt
require false = fault

-- `assert(b)`: `#define assert(X) while (!(X))`.
abbrev pub assert_that : Bool → Outcome (Unit {0})
assert_that true = ok tt
assert_that false = hang

-- Total correctness: the code returns, and its result is in `P`.
pub data Returns {ℓ κ} {A : Type ℓ} (P : A → Type κ) : Outcome A → Type (ℓ ⊔ κ) where
  returns : {a : A} → P a → Returns P (ok a)

module _ {ℓ κ} {A : Type ℓ} {P : A → Type κ} where
  pub Returns-bind {μ ν} :
      {B : Type μ} {Q : B → Type ν} {m : Outcome A} {f : A → Outcome B}
      → Returns P m
      → ((a : A) → P a → Returns Q (f a))
      → Returns Q (m >>= f)
  Returns-bind (returns p) k = k _ p

  pub Returns-mono {μ} :
      {Q : A → Type μ} {m : Outcome A} → Returns P m → ((a : A) → P a → Q a) → Returns Q m
  Returns-mono (returns p) k = returns (k _ p)

  pub Returns-value : {m : Outcome A} → Returns P m → (a : A) × (m ≡ ok a) × P a
  Returns-value (returns {a} p) = (a, refl, p)
