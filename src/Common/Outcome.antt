-- ===== src/Common/Outcome.antt =====
-- How a call of the program can end.
use mathlib.Core.Path.{◌≡◌, refl}
use mathlib.Core.Logic.{◌⊎◌, inl, inr}

-- `exited` is `exit(1)`; `undefined` is a null dereference, an index out of range or a division by
-- zero, which C++ leaves undefined and which stops the kernel; `stuck` is a loop that has used its fuel.
pub data Result {ℓ} (A : Type ℓ) : Type ℓ where
  ok : A → Result A
  exited : Result A
  undefined : Result A
  stuck : Result A

infixl 5 ◌>>=◌
abbrev pub ◌>>=◌ {ℓ κ} : {A : Type ℓ} {B : Type κ} → Result A → (A → Result B) → Result B
ok a >>= f = f a
exited >>= f = exited
undefined >>= f = undefined
stuck >>= f = stuck

-- The call returns, and what it returns satisfies `P`.
abbrev pub Returns {ℓ κ} : {A : Type ℓ} → (A → Type κ) → Result A → Type (ℓ ⊔ κ)
Returns {A} P r = (a : A) × (r ≡ ok a) × P a

pub Returns-mono {ℓ κ μ} :
    {A : Type ℓ} (P : A → Type κ) (Q : A → Type μ) (r : Result A)
    → ((a : A) → P a → Q a)
    → Returns P r
    → Returns Q r
Returns-mono P Q r f (a, e, p) = (a, e, f a p)

-- The call returns such a value or ends the program by `exit`, and does nothing undefined.
abbrev pub Settles {ℓ κ} : {A : Type ℓ} → (A → Type κ) → Result A → Type (ℓ ⊔ κ)
Settles P r = (r ≡ exited) ⊎ Returns P r

pub Settles-bind {ℓ κ μ ν} :
    {A : Type ℓ} {B : Type κ} (P : A → Type μ) (Q : B → Type ν) (r : Result A) (f : A → Result B)
    → Settles P r
    → ((a : A) → P a → Settles Q (f a))
    → Settles Q (r >>= f)
Settles-bind P Q r f (inl e) h = rw e (inl refl)
Settles-bind P Q r f (inr (a, e, p)) h = rw e (h a p)
