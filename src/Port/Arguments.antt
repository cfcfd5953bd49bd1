-- ===== src/Port/Arguments.antt =====
-- The arguments of `command` in all schedulers: their own commands, and those that go to `Queue::command`.
use Prim.Native.String.{String}
use text.Mathlib.Text.{◌==◌ as str_eq}
use mq_ecn.Common.{
  ◌≡◌, refl, ◌⊎◌, inl, inr, Bool, true, false, ◌||◌, List, [], ◌∷◌, if◌then◌else◌, Result, Settles,
}

-- `argv` is a command of the scheduler: `attach-total` or `attach-queue` with a channel, or `setting` or
-- `set-thresh` with a queue and a value.
abbrev pub is_own : String → List String → Bool
is_own setting (self ∷ name ∷ id ∷ []) = str_eq name "attach-total" || str_eq name "attach-queue"
is_own setting (self ∷ name ∷ id ∷ value ∷ []) = str_eq name setting || str_eq name "set-thresh"
is_own setting args = false

-- An own command settles with `P`; any other does what `Queue::command` does.
abbrev pub Handles {ℓ κ} : {A : Type ℓ} → (A → Type κ) → Bool → Result A → Result A → Type (ℓ ⊔ κ)
Handles P own r inherited = ((own ≡ true) × Settles P r) ⊎ ((own ≡ false) × (r ≡ inherited))

-- Two own commands, tested one after the other.
pub Handles-if {ℓ κ} :
    {A : Type ℓ} (P : A → Type κ) (b c : Bool) (x y z : Result A)
    → Settles P x
    → Settles P y
    → Handles P (b || c) (if b then x else if c then y else z) z
Handles-if P true c x y z h k = inl (refl, h)
Handles-if P false true x y z h k = inl (refl, k)
Handles-if P false false x y z h k = inr (refl, refl)
