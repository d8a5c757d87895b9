-- ===== src/Run.antt =====
-- The outcome of a piece of C code.

use nscheme.Prelude.{refl, inl, inr, ◌≡◌, ◌⊎◌}

pub data Run {ℓ} (A : Type ℓ) : Type ℓ where
  ok : A → Run A
  -- an access that C leaves undefined, such as one past the end of the stack
  fault : Run A
  -- `vm_panic` has ended the process
  panic : Run A
  -- the model's bound on a loop or on the depth of a recursion was too small
  out_of_fuel : Run A

infixl 5 ◌>>=◌
abbrev pub ◌>>=◌ {ℓ κ} : {A : Type ℓ} {B : Type κ} → Run A → (A → Run B) → Run B
ok a >>= f = f a
fault >>= f = fault
panic >>= f = panic
out_of_fuel >>= f = out_of_fuel

-- To split on an outcome and keep the equation.
pub Run-cases :
    {A : Type 0} (r : Run A)
    → ((x : A) × (r ≡ ok x)) ⊎ (r ≡ fault) ⊎ (r ≡ panic) ⊎ (r ≡ out_of_fuel)
Run-cases (ok x) = inl (x, refl)
Run-cases fault = inr (inl refl)
Run-cases panic = inr (inr (inl refl))
Run-cases out_of_fuel = inr (inr (inr refl))
