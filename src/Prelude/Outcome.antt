-- ===== src/Prelude/Outcome.antt =====
-- Exceptions of the source as values. Code that mutates an object returns the new object beside
-- the outcome, since what was written before a `raise` stays written.
use mathlib.Core.Bool.{Bool, true, false}
use mathlib.Core.Path.{◌≡◌, refl}
use mathlib.Core.Logic.{◌⊎◌, inl, inr}
use Prim.Native.Nat.{ℕ}

pub data Error : Type 0 where
  value_error runtime_error index_error file_not_found struct_error : Error
  http_error : ℕ → Error

pub data Outcome {ℓ} (A : Type ℓ) : Type ℓ where
  ok : A → Outcome A
  raise : Error → Outcome A

infixl 5 ◌>>=◌ ◌>>◌
abbrev pub ◌>>=◌ {ℓ κ} : {A : Type ℓ} {B : Type κ} → Outcome A → (A → Outcome B) → Outcome B
ok a >>= f = f a
raise e >>= f = raise e

abbrev pub ◌>>◌ {ℓ} : {B : Type ℓ} → Outcome (Unit {0}) → Outcome B → Outcome B
m >> k = m >>= λ _. k

-- `if b: raise e`
abbrev pub raise_if : Bool → Error → Outcome (Unit {0})
raise_if true e = raise e
raise_if false e = ok tt

pub Outcome-cases {ℓ} :
    {A : Type ℓ} (o : Outcome A) → ((x : Error) × (o ≡ raise x)) ⊎ ((a : A) × (o ≡ ok a))
Outcome-cases (raise x) = inl (x, refl)
Outcome-cases (ok a) = inr (a, refl)
