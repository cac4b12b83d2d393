-- ===== src/Prelude/Sort.antt =====
-- `sorted(xs, key=...)`: a stable sort by insertion, over a Boolean order of the keys.
use Prim.Native.Nat.{ℕ, suc, ◌≤◌}
use mathlib.Core.Path.{◌≡◌, refl}
use mathlib.Core.Bool.{Bool}
use mathlib.Core.List.{List, [], ◌∷◌}
use native.Mathlib.Omega.{arith}
use distributed_vector_db.Prelude.Tests.{ltb, if◌then◌else◌}
use distributed_vector_db.Prelude.Lists.{length, All}

module _ {ℓ} {A : Type ℓ} (lt : A → A → Bool) where
  -- In front of the first element that is not smaller. So an element stands before its equals
  -- that come later in the input, and the sort is stable.
  abbrev pub insert_by : A → List A → List A
  insert_by a [] = a ∷ []
  insert_by a (x ∷ xs) = if lt x a then x ∷ insert_by a xs else a ∷ x ∷ xs

  abbrev pub sort_by : List A → List A
  sort_by [] = []
  sort_by (x ∷ xs) = insert_by x (sort_by xs)

  pub length-insert_by : (a : A) (xs : List A) → length (insert_by a xs) ≡ suc (length xs)
  length-insert_by a [] = refl
  length-insert_by a (x ∷ xs) = ground (arith, length-insert_by a xs)

  pub length-sort_by : (xs : List A) → length (sort_by xs) ≡ length xs
  length-sort_by [] = refl
  length-sort_by (x ∷ xs) = omega (arith, length-insert_by x (sort_by xs), length-sort_by xs)

-- Sorting by a numeric key.
module _ {ℓ} {A : Type ℓ} (key : A → ℕ) where
  abbrev pub key_lt : A → A → Bool
  key_lt a b = ltb (key a) (key b)

  -- Every element's key is at most the keys behind it.
  abbrev pub IsSortedBy : List A → Type 0
  IsSortedBy [] = Unit
  IsSortedBy (x ∷ xs) = All (λ y. key x ≤ key y) xs × IsSortedBy xs

  All-le_trans : (m n : ℕ) (xs : List A) → m ≤ n → All (λ y. n ≤ key y) xs → All (λ y. m ≤ key y) xs
  All-le_trans m n [] h a = tt
  All-le_trans m n (x ∷ xs) h a = (omega arith, All-le_trans m n xs h a.1)

  All-insert_by :
      (m : ℕ) (a : A) (xs : List A)
      → m ≤ key a
      → All (λ y. m ≤ key y) xs
      → All (λ y. m ≤ key y) (insert_by key_lt a xs)
  All-insert_by m a [] h k = (h, tt)
  All-insert_by m a (x ∷ xs) h k = ground (arith, All-insert_by m a xs h k.1)

  insert_by-IsSortedBy : (a : A) (xs : List A) → IsSortedBy xs → IsSortedBy (insert_by key_lt a xs)
  insert_by-IsSortedBy a [] s = (tt, tt)
  insert_by-IsSortedBy a (x ∷ xs) s = ground (
    arith,
    insert_by-IsSortedBy a xs s.1,
    All-insert_by (key x) a xs,
    All-le_trans (key a) (key x) xs,
  )

  pub sort_by-IsSortedBy : (xs : List A) → IsSortedBy (sort_by key_lt xs)
  sort_by-IsSortedBy [] = tt
  sort_by-IsSortedBy (x ∷ xs) = insert_by-IsSortedBy x (sort_by key_lt xs) (sort_by-IsSortedBy xs)
