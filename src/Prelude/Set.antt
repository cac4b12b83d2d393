-- ===== src/Prelude/Set.antt =====
-- Python's `set`, as a list that is read only through `contains`. `add` lists no element twice,
-- so that the length of a set built by it is the number of its elements.
use mathlib.Core.Path.{◌≡◌, refl}
use mathlib.Core.Bool.{Bool, true, false, not, ◌&&◌, ◌||◌}
use mathlib.Core.List.{List, [], ◌∷◌, ◌++◌}
use native.Mathlib.Omega.{arith}
use distributed_vector_db.Prelude.Tests.{if◌then◌else◌, Bool-cases}
use mathlib.Core.Logic.{inl, inr}
use distributed_vector_db.Prelude.Lists.{keep}
use distributed_vector_db.Prelude.Eq.{Eq}

module _ {ℓ} {A : Type ℓ} ⦃e : Eq A⦄ where
  -- `a in s`
  abbrev pub contains : A → List A → Bool
  contains a [] = false
  contains a (x ∷ xs) = if e.beq a x then true else contains a xs

  -- `s.add(a)`
  abbrev pub add : A → List A → List A
  add a s = if contains a s then s else a ∷ s

  -- `s.update(xs)`, `s | xs`
  abbrev pub union : List A → List A → List A
  union [] s = s
  union (x ∷ xs) s = add x (union xs s)

  -- `s - xs`
  abbrev pub difference : List A → List A → List A
  difference s xs = keep (λ a. not (contains a xs)) s

  -- `s & xs`
  abbrev pub intersection : List A → List A → List A
  intersection s xs = keep (λ a. contains a xs) s

  pub contains-append :
      (a : A) (xs ys : List A) → contains a (xs ++ ys) ≡ (contains a xs || contains a ys)
  contains-append a [] ys = refl
  contains-append a (x ∷ xs) ys = ground (arith, contains-append a xs ys)

  pub contains-add : (a b : A) (s : List A) → contains a (add b s) ≡ (e.beq a b || contains a s)
  contains-add a b s = ground (arith, e.beq_iff a b, contains_of_eq a b)
    where
      contains_of_eq : (a b : A) → a ≡ b → contains b s ≡ contains a s
      contains_of_eq a b p = rw p

  pub contains-union :
      (a : A) (xs s : List A) → contains a (union xs s) ≡ (contains a xs || contains a s)
  contains-union a [] s = refl
  contains-union a (x ∷ xs) s = ground (arith, contains-add a x (union xs s), contains-union a xs s)

  pub contains-keep :
      (p : A → Bool) (a : A) (s : List A) → contains a (keep p s) ≡ (p a && contains a s)
  contains-keep p a [] = ground arith
  contains-keep p a (x ∷ xs) = ground (arith, contains-keep p a xs, e.beq_iff a x, respects a x)
    where
      respects : (a x : A) → a ≡ x → p a ≡ p x
      respects a x q = rw q

  pub contains-difference :
      (a : A) (s xs : List A) → contains a (difference s xs) ≡ (contains a s && not (contains a xs))
  contains-difference a s xs = ground (arith, contains-keep (λ b. not (contains b xs)) a s)

  -- No element is listed twice.
  abbrev pub IsDistinct : List A → Type 0
  IsDistinct [] = Unit
  IsDistinct (x ∷ xs) = (contains x xs ≡ false) × IsDistinct xs

  add-IsDistinct : (a : A) (s : List A) → IsDistinct s → IsDistinct (add a s)
  add-IsDistinct a s d = elim (Bool-cases (contains a s)) [ inl h ↦ rw h d | inr h ↦ rw h (h, d) ]

  pub union-IsDistinct : (xs s : List A) → IsDistinct s → IsDistinct (union xs s)
  union-IsDistinct [] s d = d
  union-IsDistinct (x ∷ xs) s d = add-IsDistinct x (union xs s) (union-IsDistinct xs s d)

  pub keep-IsDistinct : (p : A → Bool) (s : List A) → IsDistinct s → IsDistinct (keep p s)
  keep-IsDistinct p [] d = tt
  keep-IsDistinct p (x ∷ xs) d = elim (Bool-cases (p x)) [
    | inl h ↦ rw h (ground (arith, contains-keep p x xs, d.0), keep-IsDistinct p xs d.1)
    | inr h ↦ rw h (keep-IsDistinct p xs d.1)
  ]
