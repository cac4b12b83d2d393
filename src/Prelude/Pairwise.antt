-- ===== src/Prelude/Pairwise.antt =====
-- A relation between each element of a list and those behind it.
use Prim.Native.Nat.{ℕ, zero, suc, ◌<◌, ◌≤◌}
use mathlib.Core.Path.{◌≡◌, refl, ap}
use mathlib.Core.List.{List, [], ◌∷◌, ◌++◌}
use native.Mathlib.Omega.{arith}
use distributed_vector_db.Prelude.Lists.{take, drop, All, max_of, length}

module _ {A : Type 0} where
  abbrev pub Pairwise : (A → A → Type 0) → List A → Type 0
  Pairwise R [] = Unit
  Pairwise R (x ∷ xs) = All (λ y. R x y) xs × Pairwise R xs

  pub All-take : (P : A → Type 0) (n : ℕ) (xs : List A) → All P xs → All P (take n xs)
  All-take P zero xs a = tt
  All-take P (suc n) [] a = tt
  All-take P (suc n) (x ∷ xs) a = (a.0, All-take P n xs a.1)

  pub All-drop : (P : A → Type 0) (n : ℕ) (xs : List A) → All P xs → All P (drop n xs)
  All-drop P zero xs a = a
  All-drop P (suc n) [] a = tt
  All-drop P (suc n) (x ∷ xs) a = All-drop P n xs a.1

  pub All-map : (P Q : A → Type 0) (xs : List A) → ((x : A) → P x → Q x) → All P xs → All Q xs
  All-map P Q [] f a = tt
  All-map P Q (x ∷ xs) f a = (f x a.0, All-map P Q xs f a.1)

  module _ (R : A → A → Type 0) where
    pub Pairwise-drop : (n : ℕ) (xs : List A) → Pairwise R xs → Pairwise R (drop n xs)
    Pairwise-drop zero xs p = p
    Pairwise-drop (suc n) [] p = tt
    Pairwise-drop (suc n) (x ∷ xs) p = Pairwise-drop n xs p.1

    -- What is cut off is related to what is kept.
    pub Pairwise-cut :
        (n : ℕ) (xs : List A) → Pairwise R xs → All (λ x. All (λ y. R x y) (drop n xs)) (take n xs)
    Pairwise-cut zero xs p = tt
    Pairwise-cut (suc n) [] p = tt
    Pairwise-cut (suc n) (x ∷ xs) p = (All-drop (λ y. R x y) n xs p.0, Pairwise-cut n xs p.1)

    -- The same, asked from the other side.
    pub All-swap :
        (xs ys : List A) → All (λ x. All (λ y. R x y) ys) xs → All (λ y. All (λ x. R x y) xs) ys
    All-swap xs [] a = tt
    All-swap xs (y ∷ ys) a = (
      All-map (λ x. R x y × All (λ z. R x z) ys) (λ x. R x y) xs (λ x h. h.0) a,
      All-swap xs ys
          (All-map (λ x. R x y × All (λ z. R x z) ys) (λ x. All (λ z. R x z) ys) xs (λ x h. h.1) a),
    )

    pub Pairwise-append :
        (xs : List A) (y : A) → Pairwise R xs → All (λ x. R x y) xs → Pairwise R (xs ++ (y ∷ []))
    Pairwise-append [] y p a = (tt, tt)
    Pairwise-append (x ∷ xs) y p a = (last xs y p.0 a.0, Pairwise-append xs y p.1 a.1)
      where
        last :
            (xs : List A) (y : A) → All (λ z. R x z) xs → R x y → All (λ z. R x z) (xs ++ (y ∷ []))
        last [] y p h = (h, tt)
        last (z ∷ xs) y p h = (p.0, last xs y p.1 h)

  pub max_of-lt :
      (f : A → ℕ) (n : ℕ) (xs : List A) → 0 < n → All (λ x. f x < n) xs → max_of f 0 xs < n
  max_of-lt f n [] h a = omega (arith, h)
  max_of-lt f n (x ∷ xs) h a = omega (arith, a.0, max_of-lt f n xs h a.1)

  pub take-append-drop : (n : ℕ) (xs : List A) → take n xs ++ drop n xs ≡ xs
  take-append-drop zero xs = refl
  take-append-drop (suc n) [] = refl
  take-append-drop (suc n) (x ∷ xs) = ap {B = List A} (λ l. x ∷ l) (take-append-drop n xs)

  -- Cutting off as many elements as there are.
  pub take_all : (n : ℕ) (xs : List A) → length xs ≤ n → take n xs ≡ xs
  take_all n [] h = take_nil n
    where
      take_nil : (n : ℕ) → take {A = A} n [] ≡ []
      take_nil zero = refl
      take_nil (suc n) = refl
  take_all zero (x ∷ xs) h = absurd (omega (arith, h))
  take_all (suc n) (x ∷ xs) h = ap {B = List A} (λ l. x ∷ l) (take_all n xs (omega (arith, h)))

  pub drop_all : (n : ℕ) (xs : List A) → length xs ≤ n → drop n xs ≡ []
  drop_all zero [] h = refl
  drop_all (suc n) [] h = refl
  drop_all zero (x ∷ xs) h = absurd (omega (arith, h))
  drop_all (suc n) (x ∷ xs) h = drop_all n xs (omega (arith, h))

  -- The last element has the greatest key.
  pub max_of_last :
      (f : A → ℕ) (n : ℕ) (xs : List A) (y : A)
      → All (λ x. f x ≤ n) xs
      → f y ≡ n
      → max_of f 0 (xs ++ (y ∷ [])) ≡ n
  max_of_last f n [] y a h = omega (arith, h)
  max_of_last f n (x ∷ xs) y a h = omega (arith, a.0, max_of_last f n xs y a.1 h)
