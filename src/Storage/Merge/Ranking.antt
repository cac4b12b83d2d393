-- ===== src/Storage/Merge/Ranking.antt =====
-- Cutting off a dictionary that is sorted by its values keeps the smallest.
use distributed_vector_db.Prelude.{
  ℕ, zero, suc, ◌≤◌, ◌≡◌, refl, some, [], ◌∷◌, false, arith, take, length, All, ◌⊎◌, inr,
}
use distributed_vector_db.Prelude.Eq.{nat_eq}
use distributed_vector_db.Prelude.Dict.{Dict, lookup, has_key, HasDistinctKeys}
use distributed_vector_db.Prelude.Sort.{IsSortedBy}

abbrev by_value : ℕ × ℕ → ℕ
by_value e = e.1

has_key-take : (i n : ℕ) (d : Dict ℕ ℕ) → has_key i d ≡ false → has_key i (take n d) ≡ false
has_key-take i zero d h = refl
has_key-take i (suc n) [] h = refl
has_key-take i (suc n) ((k, v) ∷ d) h = ground (arith, has_key-take i n d)

pub take-HasDistinctKeys : (n : ℕ) (d : Dict ℕ ℕ) → HasDistinctKeys d → HasDistinctKeys (take n d)
take-HasDistinctKeys zero d u = tt
take-HasDistinctKeys (suc n) [] u = tt
take-HasDistinctKeys (suc n) ((k, v) ∷ d) u = (has_key-take k n d u.0, take-HasDistinctKeys n d u.1)

pub lookup_of_take : (i v n : ℕ) (d : Dict ℕ ℕ) → lookup i (take n d) ≡ some v → lookup i d ≡ some v
lookup_of_take i v zero d h = absurd (ground arith)
lookup_of_take i v (suc n) [] h = h
lookup_of_take i v (suc n) ((k, w) ∷ d) h = ground (arith, lookup_of_take i v n d)

lookup_bound : (i v m : ℕ) (d : Dict ℕ ℕ) → All (λ e. m ≤ e.1) d → lookup i d ≡ some v → m ≤ v
lookup_bound i v m [] a h = absurd (ground arith)
lookup_bound i v m ((k, w) ∷ d) a h = ground (arith, lookup_bound i v m d a.1)

-- What a cut of a sorted list leaves out is no smaller than what it keeps, and the cut is full.
pub take_complete :
    (i v n : ℕ) (d : Dict ℕ ℕ)
    → IsSortedBy by_value d
    → lookup i d ≡ some v
    → (lookup i (take n d) ≡ some v) ⊎ ((length (take n d) ≡ n) × All (λ e. e.1 ≤ v) (take n d))
take_complete i v zero d s h = inr (refl, tt)
take_complete i v (suc n) [] s h = absurd (ground arith)
take_complete i v (suc n) ((k, w) ∷ d) s h =
    ground (arith, take_complete i v n d s.1, lookup_bound i v w d s.0)

pub take-IsSortedBy :
    (n : ℕ) (d : Dict ℕ ℕ) → IsSortedBy by_value d → IsSortedBy by_value (take n d)
take-IsSortedBy zero d s = tt
take-IsSortedBy (suc n) [] s = tt
take-IsSortedBy (suc n) (e ∷ d) s = (All-take e.1 n d s.0, take-IsSortedBy n d s.1)
  where
    All-take : (m n : ℕ) (d : Dict ℕ ℕ) → All (λ e. m ≤ e.1) d → All (λ e. m ≤ e.1) (take n d)
    All-take m zero d a = tt
    All-take m (suc n) [] a = tt
    All-take m (suc n) (e ∷ d) a = (a.0, All-take m n d a.1)
