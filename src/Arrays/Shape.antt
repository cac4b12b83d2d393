-- ===== src/Arrays/Shape.antt =====
-- Shapes of arrays, and the check that every write path repeats.
use distributed_vector_db.Prelude.{
  ℕ, ◌+◌, ◌%◌, ◌^◌, ◌≡◌, List, All, length, Bool, not, ◌||◌, ◌==◌, leb, arith,
}
use distributed_vector_db.Prelude.Outcome.{Outcome, ok, raise_if, value_error, ◌>>◌}

abbrev pub IdPattern : Type 0
IdPattern = ℕ

abbrev pub Vector : Type 0
Vector = List ℕ

abbrev pub Distance : Type 0
Distance = ℕ

-- One entry of the parallel arrays `(distances, ids)` of a search.
abbrev pub Hit : Type 0
Hit = Distance × IdPattern

-- `rows` are the vectors along the first axis, `width` is `shape[1]`.
pub record NdArray : Type 0 where
  pub ndim : ℕ
  pub width : ℕ
  pub rows : List Vector

pub record IsMatrix (a : NdArray) : Type 0 where
  pub two : a.ndim ≡ 2
  pub even : All (λ v. length v ≡ a.width) a.rows

-- `id < 0` for an int64
abbrev pub is_negative : IdPattern → Bool
is_negative i = leb (2 ^ 63) i

-- The order of int64 values, on their patterns.
abbrev pub signed_key : IdPattern → ℕ
signed_key i = (i + 2 ^ 63) % 2 ^ 64

-- `if vectors.ndim != 2 or vectors.shape[1] != dim: raise`, `if len(ids) != len(vectors): raise`
abbrev pub check_shape : ℕ → List IdPattern → NdArray → Outcome (Unit {0})
check_shape dim ids vectors = do
  raise_if (not (vectors.ndim == 2) || not (vectors.width == dim)) value_error
  raise_if (not (length ids == length vectors.rows)) value_error

-- What a passed check says.
pub shape_ok :
    (dim : ℕ) (ids : List IdPattern) (vectors : NdArray)
    → check_shape dim ids vectors ≡ ok tt
    → (vectors.ndim ≡ 2) × (vectors.width ≡ dim) × (length ids ≡ length vectors.rows)
shape_ok dim ids vectors h = ground arith
