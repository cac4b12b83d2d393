-- ===== src/Prelude/SortedDict.antt =====
-- A dictionary that is sorted or filtered by its items says of a key what it said before.
use mathlib.Core.Path.{◌≡◌, refl}
use mathlib.Core.Bool.{Bool, true, false}
use mathlib.Core.List.{[], ◌∷◌}
use mathlib.Core.Option.{Option, none, some}
use native.Mathlib.Omega.{arith}
use distributed_vector_db.Prelude.Tests.{if◌then◌else◌}
use distributed_vector_db.Prelude.Lists.{keep, length}
use distributed_vector_db.Prelude.Eq.{Eq}
use distributed_vector_db.Prelude.Dict.{Dict, keys, values, lookup, has_key, HasDistinctKeys}
use distributed_vector_db.Prelude.Set.{contains}
use distributed_vector_db.Prelude.Sort.{insert_by, sort_by}

module _ {K V : Type 0} ⦃e : Eq K⦄ (lt : K × V → K × V → Bool) where
  has_key-insert_by :
      (i k : K) (v : V) (d : Dict K V)
      → has_key i (insert_by lt (k, v) d) ≡ (if e.beq i k then true else has_key i d)
  has_key-insert_by i k v [] = refl
  has_key-insert_by i k v ((j, w) ∷ d) = ground (arith, has_key-insert_by i k v d)

  lookup-insert_by :
      (i k : K) (v : V) (d : Dict K V)
      → has_key k d ≡ false
      → lookup i (insert_by lt (k, v) d) ≡ (if e.beq i k then some v else lookup i d)
  lookup-insert_by i k v [] h = refl
  lookup-insert_by i k v ((j, w) ∷ d) h =
      ground (arith, lookup-insert_by i k v d, e.beq_iff i k, e.beq_iff i j, e.beq_iff k j)

  insert_by-HasDistinctKeys :
      (k : K) (v : V) (d : Dict K V)
      → has_key k d ≡ false
      → HasDistinctKeys d
      → HasDistinctKeys (insert_by lt (k, v) d)
  insert_by-HasDistinctKeys k v [] h u = (refl, tt)
  insert_by-HasDistinctKeys k v ((j, w) ∷ d) h u = ground (
    arith,
    insert_by-HasDistinctKeys k v d,
    has_key-insert_by j k v d,
    e.beq_iff j k,
    e.beq_iff k j,
  )

  has_key-sort_by : (i : K) (d : Dict K V) → has_key i (sort_by lt d) ≡ has_key i d
  has_key-sort_by i [] = refl
  has_key-sort_by i ((k, v) ∷ d) =
      ground (arith, has_key-insert_by i k v (sort_by lt d), has_key-sort_by i d)

  pub sort_by-HasDistinctKeys : (d : Dict K V) → HasDistinctKeys d → HasDistinctKeys (sort_by lt d)
  sort_by-HasDistinctKeys [] u = tt
  sort_by-HasDistinctKeys ((k, v) ∷ d) u =
      insert_by-HasDistinctKeys k v (sort_by lt d) (ground (arith, has_key-sort_by k d))
        (sort_by-HasDistinctKeys d u.1)

  pub lookup-sort_by :
      (i : K) (d : Dict K V) → HasDistinctKeys d → lookup i (sort_by lt d) ≡ lookup i d
  lookup-sort_by i [] u = refl
  lookup-sort_by i ((k, v) ∷ d) u =
      ground
        (arith, lookup-insert_by i k v (sort_by lt d), has_key-sort_by k d, lookup-sort_by i d u.1)

module _ {K V : Type 0} ⦃e : Eq K⦄ (f : K → Bool) where
  -- A filter by the key.
  pub lookup-keep :
      (i : K) (d : Dict K V) → lookup i (keep (λ x. f x.0) d) ≡ (if f i then lookup i d else none)
  lookup-keep i [] = ground arith
  lookup-keep i ((k, v) ∷ d) = ground (arith, lookup-keep i d, e.beq_iff i k, same i k)
    where
      same : (i k : K) → i ≡ k → f i ≡ f k
      same i k p = rw p

  has_key-keep :
      (i : K) (d : Dict K V) → has_key i d ≡ false → has_key i (keep (λ x. f x.0) d) ≡ false
  has_key-keep i [] h = refl
  has_key-keep i ((k, v) ∷ d) h = ground (arith, has_key-keep i d)

  pub keep-HasDistinctKeys :
      (d : Dict K V) → HasDistinctKeys d → HasDistinctKeys (keep (λ x. f x.0) d)
  keep-HasDistinctKeys [] u = tt
  keep-HasDistinctKeys ((k, v) ∷ d) u =
      ground (arith, keep-HasDistinctKeys d u.1, has_key-keep k d u.0)

abbrev pub is_held : {V : Type 0} → Option V → Bool
is_held none = false
is_held (some v) = true

pub contains-keys :
    {K V : Type 0} ⦃e : Eq K⦄ (i : K) (d : Dict K V) → contains i (keys d) ≡ is_held (lookup i d)
contains-keys ⦃e⦄ i [] = refl
contains-keys ⦃e⦄ i ((k, v) ∷ d) = ground (arith, contains-keys i d)

-- As many keys as values.
pub length-keys-values : {K V : Type 0} (d : Dict K V) → length (keys d) ≡ length (values d)
length-keys-values [] = refl
length-keys-values ((k, v) ∷ d) = omega (arith, length-keys-values d)
