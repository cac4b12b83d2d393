-- ===== src/Storage/Merge/Best.antt =====
-- The accumulator of `merge_results` against a direct definition of the smallest distance of an id.
use distributed_vector_db.Prelude.{
  ◌≡◌, refl, Option, none, some, List, [], ◌∷◌, ◌++◌, ==_iff, ◌==◌, if◌then◌else◌, arith, min,
}
use distributed_vector_db.Prelude.Eq.{nat_eq}
use distributed_vector_db.Prelude.Dict.{
  Dict, lookup, lookup-insert, HasDistinctKeys, insert-HasDistinctKeys,
}
use distributed_vector_db.Prelude.Set.{contains}
use distributed_vector_db.Arrays.{IdPattern, Distance, Hit}
use distributed_vector_db.Storage.Merge.{see, see_hits, see_results}

-- The smaller of two distances, either of which may be missing.
abbrev pub nearer : Option Distance → Option Distance → Option Distance
nearer none b = b
nearer (some a) none = some a
nearer (some a) (some b) = some (min a b)

-- The smallest distance that the hits give to an id.
abbrev pub best : IdPattern → List Hit → Option Distance
best i [] = none
best i ((d, j) ∷ hits) = if i == j then nearer (some d) (best i hits) else best i hits

abbrev pub all_hits : List (List Hit) → List Hit
all_hits [] = []
all_hits (r ∷ rs) = r ++ all_hits rs

pub best-append :
    (i : IdPattern) (xs ys : List Hit) → best i (xs ++ ys) ≡ nearer (best i xs) (best i ys)
best-append i [] ys = refl
best-append i ((d, j) ∷ xs) ys = ground (arith, best-append i xs ys)

lookup-see :
    (deleted : List IdPattern) (seen : Dict IdPattern Distance) (d : Distance) (i j : IdPattern)
    → lookup i (see deleted seen (d, j)) ≡ (
        if contains i deleted
        then lookup i seen
        else if i == j
        then nearer (lookup i seen) (some d)
        else lookup i seen)
lookup-see deleted seen d i j = ground (arith, ==_iff i j, lookup-insert i j d seen)

pub lookup-see_hits :
    (deleted : List IdPattern) (seen : Dict IdPattern Distance) (hits : List Hit) (i : IdPattern)
    → lookup i (see_hits deleted seen hits)
      ≡ (if contains i deleted then lookup i seen else nearer (lookup i seen) (best i hits))
unfolding see_hits
lookup-see_hits deleted seen [] i = ground arith
lookup-see_hits deleted seen ((d, j) ∷ hits) i =
    ground (
      arith,
      lookup-see deleted seen d i j,
      lookup-see_hits deleted (see deleted seen (d, j)) hits i,
    )

pub lookup-see_results :
    (deleted : List IdPattern) (seen : Dict IdPattern Distance) (results : List (List Hit))
    (i : IdPattern)
    → lookup i (see_results deleted seen results) ≡ (
        if contains i deleted
        then lookup i seen
        else nearer (lookup i seen) (best i (all_hits results)))
unfolding see_results
lookup-see_results deleted seen [] i = ground arith
lookup-see_results deleted seen (r ∷ results) i = ground (
  arith,
  lookup-see_hits deleted seen r i,
  lookup-see_results deleted (see_hits deleted seen r) results i,
  best-append i r (all_hits results),
)

pub see_hits-HasDistinctKeys :
    (deleted : List IdPattern) (seen : Dict IdPattern Distance) (hits : List Hit)
    → HasDistinctKeys seen
    → HasDistinctKeys (see_hits deleted seen hits)
unfolding see_hits
see_hits-HasDistinctKeys deleted seen [] h = h
see_hits-HasDistinctKeys deleted seen ((d, j) ∷ hits) h =
    see_hits-HasDistinctKeys deleted (see deleted seen (d, j)) hits
      (ground (arith, insert-HasDistinctKeys j d seen h))

pub see_results-HasDistinctKeys :
    (deleted : List IdPattern) (seen : Dict IdPattern Distance) (results : List (List Hit))
    → HasDistinctKeys seen
    → HasDistinctKeys (see_results deleted seen results)
unfolding see_results
see_results-HasDistinctKeys deleted seen [] h = h
see_results-HasDistinctKeys deleted seen (r ∷ results) h =
    see_results-HasDistinctKeys deleted (see_hits deleted seen r) results
      (see_hits-HasDistinctKeys deleted seen r h)
