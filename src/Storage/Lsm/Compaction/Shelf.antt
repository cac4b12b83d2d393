-- ===== src/Storage/Lsm/Compaction/Shelf.antt =====
-- The list of segments of an engine: its order, and what it stores when a segment is put behind it or
-- takes its place.
use distributed_vector_db.Prelude.{
  ℕ, ◌<◌, ◌≤◌, ◌≡◌, refl, arith, List, [], ◌∷◌, ◌++◌, false, All, max_of, String, ◌∙◌,
}
use distributed_vector_db.Prelude.Eq.{nat_eq, string_eq, beq}
use distributed_vector_db.Prelude.Dict.{
  Dict, remove, keys, values, lookup, HasDistinctKeys, lookup_of_not-has_key,
}
use distributed_vector_db.Prelude.Pairwise.{Pairwise, All-map}
use distributed_vector_db.Prelude.Sort.{sort_by, insert_by}
use distributed_vector_db.Arrays.{IdPattern, Vector}
use distributed_vector_db.Index.Segment.{Segment, Storage, load_arrays}
use distributed_vector_db.Index.Segment.Stored.{Loads, load_arrays-remove}
use distributed_vector_db.Storage.MemTable.Laws.{last_vector}
use distributed_vector_db.Storage.Lsm.State.{segment_lt}
use distributed_vector_db.Storage.Lsm.Merging.{remove_dirs}
use distributed_vector_db.Storage.Lsm.View.{stored_vector, vector_in, newest, newest_assoc}

module _ {Index : Type 0} where
  -- No segment stands behind one that it should stand in front of.
  abbrev pub IsOrdered : List (Segment Index) → Type 0
  IsOrdered [] = Unit
  IsOrdered (s ∷ segments) = All (λ t. segment_lt t s ≡ false) segments × IsOrdered segments

  insert_by_first :
      (s : Segment Index) (segments : List (Segment Index))
      → All (λ t. segment_lt t s ≡ false) segments
      → insert_by segment_lt s segments ≡ s ∷ segments
  insert_by_first s [] a = refl
  insert_by_first s (t ∷ segments) a = ground (arith, a.0)

  -- Sorting changes nothing in an ordered list.
  pub sort_by-IsOrdered :
      (segments : List (Segment Index))
      → IsOrdered segments
      → sort_by segment_lt segments ≡ segments
  sort_by-IsOrdered [] o = refl
  sort_by-IsOrdered (s ∷ segments) o =
      rw (sort_by-IsOrdered segments o.1) (insert_by_first s segments o.0)

  -- Every snapshot is at most this one.
  abbrev pub AllAtMost : ℕ → List (Segment Index) → Type 0
  AllAtMost n segments = All (λ s. s.snapshot_id ≤ n) segments

  pub AllAtMost-le :
      (m n : ℕ) (segments : List (Segment Index))
      → m ≤ n
      → AllAtMost m segments
      → AllAtMost n segments
  AllAtMost-le m n [] h a = tt
  AllAtMost-le m n (s ∷ segments) h a = (omega (arith, a.0), AllAtMost-le m n segments h a.1)

  pub AllAtMost-max :
      (n : ℕ) (segments : List (Segment Index))
      → AllAtMost n segments
      → max_of (λ s. s.snapshot_id) 0 segments ≤ n
  AllAtMost-max n [] a = omega arith
  AllAtMost-max n (s ∷ segments) a = omega (arith, a.0, AllAtMost-max n segments a.1)

  -- Snapshots strictly ascend.
  abbrev pub IsAscending : List (Segment Index) → Type 0
  IsAscending segments = Pairwise (λ s t. s.snapshot_id < t.snapshot_id) segments

  -- No two segments lie at one path.
  abbrev pub IsSpread : List (Segment Index) → Type 0
  IsSpread segments = Pairwise (λ s t. beq s.path t.path ≡ false) segments

  pub IsAscending-IsOrdered :
      (segments : List (Segment Index)) → IsAscending segments → IsOrdered segments
  IsAscending-IsOrdered [] a = tt
  IsAscending-IsOrdered (s ∷ segments) a = (
    All-map (λ t. s.snapshot_id < t.snapshot_id) (λ t. segment_lt t s ≡ false) segments
        (λ t h. ground (arith, h)) a.0,
    IsAscending-IsOrdered segments a.1,
  )

  pub sort_by-IsAscending :
      (segments : List (Segment Index))
      → IsAscending segments
      → sort_by segment_lt segments ≡ segments
  sort_by-IsAscending segments a = sort_by-IsOrdered segments (IsAscending-IsOrdered segments a)

  -- The segments behind the others are asked first.
  pub stored_vector-append :
      (i : IdPattern) (older newer : List (Segment Index)) (disk : Storage)
      → stored_vector i (older ++ newer) disk
        ≡ newest (stored_vector i newer disk) (stored_vector i older disk)
  stored_vector-append i [] newer disk = ground arith
  stored_vector-append i (t ∷ older) newer disk = ground (
    arith,
    stored_vector-append i older newer disk,
    newest_assoc (stored_vector i newer disk) (stored_vector i older disk)
        (vector_in i (load_arrays t disk)),
  )

  -- Two disks hold the same arrays of the segments.
  abbrev pub SameArrays : List (Segment Index) → Storage → Storage → Type 0
  SameArrays segments disk disk' = All (λ s. load_arrays s disk' ≡ load_arrays s disk) segments

  pub stored_vector-same :
      (i : IdPattern) (segments : List (Segment Index)) (disk disk' : Storage)
      → SameArrays segments disk disk'
      → stored_vector i segments disk' ≡ stored_vector i segments disk
  stored_vector-same i [] disk disk' a = refl
  stored_vector-same i (s ∷ segments) disk disk' a =
      rw (a.0, stored_vector-same i segments disk disk' a.1) refl

  pub Loads-same :
      (segments : List (Segment Index)) (disk disk' : Storage)
      → SameArrays segments disk disk'
      → All (Loads disk) segments
      → All (Loads disk') segments
  Loads-same [] disk disk' a l = tt
  Loads-same (s ∷ segments) disk disk' a l =
      ((l.0.0, l.0.1, ground (arith, a.0, l.0.2), l.0.3), Loads-same segments disk disk' a.1 l.1)

  -- No segment of the list lies at the path.
  abbrev pub AllElsewhere : String → List (Segment Index) → Type 0
  AllElsewhere path segments = All (λ s. beq s.path path ≡ false) segments

  pub AllElsewhere-sym :
      (path : String) (segments : List (Segment Index))
      → AllElsewhere path segments
      → All (λ s. beq path s.path ≡ false) segments
  AllElsewhere-sym path segments a =
      All-map (λ s. beq s.path path ≡ false) (λ s. beq path s.path ≡ false) segments
        (λ s h. ground (arith, h, string_eq.beq_iff s.path path, string_eq.beq_iff path s.path)) a

  pub load_arrays-remove_dirs :
      (s : Segment Index) (segments : List (Segment Index)) (disk : Storage)
      → AllElsewhere s.path segments
      → load_arrays s (remove_dirs segments disk) ≡ load_arrays s disk
  load_arrays-remove_dirs s [] disk a = refl
  load_arrays-remove_dirs s (t ∷ segments) disk a =
      load_arrays-remove_dirs s segments (remove t.path disk) a.1
      ∙ load_arrays-remove s t.path disk
          (ground (arith, a.0, string_eq.beq_iff s.path t.path, string_eq.beq_iff t.path s.path))

-- The arrays of rows with distinct ids give an id the vector of its row.
pub last_vector-rows :
    (i : IdPattern) (rows : Dict IdPattern Vector)
    → HasDistinctKeys rows
    → last_vector i (keys rows) (values rows) ≡ lookup i rows
last_vector-rows i [] u = refl
last_vector-rows i ((j, v) ∷ rows) u =
    ground
      (arith, last_vector-rows i rows u.1, lookup_of_not-has_key j rows u.0, nat_eq.beq_iff i j)
