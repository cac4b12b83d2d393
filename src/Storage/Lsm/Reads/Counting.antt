-- ===== src/Storage/Lsm/Reads/Counting.antt =====
-- vecscaledb/storage/lsm.py: the `ntotal` of an engine counts the ids that it holds.
use distributed_vector_db.Prelude.{◌≡◌, refl, arith, none, List, [], ◌∷◌, not, All, length}
use distributed_vector_db.Prelude.Eq.{nat_eq}
use distributed_vector_db.Prelude.Dict.{keys}
use distributed_vector_db.Prelude.SortedDict.{is_held, contains-keys}
use distributed_vector_db.Prelude.Set.{
  contains, union, difference, contains-union, contains-difference, IsDistinct, union-IsDistinct,
  keep-IsDistinct,
}
use distributed_vector_db.Prelude.Outcome.{ok}
use distributed_vector_db.Arrays.{IdPattern, Vector}
use distributed_vector_db.Index.Segment
use distributed_vector_db.Index.Segment.{Segment, Storage, load_arrays}
use distributed_vector_db.Index.Segment.Stored.{Loads}
use distributed_vector_db.Storage.MemTable
use distributed_vector_db.Storage.MemTable.Laws.{last_vector}
use distributed_vector_db.Storage.Lsm.State.{Engine}
use distributed_vector_db.Storage.Lsm.View.{view, stored_vector}
use distributed_vector_db.Storage.Lsm.Reads.{stored_ids, ntotal}

contains-paired :
    (i : IdPattern) (ids : List IdPattern) (vectors : List Vector)
    → length ids ≡ length vectors
    → contains i ids ≡ is_held (last_vector i ids vectors)
contains-paired i [] vectors h = refl
contains-paired i (j ∷ ids) [] h = absurd (omega (arith, h))
contains-paired i (j ∷ ids) (v ∷ vectors) h =
    ground (arith, contains-paired i ids vectors (omega (arith, h)))

ids_file_lem :
    {Index : Type 0} (s : Segment Index) (disk : Storage) (ids : List IdPattern)
    (vectors : List Vector)
    → load_arrays s disk ≡ ok (ids, vectors)
    → Segment.file (Segment.read_dir s.path disk).ids_file ≡ ok ids
unfolding load_arrays
ids_file_lem s disk ids vectors h = ground (arith, h)

-- The ids of segments that are on disk are found, each once.
stored_ids_total :
    {Index : Type 0} (segments : List (Segment Index)) (disk : Storage)
    → All (Loads disk) segments
    → (ids : List IdPattern) × (stored_ids segments disk ≡ ok ids)
      × IsDistinct ids
      × ((i : IdPattern) → contains i ids ≡ is_held (stored_vector i segments disk))
unfolding stored_ids
stored_ids_total [] disk l = ([], refl, tt, λ i. refl)
stored_ids_total (s ∷ segments) disk l =
    let (ids, vectors, arrays, paired) = l.0 in
    let (rest, done, distinct, says) = stored_ids_total segments disk l.1 in
    (
      union ids rest,
      ground (arith, done, ids_file_lem s disk ids vectors arrays),
      union-IsDistinct ids rest distinct,
      λ i.
          ground (
            arith,
            arrays,
            says i,
            contains-union i ids rest,
            contains-paired i ids vectors paired,
          ),
    )

module _ {Index : Type 0} where
  -- Where every segment's arrays are on disk, a vector for each id, `ntotal` returns the number of the
  -- ids that the engine holds a vector for, and changes nothing.
  pub ntotal-counts :
      (e : Engine Index)
      → All (Loads e.disk) e.segments
      → (ids : List IdPattern) × (ntotal e ≡ (ok (length ids), e))
        × IsDistinct ids
        × ((i : IdPattern) → contains i ids ≡ is_held (view e i))
  unfolding ntotal
  ntotal-counts e l =
      let (stored, done, distinct, says) = stored_ids_total e.segments e.disk l in
      let rows = MemTable.to_arrays none e.memtable in
      let deleted = union (MemTable.visible_deleted_ids none e.memtable) e.tombstones in
      (
        difference (union (keys rows) stored) deleted,
        ground (arith, done),
        keep-IsDistinct (λ a. not (contains a deleted)) (union (keys rows) stored)
            (union-IsDistinct (keys rows) stored distinct),
        λ i. ground (
          arith,
          says i,
          contains-difference i (union (keys rows) stored) deleted,
          contains-union i (keys rows) stored,
          contains-keys i rows,
          contains-union i (MemTable.visible_deleted_ids none e.memtable) e.tombstones,
        ),
      )
