-- ===== src/Storage/Lsm/Compaction.antt =====
-- vecscaledb/storage/lsm.py: `flush`, `merge` and `stop` of `LSMEngine`. `uuid` gives the uuids in
-- the order in which they are drawn.
pub mod Shelf
pub mod Settled
pub mod Keeps
pub mod Gathering
pub mod MergeSteps
pub mod MergeView
pub mod MergeRefinement
pub mod Flushing
pub mod FlushSteps
pub mod FlushRefinement
use distributed_vector_db.Prelude.{
  ℕ, ◌+◌, Option, none, some, List, [], ◌∷◌, false, ◌||◌, ◌==◌, ltb, leb, is_empty, length,
  if◌then◌else◌, ◌++◌, String,
}
use distributed_vector_db.Prelude.Eq.{nat_eq}
use distributed_vector_db.Prelude.Dict.{keys, values}
use distributed_vector_db.Prelude.Set.{union, difference}
use distributed_vector_db.Prelude.Sort.{sort_by}
use distributed_vector_db.Arrays.{IdPattern, NdArray}
use distributed_vector_db.Index.Faiss.{Faiss}
use distributed_vector_db.Index.Segment
use distributed_vector_db.Index.Segment.{Segment, Storage}
use distributed_vector_db.Storage.Wal
use distributed_vector_db.Storage.Wal.Words.{Bytes}
use distributed_vector_db.Storage.MemTable
use distributed_vector_db.Storage.MemTable.{MemTable}
use distributed_vector_db.Storage.MemTable.EntryMap.{Rows}
use distributed_vector_db.Storage.Lsm.State.{
  Engine, Op, ensure_started, gets, modify, pure, on_wal, ◌>>=◌, ◌>>◌, segment_lt,
}
use distributed_vector_db.Storage.Lsm.Files.{persist_tombstones}
use distributed_vector_db.Storage.Lsm.Merging.{Merged, plan_merge, remove_dirs}

abbrev pub matrix_of : ℕ → Rows → NdArray
matrix_of dim rows = record { ndim = 2; width = dim; rows = values rows }

module _ {Index : Type 0} where
  -- The end of a merge that leaves nothing.
  abbrev pub drop_merged : Merged Index → Engine Index → Engine Index
  drop_merged m e =
      let e' : Engine Index =
        persist_tombstones
          (record e { segments = m.remaining; tombstones = difference e.tombstones m.cleaned }) in
      record e' { disk = remove_dirs m.to_merge e'.disk }

  -- The end of a merge that has written a segment.
  abbrev pub install_merged : Merged Index → Segment Index → Engine Index → Engine Index
  install_merged m merged e =
      let e' : Engine Index = persist_tombstones (record e {
        segments = sort_by segment_lt (merged ∷ m.remaining);
        tombstones = difference e.tombstones m.cleaned;
      }) in
      record e' { disk = remove_dirs m.to_merge e'.disk }

  -- `mem_deletes`: the deletions of the MemTable are kept as tombstones.
  abbrev pub capture_deletes : Engine Index → Engine Index
  capture_deletes e =
      let mem_deletes = MemTable.visible_deleted_ids none e.memtable in
      if is_empty mem_deletes
      then e
      else persist_tombstones (record e { tombstones = union mem_deletes e.tombstones })

  abbrev pub clear_memtable : Engine Index → Engine Index
  clear_memtable e = record e { memtable = MemTable.clear e.memtable }

  abbrev pub add_segment : Segment Index → Engine Index → Engine Index
  add_segment s e = record e { segments = sort_by segment_lt (e.segments ++ (s ∷ [])) }

module _ {Index : Type 0} (faiss : Faiss Index) (uuid : ℕ → String) where
  -- `Segment.create` with the next uuid.
  abbrev pub create_segment : ℕ → NdArray → List IdPattern → Op Index (Segment Index)
  create_segment snapshot_id vectors ids e =
      let c = e.config in
      let (o, disk) =
        Segment.create faiss c.windows c.shard_id snapshot_id vectors ids c.dim c.nlist
          c.segments_path (uuid e.drawn) e.disk in
      (o, record e { disk = disk; drawn = e.drawn + 1 })

  abbrev pub merge_planned : Merged Index → Op Index (Option (Segment Index))
  merge_planned m = if is_empty m.rows then (do modify (drop_merged m); pure none) else (do
    merged ← λ e. create_segment m.snapshot_id (matrix_of e.config.dim m.rows) (keys m.rows) e
    modify (install_merged m merged)
    pure (some merged))

  unfoldable pub merge : Op Index (Option (Segment Index))
  unfolding plan_merge
  merge = do
    ensure_started
    few ← gets (λ e. ltb (length e.segments) e.config.merge_threshold)
    if few then pure none else do
      planned ← λ e. (plan_merge e.config.merge_threshold e.segments e.tombstones e.disk, e)
      merge_planned planned

  module _ (crc32 : Bytes → ℕ) where
    -- `flush`, from where there is something to write.
    abbrev pub flush_rows : ℕ → Rows → Op Index (Option (Segment Index))
    flush_rows snapshot_id rows = do
      modify clear_memtable
      segment ← λ e. create_segment snapshot_id (matrix_of e.config.dim rows) (keys rows) e
      modify (add_segment segment)
      on_wal (Wal.truncate_before crc32 (snapshot_id + 1))
      should_merge ← gets (λ e. leb e.config.merge_threshold (length e.segments))
      _ ← (if should_merge then merge else pure none)
      pure (some segment)

    unfoldable pub flush : Op Index (Option (Segment Index))
    flush = do
      ensure_started
      modify capture_deletes
      rows ← gets (λ e. MemTable.to_arrays none e.memtable)
      snapshot_id ← gets (λ e. MemTable.max_lsn e.memtable)
      if is_empty rows || snapshot_id == 0
          then (do modify clear_memtable; pure none)
          else do flush_rows snapshot_id rows

    unfoldable pub stop : Op Index (Unit {0})
    unfolding flush
    stop = do _ ← flush; modify (λ e. record e { wal = Wal.close e.wal; started = false })
