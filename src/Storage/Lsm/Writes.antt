-- ===== src/Storage/Lsm/Writes.antt =====
-- vecscaledb/storage/lsm.py: `insert` and `delete` of `LSMEngine`.
pub mod Refinement
pub mod Settling
use distributed_vector_db.Prelude.{
  ℕ, ◌+◌, Option, none, some, List, [], ◌∷◌, Bool, true, false, not, ◌||◌, ◌==◌, ltb, leb, is_empty,
  length, max_of, if◌then◌else◌, map, replicate, ◌++◌, String,
}
use distributed_vector_db.Prelude.Eq.{nat_eq}
use distributed_vector_db.Prelude.Dict.{Dict, keys, values}
use distributed_vector_db.Prelude.Set.{union, difference, intersection}
use distributed_vector_db.Prelude.Sort.{sort_by}
use distributed_vector_db.Prelude.Outcome.{Outcome, ok, raise, raise_if, value_error}
use distributed_vector_db.Arrays.{IdPattern, Vector, Distance, Hit, NdArray, check_shape}
use distributed_vector_db.Index.Faiss.{Faiss}
use distributed_vector_db.Index.Segment
use distributed_vector_db.Index.Segment.{Segment, Storage}
use distributed_vector_db.Storage.Merge.{merge_results}
use distributed_vector_db.Storage.Wal
use distributed_vector_db.Storage.Wal.Words.{Bytes}
use distributed_vector_db.Storage.Wal.Frame.{WalRecord, op_insert, op_delete}
use distributed_vector_db.Storage.MemTable
use distributed_vector_db.Storage.MemTable.{MemTable}
use distributed_vector_db.Storage.MemTable.EntryMap.{Rows}
use distributed_vector_db.Storage.Snapshot
use distributed_vector_db.Storage.Lsm.State.{
  Config, Engine, Op, TombstoneFile, ensure_started, gets, modify, lift, pure, on_wal, ◌>>=◌, ◌>>◌,
  segment_lt,
}
use distributed_vector_db.Storage.Lsm.Files.{
  load_existing_segments, load_tombstones, persist_tombstones,
}
use distributed_vector_db.Storage.Lsm.Visibility.{
  Hidden, latest_segment_snapshot_by_id, search_segments, with_memtable,
}
use distributed_vector_db.Storage.Lsm.Compaction.{flush}
use distributed_vector_db.Storage.Lsm.Merging.{Merged, plan_merge, remove_dirs}

-- `np.zeros((len(ids), dim))`
abbrev pub zeros : List IdPattern → ℕ → NdArray
zeros ids dim = record { ndim = 2; width = dim; rows = map (λ _. replicate dim 0) ids }

module _ {Index : Type 0} where
  abbrev pub insert_memtable : List IdPattern → NdArray → ℕ → Op Index (Unit {0})
  insert_memtable ids vectors lsn e = elim (MemTable.insert ids vectors lsn e.memtable) [
    | raise x ↦ (raise x, e)
    | ok m ↦ (ok tt, record e { memtable = m })
  ]

  -- Tombstones of ids that are inserted again are cleared.
  abbrev pub clear_tombstones : List IdPattern → Engine Index → Engine Index
  clear_tombstones ids e =
      let removed = intersection e.tombstones ids in
      if is_empty removed
      then e
      else persist_tombstones (record e { tombstones = difference e.tombstones removed })

  abbrev pub bury : List IdPattern → ℕ → Engine Index → Engine Index
  bury ids lsn e = persist_tombstones (record e {
    memtable = MemTable.delete ids lsn e.memtable;
    tombstones = union ids e.tombstones;
  })

module _ {Index : Type 0} (crc32 : Bytes → ℕ) where
  -- The critical section of `insert`.
  unfoldable pub write : List IdPattern → NdArray → Op Index ℕ
  write ids vectors = do
    ensure_started
    λ e. (check_shape e.config.dim ids vectors, e)
    lsn ← on_wal (Wal.append crc32 op_insert ids vectors)
    insert_memtable ids vectors lsn
    modify (clear_tombstones ids)
    pure lsn

  unfoldable pub delete : List IdPattern → Op Index ℕ
  delete ids = do
    ensure_started
    lsn ← λ e. on_wal (Wal.append crc32 op_delete ids (zeros ids e.config.dim)) e
    modify (bury ids lsn)
    pure lsn

module _ {Index : Type 0} (faiss : Faiss Index) (uuid : ℕ → String) (crc32 : Bytes → ℕ) where
  -- The LSN, and whether a segment was flushed.
  unfoldable pub insert : List IdPattern → NdArray → Op Index (ℕ × Bool)
  unfolding write flush
  insert ids vectors = do
    lsn ← write crc32 ids vectors
    full ← gets (λ e. MemTable.should_flush e.memtable)
    if not full then pure (lsn, false) else do
      flushed ← flush faiss uuid crc32
      pure (lsn, elim flushed [ none ↦ false | some s ↦ true ])
