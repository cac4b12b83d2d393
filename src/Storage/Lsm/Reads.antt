-- ===== src/Storage/Lsm/Reads.antt =====
-- vecscaledb/storage/lsm.py: `search`, `health` and `ntotal` of `LSMEngine`.
pub mod Newest
pub mod Exactness
pub mod SearchRun
pub mod SearchRefinement
pub mod Counting
use distributed_vector_db.Prelude.{ℕ, Option, none, some, List, [], ◌∷◌, not, ◌==◌, length}
use distributed_vector_db.Prelude.Eq.{nat_eq}
use distributed_vector_db.Prelude.Dict.{Dict, keys}
use distributed_vector_db.Prelude.Set.{union, difference}
use distributed_vector_db.Prelude.Outcome.{Outcome, ok, raise, raise_if, value_error}
use distributed_vector_db.Arrays.{IdPattern, Vector, Distance, Hit}
use distributed_vector_db.Index.Faiss.{Faiss}
use distributed_vector_db.Index.Segment
use distributed_vector_db.Index.Segment.{Segment, Storage}
use distributed_vector_db.Storage.Merge.{merge_results}
use distributed_vector_db.Storage.MemTable
use distributed_vector_db.Storage.MemTable.{MemTable}
use distributed_vector_db.Storage.MemTable.EntryMap.{Rows}
use distributed_vector_db.Storage.Snapshot
use distributed_vector_db.Storage.Lsm.State.{
  Engine, Op, ensure_started, gets, modify, lift, ◌>>=◌, ◌>>◌,
}
use distributed_vector_db.Storage.Lsm.Visibility.{
  Hidden, latest_segment_snapshot_by_id, search_segments, with_memtable,
}

-- The dictionary that `health` returns.
pub record Health : Type 0 where
  pub ntotal : ℕ
  pub segments : ℕ
  pub memtable_size : ℕ
  pub wal_lsn : ℕ
  pub active_snapshots : ℕ

-- The `try` block.
abbrev pub merged_answer :
    Outcome (List (List Hit))
    → List Hit
    → ℕ
    → List IdPattern
    → Outcome (List IdPattern × List Distance)
merged_answer (raise x) mem top_k deleted = raise x
merged_answer (ok results) mem top_k deleted =
    ok (merge_results (with_memtable results mem) top_k deleted)

module _ {Index : Type 0} where
  -- `snapshots.create_snapshot(wal.last_lsn)`, unless the caller names a snapshot.
  abbrev pub take_snapshot : Option ℕ → Op Index ℕ
  take_snapshot (some s) e = (ok s, e)
  take_snapshot none e =
      let (s, m) = Snapshot.create_snapshot e.wal.last_lsn e.snapshots in
      (ok s, record e { snapshots = m })

  abbrev pub drop_snapshot : Option ℕ → ℕ → Engine Index → Engine Index
  drop_snapshot (some _) s e = e
  drop_snapshot none s e = record e { snapshots = Snapshot.release_snapshot s e.snapshots }

  abbrev pub visible : ℕ → Engine Index → List (Segment Index)
  visible snapshot_id e = Snapshot.visible_segments (λ s. s.snapshot_id) snapshot_id e.segments

  abbrev pub hidden_at : ℕ → Engine Index → Dict IdPattern ℕ → Hidden
  hidden_at snapshot_id e latest = record {
    deleted_ids = union (MemTable.visible_deleted_ids (some snapshot_id) e.memtable) e.tombstones;
    visible_mem_ids = keys (MemTable.to_arrays (some snapshot_id) e.memtable);
    latest = latest;
  }

  -- `np.load(ids.npy)` of every segment.
  unfoldable pub stored_ids : List (Segment Index) → Storage → Outcome (List IdPattern)
  stored_ids [] disk = ok []
  stored_ids (s ∷ segments) disk = elim (Segment.file (Segment.read_dir s.path disk).ids_file) [
    | raise x ↦ raise x
    | ok ids ↦ elim (stored_ids segments disk) [ raise x ↦ raise x | ok rest ↦ ok (union ids rest) ]
  ]

  -- `ntotal`: the ids of the segments and the MemTable that are not deleted.
  unfoldable pub ntotal : Op Index ℕ
  unfolding stored_ids
  ntotal = do
    segment_ids ← λ e. (stored_ids e.segments e.disk, e)
    gets λ e. length (
        difference (union (keys (MemTable.to_arrays none e.memtable)) segment_ids)
          (union (MemTable.visible_deleted_ids none e.memtable) e.tombstones))

  unfoldable pub health : Op Index Health
  unfolding ntotal
  health = do
    n ← ntotal
    gets λ e. record {
      ntotal = n;
      segments = length e.segments;
      memtable_size = MemTable.ntotal e.memtable;
      wal_lsn = e.wal.last_lsn;
      active_snapshots = Snapshot.active_count e.snapshots;
    }

module _ {Index : Type 0} (faiss : Faiss Index) where
  abbrev pub flat_search : ℕ → Rows → Vector → ℕ → List Hit
  flat_search dim rows query k = faiss.search query k (faiss.add_with_ids rows (faiss.flat dim))

  abbrev pub search_hidden :
      Vector → ℕ → ℕ → ℕ → Hidden → Engine Index → Outcome (List IdPattern × List Distance)
  search_hidden query top_k nprobe snapshot_id h e =
      merged_answer (search_segments faiss query top_k nprobe h (visible snapshot_id e))
        (MemTable.search flat_search query top_k (some snapshot_id) e.memtable) top_k h.deleted_ids

  -- `finally` gives a snapshot back that the search has taken.
  unfoldable pub search : Vector → ℕ → ℕ → Option ℕ → Op Index (List IdPattern × List Distance)
  unfolding latest_segment_snapshot_by_id search_segments merge_results
  search query top_k nprobe wanted = do
    ensure_started
    λ e. (raise_if (not (length query == e.config.dim)) value_error, e)
    snapshot_id ← take_snapshot wanted
    latest ← λ e. (latest_segment_snapshot_by_id (visible snapshot_id e) e.disk, e)
    answer ←
        gets (λ e. search_hidden query top_k nprobe snapshot_id (hidden_at snapshot_id e latest) e)
    modify (drop_snapshot wanted snapshot_id)
    lift answer
