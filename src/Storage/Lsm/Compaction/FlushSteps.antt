-- ===== src/Storage/Lsm/Compaction/FlushSteps.antt =====
-- vecscaledb/storage/lsm.py: the ways through a flush.
use distributed_vector_db.Prelude.{
  ℕ, ◌+◌, ◌≤◌, ◌≡◌, sym, ap, ◌∙◌, arith, Option, none, some, List, [], ◌∷◌, ◌++◌, true, false, ◌&&◌,
  ◌==◌, leb, length, take, drop, max_of, is_empty, subst, String,
}
use distributed_vector_db.Prelude.Eq.{nat_eq, string_eq}
use distributed_vector_db.Prelude.Dict.{keys}
use distributed_vector_db.Prelude.SortedDict.{is_held}
use distributed_vector_db.Prelude.Pairwise.{take_all, drop_all, max_of_last}
use distributed_vector_db.Prelude.Set.{contains}
use distributed_vector_db.Prelude.Sort.{sort_by}
use distributed_vector_db.Prelude.Outcome.{ok}
use distributed_vector_db.Arrays.{IdPattern}
use distributed_vector_db.Index.Faiss.{Faiss}
use distributed_vector_db.Index.Segment.{Segment, Storage, make_segment_id, join_path}
use distributed_vector_db.Storage.Wal
use distributed_vector_db.Storage.Wal.{Wal}
use distributed_vector_db.Storage.Wal.Words.{Bytes}
use distributed_vector_db.Storage.Wal.Frame.{WalRecord}
use distributed_vector_db.Storage.MemTable
use distributed_vector_db.Storage.MemTable.{MemTable}
use distributed_vector_db.Storage.Lsm.State.{Engine, TombstoneFile, segment_lt}
use distributed_vector_db.Storage.Lsm.View.{stored_vector}
use distributed_vector_db.Storage.Lsm.Invariant.{Runs}
use distributed_vector_db.Storage.Lsm.Compaction.{
  matrix_of, capture_deletes, clear_memtable, create_segment, merge, flush,
}
use distributed_vector_db.Storage.Lsm.Compaction.Shelf.{AllElsewhere, AllAtMost}
use distributed_vector_db.Storage.Lsm.Compaction.Keeps.{Keeps, IsShorter}
use distributed_vector_db.Storage.Lsm.Compaction.Settled.{IsSettled}
use distributed_vector_db.Storage.Lsm.Compaction.MergeSteps.{segment_path, after_create}
use distributed_vector_db.Storage.Lsm.Compaction.MergeRefinement.{merge-refines}
use distributed_vector_db.Storage.Lsm.Compaction.Flushing.{captured}

module _ {Index : Type 0} (faiss : Faiss Index) (uuid : ℕ → String) (crc32 : Bytes → ℕ)
    (e : Engine Index) (tombstones : List IdPattern) (file : TombstoneFile) where
  pub flush_nothing :
      e.started ≡ true
      → capture_deletes e ≡ captured tombstones file e
      → is_empty (MemTable.to_arrays none e.memtable) ≡ true
      → flush faiss uuid crc32 e ≡ (ok none, clear_memtable (captured tombstones file e))
  unfolding flush
  flush_nothing up p h = ground (arith, up, p, h)

  -- The engine between the writing of the segment and the merge.
  abbrev pub joined : Segment Index → Storage → Wal → Engine Index
  joined s disk w = record (after_create (clear_memtable (captured tombstones file e)) disk) {
    segments = e.segments ++ (s ∷ []);
    wal = w;
  }

  abbrev pub Writes : Segment Index → Storage → Wal → Type 0
  Writes s disk w =
      (create_segment faiss uuid (MemTable.max_lsn e.memtable)
          (matrix_of e.config.dim (MemTable.to_arrays none e.memtable))
          (keys (MemTable.to_arrays none e.memtable)) (clear_memtable (captured tombstones file e))
        ≡ (ok s, after_create (clear_memtable (captured tombstones file e)) disk))
      × (Wal.truncate_before crc32 (MemTable.max_lsn e.memtable + 1) e.wal ≡ (ok tt, w))
      × (sort_by segment_lt (e.segments ++ (s ∷ [])) ≡ e.segments ++ (s ∷ []))

  pub flush_quietly :
      (s : Segment Index) (disk : Storage) (w : Wal)
      → e.started ≡ true
      → capture_deletes e ≡ captured tombstones file e
      → is_empty (MemTable.to_arrays none e.memtable) ≡ false
      → (MemTable.max_lsn e.memtable == 0) ≡ false
      → Writes s disk w
      → leb e.config.merge_threshold (length (e.segments ++ (s ∷ []))) ≡ false
      → flush faiss uuid crc32 e ≡ (ok (some s), joined s disk w)
  unfolding flush
  flush_quietly s disk w up p h n (made, cut, sorted) few =
      ground (arith, up, p, h, n, made, cut, sorted, few)

  pub flush_merging :
      (s : Segment Index) (disk : Storage) (w : Wal) (o : Option (Segment Index))
      (e' : Engine Index)
      → e.started ≡ true
      → capture_deletes e ≡ captured tombstones file e
      → is_empty (MemTable.to_arrays none e.memtable) ≡ false
      → (MemTable.max_lsn e.memtable == 0) ≡ false
      → Writes s disk w
      → leb e.config.merge_threshold (length (e.segments ++ (s ∷ []))) ≡ true
      → merge faiss uuid (joined s disk w) ≡ (ok o, e')
      → flush faiss uuid crc32 e ≡ (ok (some s), e')
  unfolding flush
  flush_merging s disk w o e' up p h n (made, cut, sorted) many merged =
      ground (arith, up, p, h, n, made, cut, sorted, many, merged)

-- Where the second segment that a flush may write is written.
abbrev pub second_path : {Index : Type 0} → (ℕ → String) → Engine Index → ℕ → String
second_path uuid e snapshot =
    join_path e.config.segments_path
      (make_segment_id e.config.shard_id snapshot (uuid (e.drawn + 1)))

module _ {Index : Type 0} (crc32 : Bytes → ℕ) {e : Engine Index} {rs : List WalRecord} {floor : ℕ}
    (runs : Runs crc32 e rs) (settled : IsSettled floor e) where
  -- A merge of all segments, of which the last has the greatest snapshot.
  pub merge_everything :
      (faiss : Faiss Index) (uuid : ℕ → String) (n : ℕ) (segments : List (Segment Index))
      (s : Segment Index)
      → e.segments ≡ segments ++ (s ∷ [])
      → length e.segments ≡ e.config.merge_threshold
      → AllAtMost n segments
      → s.snapshot_id ≡ n
      → AllElsewhere (segment_path uuid e n) e.segments
      → (o : Option (Segment Index)) × (e' : Engine Index) × (merge faiss uuid e ≡ (ok o, e'))
        × Keeps crc32 rs floor e e'
        × IsShorter e.config.merge_threshold e e'
        × (e'.memtable ≡ e.memtable)
  merge_everything faiss uuid n segments s p full below top away =
      merge-refines crc32 runs settled faiss uuid (ground (arith, full))
        (subst (λ m. AllElsewhere (segment_path uuid e m) e.segments) (sym greatest) away)
        (λ i. nothing_newer i e.segments (omega (arith, full)))
    where
      greatest : max_of (λ s. s.snapshot_id) 0 (take e.config.merge_threshold e.segments) ≡ n
      greatest =
          ap (max_of (λ s. s.snapshot_id) 0)
            (take_all e.config.merge_threshold e.segments (omega (arith, full)) ∙ p)
          ∙ max_of_last (λ s. s.snapshot_id) n segments s below top

      nothing_newer :
          (i : IdPattern) (segments : List (Segment Index))
          → length segments ≤ e.config.merge_threshold
          → (contains i e.tombstones
              && (is_held (stored_vector i (take e.config.merge_threshold segments) e.disk)
                  && is_held (stored_vector i (drop e.config.merge_threshold segments) e.disk)))
            ≡ false
      nothing_newer i segments h = ground (arith, drop_all e.config.merge_threshold segments h)
