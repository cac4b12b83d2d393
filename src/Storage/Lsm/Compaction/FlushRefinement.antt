-- ===== src/Storage/Lsm/Compaction/FlushRefinement.antt =====
-- vecscaledb/storage/lsm.py: a flush keeps what the engine holds.
use distributed_vector_db.Prelude.{
  ℕ, ◌+◌, ◌<◌, ◌≤◌, ◌≡◌, refl, sym, ap, ◌∙◌, arith, Option, none, some, List, [], ◌∷◌, ◌++◌, false,
  ◌||◌, ◌==◌, leb, length, is_empty, All-append, keep, subst, if◌then◌else◌, String, Bool-cases,
  inl, inr, length-append,
}
use distributed_vector_db.Prelude.Eq.{nat_eq, string_eq, beq}
use distributed_vector_db.Prelude.Pairwise.{All-map}
use distributed_vector_db.Prelude.Set.{contains}
use distributed_vector_db.Prelude.Outcome.{ok}
use distributed_vector_db.Arrays.{IdPattern}
use distributed_vector_db.Index.Faiss.{Faiss}
use distributed_vector_db.Index.Segment.{Segment}
use distributed_vector_db.Storage.Wal
use distributed_vector_db.Storage.Wal.{Wal}
use distributed_vector_db.Storage.Wal.Words.{Bytes}
use distributed_vector_db.Storage.Wal.Frame.{WalRecord}
use distributed_vector_db.Storage.Wal.Invariant.{truncate_before-Holds}
use distributed_vector_db.Storage.MemTable
use distributed_vector_db.Storage.MemTable.{MemTable}
use distributed_vector_db.Storage.Lsm.State.{Engine, TombstoneFile}
use distributed_vector_db.Storage.Lsm.Invariant.{Runs}
use distributed_vector_db.Storage.Lsm.Compaction.{capture_deletes, flush}
use distributed_vector_db.Storage.Lsm.Compaction.Shelf.{AllElsewhere}
use distributed_vector_db.Storage.Lsm.Compaction.Keeps.{Keeps}
use distributed_vector_db.Storage.Lsm.Compaction.Settled.{IsSettled, max_lsn_bounds}
use distributed_vector_db.Storage.Lsm.Compaction.MergeSteps.{segment_path, create_segment_total}
use distributed_vector_db.Storage.Lsm.Compaction.Flushing.{
  captured, capture_deletes_lem, emptied, emptied-Runs, emptied-IsSettled, emptied-view, flushed,
  flushed-Runs, flushed-IsSettled, flushed-view, sorted-flushed,
}
use distributed_vector_db.Storage.Lsm.Compaction.FlushSteps.{
  flush_nothing, Writes, flush_quietly, flush_merging, second_path, merge_everything,
}

module _ {Index : Type 0} (crc32 : Bytes → ℕ) {e : Engine Index} {rs : List WalRecord} {floor : ℕ}
    (runs : Runs crc32 e rs) (settled : IsSettled floor e) where
  -- The same where there are live rows.
  flush_rows-refines :
      (faiss : Faiss Index) (uuid : ℕ → String)
      → 1 < e.config.merge_threshold
      → length e.segments < e.config.merge_threshold
      → AllElsewhere (segment_path uuid e (MemTable.max_lsn e.memtable)) e.segments
      → AllElsewhere (second_path uuid e (MemTable.max_lsn e.memtable)) e.segments
      → beq
          (segment_path uuid e (MemTable.max_lsn e.memtable))
          (second_path uuid e (MemTable.max_lsn e.memtable))
        ≡ false
      → (tombstones : List IdPattern) (file : TombstoneFile)
      → capture_deletes e ≡ captured tombstones file e
      → ((i : IdPattern)
          → contains i tombstones ≡ (
              contains i (MemTable.visible_deleted_ids none e.memtable) || contains i e.tombstones))
      → is_empty (MemTable.to_arrays none e.memtable) ≡ false
      → (o : Option (Segment Index)) × (e' : Engine Index) × (flush faiss uuid crc32 e ≡ (ok o, e'))
        × Keeps crc32
            (keep (λ r. leb (MemTable.max_lsn e.memtable + 1) r.lsn) rs)
            (MemTable.max_lsn e.memtable)
            e
            e'
        × (e'.memtable ≡ MemTable.clear e.memtable)
        × (length e'.segments < e.config.merge_threshold)
  flush_rows-refines faiss uuid two few away away2 apart tombstones file p says h =
      let n = MemTable.max_lsn e.memtable in
      let path = segment_path uuid e n in
      let (s, disk, created, made) =
        create_segment_total faiss uuid n (MemTable.to_arrays none e.memtable)
          (emptied crc32 runs settled tombstones file says) in
      let w = (Wal.truncate_before crc32 (n + 1) e.wal).1 in
      let (cut, _, _, _) = truncate_before-Holds crc32 (n + 1) runs.log in
      let (above, _) =
        max_lsn_bounds floor e.wal.last_lsn e.memtable settled.above settled.logged h in
      let nonzero : (n == 0) ≡ false = ground (arith, above) in
      let writes : Writes faiss uuid crc32 e tombstones file s disk w = (
        created,
        ap (λ o. (o, w)) cut,
        sorted-flushed crc32 runs settled tombstones file says s disk path away h made,
      ) in
      let mid = flushed crc32 runs settled tombstones file says s disk path away h made in
      let mid-runs = flushed-Runs crc32 runs settled tombstones file says s disk path away h made in
      let mid-settled =
        flushed-IsSettled crc32 runs settled tombstones file says s disk path away h made in
      let mid-view = flushed-view crc32 runs settled tombstones file says s disk path away h made in
      elim (Bool-cases (leb e.config.merge_threshold (length (e.segments ++ (s ∷ []))))) [
        | inl many ↦
            let (o, e', merged, kept, shorter, empty) =
              merge_everything crc32 mid-runs mid-settled faiss uuid n e.segments s refl
                (ground (arith, many, few, length-append e.segments (s ∷ [])))
                (All-map (λ t. t.snapshot_id ≤ floor) (λ t. t.snapshot_id ≤ n) e.segments
                  (λ t b. omega (arith, b, above)) settled.below)
                made.snapshot_id
                (All-append (λ t. beq t.path (second_path uuid e n) ≡ false) e.segments (s ∷ [])
                  away2
                  (
                    subst (λ q. beq q (second_path uuid e n) ≡ false) (sym made.path_of) apart,
                    tt,
                  )) in
            (
              some s,
              e',
              flush_merging faiss uuid crc32 e tombstones file s disk w o e' runs.started p h
                  nonzero writes many merged,
              record {
                runs = kept.runs;
                settled = kept.settled;
                config = kept.config;
                same = λ i. kept.same i ∙ mid-view i;
              },
              empty,
              omega (arith, shorter, two, few, length-append e.segments (s ∷ [])),
            )
        | inr quiet ↦ (
          some s,
          mid,
          flush_quietly faiss uuid crc32 e tombstones file s disk w runs.started p h nonzero writes
              quiet,
          record { runs = mid-runs; settled = mid-settled; config = refl; same = mid-view },
          refl,
          ground (arith, quiet),
        )
      ]

  -- A flush of a running and settled engine with fewer segments than its merge threshold, which is
  -- at least 2, where the next two uuids are fresh, returns: it keeps what the engine holds and
  -- empties the MemTable; where there are live rows it cuts from the log the records up to the
  -- greatest LSN of the MemTable's entries, deletions included; fewer segments than the merge
  -- threshold are left.
  pub flush-refines :
      (faiss : Faiss Index) (uuid : ℕ → String)
      → 1 < e.config.merge_threshold
      → length e.segments < e.config.merge_threshold
      → AllElsewhere (segment_path uuid e (MemTable.max_lsn e.memtable)) e.segments
      → AllElsewhere (second_path uuid e (MemTable.max_lsn e.memtable)) e.segments
      → beq
          (segment_path uuid e (MemTable.max_lsn e.memtable))
          (second_path uuid e (MemTable.max_lsn e.memtable))
        ≡ false
      → (o : Option (Segment Index)) × (e' : Engine Index) × (flush faiss uuid crc32 e ≡ (ok o, e'))
        × Keeps crc32
            (if is_empty (MemTable.to_arrays none e.memtable)
              then rs
              else keep (λ r. leb (MemTable.max_lsn e.memtable + 1) r.lsn) rs)
            (if is_empty (MemTable.to_arrays none e.memtable)
              then floor
              else MemTable.max_lsn e.memtable)
            e
            e'
        × (e'.memtable ≡ MemTable.clear e.memtable)
        × (length e'.segments < e.config.merge_threshold)
  flush-refines faiss uuid two few away away2 apart =
      let n = MemTable.max_lsn e.memtable in
      let rows = MemTable.to_arrays none e.memtable in
      let (tombstones, file, p, says) = capture_deletes_lem e in
      elim (Bool-cases (is_empty rows)) [
        | inl h ↦ (
          none,
          emptied crc32 runs settled tombstones file says,
          flush_nothing faiss uuid crc32 e tombstones file runs.started p h,
          rw h (record {
            runs = emptied-Runs crc32 runs settled tombstones file says;
            settled = emptied-IsSettled crc32 runs settled tombstones file says;
            config = refl;
            same = λ i. emptied-view crc32 runs settled tombstones file says i h;
          }),
          refl,
          few,
        )
        | inr h ↦
            let (o, e', run, kept, empty, fewer) =
              flush_rows-refines faiss uuid two few away away2 apart tombstones file p says h in
            (o, e', run, rw h kept, empty, fewer)
      ]
