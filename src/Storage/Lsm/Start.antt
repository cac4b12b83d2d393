-- ===== src/Storage/Lsm/Start.antt =====
-- vecscaledb/storage/lsm.py: `LSMEngine.start`, the recovery of an engine from disk.
use distributed_vector_db.Prelude.{ℕ, List, [], ◌∷◌, true, ◌==◌, leb, max_of, if◌then◌else◌}
use distributed_vector_db.Prelude.Eq.{nat_eq}
use distributed_vector_db.Prelude.Set.{union}
use distributed_vector_db.Prelude.Outcome.{Outcome, ok, raise}
use distributed_vector_db.Arrays.{IdPattern}
use distributed_vector_db.Index.Faiss.{Faiss}
use distributed_vector_db.Index.Segment.{Segment}
use distributed_vector_db.Storage.Wal
use distributed_vector_db.Storage.Wal.Words.{Bytes}
use distributed_vector_db.Storage.Wal.Frame.{WalRecord, op_insert, op_delete}
use distributed_vector_db.Storage.MemTable
use distributed_vector_db.Storage.MemTable.{MemTable}
use distributed_vector_db.Storage.Lsm.State.{Engine, Op, gets, modify, ◌>>=◌, ◌>>◌}
use distributed_vector_db.Storage.Lsm.Files.{load_existing_segments, load_tombstones}

-- What the replay of the log builds.
pub record Replay : Type 0 where
  pub memtable : MemTable
  pub tombstones : List IdPattern

-- The loop of `start` over the recovered records.
unfoldable pub replay : ℕ → List WalRecord → Replay → Outcome (Unit {0}) × Replay
replay max_segment_lsn [] st = (ok tt, st)
replay max_segment_lsn (r ∷ records) st =
    let skipped = replay max_segment_lsn records st in
    let deleted = replay max_segment_lsn records (record {
      memtable = MemTable.delete r.ids r.lsn st.memtable;
      tombstones = union r.ids st.tombstones;
    }) in
    if leb r.lsn max_segment_lsn
    then skipped
    else if r.op_type == op_insert
    then elim (MemTable.insert r.ids r.vectors r.lsn st.memtable) [
      | raise x ↦ (raise x, st)
      | ok m ↦ replay max_segment_lsn records (record st { memtable = m })
    ]
    else if r.op_type == op_delete
    then deleted
    else skipped

module _ {Index : Type 0} where
  -- The part of `start` behind the log and the segments.
  abbrev pub started_with : List WalRecord → List (Segment Index) → Op Index (Unit {0})
  started_with records segments e =
      let (o, st) = replay (max_of (λ s. s.snapshot_id) 0 segments) records (record {
        memtable = MemTable.clear e.memtable;
        tombstones = load_tombstones e.tombstone_file;
      }) in
      let e' : Engine Index = record e {
        segments = segments;
        memtable = st.memtable;
        tombstones = st.tombstones;
      } in
      elim o [ raise x ↦ (raise x, e') | ok _ ↦ (ok tt, record e' { started = true }) ]

module _ {Index : Type 0} (faiss : Faiss Index) (crc32 : Bytes → ℕ) where
  unfoldable pub start : Op Index (Unit {0})
  unfolding replay
  start = do
    modify (λ e. record e { wal = Wal.open_log crc32 e.wal })
    segments ← λ e. (load_existing_segments faiss e.config.shard_id e.disk, e)
    records ← gets (λ e. Wal.recover crc32 e.wal)
    started_with records segments
