-- ===== src/Storage/Lsm/State.antt =====
-- vecscaledb/storage/lsm.py: the state of `class LSMEngine`, and its methods' monad. A method
-- returns its outcome beside the engine that it leaves behind, which after an exception is the
-- engine as it was at the `raise`.
use distributed_vector_db.Prelude.{ℕ, List, Bool, not, ◌&&◌, ◌||◌, ltb, ◌==◌, String}
use distributed_vector_db.Prelude.Strings.{string_ltb}
use distributed_vector_db.Prelude.Outcome.{Outcome, ok, raise, raise_if, runtime_error}
use distributed_vector_db.Arrays.{IdPattern}
use distributed_vector_db.Index.Segment.{Segment, Storage}
use distributed_vector_db.Storage.Wal.{Wal}
use distributed_vector_db.Storage.MemTable.{MemTable}
use distributed_vector_db.Storage.Snapshot.{SnapshotManager}

pub record Config : Type 0 where
  pub shard_id : ℕ
  pub dim : ℕ
  pub nlist : ℕ
  pub flush_threshold : ℕ
  pub merge_threshold : ℕ
  pub segments_path : String
  -- `sys.platform == "win32"`
  pub windows : Bool

-- `tombstones.json`: not there, not a JSON list of integers, or the list.
pub data TombstoneFile : Type 0 where
  missing malformed : TombstoneFile
  stored : List IdPattern → TombstoneFile

-- `disk` and `tombstone_file` are in the shared storage. `drawn` counts the uuids drawn so far.
pub record Engine (Index : Type 0) : Type 0 where
  pub config : Config
  pub wal : Wal
  pub memtable : MemTable
  pub snapshots : SnapshotManager
  pub segments : List (Segment Index)
  pub tombstones : List IdPattern
  pub started : Bool
  pub disk : Storage
  pub tombstone_file : TombstoneFile
  pub drawn : ℕ

abbrev pub Op : Type 0 → Type 0 → Type 0
Op Index A = Engine Index → Outcome A × Engine Index

abbrev pub pure : {Index A : Type 0} → A → Op Index A
pure a e = (ok a, e)

abbrev pub gets : {Index A : Type 0} → (Engine Index → A) → Op Index A
gets f e = (ok (f e), e)

abbrev pub modify : {Index : Type 0} → (Engine Index → Engine Index) → Op Index (Unit {0})
modify f e = (ok tt, f e)

abbrev pub lift : {Index A : Type 0} → Outcome A → Op Index A
lift o e = (o, e)

abbrev pub continue : {Index A B : Type 0} → Outcome A → (A → Op Index B) → Op Index B
continue (ok a) f e = f a e
continue (raise x) f e = (raise x, e)

infixl 5 ◌>>=◌ ◌>>◌
abbrev pub ◌>>=◌ : {Index A B : Type 0} → Op Index A → (A → Op Index B) → Op Index B
◌>>=◌ m f e = let (o, e') = m e in continue o f e'

abbrev pub ◌>>◌ : {Index B : Type 0} → Op Index (Unit {0}) → Op Index B → Op Index B
m >> k = m >>= λ _. k

-- A method of the log, run on the engine's log.
abbrev pub on_wal : {Index A : Type 0} → (Wal → Outcome A × Wal) → Op Index A
on_wal f e = let (o, w) = f e.wal in (o, record e { wal = w })

-- `_ensure_started`
abbrev pub ensure_started : {Index : Type 0} → Op Index (Unit {0})
ensure_started e = (raise_if (not e.started) runtime_error, e)

-- `key=lambda seg: (seg.snapshot_id, seg.segment_id)`
abbrev pub segment_lt : {Index : Type 0} → Segment Index → Segment Index → Bool
segment_lt a b =
    ltb a.snapshot_id b.snapshot_id
    || (a.snapshot_id == b.snapshot_id && string_ltb a.segment_id b.segment_id)
