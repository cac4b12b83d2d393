-- ===== src/Storage/Lsm/Compaction/Keeps.antt =====
-- What flushes and merges promise: the engine runs on, settled, with the configuration that it had, and
-- holds what it held.
use distributed_vector_db.Prelude.{ℕ, ◌+◌, ◌≤◌, ◌≡◌, List, length}
use distributed_vector_db.Arrays.{IdPattern}
use distributed_vector_db.Storage.Wal.Words.{Bytes}
use distributed_vector_db.Storage.Wal.Frame.{WalRecord}
use distributed_vector_db.Storage.Lsm.State.{Engine}
use distributed_vector_db.Storage.Lsm.View.{view}
use distributed_vector_db.Storage.Lsm.Invariant.{Runs}
use distributed_vector_db.Storage.Lsm.Compaction.Settled.{IsSettled}

-- From `e` to `e'`, which has the records `rs` in its log and no snapshot above `floor`.
pub record Keeps {Index : Type 0} (crc32 : Bytes → ℕ) (rs : List WalRecord) (floor : ℕ)
    (e e' : Engine Index) : Type 0 where
  pub runs : Runs crc32 e' rs
  pub settled : IsSettled floor e'
  pub config : e'.config ≡ e.config
  pub same : (i : IdPattern) → view e' i ≡ view e i

-- At least all but one of `threshold` segments are gone.
abbrev pub IsShorter : {Index : Type 0} → ℕ → Engine Index → Engine Index → Type 0
IsShorter threshold e e' = length e'.segments + threshold ≤ length e.segments + 1
