-- ===== src/Tests/Engine.antt =====
-- A running engine with nothing in it, of width 1.
use distributed_vector_db.Prelude.{
  ℕ, ◌≡◌, refl, none, List, [], ◌∷◌, true, false, if◌then◌else◌, arith,
}
use distributed_vector_db.Prelude.Eq.{nat_eq}
use distributed_vector_db.Prelude.Set.{contains}
use distributed_vector_db.Prelude.Outcome.{ok}
use distributed_vector_db.Arrays.{IdPattern}
use distributed_vector_db.Storage.Wal.Frame.{op_insert, op_delete}
use distributed_vector_db.Storage.Wal.Invariant.{entry}
use distributed_vector_db.Storage.MemTable.Laws.{last_vector}
use distributed_vector_db.Storage.Lsm.State.{Engine, missing}
use distributed_vector_db.Storage.Lsm.View.{view, newest}
use distributed_vector_db.Storage.Lsm.Invariant.{Runs}
use distributed_vector_db.Storage.Lsm.Writes.{write, delete, zeros}
use distributed_vector_db.Storage.Lsm.Writes.Refinement.{write-refines, delete-refines}
use distributed_vector_db.Tests.Wal.{sum_bytes, one_row, fresh, fresh-Holds, first-IsWritable}

abbrev pub empty_engine : Engine (List ℕ)
empty_engine = record {
  config = record {
    shard_id = 0;
    dim = 1;
    nlist = 1;
    flush_threshold = 2;
    merge_threshold = 2;
    segments_path = "/s";
    windows = false;
  };
  wal = fresh;
  memtable = record { dim = 1; flush_threshold = 2; entries = [] };
  snapshots = record { active = [] };
  segments = [];
  tombstones = 7 ∷ 8 ∷ [];
  started = true;
  disk = [];
  tombstone_file = missing;
  drawn = 0;
}

pub empty-Runs : Runs sum_bytes empty_engine []
empty-Runs = record {
  started = refl;
  log = fresh-Holds;
  log_open = refl;
  log_dim = refl;
  table_dim = refl;
  table = record { distinct = tt; filled = tt };
}

write-refines_example :
    (e' : Engine (List ℕ)) × (write sum_bytes (7 ∷ []) one_row empty_engine ≡ (ok 1, e'))
    × Runs sum_bytes e' (entry 1 op_insert (7 ∷ []) one_row ∷ [])
    × ((i : IdPattern)
        → view e' i ≡ newest (last_vector i (7 ∷ []) one_row.rows) (view empty_engine i))
write-refines_example =
    write-refines sum_bytes (7 ∷ []) one_row empty-Runs
      (first-IsWritable 1 op_insert (omega arith) (omega arith))

delete-refines_example :
    (e' : Engine (List ℕ)) × (delete sum_bytes (7 ∷ []) empty_engine ≡ (ok 1, e'))
    × Runs sum_bytes e' (entry 1 op_delete (7 ∷ []) (zeros (7 ∷ []) 1) ∷ [])
    × ((i : IdPattern) → view e' i ≡ (if contains i (7 ∷ []) then none else view empty_engine i))
delete-refines_example =
    delete-refines sum_bytes (7 ∷ []) empty-Runs (omega arith) (omega arith) (omega arith)
