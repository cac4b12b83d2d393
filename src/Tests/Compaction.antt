-- ===== src/Tests/Compaction.antt =====
-- An engine with two segments, of which the newer one holds a buried id, and a run of an engine.
use distributed_vector_db.Prelude.{
  ℕ, ◌<◌, ◌≡◌, refl, Option, none, some, List, [], ◌∷◌, true, false, if◌then◌else◌, arith, String,
  ◌==◌, length,
}
use distributed_vector_db.Prelude.Eq.{nat_eq, string_eq}
use distributed_vector_db.Prelude.Outcome.{Outcome, ok}
use distributed_vector_db.Arrays.{IdPattern}
use distributed_vector_db.Index.Segment.{
  Segment, SegmentDir, make_segment_id, format_padded, load_arrays,
}
use distributed_vector_db.Storage.MemTable
use distributed_vector_db.Storage.Wal
use distributed_vector_db.Storage.Wal.Frame.{
  op_insert, serialize_record, serialize_all, recover_bytes, recover_from, read_record,
}
use distributed_vector_db.Index.IvfFlat
use distributed_vector_db.Index.Segment
use distributed_vector_db.Storage.Lsm.State.{Engine}
use distributed_vector_db.Storage.Lsm.Invariant.{Runs}
use distributed_vector_db.Storage.Lsm.Writes.{write}
use distributed_vector_db.Storage.Lsm.Compaction.{merge, flush}
use distributed_vector_db.Storage.Lsm.Compaction.Settled.{IsSettled}
use distributed_vector_db.Storage.Lsm.Compaction.Keeps.{Keeps, IsShorter}
use distributed_vector_db.Storage.Lsm.Compaction.MergeRefinement.{merge-refines}
use distributed_vector_db.Storage.Lsm.Compaction.FlushRefinement.{flush-refines}
use distributed_vector_db.Storage.Lsm.History.{idle, insertion, flushing, inserted, IsSound}
use distributed_vector_db.Storage.Lsm.History.Soundness.{Run-IsSound}
use distributed_vector_db.Tests.Index.{toy}
use distributed_vector_db.Tests.Wal.{sum_bytes, one_row, first-IsWritable}
use distributed_vector_db.Tests.Engine.{empty_engine, empty-Runs}

abbrev pub uuids : ℕ → String
uuids k = if k == 0 then "aa" else "bb"

abbrev pub shelf_segment : String → ℕ → Segment (List ℕ)
shelf_segment path snapshot = record {
  segment_id = path;
  shard_id = 0;
  snapshot_id = snapshot;
  path = path;
  meta = record {
    segment_id = path;
    shard_id = 0;
    num_vectors = 0;
    snapshot_id = snapshot;
    path = path;
  };
  index = record {
    dim = 1;
    nlist = 1;
    trained = true;
    index = some [];
    quantizer = false;
    ivf = false;
    flat = true;
    loaded = none;
  };
  ids_cache = none;
}

abbrev dir_of : List IdPattern → SegmentDir
dir_of ids = record {
  index_file = some [];
  ids_file = some ids;
  vectors_file = some ((5 ∷ []) ∷ (6 ∷ []) ∷ []);
  meta_file = none;
}

abbrev pub two_segments : Engine (List ℕ)
two_segments = record empty_engine {
  segments = shelf_segment "/s/1" 1 ∷ shelf_segment "/s/2" 2 ∷ [];
  disk = ("/s/1", dir_of (7 ∷ 9 ∷ [])) ∷ ("/s/2", dir_of (8 ∷ 9 ∷ [])) ∷ [];
  wal = record empty_engine.wal { last_lsn = 2; meta = some 2 };
}

two-Runs : Runs sum_bytes two_segments []
two-Runs = record {
  started = refl;
  log = record { bytes = refl; writable = tt; ascending = tt; bounded = tt; meta = refl };
  log_open = refl;
  log_dim = refl;
  table_dim = refl;
  table = record { distinct = tt; filled = tt };
}

pub two-IsSettled : IsSettled 2 two_segments
unfolding load_arrays MemTable.to_arrays
two-IsSettled = record {
  ascending = ((omega arith, tt), (tt, tt));
  spread = ((refl, tt), (tt, tt));
  positive = (omega arith, (omega arith, tt));
  loads = ((_, _, refl, refl), ((_, _, refl, refl), tt));
  below = (omega arith, (omega arith, tt));
  above = tt;
  logged = tt;
  floor_logged = omega arith;
  unburied = λ i. refl;
}

merge-refines_example :
    (o : Option (Segment (List ℕ))) × (e' : Engine (List ℕ)) × (merge toy uuids two_segments
      ≡ (ok o, e'))
    × Keeps sum_bytes [] 2 two_segments e'
    × IsShorter 2 two_segments e'
    × (e'.memtable ≡ two_segments.memtable)
unfolding make_segment_id format_padded
merge-refines_example =
    merge-refines sum_bytes two-Runs two-IsSettled toy uuids refl (refl, (refl, tt))
      (λ i. ground arith)

-- An engine with a row to flush.
abbrev pub one_segment : Engine (List ℕ)
one_segment = record two_segments {
  segments = shelf_segment "/s/1" 1 ∷ [];
  memtable = record {
    dim = 1;
    flush_threshold = 2;
    entries = (7, record { vector = some (6 ∷ []); lsn = 2; deleted = false }) ∷ [];
  };
  tombstones = 9 ∷ [];
}

pub one-Runs : Runs sum_bytes one_segment []
one-Runs = record {
  started = refl;
  log = two-Runs.log;
  log_open = refl;
  log_dim = refl;
  table_dim = refl;
  table = record { distinct = (refl, tt); filled = (refl, tt) };
}

pub one-IsSettled : IsSettled 1 one_segment
unfolding load_arrays MemTable.to_arrays
one-IsSettled = record {
  ascending = (tt, tt);
  spread = (tt, tt);
  positive = (omega arith, tt);
  loads = ((_, _, refl, refl), tt);
  below = (omega arith, tt);
  above = (omega arith, tt);
  logged = (omega arith, tt);
  floor_logged = omega arith;
  unburied = λ i. ground arith;
}

flush-refines_example :
    (o : Option (Segment (List ℕ))) × (e' : Engine (List ℕ)) × (flush toy uuids sum_bytes
        one_segment
      ≡ (ok o, e'))
    × Keeps sum_bytes [] 2 one_segment e'
    × (e'.memtable ≡ MemTable.clear one_segment.memtable)
    × (length e'.segments < 2)
unfolding make_segment_id format_padded MemTable.to_arrays MemTable.max_lsn
flush-refines_example =
    flush-refines sum_bytes one-Runs one-IsSettled toy uuids (omega arith) (omega arith) (refl, tt)
      (refl, tt) refl

pub empty-IsSettled : IsSettled 0 empty_engine
unfolding MemTable.to_arrays
empty-IsSettled = record {
  ascending = tt;
  spread = tt;
  positive = tt;
  loads = tt;
  below = tt;
  above = tt;
  logged = tt;
  floor_logged = omega arith;
  unburied = λ i. refl;
}

abbrev pub after_insert : Engine (List ℕ)
after_insert = (write sum_bytes (7 ∷ []) one_row empty_engine).1

abbrev flushed_once : Outcome (Option (Segment (List ℕ))) × Engine (List ℕ)
flushed_once = flush toy uuids sum_bytes after_insert

insert_once : write sum_bytes (7 ∷ []) one_row empty_engine ≡ (ok 1, after_insert)
unfolding write Wal.append serialize_record MemTable.insert
insert_once = refl

abbrev first_segment : Segment (List ℕ)
first_segment = record (shelf_segment "/s/0000-0000000001-aa" 1) {
  segment_id = "0000-0000000001-aa";
  meta = record {
    segment_id = "0000-0000000001-aa";
    shard_id = 0;
    num_vectors = 1;
    snapshot_id = 1;
    path = "/s/0000-0000000001-aa";
  };
  index = record (shelf_segment "" 0).index { index = some (7 ∷ []) };
}

flushed_lem : flush toy uuids sum_bytes after_insert ≡ (ok (some first_segment), flushed_once.1)
unfolding write flush Wal.append serialize_record MemTable.insert MemTable.to_arrays
    MemTable.visible_deleted_ids MemTable.max_lsn Segment.create IvfFlat.train IvfFlat.add
    IvfFlat.save Wal.truncate_before serialize_all Wal.recover recover_bytes recover_from
    read_record make_segment_id
flushed_lem = refl

Run-IsSound_example :
    IsSound toy uuids sum_bytes empty_engine (inserted (7 ∷ []) one_row.rows ∷ []) flushed_once.1
unfolding write Wal.append serialize_record MemTable.insert MemTable.max_lsn make_segment_id
Run-IsSound_example =
    Run-IsSound toy uuids sum_bytes empty-Runs empty-IsSettled (omega arith) (omega arith) (
      flushing
        (insertion (7 ∷ []) one_row idle (first-IsWritable 1 op_insert (omega arith) (omega arith))
          insert_once)
        (record { first = tt; second = tt; apart = refl }) flushed_lem)
