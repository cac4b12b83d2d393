-- ===== src/Tests/Node.antt =====
-- An insertion into a node that holds nothing, and the count of what an engine holds.
use distributed_vector_db.Prelude.{ℕ, ◌≡◌, refl, some, List, [], ◌∷◌, Bool, length, arith}
use distributed_vector_db.Prelude.Eq.{nat_eq, string_eq}
use distributed_vector_db.Prelude.SortedDict.{is_held}
use distributed_vector_db.Prelude.Set.{contains, IsDistinct}
use distributed_vector_db.Prelude.Outcome.{ok}
use distributed_vector_db.Arrays.{IdPattern}
use distributed_vector_db.Index.Segment.{make_segment_id}
use distributed_vector_db.Storage.Wal
use distributed_vector_db.Storage.Wal.Frame.{op_insert, serialize_record}
use distributed_vector_db.Storage.MemTable
use distributed_vector_db.Storage.Lsm.State.{Engine}
use distributed_vector_db.Storage.Lsm.View.{view}
use distributed_vector_db.Storage.Lsm.Writes.{write}
use distributed_vector_db.Storage.Lsm.Reads
use distributed_vector_db.Storage.Lsm.Reads.Counting.{ntotal-counts}
use distributed_vector_db.Storage.Lsm.History.{inserted, replayed, idle, IsSound}
use distributed_vector_db.Storage.Lsm.History.Soundness.{Run-IsSound}
use distributed_vector_db.Node.{handle_insert}
use distributed_vector_db.Node.Answers.{handle_insert_lem}
use distributed_vector_db.Tests.Index.{toy}
use distributed_vector_db.Tests.Wal.{sum_bytes, one_row, first-IsWritable}
use distributed_vector_db.Tests.Engine.{empty_engine, empty-Runs}
use distributed_vector_db.Tests.Compaction.{uuids, empty-IsSettled, two_segments, two-IsSettled}

handle_insert_lem_example :
    (flushed : Bool) × (e' : Engine (List ℕ)) × (held : List IdPattern) × (handle_insert toy uuids
        sum_bytes
        (7 ∷ [])
        (ok one_row)
        (record { dim = 1; engine = some empty_engine })
      ≡ (
        ok (record { inserted = 1; segment_flushed = flushed; ntotal = length held; lsn = 1 }),
        record { dim = 1; engine = some e' },
      ))
    × IsSound toy uuids sum_bytes empty_engine (inserted (7 ∷ []) one_row.rows ∷ []) e'
    × IsDistinct held
    × ((i : IdPattern)
        → contains i held
          ≡ is_held (replayed (inserted (7 ∷ []) one_row.rows ∷ []) (view empty_engine) i))
unfolding write Wal.append serialize_record MemTable.insert MemTable.max_lsn make_segment_id
handle_insert_lem_example =
    handle_insert_lem toy uuids sum_bytes (7 ∷ []) one_row
      (Run-IsSound toy uuids sum_bytes empty-Runs empty-IsSettled (omega arith) (omega arith) idle)
      (omega arith) (first-IsWritable 1 op_insert (omega arith) (omega arith))
      (record { first = tt; second = tt; apart = refl })

ntotal-counts_example :
    (ids : List IdPattern) × (Reads.ntotal two_segments ≡ (ok (length ids), two_segments))
    × IsDistinct ids
    × ((i : IdPattern) → contains i ids ≡ is_held (view two_segments i))
ntotal-counts_example = ntotal-counts two_segments two-IsSettled.loads
