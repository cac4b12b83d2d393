-- ===== src/Node/Answers.antt =====
-- vecscaledb/node.py: what the handlers answer.
use distributed_vector_db.Prelude.{
  ℕ, ◌+◌, ◌<◌, ◌≡◌, ap, ◌∙◌, arith, some, List, ◌∷◌, Bool, length, String,
}
use distributed_vector_db.Prelude.Eq.{nat_eq}
use distributed_vector_db.Prelude.SortedDict.{is_held}
use distributed_vector_db.Prelude.Set.{contains, IsDistinct}
use distributed_vector_db.Prelude.Outcome.{ok}
use distributed_vector_db.Arrays.{IdPattern, NdArray, check_shape}
use distributed_vector_db.Index.Faiss.{Faiss}
use distributed_vector_db.Storage.Wal.Words.{Bytes}
use distributed_vector_db.Storage.Wal.Frame.{op_insert}
use distributed_vector_db.Storage.Wal.FrameLaws.{IsWritable}
use distributed_vector_db.Storage.Wal.Invariant.{entry}
use distributed_vector_db.Storage.MemTable
use distributed_vector_db.Storage.Lsm.State.{Engine}
use distributed_vector_db.Storage.Lsm.View.{view}
use distributed_vector_db.Storage.Lsm.Writes
use distributed_vector_db.Storage.Lsm.Writes.{write}
use distributed_vector_db.Storage.Lsm.Writes.Refinement.{shape_of_writable}
use distributed_vector_db.Storage.Lsm.Reads
use distributed_vector_db.Storage.Snapshot
use distributed_vector_db.Storage.Lsm.Reads.{Health}
use distributed_vector_db.Storage.Lsm.Reads.Counting.{ntotal-counts}
use distributed_vector_db.Storage.Lsm.History.{Change, inserted, replayed, IsFresh, IsSound}
use distributed_vector_db.Storage.Lsm.History.Inserting.{insert-IsSound}
use distributed_vector_db.Node.{handle_insert}

module _ {Index : Type 0} where
  -- The health of an engine, by the number of the ids that it holds.
  abbrev pub health_of : ℕ → Engine Index → Health
  health_of n e = record {
    ntotal = n;
    segments = length e.segments;
    memtable_size = MemTable.ntotal e.memtable;
    wal_lsn = e.wal.last_lsn;
    active_snapshots = Snapshot.active_count e.snapshots;
  }

  health_lem :
      (n : ℕ) (e : Engine Index)
      → Reads.ntotal e ≡ (ok n, e)
      → Reads.health e ≡ (ok (health_of n e), e)
  unfolding Reads.health
  health_lem n e h = ground (arith, h)

  module _ (faiss : Faiss Index) (uuid : ℕ → String) (crc32 : Bytes → ℕ) where
    insert_reply :
        (ids : List IdPattern) (vectors : NdArray) (dim : ℕ) (e e' : Engine Index) (lsn n : ℕ)
        (flushed : Bool)
        → check_shape dim ids vectors ≡ ok tt
        → Writes.insert faiss uuid crc32 ids vectors e ≡ (ok (lsn, flushed), e')
        → Reads.health e' ≡ (ok (health_of n e'), e')
        → handle_insert faiss uuid crc32 ids (ok vectors) (record { dim = dim; engine = some e })
          ≡ (
            ok (record { inserted = length ids; segment_flushed = flushed; ntotal = n; lsn = lsn }),
            record { dim = dim; engine = some e' },
          )
    unfolding handle_insert
    insert_reply ids vectors dim e e' lsn n flushed fits p q = ground (arith, fits, p, q)

    -- `/insert` of arrays that fit, on a node whose engine has run soundly with a merge threshold of 2 at least,
    -- where the uuids that a flush draws are fresh: the answer has the number of ids sent, the next
    -- LSN, and as ntotal the number of the ids that the node holds after this insertion, which it has
    -- added to what it held.
    pub handle_insert_lem :
        {start : Engine Index} {h : List Change} {e : Engine Index} (ids : List IdPattern)
        (vectors : NdArray)
        → IsSound faiss uuid crc32 start h e
        → 1 < start.config.merge_threshold
        → IsWritable e.config.dim (entry (e.wal.last_lsn + 1) op_insert ids vectors)
        → IsFresh faiss uuid crc32
            (write crc32 ids vectors e).1
            (MemTable.max_lsn (write crc32 ids vectors e).1.memtable)
        → (flushed : Bool) × (e' : Engine Index) × (held : List IdPattern) × (handle_insert faiss
              uuid crc32 ids
              (ok vectors)
              (record { dim = e.config.dim; engine = some e })
            ≡ (
              ok (record {
                inserted = length ids;
                segment_flushed = flushed;
                ntotal = length held;
                lsn = e.wal.last_lsn + 1;
              }),
              record { dim = e.config.dim; engine = some e' },
            ))
          × IsSound faiss uuid crc32 start (inserted ids vectors.rows ∷ h) e'
          × IsDistinct held
          × ((i : IdPattern)
              → contains i held ≡ is_held (replayed (inserted ids vectors.rows ∷ h) (view start) i))
    handle_insert_lem {start} {h} {e} ids vectors s two fits fresh =
        let (flushed, e', run, sound) =
          insert-IsSound faiss uuid crc32 ids vectors s two fits fresh in
        let (held, counted, distinct, says) = ntotal-counts e' sound.settled.loads in
        (
          flushed,
          e',
          held,
          insert_reply ids vectors e.config.dim e e' (e.wal.last_lsn + 1) (length held) flushed
              (shape_of_writable e.config.dim (e.wal.last_lsn + 1) op_insert ids vectors fits) run
              (health_lem (length held) e' counted),
          sound,
          distinct,
          λ i. says i ∙ ap is_held (sound.holds i),
        )
