-- ===== src/Storage/Lsm/History/Inserting.antt =====
-- vecscaledb/storage/lsm.py: `insert` of `LSMEngine`, with the flush of a full MemTable.
use distributed_vector_db.Prelude.{
  ℕ, ◌+◌, ◌<◌, ◌≡◌, ap, subst, arith, Option, none, some, List, ◌∷◌, Bool, true, false, String,
  Bool-cases, inl, inr,
}
use distributed_vector_db.Prelude.Outcome.{ok}
use distributed_vector_db.Arrays.{IdPattern, NdArray}
use distributed_vector_db.Index.Faiss.{Faiss}
use distributed_vector_db.Index.Segment.{Segment}
use distributed_vector_db.Storage.Wal.Words.{Bytes}
use distributed_vector_db.Storage.Wal.Frame.{op_insert}
use distributed_vector_db.Storage.Wal.FrameLaws.{IsWritable}
use distributed_vector_db.Storage.Wal.Invariant.{entry}
use distributed_vector_db.Storage.MemTable
use distributed_vector_db.Storage.Lsm.State.{Engine}
use distributed_vector_db.Storage.Lsm.Writes
use distributed_vector_db.Storage.Lsm.Writes.{write}
use distributed_vector_db.Storage.Lsm.Writes.Refinement.{write-refines}
use distributed_vector_db.Storage.Lsm.Compaction.{flush}
use distributed_vector_db.Storage.Lsm.Compaction.FlushRefinement.{flush-refines}
use distributed_vector_db.Storage.Lsm.History.{Change, inserted, IsFresh, IsSound}
use distributed_vector_db.Storage.Lsm.History.Soundness.{after_write, after_flush}

abbrev pub is_flushed : {Index : Type 0} → Option (Segment Index) → Bool
is_flushed none = false
is_flushed (some s) = true

module _ {Index : Type 0} (faiss : Faiss Index) (uuid : ℕ → String) (crc32 : Bytes → ℕ) where
  insert_quietly :
      (ids : List IdPattern) (vectors : NdArray) (e e' : Engine Index) (lsn : ℕ)
      → write crc32 ids vectors e ≡ (ok lsn, e')
      → MemTable.should_flush e'.memtable ≡ false
      → Writes.insert faiss uuid crc32 ids vectors e ≡ (ok (lsn, false), e')
  unfolding Writes.insert
  insert_quietly ids vectors e e' lsn p q = ground (arith, p, q)

  insert_flushing :
      (ids : List IdPattern) (vectors : NdArray) (e e₁ e' : Engine Index) (lsn : ℕ)
      (o : Option (Segment Index))
      → write crc32 ids vectors e ≡ (ok lsn, e₁)
      → MemTable.should_flush e₁.memtable ≡ true
      → flush faiss uuid crc32 e₁ ≡ (ok o, e')
      → Writes.insert faiss uuid crc32 ids vectors e ≡ (ok (lsn, is_flushed o), e')
  unfolding Writes.insert
  insert_flushing ids vectors e e₁ e' lsn o p q r = ground (arith, p, q, r)

  -- An insert of arrays that fit into an engine that has run soundly, where the uuids that a flush draws
  -- are fresh, returns the next LSN and leaves an engine that has run soundly with this insertion.
  pub insert-IsSound :
      {start : Engine Index} {h : List Change} {e : Engine Index} (ids : List IdPattern)
      (vectors : NdArray)
      → IsSound faiss uuid crc32 start h e
      → 1 < start.config.merge_threshold
      → IsWritable e.config.dim (entry (e.wal.last_lsn + 1) op_insert ids vectors)
      → IsFresh faiss uuid crc32
          (write crc32 ids vectors e).1
          (MemTable.max_lsn (write crc32 ids vectors e).1.memtable)
      → (flushed : Bool) × (e' : Engine Index) × (Writes.insert faiss uuid crc32 ids vectors e
          ≡ (ok (e.wal.last_lsn + 1, flushed), e'))
        × IsSound faiss uuid crc32 start (inserted ids vectors.rows ∷ h) e'
  insert-IsSound {start} ids vectors s two fits fresh =
      let (e₁, done, _, _) = write-refines crc32 ids vectors s.runs fits in
      let s₁ = after_write faiss uuid crc32 ids vectors s fits done in
      let new =
        subst (λ e. IsFresh faiss uuid crc32 e (MemTable.max_lsn e.memtable)) (ap (λ r. r.1) done)
          fresh in
      let limit = ap (λ c. c.merge_threshold) s₁.config in
      elim (Bool-cases (MemTable.should_flush e₁.memtable)) [
        | inr q ↦ (false, e₁, insert_quietly ids vectors _ e₁ _ done q, s₁)
        | inl q ↦
            let (o, e₂, run, _, _, _) =
              flush-refines crc32 s₁.runs s₁.settled faiss uuid (omega (arith, limit, two))
                (omega (arith, limit, s₁.few)) new.first new.second new.apart in
            (
              is_flushed o,
              e₂,
              insert_flushing ids vectors _ e₁ e₂ _ o done q run,
              after_flush faiss uuid crc32 two s₁ new run,
            )
      ]
