-- ===== src/Storage/Lsm/History/Soundness.antt =====
-- vecscaledb/storage/lsm.py: every run of an engine keeps its invariant and holds what it should.
use distributed_vector_db.Prelude.{
  ℕ, ◌+◌, ◌^◌, ◌<◌, All, ◌≡◌, refl, ap, subst, ◌∙◌, sym, Option, none, List, ◌∷◌, true,
  if◌then◌else◌, arith, length, String,
}
use distributed_vector_db.Prelude.Eq.{nat_eq, string_eq}
use distributed_vector_db.Prelude.Set.{contains}
use distributed_vector_db.Prelude.Outcome.{ok}
use distributed_vector_db.Arrays.{IdPattern, NdArray}
use distributed_vector_db.Index.Faiss.{Faiss}
use distributed_vector_db.Index.Segment.{Segment}
use distributed_vector_db.Storage.Wal.Words.{Bytes}
use distributed_vector_db.Storage.Wal.Frame.{WalRecord, op_insert}
use distributed_vector_db.Storage.Wal.FrameLaws.{IsWritable}
use distributed_vector_db.Storage.Wal.Invariant.{entry}
use distributed_vector_db.Storage.MemTable
use distributed_vector_db.Storage.MemTable.Laws.{last_vector}
use distributed_vector_db.Storage.Lsm.State.{Engine}
use distributed_vector_db.Storage.Lsm.View.{newest, view}
use distributed_vector_db.Storage.Lsm.Invariant.{Runs}
use distributed_vector_db.Storage.Lsm.Writes.{write, delete}
use distributed_vector_db.Storage.Lsm.Writes.Refinement.{write-refines, delete-refines}
use distributed_vector_db.Storage.Lsm.Writes.Settling.{write-settles, delete-settles}
use distributed_vector_db.Storage.Lsm.Compaction.{merge, flush}
use distributed_vector_db.Storage.Lsm.Compaction.Settled.{IsSettled}
use distributed_vector_db.Storage.Lsm.Compaction.FlushRefinement.{flush-refines}
use distributed_vector_db.Storage.Lsm.History.{
  Change, inserted, deleted, Run, idle, insertion, deletion, flushing, merging, IsFresh, IsSound,
}

module _ {Index : Type 0} (faiss : Faiss Index) (uuid : ℕ → String) (crc32 : Bytes → ℕ) where
  moved-Runs :
      {e e' : Engine Index} {rs : List WalRecord} → e ≡ e' → Runs crc32 e rs → Runs crc32 e' rs
  moved-Runs {rs = rs} p r = subst (λ e. Runs crc32 e rs) p r

  moved-IsSettled :
      {e e' : Engine Index} {floor : ℕ} → e ≡ e' → IsSettled floor e → IsSettled floor e'
  moved-IsSettled {floor = floor} p s = subst (IsSettled floor) p s

  merge_few :
      (e : Engine Index)
      → e.started ≡ true
      → length e.segments < e.config.merge_threshold
      → merge faiss uuid e ≡ (ok none, e)
  unfolding merge
  merge_few e up few = ground (arith, up, few)

  module _ {start : Engine Index} where
    pub after_write :
        {h : List Change} {e e' : Engine Index} {lsn : ℕ} (ids : List IdPattern) (vectors : NdArray)
        → IsSound faiss uuid crc32 start h e
        → IsWritable e.config.dim (entry (e.wal.last_lsn + 1) op_insert ids vectors)
        → write crc32 ids vectors e ≡ (ok lsn, e')
        → IsSound faiss uuid crc32 start (inserted ids vectors.rows ∷ h) e'
    after_write ids vectors s fits run =
        let (e₁, done, runs, sets) = write-refines crc32 ids vectors s.runs fits in
        let (settled, segments, config) = write-settles crc32 s.runs s.settled ids vectors fits in
        let there = ap (λ r. r.1) run in
        let here : e₁ ≡ _ = sym (ap (λ r. r.1) done) ∙ there in
        record {
          records = _;
          floor = s.floor;
          runs = moved-Runs here runs;
          settled = subst (IsSettled s.floor) there settled;
          config = sym (ap (λ e. e.config) there) ∙ config ∙ s.config;
          few =
              subst (λ e. length e.segments < start.config.merge_threshold) there
                (subst (λ l. length l < start.config.merge_threshold) (sym segments) s.few);
          holds = λ i.
              sym (ap (λ e. view e i) here)
              ∙ sets i
              ∙ ap (newest (last_vector i ids vectors.rows)) (s.holds i);
        }

    after_delete :
        {h : List Change} {e e' : Engine Index} {lsn : ℕ} (ids : List IdPattern)
        → IsSound faiss uuid crc32 start h e
        → e.wal.last_lsn + 1 < 256 ^ 8
        → length ids < 256 ^ 4
        → All (λ i. i < 256 ^ 8) ids
        → delete crc32 ids e ≡ (ok lsn, e')
        → IsSound faiss uuid crc32 start (deleted ids ∷ h) e'
    after_delete ids s hl hn hi run =
        let (e₁, done, runs, sets) = delete-refines crc32 ids s.runs hl hn hi in
        let (settled, segments, config) = delete-settles crc32 s.runs s.settled ids hl hn hi in
        let there = ap (λ r. r.1) run in
        let here : e₁ ≡ _ = sym (ap (λ r. r.1) done) ∙ there in
        record {
          records = _;
          floor = s.floor;
          runs = moved-Runs here runs;
          settled = subst (IsSettled s.floor) there settled;
          config = sym (ap (λ e. e.config) there) ∙ config ∙ s.config;
          few =
              subst (λ e. length e.segments < start.config.merge_threshold) there
                (subst (λ l. length l < start.config.merge_threshold) (sym segments) s.few);
          holds = λ i.
              sym (ap (λ e. view e i) here)
              ∙ sets i
              ∙ ap (λ v. if contains i ids then none else v) (s.holds i);
        }

    pub after_flush :
        {h : List Change} {e e' : Engine Index} {o : Option (Segment Index)}
        → 1 < start.config.merge_threshold
        → IsSound faiss uuid crc32 start h e
        → IsFresh faiss uuid crc32 e (MemTable.max_lsn e.memtable)
        → flush faiss uuid crc32 e ≡ (ok o, e')
        → IsSound faiss uuid crc32 start h e'
    after_flush {h} {e} {e'} two s fresh run =
        let limit = ap (λ c. c.merge_threshold) s.config in
        let (o₁, e₁, done, kept, _, fewer) =
          flush-refines crc32 s.runs s.settled faiss uuid (omega (arith, limit, two))
            (omega (arith, limit, s.few)) fresh.first fresh.second fresh.apart in
        let here : e₁ ≡ e' = sym (ap (λ r. r.1) done) ∙ ap (λ r. r.1) run in
        record {
          records = _;
          floor = _;
          runs = moved-Runs here kept.runs;
          settled = moved-IsSettled here kept.settled;
          config = sym (ap (λ e. e.config) here) ∙ kept.config ∙ s.config;
          few =
              subst (λ e. length e.segments < start.config.merge_threshold) here
                (omega (arith, limit, fewer));
          holds = λ i. sym (ap (λ e. view e i) here) ∙ kept.same i ∙ s.holds i;
        }

    after_merge :
        {h : List Change} {e e' : Engine Index} {o : Option (Segment Index)}
        → IsSound faiss uuid crc32 start h e
        → merge faiss uuid e ≡ (ok o, e')
        → IsSound faiss uuid crc32 start h e'
    after_merge {h} {e} s run =
        subst (IsSound faiss uuid crc32 start h)
          (sym (
              ap (λ r. r.1)
                (merge_few e s.runs.started
                  (omega (arith, s.few, ap (λ c. c.merge_threshold) s.config))))
            ∙ ap (λ r. r.1) run)
          s

    -- Whatever calls are made, in whatever order: an engine that runs and is settled stays so, keeps its configuration
    -- and fewer segments than a merge takes, and holds exactly what the inserts and deletes have made of what it held.

    -- Whatever inserts, deletes, flushes and merges are made, in whatever order, where the arrays
    -- fit and the uuids that a flush draws are fresh: an engine that runs and is settled, whose merge
    -- threshold is at least 2 and which has fewer segments than that, stays so, keeps its
    -- configuration, and holds exactly what the inserts and deletes make of what it held.
    pub Run-IsSound :
        {h : List Change} {e : Engine Index} {floor : ℕ} {records : List WalRecord}
        → Runs crc32 start records
        → IsSettled floor start
        → 1 < start.config.merge_threshold
        → length start.segments < start.config.merge_threshold
        → Run faiss uuid crc32 start h e
        → IsSound faiss uuid crc32 start h e
    Run-IsSound runs settled two few idle = record {
      records = _;
      floor = _;
      runs = runs;
      settled = settled;
      config = refl;
      few = few;
      holds = λ i. refl;
    }
    Run-IsSound runs settled two few (insertion ids vectors r fits run) =
        after_write ids vectors (Run-IsSound runs settled two few r) fits run
    Run-IsSound runs settled two few (deletion ids r hl hn hi run) =
        after_delete ids (Run-IsSound runs settled two few r) hl hn hi run
    Run-IsSound runs settled two few (flushing r fresh run) =
        after_flush two (Run-IsSound runs settled two few r) fresh run
    Run-IsSound runs settled two few (merging r run) =
        after_merge (Run-IsSound runs settled two few r) run
