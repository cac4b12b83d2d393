-- ===== src/Storage/Lsm/History.antt =====
-- Runs of an engine: any order of inserts, deletes, flushes and merges, against the map that the changes
-- of the clients make.
pub mod Soundness
pub mod Inserting
use distributed_vector_db.Prelude.{
  ℕ, ◌+◌, ◌^◌, ◌<◌, ◌≤◌, All, ◌≡◌, refl, ap, subst, ◌∙◌, sym, Option, none, some, List, [], ◌∷◌,
  Bool, true, false, if◌then◌else◌, arith, length, ltb, String,
}
use distributed_vector_db.Prelude.Eq.{nat_eq, string_eq, beq}
use distributed_vector_db.Prelude.Set.{contains}
use distributed_vector_db.Prelude.Outcome.{ok}
use distributed_vector_db.Arrays.{IdPattern, Vector, NdArray}
use distributed_vector_db.Index.Faiss.{Faiss}
use distributed_vector_db.Index.Segment.{Segment}
use distributed_vector_db.Storage.Wal.Words.{Bytes}
use distributed_vector_db.Storage.Wal.Frame.{WalRecord, op_insert}
use distributed_vector_db.Storage.Wal.FrameLaws.{IsWritable}
use distributed_vector_db.Storage.Wal.Invariant.{entry}
use distributed_vector_db.Storage.MemTable
use distributed_vector_db.Storage.MemTable.Laws.{last_vector}
use distributed_vector_db.Storage.Lsm.State.{Engine}
use distributed_vector_db.Storage.Lsm.View.{newest, view}
use distributed_vector_db.Storage.Lsm.Invariant.{Runs}
use distributed_vector_db.Storage.Lsm.Writes.{write, delete}
use distributed_vector_db.Storage.Lsm.Writes.Refinement.{write-refines, delete-refines}
use distributed_vector_db.Storage.Lsm.Writes.Settling.{write-settles, delete-settles}
use distributed_vector_db.Storage.Lsm.Compaction.{merge, flush}
use distributed_vector_db.Storage.Lsm.Compaction.Shelf.{AllElsewhere}
use distributed_vector_db.Storage.Lsm.Compaction.Settled.{IsSettled}
use distributed_vector_db.Storage.Lsm.Compaction.MergeSteps.{segment_path}
use distributed_vector_db.Storage.Lsm.Compaction.FlushSteps.{second_path}
use distributed_vector_db.Storage.Lsm.Compaction.FlushRefinement.{flush-refines}

-- What a client has changed.
pub data Change : Type 0 where
  inserted : List IdPattern → List Vector → Change
  deleted : List IdPattern → Change

abbrev pub Contents : Type 0
Contents = IdPattern → Option Vector

abbrev pub changed : Change → Contents → Contents
changed (inserted ids vectors) held i = newest (last_vector i ids vectors) (held i)
changed (deleted ids) held i = if contains i ids then none else held i

-- The changes in the order in which they were made, the last one first in the list.
abbrev pub replayed : List Change → Contents → Contents
replayed [] held = held
replayed (c ∷ changes) held = changed c (replayed changes held)

changed-same :
    (c : Change) (f g : Contents)
    → ((i : IdPattern) → f i ≡ g i)
    → (i : IdPattern) → changed c f i ≡ changed c g i
changed-same (inserted ids vectors) f g h i = rw (h i) refl
changed-same (deleted ids) f g h i = rw (h i) refl

module _ {Index : Type 0} (faiss : Faiss Index) (uuid : ℕ → String) (crc32 : Bytes → ℕ) where
  -- The next two uuids give paths at which no segment lies.
  pub record IsFresh (e : Engine Index) (snapshot : ℕ) : Type 0 where
    pub first : AllElsewhere (segment_path uuid e snapshot) e.segments
    pub second : AllElsewhere (second_path uuid e snapshot) e.segments
    pub apart : beq (segment_path uuid e snapshot) (second_path uuid e snapshot) ≡ false

  -- The engines that calls lead to, with the changes that they made. `insert` is an insertion, and a
  -- flush behind it where the MemTable is full.
  pub data Run (start : Engine Index) : List Change → Engine Index → Type 0 where
    idle : Run start [] start
    insertion :
        {h : List Change} {e e' : Engine Index} {lsn : ℕ} (ids : List IdPattern) (vectors : NdArray)
        → Run start h e
        → IsWritable e.config.dim (entry (e.wal.last_lsn + 1) op_insert ids vectors)
        → write crc32 ids vectors e ≡ (ok lsn, e')
        → Run start (inserted ids vectors.rows ∷ h) e'
    deletion :
        {h : List Change} {e e' : Engine Index} {lsn : ℕ} (ids : List IdPattern)
        → Run start h e
        → e.wal.last_lsn + 1 < 256 ^ 8
        → length ids < 256 ^ 4
        → All (λ i. i < 256 ^ 8) ids
        → delete crc32 ids e ≡ (ok lsn, e')
        → Run start (deleted ids ∷ h) e'
    flushing :
        {h : List Change} {e e' : Engine Index} {o : Option (Segment Index)}
        → Run start h e
        → IsFresh e (MemTable.max_lsn e.memtable)
        → flush faiss uuid crc32 e ≡ (ok o, e')
        → Run start h e'
    merging :
        {h : List Change} {e e' : Engine Index} {o : Option (Segment Index)}
        → Run start h e
        → merge faiss uuid e ≡ (ok o, e')
        → Run start h e'

  -- What holds between calls.
  pub record IsSound (start : Engine Index) (h : List Change) (e : Engine Index) : Type 0 where
    pub records : List WalRecord
    pub floor : ℕ
    pub runs : Runs crc32 e records
    pub settled : IsSettled floor e
    pub config : e.config ≡ start.config
    pub few : length e.segments < start.config.merge_threshold
    pub holds : (i : IdPattern) → view e i ≡ replayed h (view start) i
