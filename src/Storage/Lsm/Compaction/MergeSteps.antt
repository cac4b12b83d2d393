-- ===== src/Storage/Lsm/Compaction/MergeSteps.antt =====
-- vecscaledb/storage/lsm.py: the ways through a merge.
use distributed_vector_db.Prelude.{
  ℕ, ◌+◌, ◌≡◌, refl, ap, arith, Option, none, some, Bool, true, false, not, ◌&&◌, ◌||◌, ltb, length,
  is_empty, if◌then◌else◌, String,
}
use distributed_vector_db.Prelude.Eq.{nat_eq, string_eq}
use distributed_vector_db.Prelude.Dict.{keys, values}
use distributed_vector_db.Prelude.SortedDict.{is_held}
use distributed_vector_db.Prelude.Outcome.{ok}
use distributed_vector_db.Arrays.{Vector}
use distributed_vector_db.Index.Faiss.{Faiss}
use distributed_vector_db.Index.Segment.{Segment, Storage, make_segment_id, join_path}
use distributed_vector_db.Index.Segment.Stored.{IsCreated, create_lem}
use distributed_vector_db.Storage.MemTable.EntryMap.{Rows}
use distributed_vector_db.Storage.Lsm.State.{Engine}
use distributed_vector_db.Storage.Lsm.View.{newest}
use distributed_vector_db.Storage.Lsm.Merging.{Merged, plan_merge}
use distributed_vector_db.Storage.Lsm.Compaction.{
  matrix_of, create_segment, drop_merged, install_merged, merge_planned, merge,
}

-- Where the next segment with this snapshot is written.
abbrev pub segment_path : {Index : Type 0} → (ℕ → String) → Engine Index → ℕ → String
segment_path uuid e snapshot =
    join_path e.config.segments_path (make_segment_id e.config.shard_id snapshot (uuid e.drawn))

-- What the engine is after a segment has been written.
abbrev pub after_create : {Index : Type 0} → Engine Index → Storage → Engine Index
after_create e disk = record e { disk = disk; drawn = e.drawn + 1 }

module _ {Index : Type 0} (faiss : Faiss Index) (uuid : ℕ → String) where
  -- A segment of rows is written, at the next path.
  pub create_segment_total :
      (snapshot : ℕ) (rows : Rows) (e : Engine Index)
      → (s : Segment Index) × (disk : Storage) × (create_segment faiss uuid snapshot
            (matrix_of e.config.dim rows)
            (keys rows)
            e
          ≡ (ok s, after_create e disk))
        × IsCreated s snapshot (segment_path uuid e snapshot) (keys rows) (values rows) e.disk disk
  create_segment_total snapshot rows e =
      let c = e.config in
      let (s, disk, made, says) =
        create_lem faiss c.windows c.shard_id snapshot (matrix_of c.dim rows) (keys rows) c.dim
          c.nlist c.segments_path (uuid e.drawn) e.disk refl refl in
      (s, disk, ap (λ r. (r.0, after_create e r.1)) made, says)

  pub merge_lem :
      (e : Engine Index) (m : Merged Index)
      → e.started ≡ true
      → ltb (length e.segments) e.config.merge_threshold ≡ false
      → plan_merge e.config.merge_threshold e.segments e.tombstones e.disk ≡ ok m
      → merge faiss uuid e ≡ merge_planned faiss uuid m e
  unfolding merge
  merge_lem e m up enough p = ground (arith, up, enough, p)

  pub planned_nothing :
      (e : Engine Index) (m : Merged Index)
      → is_empty m.rows ≡ true
      → merge_planned faiss uuid m e ≡ (ok none, drop_merged m e)
  planned_nothing e m h = rw h refl

  pub planned_segment :
      (e : Engine Index) (m : Merged Index) (s : Segment Index) (disk : Storage)
      → is_empty m.rows ≡ false
      → create_segment faiss uuid m.snapshot_id (matrix_of e.config.dim m.rows) (keys m.rows) e
        ≡ (ok s, after_create e disk)
      → merge_planned faiss uuid m e ≡ (ok (some s), install_merged m s (after_create e disk))
  planned_segment e m s disk h p = ground (arith, h, p)

-- An id that a merge cleans is in no newer segment and not live in the MemTable, so it stays away; for
-- the others nothing changes.
pub merged_alike :
    (dead buried : Bool) (mem newer older : Option Vector)
    → (is_held mem && buried) ≡ false
    → (buried && (is_held older && is_held newer)) ≡ false
    → (if dead || (buried && not (buried && is_held older))
        then none
        else newest mem (newest newer (if buried then none else older)))
      ≡ (if dead || buried then none else newest mem (newest newer older))
merged_alike dead buried mem newer older h k = ground arith
