-- ===== src/Storage/Lsm/Visibility.antt =====
-- vecscaledb/storage/lsm.py: which hits of a segment a search may show.
use distributed_vector_db.Prelude.{
  ℕ, max, Option, none, some, List, [], ◌∷◌, ◌++◌, ltb, is_empty, if◌then◌else◌,
}
use distributed_vector_db.Prelude.Eq.{nat_eq}
use distributed_vector_db.Prelude.Dict.{Dict, lookup, insert}
use distributed_vector_db.Prelude.Set.{union}
use distributed_vector_db.Prelude.Outcome.{Outcome, ok, raise, ◌>>=◌}
use distributed_vector_db.Arrays.{IdPattern, Vector, Hit}
use distributed_vector_db.Index.Faiss.{Faiss}
use distributed_vector_db.Index.Segment
use distributed_vector_db.Index.Segment.{Segment, Storage}
use distributed_vector_db.Storage.Merge.{filter_result_ids}

-- `max(latest.get(vector_id, -1), snapshot_id)`
abbrev pub raised_to : ℕ → Option ℕ → ℕ
raised_to snapshot none = snapshot
raised_to snapshot (some t) = max t snapshot

unfoldable pub note_ids : ℕ → List IdPattern → Dict IdPattern ℕ → Dict IdPattern ℕ
note_ids snapshot [] latest = latest
note_ids snapshot (i ∷ ids) latest =
    note_ids snapshot ids (insert i (raised_to snapshot (lookup i latest)) latest)

-- The ids of a segment. The engine model keeps no cache of them, and reads the file again, which no
-- method changes.
abbrev pub ids_only :
    {Index : Type 0} → Outcome (List IdPattern × Segment Index) → Outcome (List IdPattern)
ids_only (ok (ids, s)) = ok ids
ids_only (raise e) = raise e

module _ {Index : Type 0} where
  unfoldable pub note_segments :
      List (Segment Index) → Storage → Dict IdPattern ℕ → Outcome (Dict IdPattern ℕ)
  note_segments [] disk latest = ok latest
  note_segments (s ∷ segments) disk latest = ids_only (Segment.load_ids s disk) >>= λ ids.
      note_segments segments disk (note_ids s.snapshot_id ids latest)

  -- `_latest_segment_snapshot_by_id`
  unfoldable pub latest_segment_snapshot_by_id :
      List (Segment Index) → Storage → Outcome (Dict IdPattern ℕ)
  unfolding note_segments
  latest_segment_snapshot_by_id segments disk = note_segments segments disk []

-- `{id for id, latest_snapshot in latest.items() if latest_snapshot > snapshot}`
abbrev pub newer_than : ℕ → Dict IdPattern ℕ → List IdPattern
newer_than snapshot [] = []
newer_than snapshot ((i, t) ∷ latest) =
    if ltb snapshot t then i ∷ newer_than snapshot latest else newer_than snapshot latest

-- What a search has decided under the lock: the deleted ids, the ids in the MemTable, the latest
-- snapshot of every id.
pub record Hidden : Type 0 where
  pub deleted_ids : List IdPattern
  pub visible_mem_ids : List IdPattern
  pub latest : Dict IdPattern ℕ

abbrev pub hidden_ids : Hidden → ℕ → List IdPattern
hidden_ids h snapshot = union h.deleted_ids (union h.visible_mem_ids (newer_than snapshot h.latest))

module _ {Index : Type 0} (faiss : Faiss Index) where
  -- The loop over the visible segments.
  unfoldable pub search_segments :
      Vector → ℕ → ℕ → Hidden → List (Segment Index) → Outcome (List (List Hit))
  search_segments query top_k nprobe h [] = ok []
  search_segments query top_k nprobe h (s ∷ segments) = do
    hits ← Segment.search faiss query top_k nprobe s
    rest ← search_segments query top_k nprobe h segments
    ok (filter_result_ids hits (hidden_ids h s.snapshot_id) ∷ rest)

-- `if len(memtable_result[0]) > 0: results.append(memtable_result)`
abbrev pub with_memtable : List (List Hit) → List Hit → List (List Hit)
with_memtable results mem = if is_empty mem then results else results ++ (mem ∷ [])
