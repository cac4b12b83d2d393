-- ===== src/Storage/Lsm/Merging.antt =====
-- vecscaledb/storage/lsm.py: what `merge` reads and decides before it writes.
use distributed_vector_db.Prelude.{ℕ, List, [], ◌∷◌, not, keep, take, drop, max_of}
use distributed_vector_db.Prelude.Eq.{nat_eq, string_eq}
use distributed_vector_db.Prelude.Dict.{Dict, insert, remove, keys}
use distributed_vector_db.Prelude.Set.{contains}
use distributed_vector_db.Prelude.Sort.{sort_by, key_lt}
use distributed_vector_db.Prelude.Outcome.{Outcome, ok, ◌>>=◌}
use distributed_vector_db.Arrays.{IdPattern, Vector, signed_key}
use distributed_vector_db.Index.Segment
use distributed_vector_db.Index.Segment.{Segment, Storage}

-- `latest[vector_id] = (segment.snapshot_id, vector)`
abbrev pub Latest : Type 0
Latest = Dict IdPattern (ℕ × Vector)

unfoldable pub note_rows : ℕ → List IdPattern → List Vector → Latest → Latest
note_rows snapshot [] vectors latest = latest
note_rows snapshot (i ∷ ids) [] latest = latest
note_rows snapshot (i ∷ ids) (v ∷ vectors) latest =
    note_rows snapshot ids vectors (insert i (snapshot, v) latest)

unfoldable pub gather : {Index : Type 0} → List (Segment Index) → Storage → Latest → Outcome Latest
gather [] disk latest = ok latest
gather (s ∷ segments) disk latest = Segment.load_arrays s disk >>= λ arrays.
    gather segments disk (note_rows s.snapshot_id arrays.0 arrays.1 latest)

abbrev pub vectors_of : Latest → List (IdPattern × Vector)
vectors_of [] = []
vectors_of ((i, (s, v)) ∷ latest) = (i, v) ∷ vectors_of latest

-- The rows to write in the order of their ids, the tombstones that the merge makes good, and the
-- segments on both sides.
pub record Merged (Index : Type 0) : Type 0 where
  pub to_merge : List (Segment Index)
  pub remaining : List (Segment Index)
  pub snapshot_id : ℕ
  pub rows : List (IdPattern × Vector)
  pub cleaned : List IdPattern

abbrev pub merged_from :
    {Index : Type 0}
    → List (Segment Index)
    → List (Segment Index)
    → List IdPattern
    → Latest
    → Merged Index
merged_from to_merge remaining tombstones latest =
    let rows = sort_by (key_lt (λ e. signed_key e.0)) (vectors_of latest) in
    record {
      to_merge = to_merge;
      remaining = remaining;
      snapshot_id = max_of (λ s. s.snapshot_id) 0 to_merge;
      rows = keep (λ e. not (contains e.0 tombstones)) rows;
      cleaned = keep (λ i. contains i tombstones) (keys rows);
    }

unfoldable pub plan_merge :
    {Index : Type 0} → ℕ → List (Segment Index) → List IdPattern → Storage → Outcome (Merged Index)
unfolding gather note_rows
plan_merge threshold segments tombstones disk =
    gather (take threshold segments) disk [] >>= λ latest.
    ok (merged_from (take threshold segments) (drop threshold segments) tombstones latest)

-- `shutil.rmtree(segment.path)` for each merged segment
abbrev pub remove_dirs : {Index : Type 0} → List (Segment Index) → Storage → Storage
remove_dirs [] disk = disk
remove_dirs (s ∷ segments) disk = remove_dirs segments (remove s.path disk)
