-- ===== src/Tests/Search.antt =====
-- A search of an engine that holds id 7 in the MemTable and in an older segment, and a buried id 9.
use distributed_vector_db.Prelude.{
  ℕ, ◌≡◌, ◌≤◌, refl, none, some, List, [], ◌∷◌, map, All, ◌⊎◌, length,
}
use distributed_vector_db.Prelude.Eq.{nat_eq}
use distributed_vector_db.Prelude.Dict.{Dict, HasDistinctKeys, lookup}
use distributed_vector_db.Prelude.Sort.{IsSortedBy}
use distributed_vector_db.Prelude.Outcome.{ok}
use distributed_vector_db.Arrays.{IdPattern, Vector, Distance}
use distributed_vector_db.Index.Segment
use distributed_vector_db.Index.IvfFlat
use distributed_vector_db.Storage.MemTable
use distributed_vector_db.Storage.Lsm.State.{Engine}
use distributed_vector_db.Storage.Lsm.View.{view}
use distributed_vector_db.Storage.Lsm.Invariant.{Runs}
use distributed_vector_db.Storage.Lsm.Compaction.Settled.{IsSettled}
use distributed_vector_db.Storage.Lsm.Reads.{search}
use distributed_vector_db.Storage.Lsm.Reads.Exactness.{measured}
use distributed_vector_db.Storage.Lsm.Reads.SearchRun.{searched}
use distributed_vector_db.Storage.Lsm.Reads.SearchRefinement.{search-refines, search_complete}
use distributed_vector_db.Tests.Index.{toy}
use distributed_vector_db.Tests.Wal.{sum_bytes}
use distributed_vector_db.Tests.Compaction.{shelf_segment, one_segment, one-Runs, one-IsSettled}

abbrev searchable : Engine (List ℕ)
searchable = record one_segment {
  segments =
      record (shelf_segment "/s/1" 1) {
        index = record (shelf_segment "/s/1" 1).index { index = some (7 ∷ 9 ∷ []) };
      }
      ∷ [];
}

searchable-Runs : Runs sum_bytes searchable []
searchable-Runs = record {
  started = refl;
  log = one-Runs.log;
  log_open = refl;
  log_dim = refl;
  table_dim = refl;
  table = record { distinct = (refl, tt); filled = (refl, tt) };
}

searchable-IsSettled : IsSettled 1 searchable
unfolding Segment.load_arrays MemTable.to_arrays
searchable-IsSettled = record {
  ascending = (tt, tt);
  spread = (tt, tt);
  positive = one-IsSettled.positive;
  loads = ((_, _, refl, refl), tt);
  below = one-IsSettled.below;
  above = one-IsSettled.above;
  logged = one-IsSettled.logged;
  floor_logged = one-IsSettled.floor_logged;
  unburied = one-IsSettled.unburied;
}

-- All vectors are as far away.
abbrev nowhere : Vector → Distance
nowhere v = 0

search-refines_example :
    (top : Dict IdPattern Distance) × (search toy (4 ∷ []) 3 1 none searchable
      ≡ (ok (map (λ x. x.0) top, map (λ x. x.1) top), searched toy (4 ∷ []) 3 1 searchable))
    × All (λ x. measured nowhere (view searchable x.0) ≡ some x.1) top
    × IsSortedBy (λ x. x.1) top
    × HasDistinctKeys top
    × (length top ≤ 3)
unfolding Segment.load_arrays Segment.load_ids Segment.search IvfFlat.search MemTable.to_arrays
    MemTable.search
search-refines_example =
    search-refines toy nowhere (4 ∷ []) 3 1 sum_bytes searchable-Runs searchable-IsSettled refl
      ((_, _, _, refl, refl), tt) ((_, refl, (refl, (refl, tt))), tt) (refl, tt)

search_complete_example :
    (top : Dict IdPattern Distance) × (search toy (4 ∷ []) 3 1 none searchable
      ≡ (ok (map (λ x. x.0) top, map (λ x. x.1) top), searched toy (4 ∷ []) 3 1 searchable))
    × ((lookup 7 top ≡ some 0) ⊎ ((length top ≡ 3) × All (λ x. x.1 ≤ 0) top))
unfolding Segment.load_arrays Segment.load_ids Segment.search IvfFlat.search MemTable.to_arrays
    MemTable.search MemTable.visible_deleted_ids
search_complete_example =
    search_complete toy nowhere (4 ∷ []) 3 1 sum_bytes searchable-Runs searchable-IsSettled 7 0 refl
      ((_, _, _, refl, refl), tt) ((_, refl, (refl, (refl, tt))), tt) (refl, tt) refl refl
