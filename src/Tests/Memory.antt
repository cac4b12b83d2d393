-- ===== src/Tests/Memory.antt =====
-- A MemTable with a live and a deleted id, and a snapshot manager with two readers.
use distributed_vector_db.Prelude.{◌≡◌, refl, none, some, [], ◌∷◌, true, false}
use distributed_vector_db.Prelude.Eq.{nat_eq}
use distributed_vector_db.Prelude.Dict.{lookup, has_key}
use distributed_vector_db.Prelude.Set.{contains}
use distributed_vector_db.Arrays.{IdPattern, NdArray}
use distributed_vector_db.Storage.MemTable.{MemTable, to_arrays, visible_deleted_ids}
use distributed_vector_db.Storage.MemTable.EntryMap.{live_entry, dead_entry}
use distributed_vector_db.Storage.MemTable.Laws.{IsValid, visible_entries}
use distributed_vector_db.Storage.Snapshot.{
  SnapshotManager, count, create_snapshot, release_snapshot,
}
use distributed_vector_db.Storage.Snapshot.Laws.{release-create}

abbrev table : MemTable
table = record {
  dim = 1;
  flush_threshold = 10;
  entries = (7, live_entry (5 ∷ []) 1) ∷ (8, dead_entry 2) ∷ (9, live_entry (6 ∷ []) 3) ∷ [];
}

table-IsValid : IsValid table
table-IsValid = record {
  distinct = (refl, (refl, (refl, tt)));
  filled = (refl, (refl, (refl, tt)));
}

abbrev batch : NdArray
batch = record { ndim = 2; width = 1; rows = (1 ∷ []) ∷ (2 ∷ []) ∷ [] }

-- Id 9 is written after the snapshot.
visible_entries_example :
    (lookup 9 (to_arrays (some 2) table) ≡ none)
    × (contains {A = IdPattern} 9 (visible_deleted_ids (some 2) table) ≡ false)
visible_entries_example = visible_entries 9 (some 2) table table-IsValid.distinct

-- The snapshot of the deletion sees it, and the one before it does not.
deletion_seen :
    (contains {A = IdPattern} 8 (visible_deleted_ids (some 2) table) ≡ true)
    × (contains {A = IdPattern} 8 (visible_deleted_ids (some 1) table) ≡ false)
    × (lookup 7 (to_arrays (some 1) table) ≡ some (5 ∷ []))
unfolding to_arrays visible_deleted_ids
deletion_seen = (refl, refl, refl)

abbrev readers : SnapshotManager
readers = record { active = (4, 2) ∷ (9, 1) ∷ [] }

release-create_example :
    (count 4 (release_snapshot 9 (create_snapshot 9 readers).1).active ≡ 2)
    × (has_key 9 (release_snapshot 9 (create_snapshot 9 readers).1).active ≡ true)
unfolding create_snapshot
release-create_example = release-create 9 4 readers
