-- ===== src/Storage/Lsm/Compaction/MergeView.antt =====
-- vecscaledb/storage/lsm.py: what a merge takes, what it leaves alone, and what it shows.
use distributed_vector_db.Prelude.{
  ℕ, ◌<◌, ◌≤◌, ◌≡◌, refl, sym, ap, ◌∙◌, arith, Option, none, List, [], ◌∷◌, true, false, ◌&&◌, ◌||◌,
  take, drop, max_of, is_empty, All, if◌then◌else◌, String,
}
use distributed_vector_db.Prelude.Eq.{nat_eq, string_eq, beq}
use distributed_vector_db.Prelude.Dict.{lookup}
use distributed_vector_db.Prelude.SortedDict.{is_held}
use distributed_vector_db.Prelude.Pairwise.{
  All-drop, Pairwise-drop, Pairwise-cut, All-swap, max_of-lt, take-append-drop,
}
use distributed_vector_db.Prelude.Set.{contains, difference, contains-difference}
use distributed_vector_db.Arrays.{IdPattern, Vector}
use distributed_vector_db.Index.Segment.{Segment, Storage, load_arrays}
use distributed_vector_db.Index.Segment.Stored.{Loads}
use distributed_vector_db.Storage.Wal.Words.{Bytes}
use distributed_vector_db.Storage.Wal.Frame.{WalRecord}
use distributed_vector_db.Storage.MemTable
use distributed_vector_db.Storage.MemTable.EntryMap.{Rows}
use distributed_vector_db.Storage.Lsm.State.{Engine}
use distributed_vector_db.Storage.Lsm.View.{view, stored_vector, newest}
use distributed_vector_db.Storage.Lsm.Invariant.{Runs}
use distributed_vector_db.Storage.Lsm.Merging.{remove_dirs}
use distributed_vector_db.Storage.Lsm.Compaction.{drop_merged}
use distributed_vector_db.Storage.Lsm.Compaction.Shelf.{
  AllElsewhere, SameArrays, IsAscending, IsSpread, stored_vector-append, stored_vector-same,
  Loads-same, load_arrays-remove_dirs,
}
use distributed_vector_db.Storage.Lsm.Compaction.Keeps.{Keeps}
use distributed_vector_db.Storage.Lsm.Compaction.Settled.{IsSettled}
use distributed_vector_db.Storage.Lsm.Compaction.Gathering.{planned, IsPlan, newest-none}
use distributed_vector_db.Storage.Lsm.Compaction.MergeSteps.{merged_alike}

module _ {Index : Type 0} (crc32 : Bytes → ℕ) {e : Engine Index} {rs : List WalRecord} {floor : ℕ}
    (runs : Runs crc32 e rs) (settled : IsSettled floor e) where
  -- The two sides of the cut.
  abbrev pub older : List (Segment Index)
  older = take e.config.merge_threshold e.segments

  abbrev pub newer : List (Segment Index)
  newer = drop e.config.merge_threshold e.segments

  pub newer-elsewhere : All (λ s. AllElsewhere s.path older) newer
  newer-elsewhere =
      All-swap (λ s t. beq s.path t.path ≡ false) older newer
        (Pairwise-cut (λ s t. beq s.path t.path ≡ false) e.config.merge_threshold e.segments
          settled.spread)

  stored_vector-cut :
      (i : IdPattern)
      → stored_vector i e.segments e.disk
        ≡ newest (stored_vector i newer e.disk) (stored_vector i older e.disk)
  stored_vector-cut i =
      ap (λ segments. stored_vector i segments e.disk)
        (sym (take-append-drop e.config.merge_threshold e.segments))
      ∙ stored_vector-append i older newer e.disk

  -- The merged snapshot lies below the newer ones.
  pub merged-below : All (λ t. max_of (λ s. s.snapshot_id) 0 older < t.snapshot_id) newer
  merged-below =
      below newer
        (All-drop (λ s. 0 < s.snapshot_id) e.config.merge_threshold e.segments settled.positive)
        (All-swap (λ s t. s.snapshot_id < t.snapshot_id) older newer
          (Pairwise-cut (λ s t. s.snapshot_id < t.snapshot_id) e.config.merge_threshold e.segments
            settled.ascending))
    where
      below :
          (ts : List (Segment Index))
          → All (λ s. 0 < s.snapshot_id) ts
          → All (λ t. All (λ s. s.snapshot_id < t.snapshot_id) older) ts
          → All (λ t. max_of (λ s. s.snapshot_id) 0 older < t.snapshot_id) ts
      below [] p a = tt
      below (t ∷ ts) p a =
          (max_of-lt (λ s. s.snapshot_id) t.snapshot_id older p.0 a.0, below ts p.1 a.1)

  -- A disk that differs from the engine's at the older segments and at a new path only.
  pub newer-same :
      (path : String) (disk : Storage)
      → AllElsewhere path e.segments
      → ((t : Segment Index) → beq t.path path ≡ false → load_arrays t disk ≡ load_arrays t e.disk)
      → SameArrays newer e.disk (remove_dirs older disk)
  newer-same path disk a same =
      both newer newer-elsewhere
        (All-drop (λ s. beq s.path path ≡ false) e.config.merge_threshold e.segments a)
    where
      both :
          (ts : List (Segment Index))
          → All (λ s. AllElsewhere s.path older) ts
          → All (λ s. beq s.path path ≡ false) ts
          → SameArrays ts e.disk (remove_dirs older disk)
      both [] n b = tt
      both (t ∷ ts) n b = (load_arrays-remove_dirs t older disk n.0 ∙ same t b.0, both ts n.1 b.1)

  pub newer-Loads : (disk : Storage) → SameArrays newer e.disk disk → All (Loads disk) newer
  newer-Loads disk same =
      Loads-same newer e.disk disk same
        (All-drop (Loads e.disk) e.config.merge_threshold e.segments settled.loads)

  pub newer-IsAscending : IsAscending newer
  newer-IsAscending =
      Pairwise-drop (λ s t. s.snapshot_id < t.snapshot_id) e.config.merge_threshold e.segments
        settled.ascending

  pub newer-IsSpread : IsSpread newer
  newer-IsSpread =
      Pairwise-drop (λ s t. beq s.path t.path ≡ false) e.config.merge_threshold e.segments
        settled.spread

  -- No id that is buried is on both sides of the cut.
  abbrev pub NoReturn : Type 0
  NoReturn =
      (i : IdPattern)
      → (contains i e.tombstones
          && (is_held (stored_vector i older e.disk) && is_held (stored_vector i newer e.disk)))
        ≡ false

  module _ {rows : Rows} {cleaned : List IdPattern}
      (plan : IsPlan rows cleaned older e.tombstones e.disk) where
    pub unburied-difference :
        (i : IdPattern)
        → (is_held (lookup i (MemTable.to_arrays none e.memtable))
            && contains i (difference e.tombstones cleaned))
          ≡ false
    unburied-difference i =
        ground (arith, settled.unburied i, contains-difference i e.tombstones cleaned)

    -- The view of an engine that has the newer segments and the rows in the place of the older ones.
    pub view-merged :
        (i : IdPattern) (stored : Option Vector)
        → stored ≡ newest (stored_vector i newer e.disk) (lookup i rows)
        → NoReturn
        → (if contains i (MemTable.visible_deleted_ids none e.memtable)
              || contains i (difference e.tombstones cleaned)
            then none
            else newest (lookup i (MemTable.to_arrays none e.memtable)) stored)
          ≡ view e i
    view-merged i stored p c = ground (
      arith,
      p,
      stored_vector-cut i,
      plan.row i,
      plan.clean i,
      contains-difference i e.tombstones cleaned,
      merged_alike (contains i (MemTable.visible_deleted_ids none e.memtable))
          (contains i e.tombstones) (lookup i (MemTable.to_arrays none e.memtable))
          (stored_vector i newer e.disk) (stored_vector i older e.disk) (settled.unburied i) (c i),
    )

    abbrev pub dropped : Engine Index
    dropped = drop_merged (planned e.config.merge_threshold e.segments rows cleaned) e

    -- Where nothing is left to write.
    pub dropped-refines :
        (path : String)
        → AllElsewhere path e.segments
        → NoReturn
        → is_empty rows ≡ true
        → Keeps crc32 rs floor e dropped
    dropped-refines path a c h =
        let disk = remove_dirs older e.disk in
        let same = newer-same path e.disk a (λ t k. refl) in
        record {
          runs = record {
            started = runs.started;
            log = runs.log;
            log_open = runs.log_open;
            log_dim = runs.log_dim;
            table_dim = runs.table_dim;
            table = runs.table;
          };
          settled = record {
            ascending = newer-IsAscending;
            spread = newer-IsSpread;
            positive =
                All-drop (λ s. 0 < s.snapshot_id) e.config.merge_threshold e.segments
                  settled.positive;
            loads = newer-Loads disk same;
            below =
                All-drop (λ s. s.snapshot_id ≤ floor) e.config.merge_threshold e.segments
                  settled.below;
            above = settled.above;
            logged = settled.logged;
            floor_logged = settled.floor_logged;
            unburied = unburied-difference;
          };
          config = refl;
          same = λ i.
              view-merged i (stored_vector i newer disk)
                (stored_vector-same i newer e.disk disk same
                  ∙ sym (newest-none (stored_vector i newer e.disk))
                  ∙ ap (newest (stored_vector i newer e.disk)) (sym (nothing i rows h)))
                c;
        }
      where
        nothing : (i : IdPattern) (rows : Rows) → is_empty rows ≡ true → lookup i rows ≡ none
        nothing i [] h = refl
        nothing i (r ∷ rows) h = cc
