-- ===== src/Storage/Lsm/Compaction/Flushing.antt =====
-- vecscaledb/storage/lsm.py: what a flush leaves of an engine before it may merge.
use distributed_vector_db.Prelude.{
  ℕ, ◌+◌, ◌<◌, ◌≤◌, ◌≡◌, refl, sym, ap, ◌∙◌, arith, none, List, [], ◌∷◌, ◌++◌, true, false, ◌||◌,
  leb, is_empty, All-append, keep, subst, String, Bool-cases, inl, inr,
}
use distributed_vector_db.Prelude.Eq.{nat_eq, string_eq, beq}
use distributed_vector_db.Prelude.Dict.{keys, values, lookup}
use distributed_vector_db.Prelude.SortedDict.{length-keys-values}
use distributed_vector_db.Prelude.Pairwise.{All-map, Pairwise-append}
use distributed_vector_db.Prelude.Set.{contains, union, contains-union}
use distributed_vector_db.Prelude.Sort.{sort_by}
use distributed_vector_db.Arrays.{IdPattern}
use distributed_vector_db.Index.Segment.{Segment, Storage, load_arrays}
use distributed_vector_db.Index.Segment.Stored.{Loads, IsCreated}
use distributed_vector_db.Storage.Wal
use distributed_vector_db.Storage.Wal.{Wal}
use distributed_vector_db.Storage.Wal.Words.{Bytes}
use distributed_vector_db.Storage.Wal.Frame.{WalRecord}
use distributed_vector_db.Storage.Wal.Invariant.{truncate_before-Holds, truncate_before-dim}
use distributed_vector_db.Storage.MemTable
use distributed_vector_db.Storage.MemTable.{MemTable}
use distributed_vector_db.Storage.MemTable.EntryMap.{Rows}
use distributed_vector_db.Storage.Lsm.State.{Engine, segment_lt}
use distributed_vector_db.Storage.Lsm.Files.{persist_tombstones}
use distributed_vector_db.Storage.Lsm.View.{view, stored_vector, vector_in, newest}
use distributed_vector_db.Storage.Lsm.Invariant.{Runs}
use distributed_vector_db.Storage.Lsm.State.{TombstoneFile}
use distributed_vector_db.Storage.Lsm.Compaction.{capture_deletes, clear_memtable}
use distributed_vector_db.Storage.Lsm.Compaction.Shelf.{
  AllElsewhere, SameArrays, IsAscending, AllAtMost-le, stored_vector-append, stored_vector-same,
  Loads-same, last_vector-rows, sort_by-IsAscending,
}
use distributed_vector_db.Storage.Lsm.Compaction.Settled.{
  IsSettled, max_lsn_bounds, to_arrays-HasDistinctKeys,
}
use distributed_vector_db.Storage.Lsm.Compaction.MergeSteps.{after_create}

not-contains_empty : (i : IdPattern) (l : List IdPattern) → is_empty l ≡ true → contains i l ≡ false
not-contains_empty i [] h = refl
not-contains_empty i (x ∷ l) h = cc

-- A cleared MemTable says nothing of an id.
nothing_cleared :
    (i : IdPattern) (m : MemTable)
    → (lookup i (MemTable.to_arrays none (MemTable.clear m)) ≡ none)
      × (contains i (MemTable.visible_deleted_ids none (MemTable.clear m)) ≡ false)
unfolding MemTable.to_arrays MemTable.visible_deleted_ids
nothing_cleared i m = (refl, refl)

module _ {Index : Type 0} where
  abbrev pub captured : List IdPattern → TombstoneFile → Engine Index → Engine Index
  captured tombstones file e = record e { tombstones = tombstones; tombstone_file = file }

  -- The deletions of the MemTable become tombstones; nothing else changes.
  pub capture_deletes_lem :
      (e : Engine Index)
      → (tombstones : List IdPattern) × (file : TombstoneFile) × (capture_deletes e
          ≡ captured tombstones file e)
        × ((i : IdPattern)
            → contains i tombstones ≡ (
                contains i (MemTable.visible_deleted_ids none e.memtable)
                || contains i e.tombstones))
  capture_deletes_lem e =
      let deletes = MemTable.visible_deleted_ids none e.memtable in
      elim (Bool-cases (is_empty deletes)) [
        | inl h ↦ (
          e.tombstones,
          e.tombstone_file,
          rw h refl,
          λ i. rw (not-contains_empty i deletes h) refl,
        )
        | inr h ↦ (
          union deletes e.tombstones,
          (persist_tombstones
              (record e { tombstones = union deletes e.tombstones })).tombstone_file,
          rw h refl,
          λ i. contains-union i deletes e.tombstones,
        )
      ]

  module _ (crc32 : Bytes → ℕ) {e : Engine Index} {rs : List WalRecord} {floor : ℕ}
      (runs : Runs crc32 e rs) (settled : IsSettled floor e) (tombstones : List IdPattern)
      (file : TombstoneFile)
      (says : (i : IdPattern)
        → contains i tombstones ≡ (
            contains i (MemTable.visible_deleted_ids none e.memtable)
            || contains i e.tombstones)) where
    -- The state in which the segment is written.
    abbrev pub emptied : Engine Index
    emptied = clear_memtable (captured tombstones file e)

    pub emptied-Runs : Runs crc32 emptied rs
    emptied-Runs = record {
      started = runs.started;
      log = runs.log;
      log_open = runs.log_open;
      log_dim = runs.log_dim;
      table_dim = runs.table_dim;
      table = record { distinct = tt; filled = tt };
    }

    pub emptied-IsSettled : IsSettled floor emptied
    unfolding MemTable.to_arrays
    emptied-IsSettled = record {
      ascending = settled.ascending;
      spread = settled.spread;
      positive = settled.positive;
      loads = settled.loads;
      below = settled.below;
      above = tt;
      logged = tt;
      floor_logged = settled.floor_logged;
      unburied = λ i. refl;
    }

    -- With no live row, nothing is lost.
    pub emptied-view :
        (i : IdPattern)
        → is_empty (MemTable.to_arrays none e.memtable) ≡ true
        → view emptied i ≡ view e i
    unfolding MemTable.to_arrays MemTable.visible_deleted_ids
    emptied-view i h = ground (arith, says i, nothing (MemTable.to_arrays none e.memtable) h)
      where
        nothing : (rows : Rows) → is_empty rows ≡ true → lookup i rows ≡ none
        nothing [] h = refl
        nothing (r ∷ rows) h = cc

    module _ (s : Segment Index) (disk : Storage) (path : String)
        (away : AllElsewhere path e.segments)
        (some_rows : is_empty (MemTable.to_arrays none e.memtable) ≡ false)
        (made : IsCreated s
          (MemTable.max_lsn e.memtable)
          path
          (keys (MemTable.to_arrays none e.memtable))
          (values (MemTable.to_arrays none e.memtable))
          e.disk
          disk) where
      -- The state after the segment has joined the list and the log has been cut.
      abbrev pub flushed : Engine Index
      flushed = record (after_create emptied disk) {
        segments = e.segments ++ (s ∷ []);
        wal = (Wal.truncate_before crc32 (MemTable.max_lsn e.memtable + 1) e.wal).1;
      }

      between :
          (floor < MemTable.max_lsn e.memtable) × (MemTable.max_lsn e.memtable ≤ e.wal.last_lsn)
      between =
          max_lsn_bounds floor e.wal.last_lsn e.memtable settled.above settled.logged some_rows

      pub flushed-Runs :
          Runs crc32 flushed (keep (λ r. leb (MemTable.max_lsn e.memtable + 1) r.lsn) rs)
      flushed-Runs =
          let (_, held, _, up) =
            truncate_before-Holds crc32 (MemTable.max_lsn e.memtable + 1) runs.log in
          record {
            started = runs.started;
            log = held;
            log_open = up;
            log_dim =
                truncate_before-dim crc32 (MemTable.max_lsn e.memtable + 1) e.wal ∙ runs.log_dim;
            table_dim = runs.table_dim;
            table = record { distinct = tt; filled = tt };
          }

      joins-IsAscending : IsAscending (e.segments ++ (s ∷ []))
      joins-IsAscending =
          Pairwise-append (λ s t. s.snapshot_id < t.snapshot_id) e.segments s settled.ascending
            (All-map (λ t. t.snapshot_id ≤ floor) (λ t. t.snapshot_id < s.snapshot_id) e.segments
              (λ t h.
                subst (λ n. t.snapshot_id < n) (sym made.snapshot_id) (omega (arith, h, between.0)))
              settled.below)

      pub sorted-flushed : sort_by segment_lt (e.segments ++ (s ∷ [])) ≡ e.segments ++ (s ∷ [])
      sorted-flushed = sort_by-IsAscending (e.segments ++ (s ∷ [])) joins-IsAscending

      same : SameArrays e.segments e.disk disk
      same =
          All-map (λ t. beq t.path path ≡ false) (λ t. load_arrays t disk ≡ load_arrays t e.disk)
            e.segments made.others away

      pub flushed-IsSettled : IsSettled (MemTable.max_lsn e.memtable) flushed
      unfolding MemTable.to_arrays
      flushed-IsSettled = record {
        ascending = joins-IsAscending;
        spread =
            Pairwise-append (λ s t. beq s.path t.path ≡ false) e.segments s settled.spread
              (subst (λ p. AllElsewhere p e.segments) (sym made.path_of) away);
        positive =
            All-append (λ s. 0 < s.snapshot_id) e.segments (s ∷ []) settled.positive
              (subst (λ n. 0 < n) (sym made.snapshot_id) (omega (arith, between.0)), tt);
        loads =
            All-append (Loads disk) e.segments (s ∷ [])
              (Loads-same e.segments e.disk disk same settled.loads)
              ((_, _, made.arrays, length-keys-values (MemTable.to_arrays none e.memtable)), tt);
        below =
            All-append (λ s. s.snapshot_id ≤ MemTable.max_lsn e.memtable) e.segments (s ∷ [])
              (AllAtMost-le floor (MemTable.max_lsn e.memtable) e.segments
                (omega (arith, between.0)) settled.below)
              (
                subst (λ n. n ≤ MemTable.max_lsn e.memtable) (sym made.snapshot_id) (omega arith),
                tt,
              );
        above = tt;
        logged = tt;
        floor_logged =
            let (_, _, last, _) =
              truncate_before-Holds crc32 (MemTable.max_lsn e.memtable + 1) runs.log in
            subst (λ n. MemTable.max_lsn e.memtable ≤ n) (sym last) between.1;
        unburied = λ i. refl;
      }

      stored-flushed :
          (i : IdPattern)
          → stored_vector i (e.segments ++ (s ∷ [])) disk
            ≡ newest
                (lookup i (MemTable.to_arrays none e.memtable))
                (stored_vector i e.segments e.disk)
      stored-flushed i =
          let rows = MemTable.to_arrays none e.memtable in
          stored_vector-append i e.segments (s ∷ []) disk
          ∙ ap (λ a. newest (vector_in i a) (stored_vector i e.segments disk)) made.arrays
          ∙ ap (λ v. newest v (stored_vector i e.segments disk))
              (last_vector-rows i rows (to_arrays-HasDistinctKeys e.memtable runs.table.distinct))
          ∙ ap (newest (lookup i rows)) (stored_vector-same i e.segments e.disk disk same)

      pub flushed-view : (i : IdPattern) → view flushed i ≡ view e i
      flushed-view i =
          let (no_row, no_delete) = nothing_cleared i e.memtable in
          ground (arith, says i, stored-flushed i, no_row, no_delete)
