-- ===== src/Storage/Lsm/Compaction/MergeRefinement.antt =====
-- vecscaledb/storage/lsm.py: a merge keeps what the engine holds.
use distributed_vector_db.Prelude.{
  ℕ, ◌+◌, ◌<◌, ◌≤◌, ◌≡◌, refl, sym, ap, ◌∙◌, arith, Option, none, some, List, [], ◌∷◌, false, ltb,
  length, max_of, is_empty, All, subst, length-drop, String, Bool-cases, inl, inr,
}
use distributed_vector_db.Prelude.Eq.{nat_eq, string_eq, beq}
use distributed_vector_db.Prelude.Dict.{keys, values}
use distributed_vector_db.Prelude.SortedDict.{length-keys-values}
use distributed_vector_db.Prelude.Pairwise.{All-take, All-drop}
use distributed_vector_db.Prelude.Sort.{sort_by}
use distributed_vector_db.Prelude.Outcome.{ok}
use distributed_vector_db.Arrays.{IdPattern}
use distributed_vector_db.Index.Faiss.{Faiss}
use distributed_vector_db.Index.Segment.{Segment, Storage, load_arrays}
use distributed_vector_db.Index.Segment.Stored.{Loads, IsCreated}
use distributed_vector_db.Storage.Wal.Words.{Bytes}
use distributed_vector_db.Storage.Wal.Frame.{WalRecord}
use distributed_vector_db.Storage.MemTable.EntryMap.{Rows}
use distributed_vector_db.Storage.Lsm.State.{Engine, segment_lt}
use distributed_vector_db.Storage.Lsm.View.{view, stored_vector, vector_in, newest}
use distributed_vector_db.Storage.Lsm.Invariant.{Runs}
use distributed_vector_db.Storage.Lsm.Merging.{remove_dirs}
use distributed_vector_db.Storage.Lsm.Compaction.{install_merged, merge}
use distributed_vector_db.Storage.Lsm.Compaction.Shelf.{
  AllElsewhere, SameArrays, IsAscending, IsSpread, stored_vector-same, load_arrays-remove_dirs,
  last_vector-rows, sort_by-IsAscending, AllElsewhere-sym, AllAtMost-max,
}
use distributed_vector_db.Storage.Lsm.Compaction.Keeps.{Keeps, IsShorter}
use distributed_vector_db.Storage.Lsm.Compaction.Settled.{IsSettled}
use distributed_vector_db.Storage.Lsm.Compaction.Gathering.{planned, plan_merge_total, IsPlan}
use distributed_vector_db.Storage.Lsm.Compaction.MergeSteps.{
  segment_path, after_create, create_segment_total, merge_lem, planned_nothing, planned_segment,
}
use distributed_vector_db.Storage.Lsm.Compaction.MergeView.{
  older, newer, newer-same, newer-Loads, newer-IsAscending, newer-IsSpread, merged-below, NoReturn,
  unburied-difference, view-merged, dropped, dropped-refines,
}

-- Something is written only where something was merged.
older-positive :
    {Index : Type 0} (segments : List (Segment Index)) (rows : Rows) (tombstones : List IdPattern)
    (cleaned : List IdPattern) (disk : Storage)
    → All (λ s. 0 < s.snapshot_id) segments
    → IsPlan rows cleaned segments tombstones disk
    → is_empty rows ≡ false
    → 0 < max_of (λ s. s.snapshot_id) 0 segments
older-positive [] [] tombstones cleaned disk p plan h = cc
older-positive [] ((j, v) ∷ rows) tombstones cleaned disk p plan h =
    ground (arith, plan.row j, nat_eq.beq_iff j j)
older-positive (s ∷ segments) rows tombstones cleaned disk p plan h = omega (arith, p.0)

module _ {Index : Type 0} (crc32 : Bytes → ℕ) {e : Engine Index} {rs : List WalRecord} {floor : ℕ}
    (runs : Runs crc32 e rs) (settled : IsSettled floor e) where
  module _ {rows : Rows} {cleaned : List IdPattern}
      (plan : IsPlan rows cleaned (older crc32 runs settled) e.tombstones e.disk) where
    abbrev pub installed : Segment Index → Storage → Engine Index
    installed s disk =
        install_merged (planned e.config.merge_threshold e.segments rows cleaned) s
          (after_create e disk)

    -- The same, where the list of segments needs no sorting.
    abbrev shelved : Segment Index → Storage → Engine Index
    shelved s disk = record (installed s disk) { segments = s ∷ newer crc32 runs settled }

    module _ (path : String) (s : Segment Index) (disk : Storage)
        (away : AllElsewhere path e.segments) (kept : NoReturn crc32 runs settled)
        (some_rows : is_empty rows ≡ false)
        (made : IsCreated s
          (max_of (λ s. s.snapshot_id) 0 (older crc32 runs settled))
          path
          (keys rows)
          (values rows)
          e.disk
          disk) where
      merged_first : IsAscending (s ∷ newer crc32 runs settled)
      merged_first = (
        subst (λ n. All (λ t. n < t.snapshot_id) (newer crc32 runs settled)) (sym made.snapshot_id)
            (merged-below crc32 runs settled),
        newer-IsAscending crc32 runs settled,
      )

      merged_apart : IsSpread (s ∷ newer crc32 runs settled)
      merged_apart = (
        subst (λ p. All (λ t. beq p t.path ≡ false) (newer crc32 runs settled)) (sym made.path_of)
            (AllElsewhere-sym path (newer crc32 runs settled)
              (All-drop (λ t. beq t.path path ≡ false) e.config.merge_threshold e.segments away)),
        newer-IsSpread crc32 runs settled,
      )

      same :
          SameArrays (newer crc32 runs settled) e.disk (remove_dirs (older crc32 runs settled) disk)
      same = newer-same crc32 runs settled path disk away made.others

      arrays_kept :
          load_arrays s (remove_dirs (older crc32 runs settled) disk) ≡ ok (keys rows, values rows)
      arrays_kept =
          load_arrays-remove_dirs s (older crc32 runs settled) disk (
            subst (λ p. AllElsewhere p (older crc32 runs settled)) (sym made.path_of)
              (All-take (λ t. beq t.path path ≡ false) e.config.merge_threshold e.segments away))
          ∙ made.arrays

      shelved-IsSettled : IsSettled floor (shelved s disk)
      shelved-IsSettled = record {
        ascending = merged_first;
        spread = merged_apart;
        positive = (
          subst (λ n. 0 < n) (sym made.snapshot_id)
              (older-positive (older crc32 runs settled) rows e.tombstones cleaned e.disk
                (All-take (λ s. 0 < s.snapshot_id) e.config.merge_threshold e.segments
                  settled.positive)
                plan some_rows),
          All-drop (λ s. 0 < s.snapshot_id) e.config.merge_threshold e.segments settled.positive,
        );
        loads = (
          (keys rows, values rows, arrays_kept, length-keys-values rows),
          newer-Loads crc32 runs settled (remove_dirs (older crc32 runs settled) disk) same,
        );
        below = (
          subst (λ n. n ≤ floor) (sym made.snapshot_id)
              (AllAtMost-max floor (older crc32 runs settled) (
                All-take (λ s. s.snapshot_id ≤ floor) e.config.merge_threshold e.segments
                  settled.below)),
          All-drop (λ s. s.snapshot_id ≤ floor) e.config.merge_threshold e.segments settled.below,
        );
        above = settled.above;
        logged = settled.logged;
        floor_logged = settled.floor_logged;
        unburied = unburied-difference crc32 runs settled plan;
      }

      shelved-view : (i : IdPattern) → view (shelved s disk) i ≡ view e i
      shelved-view i =
          view-merged crc32 runs settled plan i
            (stored_vector i (s ∷ newer crc32 runs settled)
              (remove_dirs (older crc32 runs settled) disk))
            (ap
                (λ v.
                  newest v
                    (vector_in i (load_arrays s (remove_dirs (older crc32 runs settled) disk))))
                (stored_vector-same i (newer crc32 runs settled) e.disk
                  (remove_dirs (older crc32 runs settled) disk) same)
              ∙ ap (λ a. newest (stored_vector i (newer crc32 runs settled) e.disk) (vector_in i a))
                  arrays_kept
              ∙ ap (newest (stored_vector i (newer crc32 runs settled) e.disk))
                  (last_vector-rows i rows plan.distinct))
            kept

      pub installed-sorted :
          sort_by segment_lt (s ∷ newer crc32 runs settled) ≡ s ∷ newer crc32 runs settled
      installed-sorted = sort_by-IsAscending (s ∷ newer crc32 runs settled) merged_first

      -- Where a segment is written.
      pub installed-refines : Keeps crc32 rs floor e (installed s disk)
      installed-refines =
          let sorted : installed s disk ≡ shelved s disk =
            ap (λ l. record (installed s disk) { segments = l }) installed-sorted in
          record {
            runs = record {
              started = runs.started;
              log = runs.log;
              log_open = runs.log_open;
              log_dim = runs.log_dim;
              table_dim = runs.table_dim;
              table = runs.table;
            };
            settled = subst (IsSettled floor) (sym sorted) shelved-IsSettled;
            config = refl;
            same = λ i. ap (λ e. view e i) sorted ∙ shelved-view i;
          }

  newer-length :
      ltb (length e.segments) e.config.merge_threshold ≡ false
      → length (newer crc32 runs settled) + e.config.merge_threshold ≡ length e.segments
  newer-length enough = ground (arith, enough, length-drop e.config.merge_threshold e.segments)

  -- A merge that has enough segments replaces the older ones by one at most, leaves the MemTable alone,
  -- and what the engine holds stays.

  -- A merge of a running and settled engine that has enough segments, where the next uuid is fresh
  -- and no buried id is both in a segment that is merged and in one that is not, returns: it
  -- replaces the merged segments by one at most, and keeps the MemTable, the log and what the engine
  -- holds.
  pub merge-refines :
      (faiss : Faiss Index) (uuid : ℕ → String)
      → ltb (length e.segments) e.config.merge_threshold ≡ false
      → AllElsewhere
          (segment_path uuid e (max_of (λ s. s.snapshot_id) 0 (older crc32 runs settled)))
          e.segments
      → NoReturn crc32 runs settled
      → (o : Option (Segment Index)) × (e' : Engine Index) × (merge faiss uuid e ≡ (ok o, e'))
        × Keeps crc32 rs floor e e'
        × IsShorter e.config.merge_threshold e e'
        × (e'.memtable ≡ e.memtable)
  merge-refines faiss uuid enough away kept =
      let (rows, cleaned, p, plan) =
        plan_merge_total e.config.merge_threshold e.segments e.tombstones e.disk
          (All-take (Loads e.disk) e.config.merge_threshold e.segments settled.loads) in
      let m = planned e.config.merge_threshold e.segments rows cleaned in
      let snapshot = max_of (λ s. s.snapshot_id) 0 (older crc32 runs settled) in
      let path = segment_path uuid e snapshot in
      let run = merge_lem faiss uuid e m runs.started enough p in
      elim (Bool-cases (is_empty rows)) [
        | inl h ↦ (
          none,
          dropped crc32 runs settled plan,
          run ∙ planned_nothing faiss uuid e m h,
          dropped-refines crc32 runs settled plan path away kept h,
          omega (arith, newer-length enough),
          refl,
        )
        | inr h ↦
            let (s, disk, created, made) = create_segment_total faiss uuid snapshot rows e in
            (
              some s,
              installed plan s disk,
              run ∙ planned_segment faiss uuid e m s disk h created,
              installed-refines plan path s disk away kept h made,
              subst (λ l. length l + e.config.merge_threshold ≤ length e.segments + 1)
                  (sym (installed-sorted plan path s disk away kept h made))
                  (omega (arith, newer-length enough)),
              refl,
            )
      ]
