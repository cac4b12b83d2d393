-- ===== src/Storage/Lsm/Reads/SearchRefinement.antt =====
-- vecscaledb/storage/lsm.py: `search` answers from what the engine holds.
use distributed_vector_db.Prelude.{
  ℕ, ◌≤◌, ◌≡◌, refl, sym, ap, ◌∙◌, arith, Option, none, some, List, [], true, false, not, ◌&&◌,
  ◌||◌, ltb, All, map, length, ◌==◌, inl, inr, subst, Option-cases, ◌⊎◌,
}
use distributed_vector_db.Prelude.Eq.{nat_eq}
use distributed_vector_db.Prelude.Dict.{Dict, lookup, keys, HasDistinctKeys}
use distributed_vector_db.Prelude.SortedDict.{is_held}
use distributed_vector_db.Prelude.Pairwise.{All-map}
use distributed_vector_db.Prelude.Set.{contains, union, contains-union}
use distributed_vector_db.Prelude.Sort.{IsSortedBy}
use distributed_vector_db.Prelude.Outcome.{ok}
use distributed_vector_db.Arrays.{IdPattern, Vector, Distance, Hit}
use distributed_vector_db.Index.Faiss.{Faiss}
use distributed_vector_db.Index.Segment.{Segment, load_arrays}
use distributed_vector_db.Storage.Wal.Words.{Bytes}
use distributed_vector_db.Storage.Wal.Frame.{WalRecord}
use distributed_vector_db.Storage.MemTable
use distributed_vector_db.Storage.MemTable.{MemTable}
use distributed_vector_db.Storage.MemTable.EntryMap.{Rows}
use distributed_vector_db.Storage.Merge.{ranked, merge_results}
use distributed_vector_db.Storage.Merge.Best.{all_hits}
use distributed_vector_db.Storage.Merge.TopK.{ranked_sound, ranked_order, ranked_complete}
use distributed_vector_db.Storage.Lsm.State.{Engine}
use distributed_vector_db.Storage.Lsm.View.{view, stored_vector, vector_in, newest}
use distributed_vector_db.Storage.Lsm.Invariant.{Runs}
use distributed_vector_db.Storage.Lsm.Visibility.{
  hidden_ids, newer_than, with_memtable, latest_segment_snapshot_by_id,
}
use distributed_vector_db.Storage.Lsm.Reads.{flat_search, search, hidden_at}
use distributed_vector_db.Storage.Lsm.Reads.Newest.{
  HasIds, reaches, newer_than-lookup, note_segments_total, stored_vector-newest,
}
use distributed_vector_db.Storage.Lsm.Compaction.Shelf.{AllAtMost-le}
use distributed_vector_db.Storage.Lsm.Compaction.Settled.{IsSettled}
use distributed_vector_db.Storage.Lsm.Reads.Exactness.{
  measured, All-pi, All-best, all_hits-append, visible_all, IsExact, IsExactTable, IsCurrent, Shows,
  search_segments_exact,
}
use distributed_vector_db.Storage.Lsm.Reads.SearchRun.{
  has_hit_of, has_hit_of-with_memtable, best_of_hit, to_arrays-all, deleted-all, search-all,
  All-lookup, searched, search_run,
}

module _ {Index : Type 0} (faiss : Faiss Index) (far : Vector → Distance) (query : Vector)
    (top_k nprobe : ℕ) (crc32 : Bytes → ℕ) {e : Engine Index} {rs : List WalRecord} {floor : ℕ}
    (runs : Runs crc32 e rs) (settled : IsSettled floor e) where
  abbrev rows : Rows
  rows = MemTable.to_arrays none e.memtable

  -- A row of the MemTable is the newest vector of its id.
  table_current :
      (x : Hit)
      → measured far (lookup x.1 rows) ≡ some x.0
      → measured far (newest (lookup x.1 rows) (stored_vector x.1 e.segments e.disk)) ≡ some x.0
  table_current x h = elim (Option-cases (lookup x.1 rows)) [
    | inl p ↦ absurd (ground (arith, p, h))
    | inr (v, p) ↦ ground (arith, p, h)
  ]

  -- An id that no later segment has, as far as the search has noted.
  none_above :
      (latest : Dict IdPattern ℕ) (i : IdPattern) (n : ℕ) (segments : List (Segment Index))
      → contains i (newer_than n latest) ≡ false
      → All
          (λ s.
            (is_held (vector_in i (load_arrays s e.disk))
              && not (reaches s.snapshot_id (lookup i latest)))
            ≡ false)
          segments
      → All
          (λ t. (is_held (vector_in i (load_arrays t e.disk)) && ltb n t.snapshot_id) ≡ false)
          segments
  none_above latest i n segments h covers =
      All-map _ _ segments (λ t c. above t c (lookup i latest) refl) covers
    where
      above :
          (t : Segment Index)
          → (is_held (vector_in i (load_arrays t e.disk))
              && not (reaches t.snapshot_id (lookup i latest)))
            ≡ false
          → (o : Option ℕ) → lookup i latest ≡ o
          → (is_held (vector_in i (load_arrays t e.disk)) && ltb n t.snapshot_id) ≡ false
      above t c none p = ground (arith, c, p)
      above t c (some u) p = ground (arith, c, p, newer_than-lookup i n u latest h p)

  Shows-all :
      (latest : Dict IdPattern ℕ)
      → ((i : IdPattern)
          → All
              (λ s.
                (is_held (vector_in i (load_arrays s e.disk))
                  && not (reaches s.snapshot_id (lookup i latest)))
                ≡ false)
              e.segments)
      → All
          (Shows faiss far query top_k nprobe e.segments e.disk rows
            (hidden_at e.wal.last_lsn e latest))
          e.segments
  Shows-all latest covers =
      All-pi
        (λ b s.
          s.snapshot_id ≡ b.1
          → is_held (vector_in b.0 (load_arrays s e.disk)) ≡ true
          → stored_vector b.0 e.segments e.disk ≡ vector_in b.0 (load_arrays s e.disk))
        e.segments
        (λ b.
          stored_vector-newest b.0 b.1 e.segments e.disk settled.ascending
            (none_above latest b.0 b.1 e.segments (unhidden b.0 b.1 b.2) (covers b.0)))
    where
      unhidden :
          (i : IdPattern) (n : ℕ)
          → contains i (hidden_ids (hidden_at e.wal.last_lsn e latest) n) ≡ false
          → contains i (newer_than n latest) ≡ false
      unhidden i n q =
          let h = hidden_at e.wal.last_lsn e latest in
          ground (
            arith,
            q,
            contains-union i h.deleted_ids (union h.visible_mem_ids (newer_than n latest)),
            contains-union i h.visible_mem_ids (newer_than n latest),
          )

  -- What is offered to the ranking: hits at the distances of the newest vectors, with those of the
  -- MemTable among them.
  pub search_offers :
      (length query == e.config.dim) ≡ true
      → All (HasIds e.disk) e.segments
      → All (IsExact faiss far query top_k nprobe e.disk) e.segments
      → IsExactTable faiss far query top_k nprobe e.memtable
      → (hits : List (List Hit)) × (deleted : List IdPattern) × (search faiss query top_k nprobe
            none e
          ≡ (ok (merge_results hits top_k deleted), searched faiss query top_k nprobe e))
        × ((i : IdPattern)
            → contains i deleted ≡ (
                contains i (MemTable.visible_deleted_ids none e.memtable)
                || contains i e.tombstones))
        × All
            (λ x.
              measured far (newest (lookup x.1 rows) (stored_vector x.1 e.segments e.disk))
              ≡ some x.0)
            (all_hits hits)
        × ((i : IdPattern)
            → has_hit_of i (MemTable.search (flat_search faiss) query top_k none e.memtable) ≡ true
            → has_hit_of i (all_hits hits) ≡ true)
  unfolding latest_segment_snapshot_by_id
  search_offers fits ids exact table =
      let n = e.wal.last_lsn in
      let (latest, noted, _, covers) = note_segments_total e.segments e.disk [] ids in
      let h = hidden_at n e latest in
      let (results, found, current) =
        search_segments_exact faiss far query top_k nprobe e.segments e.disk rows h e.segments
          (ap keys (to_arrays-all n e.memtable settled.logged)) (Shows-all latest covers) exact in
      let mem = MemTable.search (flat_search faiss) query top_k (some n) e.memtable in
      let same = search-all faiss query top_k n e.memtable settled.logged in
      (
        with_memtable results mem,
        h.deleted_ids,
        search_run faiss query top_k nprobe e latest results n runs.started fits refl
            (visible_all n e.segments
              (AllAtMost-le floor n e.segments settled.floor_logged settled.below))
            noted found,
        λ i.
            contains-union i (MemTable.visible_deleted_ids (some n) e.memtable) e.tombstones
            ∙ ap (λ l. contains i l || contains i e.tombstones)
                (deleted-all n e.memtable settled.logged),
        all_hits-append (IsCurrent faiss far query top_k nprobe e.segments e.disk rows h) results
            mem current
            (subst (All (IsCurrent faiss far query top_k nprobe e.segments e.disk rows h))
              (sym same)
              (All-map _ _ (MemTable.search (flat_search faiss) query top_k none e.memtable)
                table_current table)),
        λ i q.
            has_hit_of-with_memtable i results mem
              (subst (λ l. has_hit_of i l ≡ true) (sym same) q),
      )

  -- On a running engine whose segments can be read, and where faiss answers with the exact distances of the
  -- rows that an index was filled with: a search returns, gives its snapshot back, and lists at most
  -- top_k ids, none twice, nearest first, each with the distance of the vector that the engine holds
  -- for it.
  pub search-refines :
      (length query == e.config.dim) ≡ true
      → All (HasIds e.disk) e.segments
      → All (IsExact faiss far query top_k nprobe e.disk) e.segments
      → IsExactTable faiss far query top_k nprobe e.memtable
      → (top : Dict IdPattern Distance) × (search faiss query top_k nprobe none e
          ≡ (ok (map (λ x. x.0) top, map (λ x. x.1) top), searched faiss query top_k nprobe e))
        × All (λ x. measured far (view e x.0) ≡ some x.1) top
        × IsSortedBy (λ x. x.1) top
        × HasDistinctKeys top
        × (length top ≤ top_k)
  unfolding merge_results
  search-refines fits ids exact table =
      let (hits, deleted, run, says, current, _) = search_offers fits ids exact table in
      let top = ranked hits top_k deleted in
      let (sorted, distinct, short) = ranked_order hits top_k deleted in
      (
        top,
        run,
        All-lookup (λ i d. measured far (view e i) ≡ some d) top distinct
            (λ i d p. shown_view i d deleted (says i) (ranked_sound hits top_k deleted i d p).0 (
              All-best
                (λ d i.
                  measured far (newest (lookup i rows) (stored_vector i e.segments e.disk))
                  ≡ some d)
                (all_hits hits) i d current (ranked_sound hits top_k deleted i d p).1)),
        sorted,
        distinct,
        short,
      )
    where
      shown_view :
          (i : IdPattern) (d : Distance) (deleted : List IdPattern)
          → contains i deleted
            ≡ (contains i (MemTable.visible_deleted_ids none e.memtable) || contains i e.tombstones)
          → contains i deleted ≡ false
          → measured far (newest (lookup i rows) (stored_vector i e.segments e.disk)) ≡ some d
          → measured far (view e i) ≡ some d
      shown_view i d deleted p q r = ground (arith, p, q, r)

  -- On a running and settled engine whose segments can be read, and where faiss answers with the
  -- exact distances of the rows that an index was filled with: a search returns, and an id that the
  -- MemTable's search finds, and for which the engine holds a vector at the distance d, is in the
  -- answer at this distance, or the answer has top_k ids, none of them farther than d.
  pub search_complete :
      (i : IdPattern) (d : Distance)
      → (length query == e.config.dim) ≡ true
      → All (HasIds e.disk) e.segments
      → All (IsExact faiss far query top_k nprobe e.disk) e.segments
      → IsExactTable faiss far query top_k nprobe e.memtable
      → has_hit_of i (MemTable.search (flat_search faiss) query top_k none e.memtable) ≡ true
      → measured far (view e i) ≡ some d
      → (top : Dict IdPattern Distance) × (search faiss query top_k nprobe none e
          ≡ (ok (map (λ x. x.0) top, map (λ x. x.1) top), searched faiss query top_k nprobe e))
        × ((lookup i top ≡ some d) ⊎ ((length top ≡ top_k) × All (λ x. x.1 ≤ d) top))
  unfolding merge_results
  search_complete i d fits ids exact table found held =
      let (hits, deleted, run, says, current, offers) = search_offers fits ids exact table in
      let (c, nearest) = best_of_hit i (all_hits hits) (offers i found) in
      let exactly =
        All-best
          (λ d i.
            measured far (newest (lookup i rows) (stored_vector i e.segments e.disk)) ≡ some d)
          (all_hits hits) i c current nearest in
      let live : contains i deleted ≡ false = ground (arith, says i, held) in
      let same : c ≡ d = ground (arith, says i, held, exactly) in
      (
        ranked hits top_k deleted,
        run,
        ranked_complete hits top_k deleted i d live (nearest ∙ ap (λ c. some c) same),
      )
