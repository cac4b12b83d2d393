-- ===== src/Reader/Cache/Answers.antt =====
-- vecscaledb/reader/search.py: what `search_all` answers.
use distributed_vector_db.Prelude.{
  ℕ, ◌≡◌, ◌⊎◌, refl, arith, some, List, [], ◌∷◌, ◌++◌, Bool, true, false, not, ◌&&◌, ◌||◌, ◌==◌,
  keep, map, subst, leb, if◌then◌else◌, String, Option-cases, Bool-cases, inl, inr, ==_iff,
}
use distributed_vector_db.Prelude.Eq.{nat_eq, string_eq}
use distributed_vector_db.Prelude.Dict.{Dict, lookup}
use distributed_vector_db.Prelude.Set.{contains, contains-union}
use distributed_vector_db.Prelude.Outcome.{ok, Outcome-cases}
use distributed_vector_db.Arrays.{IdPattern, Vector, Distance, Hit}
use distributed_vector_db.Index.Faiss.{Faiss}
use distributed_vector_db.Index.Segment
use distributed_vector_db.Index.Segment.{Segment}
use distributed_vector_db.Storage.Merge.{merge_results, ranked, filter_result_ids}
use distributed_vector_db.Storage.Merge.Best.{best, all_hits}
use distributed_vector_db.Storage.Merge.TopK.{ranked_sound}
use distributed_vector_db.Reader.Cache.Visibility.{hides}
use distributed_vector_db.Reader.Cache.{
  SegmentCache, move_to_end, hidden_in, visible_segments, search_cached, search_all,
}

-- Whether some hit has the id.
abbrev pub mentions : IdPattern → List Hit → Bool
mentions i [] = false
mentions i ((d, j) ∷ hits) = if i == j then true else mentions i hits

mentions_of_best :
    (i : IdPattern) (d : Distance) (hits : List Hit) → best i hits ≡ some d → mentions i hits ≡ true
mentions_of_best i d [] h = ground arith
mentions_of_best i d ((e, j) ∷ hits) h = elim (Option-cases (best i hits)) [
  | inl p ↦ ground (arith, p)
  | inr (f, p) ↦ ground (arith, p, mentions_of_best i f hits p)
]

mentions-append :
    (i : IdPattern) (xs ys : List Hit) → mentions i (xs ++ ys) ≡ (mentions i xs || mentions i ys)
mentions-append i [] ys = refl
mentions-append i ((d, j) ∷ xs) ys = ground (arith, mentions-append i xs ys)

mentions-keep :
    (i : IdPattern) (hidden : List IdPattern) (hits : List Hit)
    → mentions i (keep (λ h. not (contains h.1 hidden)) hits)
      ≡ (mentions i hits && not (contains i hidden))
mentions-keep i hidden [] = refl
mentions-keep i hidden ((d, j) ∷ hits) = ground (arith, mentions-keep i hidden hits, ==_iff i j)

mentions-filter_result_ids :
    (i : IdPattern) (hits : List Hit) (hidden : List IdPattern)
    → mentions i (filter_result_ids hits hidden) ≡ (mentions i hits && not (contains i hidden))
unfolding filter_result_ids
mentions-filter_result_ids i [] [] = refl
mentions-filter_result_ids i [] (x ∷ hidden) = refl
mentions-filter_result_ids i (h ∷ hits) [] = ground arith
mentions-filter_result_ids i (h ∷ hits) (x ∷ hidden) = mentions-keep i (x ∷ hidden) (h ∷ hits)

lookup_of_contains :
    (i : IdPattern) (d : Dict IdPattern Distance)
    → contains i (map (λ e. e.0) d) ≡ true
    → (x : Distance) × (lookup i d ≡ some x)
lookup_of_contains i [] h = ground arith
lookup_of_contains i ((j, x) ∷ d) h = elim (Bool-cases (i == j)) [
  | inl p ↦ (x, ground (arith, p))
  | inr p ↦ let (y, q) = lookup_of_contains i d (ground (arith, p, h)) in (y, ground (arith, p, q))
]

module _ {Index : Type 0} (faiss : Faiss Index) (query : Vector) (top_k nprobe : ℕ) where
  -- A cached segment whose snapshot is not above the reader's found the id, and the index of hidden
  -- ids does not have the id under that segment.
  abbrev pub IsOffered :
      IdPattern → ℕ → Dict String (List IdPattern) → Dict String (Segment Index) → Type 0
  IsOffered i snapshot_id index [] = ⊥
  IsOffered i snapshot_id index ((id, s) ∷ segments) =
      ((hits : List Hit) × (Segment.search faiss query top_k nprobe s ≡ ok hits)
        × (mentions i hits ≡ true)
        × (leb s.snapshot_id snapshot_id ≡ true)
        × (hides i (lookup id index) ≡ false))
      ⊎ IsOffered i snapshot_id index segments

  -- A hit of one of the segments has the id, and the id is not hidden in that segment.
  abbrev IsFound : IdPattern → (String → List IdPattern) → Dict String (Segment Index) → Type 0
  IsFound i hidden [] = ⊥
  IsFound i hidden ((id, s) ∷ segments) =
      ((hits : List Hit) × (Segment.search faiss query top_k nprobe s ≡ ok hits)
        × (mentions i hits ≡ true)
        × (contains i (hidden id) ≡ false))
      ⊎ IsFound i hidden segments

  search_cached-IsFound :
      (i : IdPattern) (visible : Dict String (Segment Index)) (c : SegmentCache Index)
      (results : List (List Hit))
      → (search_cached faiss query top_k nprobe visible c).0 ≡ ok results
      → mentions i (all_hits results) ≡ true
      → IsFound i (hidden_in c) visible
  unfolding search_cached
  search_cached-IsFound i [] c results h m = ground arith
  search_cached-IsFound i ((id, s) ∷ visible) c results h m =
      elim (Outcome-cases (Segment.search faiss query top_k nprobe s)) [
        | inl (x, p) ↦ ground (arith, p)
        | inr (hits, p) ↦
            let c' : SegmentCache Index = record c { segments = move_to_end id c.segments } in
            elim (Outcome-cases (search_cached faiss query top_k nprobe visible c').0) [
              | inl (x, q) ↦ ground (arith, p, q)
              | inr (rest, q) ↦
                  elim (Bool-cases (mentions i (filter_result_ids hits (hidden_in c id)))) [
                    | inl k ↦ inl (
                      hits,
                      p,
                      ground (arith, k, mentions-filter_result_ids i hits (hidden_in c id)),
                      ground (arith, k, mentions-filter_result_ids i hits (hidden_in c id)),
                    )
                    | inr k ↦ inr (
                        search_cached-IsFound i visible c' rest q (
                          ground (
                            arith,
                            p,
                            q,
                            k,
                            mentions-append i (filter_result_ids hits (hidden_in c id))
                                (all_hits rest),
                          )))
                  ]
            ]
      ]

  hides_of_hidden_in :
      (i : IdPattern) (id : String) (c : SegmentCache Index)
      → contains i (hidden_in c id) ≡ false
      → hides i (lookup id c.segment_hidden_ids) ≡ false
  hides_of_hidden_in i id c h = elim (Option-cases (lookup id c.segment_hidden_ids)) [
    | inl p ↦ ground (arith, p)
    | inr (hidden, p) ↦ ground (arith, p, h, contains-union i hidden c.tombstones)
  ]

  -- A snapshot's own part of a dictionary that starts with a segment.
  abbrev after_test :
      Bool → String → Segment Index → Dict String (Segment Index) → Dict String (Segment Index)
  after_test b id s rest = if b then (id, s) ∷ rest else rest

  IsFound-IsOffered :
      (i : IdPattern) (snapshot_id : ℕ) (c : SegmentCache Index)
      (segments : Dict String (Segment Index))
      → IsFound i (hidden_in c) (keep (λ e. leb e.1.snapshot_id snapshot_id) segments)
      → IsOffered i snapshot_id c.segment_hidden_ids segments
  IsFound-IsOffered i snapshot_id c [] f = f
  IsFound-IsOffered i snapshot_id c ((id, s) ∷ segments) f =
      let rest : Dict String (Segment Index) =
        keep (λ e. leb e.1.snapshot_id snapshot_id) segments in
      elim (Bool-cases (leb s.snapshot_id snapshot_id)) [
        | inr p ↦ inr (
            IsFound-IsOffered i snapshot_id c segments
              (subst (λ b. IsFound i (hidden_in c) (after_test b id s rest)) p f))
        | inl p ↦
            let g = subst (λ b. IsFound i (hidden_in c) (after_test b id s rest)) p f in
            elim g [
              | inl (hits, found, m, h) ↦ inl (hits, found, m, p, hides_of_hidden_in i id c h)
              | inr k ↦ inr (IsFound-IsOffered i snapshot_id c segments k)
            ]
      ]

  -- An id that a search answers is not deleted, and a cached segment found it whose snapshot is not above
  -- the reader's and under which the index of hidden ids does not have it.
  pub search_all_sound :
      (i : IdPattern) (snapshot_id : ℕ) (c : SegmentCache Index) (ids : List IdPattern)
      (distances : List Distance)
      → (search_all faiss query top_k nprobe snapshot_id c).0 ≡ ok (ids, distances)
      → contains i ids ≡ true
      → (contains i c.tombstones ≡ false) × IsOffered i snapshot_id c.segment_hidden_ids c.segments
  unfolding search_all merge_results
  search_all_sound i snapshot_id c ids distances h k =
      elim (Outcome-cases
        (search_cached faiss query top_k nprobe (visible_segments snapshot_id c) c).0) [
          | inl (x, p) ↦ ground (arith, p)
          | inr (results, p) ↦
              let (d, q) =
                lookup_of_contains i (ranked results top_k c.tombstones)
                  (ground (arith, p, h, k)) in
              let sound = ranked_sound results top_k c.tombstones i d q in
              (
                sound.0,
                IsFound-IsOffered i snapshot_id c c.segments (
                    search_cached-IsFound i (visible_segments snapshot_id c) c results p
                      (mentions_of_best i d (all_hits results) sound.1)),
              )
        ]
