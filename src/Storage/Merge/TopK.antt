-- ===== src/Storage/Merge/TopK.antt =====
-- What `merge_results` and `filter_result_ids` return.
use distributed_vector_db.Prelude.{
  ℕ, ◌≤◌, ◌≡◌, refl, Option, none, some, List, [], ◌∷◌, Bool, true, false, not, ◌&&◌, ◌==◌,
  if◌then◌else◌, arith, length, length-take, All, ◌⊎◌, keep,
}
use distributed_vector_db.Prelude.Eq.{nat_eq}
use distributed_vector_db.Prelude.Dict.{lookup, HasDistinctKeys}
use distributed_vector_db.Prelude.SortedDict.{lookup-sort_by, sort_by-HasDistinctKeys}
use distributed_vector_db.Prelude.Set.{contains}
use distributed_vector_db.Prelude.Sort.{sort_by, key_lt, IsSortedBy, sort_by-IsSortedBy}
use distributed_vector_db.Arrays.{IdPattern, Distance, Hit}
use distributed_vector_db.Storage.Merge.{see_results, ranked, filter_result_ids}
use distributed_vector_db.Storage.Merge.Best.{
  best, all_hits, lookup-see_results, see_results-HasDistinctKeys,
}
use distributed_vector_db.Storage.Merge.Ranking.{
  take-HasDistinctKeys, lookup_of_take, take_complete, take-IsSortedBy,
}

-- What the hits say of an id, unless it is deleted.
abbrev pub visible_best : List IdPattern → List (List Hit) → IdPattern → Option Distance
visible_best deleted results i = if contains i deleted then none else best i (all_hits results)

module _ (results : List (List Hit)) (top_k : ℕ) (deleted : List IdPattern) where
  lookup-sorted :
      (i : IdPattern)
      → lookup i (sort_by (key_lt (λ (e : ℕ × ℕ). e.1)) (see_results deleted [] results))
        ≡ visible_best deleted results i
  lookup-sorted i = ground (
    arith,
    lookup-sort_by (key_lt (λ (e : ℕ × ℕ). e.1)) i (see_results deleted [] results)
        (see_results-HasDistinctKeys deleted [] results tt),
    lookup-see_results deleted [] results i,
  )

  -- The answer is ordered by distance, lists no id twice and has at most `top_k` entries.
  pub ranked_order :
      IsSortedBy (λ e. e.1) (ranked results top_k deleted)
      × HasDistinctKeys (ranked results top_k deleted)
      × (length (ranked results top_k deleted) ≤ top_k)
  unfolding ranked
  ranked_order =
      let seen = see_results deleted [] results in
      (
        take-IsSortedBy top_k _ (sort_by-IsSortedBy (λ e. e.1) seen),
        take-HasDistinctKeys top_k _ (
            sort_by-HasDistinctKeys (key_lt (λ (e : ℕ × ℕ). e.1)) seen
              (see_results-HasDistinctKeys deleted [] results tt)),
        omega (arith, length-take top_k (sort_by (key_lt (λ (e : ℕ × ℕ). e.1)) seen)),
      )

  -- An id in the answer is not deleted and comes with the smallest distance that any result gives it.
  pub ranked_sound :
      (i : IdPattern) (d : Distance)
      → lookup i (ranked results top_k deleted) ≡ some d
      → (contains i deleted ≡ false) × (best i (all_hits results) ≡ some d)
  unfolding ranked
  ranked_sound i d h = ground (arith, lookup_of_take i d top_k _ h, lookup-sorted i)

  -- An id that is not deleted and has a hit is in the answer with its smallest distance, or the
  -- answer is full and all its distances are at most that one.
  pub ranked_complete :
      (i : IdPattern) (d : Distance)
      → contains i deleted ≡ false
      → best i (all_hits results) ≡ some d
      → (lookup i (ranked results top_k deleted) ≡ some d)
        ⊎ ((length (ranked results top_k deleted) ≡ top_k)
            × All (λ e. e.1 ≤ d) (ranked results top_k deleted))
  unfolding ranked
  ranked_complete i d live h =
      take_complete i d top_k _ (sort_by-IsSortedBy (λ e. e.1) (see_results deleted [] results))
        (ground (arith, lookup-sorted i))

abbrev pub hit_eq : Hit → Hit → Bool
hit_eq (d, i) (e, j) = d == e && i == j

abbrev pub has_hit : Hit → List Hit → Bool
has_hit h [] = false
has_hit h (g ∷ hits) = if hit_eq h g then true else has_hit h hits

has_hit-keep :
    (d : Distance) (i : IdPattern) (hidden : List IdPattern) (hits : List Hit)
    → has_hit (d, i) (keep (λ h. not (contains h.1 hidden)) hits)
      ≡ (has_hit (d, i) hits && not (contains i hidden))
has_hit-keep d i hidden [] = refl
has_hit-keep d i hidden ((e, j) ∷ hits) = ground (arith, has_hit-keep d i hidden hits, same i j)
  where
    same : (i j : IdPattern) → i ≡ j → contains i hidden ≡ contains j hidden
    same i j p = rw p

-- A hit is kept exactly when its id is not hidden.
pub has_hit-filter_result_ids :
    (d : Distance) (i : IdPattern) (hits : List Hit) (hidden : List IdPattern)
    → has_hit (d, i) (filter_result_ids hits hidden)
      ≡ (has_hit (d, i) hits && not (contains i hidden))
unfolding filter_result_ids
has_hit-filter_result_ids d i [] [] = refl
has_hit-filter_result_ids d i [] (x ∷ hidden) = refl
has_hit-filter_result_ids d i (h ∷ hits) [] = ground arith
has_hit-filter_result_ids d i (h ∷ hits) (x ∷ hidden) = has_hit-keep d i (x ∷ hidden) (h ∷ hits)
