-- ===== src/Storage/Merge.antt =====
-- vecscaledb/storage/lsm.py: `merge_results` and `filter_result_ids`, which reader and coordinator
-- use too.
pub mod Best
pub mod Ranking
pub mod TopK
use distributed_vector_db.Prelude.{
  ℕ, Option, none, some, List, [], ◌∷◌, ◌++◌, map, Bool, true, false, not, ◌||◌, ltb, keep, take,
  is_empty, if◌then◌else◌,
}
use distributed_vector_db.Prelude.Eq.{nat_eq}
use distributed_vector_db.Prelude.Dict.{Dict, lookup, insert}
use distributed_vector_db.Prelude.Set.{contains}
use distributed_vector_db.Prelude.Sort.{sort_by, key_lt}
use distributed_vector_db.Arrays.{IdPattern, Distance, Hit}

-- `vector_id not in seen or float(distance) < seen[vector_id]`
abbrev pub improves : IdPattern → Distance → Dict IdPattern Distance → Bool
improves i d seen = elim (lookup i seen) [ none ↦ true | some e ↦ ltb d e ]

-- The body of the inner loop.
abbrev pub see : List IdPattern → Dict IdPattern Distance → Hit → Dict IdPattern Distance
see deleted seen (d, i) =
    if contains i deleted then seen else if improves i d seen then insert i d seen else seen

unfoldable pub see_hits :
    List IdPattern → Dict IdPattern Distance → List Hit → Dict IdPattern Distance
see_hits deleted seen [] = seen
see_hits deleted seen (h ∷ hits) = see_hits deleted (see deleted seen h) hits

unfoldable pub see_results :
    List IdPattern → Dict IdPattern Distance → List (List Hit) → Dict IdPattern Distance
unfolding see_hits
see_results deleted seen [] = seen
see_results deleted seen (r ∷ results) = see_results deleted (see_hits deleted seen r) results

-- `heapq.nsmallest(k, items, key=lambda item: item[1])`, which is `sorted(...)[:k]`
abbrev pub nsmallest : ℕ → Dict IdPattern Distance → Dict IdPattern Distance
nsmallest k items = take k (sort_by (key_lt (λ e. e.1)) items)

-- The `(id, distance)` pairs of the answer, nearest first.
unfoldable pub ranked : List (List Hit) → ℕ → List IdPattern → Dict IdPattern Distance
unfolding see_results
ranked results top_k deleted = nsmallest top_k (see_results deleted [] results)

unfoldable pub merge_results : List (List Hit) → ℕ → List IdPattern → List IdPattern × List Distance
unfolding ranked
merge_results results top_k deleted =
    let top = ranked results top_k deleted in (map (λ e. e.0) top, map (λ e. e.1) top)

unfoldable pub filter_result_ids : List Hit → List IdPattern → List Hit
filter_result_ids hits hidden =
    if is_empty hidden || is_empty hits then hits else keep (λ h. not (contains h.1 hidden)) hits
