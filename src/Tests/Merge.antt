-- ===== src/Tests/Merge.antt =====
-- `merge_results` and `filter_result_ids` on two small results.
use distributed_vector_db.Prelude.{ℕ, ◌≤◌, ◌≡◌, refl, some, List, [], ◌∷◌, false, length, All, ◌⊎◌}
use distributed_vector_db.Prelude.Eq.{nat_eq}
use distributed_vector_db.Prelude.Dict.{lookup, HasDistinctKeys}
use distributed_vector_db.Prelude.Set.{contains}
use distributed_vector_db.Prelude.Sort.{IsSortedBy}
use distributed_vector_db.Arrays.{Hit}
use distributed_vector_db.Storage.Merge.{ranked, merge_results}
use distributed_vector_db.Storage.Merge.Best.{best, all_hits}
use distributed_vector_db.Storage.Merge.TopK.{ranked_order, ranked_sound, ranked_complete}

-- Id 7 comes from both segments, id 9 is deleted.
abbrev results : List (List Hit)
results = ((4, 7) ∷ (6, 8) ∷ []) ∷ ((1, 9) ∷ (2, 7) ∷ (5, 3) ∷ []) ∷ []

merge_results-runs : merge_results results 2 (9 ∷ []) ≡ (7 ∷ 3 ∷ [], 2 ∷ 5 ∷ [])
unfolding merge_results
merge_results-runs = refl

ranked_order_example :
    IsSortedBy (λ e. e.1) (ranked results 2 (9 ∷ []))
    × HasDistinctKeys (ranked results 2 (9 ∷ []))
    × (length (ranked results 2 (9 ∷ [])) ≤ 2)
ranked_order_example = ranked_order results 2 (9 ∷ [])

ranked_sound_example : (contains {A = ℕ} 7 (9 ∷ []) ≡ false) × (best 7 (all_hits results) ≡ some 2)
unfolding ranked
ranked_sound_example = ranked_sound results 2 (9 ∷ []) 7 2 refl

ranked_complete_example :
    (lookup 8 (ranked results 2 (9 ∷ [])) ≡ some 6)
    ⊎ ((length (ranked results 2 (9 ∷ [])) ≡ 2) × All (λ e. e.1 ≤ 6) (ranked results 2 (9 ∷ [])))
ranked_complete_example = ranked_complete results 2 (9 ∷ []) 8 6 refl refl
