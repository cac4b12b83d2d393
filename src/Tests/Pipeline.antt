-- ===== src/Tests/Pipeline.antt =====
-- Two shards.
use distributed_vector_db.Prelude.{◌≡◌, refl, List, [], ◌∷◌}
use distributed_vector_db.Arrays.{Vector}
use distributed_vector_db.Writer.Pipeline.{shard_of, group_of, group_rows}
use distributed_vector_db.Writer.Pipeline.Grouping.{group_rows_lem}

-- Id -1 belongs to shard 1 of 2.
shard_of_minus_one : shard_of 2 18446744073709551615 ≡ 1
unfolding shard_of
shard_of_minus_one = refl

abbrev rows : List Vector
rows = (1 ∷ []) ∷ (2 ∷ []) ∷ (3 ∷ []) ∷ []

group_rows_lem_example :
    group_of 1 (group_rows 2 (5 ∷ 6 ∷ 7 ∷ []) rows []) ≡ (5 ∷ 7 ∷ [], (1 ∷ []) ∷ (3 ∷ []) ∷ [])
unfolding shard_of
group_rows_lem_example = group_rows_lem 2 1 (5 ∷ 6 ∷ 7 ∷ []) rows refl
