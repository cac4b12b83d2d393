-- ===== src/Writer/Pipeline/Grouping.antt =====
-- vecscaledb/writer/pipeline.py: each vector goes to the shard of its id, in the order of the batch.
use distributed_vector_db.Prelude.{
  ℕ, ◌<◌, ◌≡◌, sym, arith, List, [], ◌∷◌, ◌++◌, ◌==◌, length, keep, if◌then◌else◌, ==_iff,
}
use mathlib.Core.List.{append_assoc, append-nil}
use distributed_vector_db.Prelude.Eq.{nat_eq}
use distributed_vector_db.Prelude.Dict.{Dict, insert, lookup-insert}
use distributed_vector_db.Arrays.{IdPattern, Vector}
use distributed_vector_db.Writer.Pipeline.{shard_of, Group, group_of, group_rows}

-- Where there are shards, the shard of an id is one of them.
pub shard_of-bound : (n : ℕ) (id : IdPattern) → 0 < n → shard_of n id < n
unfolding shard_of
shard_of-bound n id h = ground arith

-- The rows of the ids of one shard.
abbrev pub own_rows : ℕ → ℕ → List IdPattern → List Vector → List Vector
own_rows n shard [] rows = []
own_rows n shard (i ∷ ids) [] = []
own_rows n shard (i ∷ ids) (v ∷ rows) =
    if shard_of n i == shard then v ∷ own_rows n shard ids rows else own_rows n shard ids rows

abbrev pub own_ids : ℕ → ℕ → List IdPattern → List IdPattern
own_ids n shard ids = keep (λ i. shard_of n i == shard) ids

-- Behind what a group holds already stand the shard's ids and rows of the rest of the batch.
group_of-group_rows :
    (n shard : ℕ) (ids : List IdPattern) (rows : List Vector) (groups : Dict ℕ Group)
    → length ids ≡ length rows
    → ((group_of shard (group_rows n ids rows groups)).0
        ≡ (group_of shard groups).0 ++ own_ids n shard ids)
      × ((group_of shard (group_rows n ids rows groups)).1
          ≡ (group_of shard groups).1 ++ own_rows n shard ids rows)
unfolding group_rows
group_of-group_rows n shard [] [] groups h =
    (sym (append-nil (group_of shard groups).0), sym (append-nil (group_of shard groups).1))
group_of-group_rows n shard (i ∷ ids) [] groups h = ground arith
group_of-group_rows n shard [] (v ∷ rows) groups h = ground arith
group_of-group_rows n shard (i ∷ ids) (v ∷ rows) groups h =
    let g = group_of (shard_of n i) groups in
    let rest =
      group_of-group_rows n shard ids rows
        (insert (shard_of n i) (g.0 ++ (i ∷ []), g.1 ++ (v ∷ [])) groups) (omega (arith, h)) in
    (
      ground (
        arith,
        rest.0,
        append_assoc g.0 (i ∷ []) (own_ids n shard ids),
        lookup-insert shard (shard_of n i) (g.0 ++ (i ∷ []), g.1 ++ (v ∷ [])) groups,
        ==_iff shard (shard_of n i),
        ==_iff (shard_of n i) shard,
      ),
      ground (
        arith,
        rest.1,
        append_assoc g.1 (v ∷ []) (own_rows n shard ids rows),
        lookup-insert shard (shard_of n i) (g.0 ++ (i ∷ []), g.1 ++ (v ∷ [])) groups,
        ==_iff shard (shard_of n i),
        ==_iff (shard_of n i) shard,
      ),
    )

-- The group of a shard holds the ids of the batch that belong to the shard, in order, and beside them
-- their vectors, if the batch has a vector for each id.
pub group_rows_lem :
    (n shard : ℕ) (ids : List IdPattern) (rows : List Vector)
    → length ids ≡ length rows
    → group_of shard (group_rows n ids rows []) ≡ (own_ids n shard ids, own_rows n shard ids rows)
group_rows_lem n shard ids rows h = ground (arith, group_of-group_rows n shard ids rows [] h)
