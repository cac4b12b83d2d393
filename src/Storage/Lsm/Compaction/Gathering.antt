-- ===== src/Storage/Lsm/Compaction/Gathering.antt =====
-- vecscaledb/storage/lsm.py: what `merge` gathers from the segments that it merges.
use distributed_vector_db.Prelude.{
  ℕ, ◌≡◌, refl, ◌∙◌, arith, Option, none, some, List, [], ◌∷◌, Bool, not, ◌&&◌, All, keep, take,
  drop, if◌then◌else◌, max_of,
}
use distributed_vector_db.Prelude.Eq.{nat_eq}
use distributed_vector_db.Prelude.Dict.{
  keys, lookup, has_key, insert, lookup-insert, HasDistinctKeys, insert-HasDistinctKeys,
}
use distributed_vector_db.Prelude.SortedDict.{
  is_held, contains-keys, lookup-keep, keep-HasDistinctKeys, lookup-sort_by,
  sort_by-HasDistinctKeys,
}
use distributed_vector_db.Prelude.Set.{contains, contains-keep}
use distributed_vector_db.Prelude.Sort.{sort_by, key_lt}
use distributed_vector_db.Prelude.Outcome.{ok}
use distributed_vector_db.Arrays.{IdPattern, Vector, signed_key}
use distributed_vector_db.Index.Segment.{Segment, Storage}
use distributed_vector_db.Index.Segment.Stored.{Loads}
use distributed_vector_db.Storage.MemTable.Laws.{last_vector}
use distributed_vector_db.Storage.MemTable.EntryMap.{Rows}
use distributed_vector_db.Storage.Lsm.Merging.{
  Latest, note_rows, gather, vectors_of, Merged, plan_merge,
}
use distributed_vector_db.Storage.Lsm.View.{stored_vector, newest, newest_assoc}

abbrev pub noted : Option (ℕ × Vector) → Option Vector
noted none = none
noted (some (t, v)) = some v

noted-note_rows :
    (i : IdPattern) (t : ℕ) (ids : List IdPattern) (vs : List Vector) (latest : Latest)
    → noted (lookup i (note_rows t ids vs latest))
      ≡ newest (last_vector i ids vs) (noted (lookup i latest))
unfolding note_rows
noted-note_rows i t [] vs latest = refl
noted-note_rows i t (j ∷ ids) [] latest = refl
noted-note_rows i t (j ∷ ids) (v ∷ vs) latest =
    ground
      (arith, noted-note_rows i t ids vs (insert j (t, v) latest), lookup-insert i j (t, v) latest)

note_rows-HasDistinctKeys :
    (t : ℕ) (ids : List IdPattern) (vs : List Vector) (latest : Latest)
    → HasDistinctKeys latest
    → HasDistinctKeys (note_rows t ids vs latest)
unfolding note_rows
note_rows-HasDistinctKeys t [] vs latest u = u
note_rows-HasDistinctKeys t (j ∷ ids) [] latest u = u
note_rows-HasDistinctKeys t (j ∷ ids) (v ∷ vs) latest u =
    note_rows-HasDistinctKeys t ids vs (insert j (t, v) latest)
      (insert-HasDistinctKeys j (t, v) latest u)

-- Segments that are on disk are gathered, and the newest vector of each id is kept.
gather_total :
    {Index : Type 0} (segments : List (Segment Index)) (disk : Storage) (latest : Latest)
    → All (Loads disk) segments
    → HasDistinctKeys latest
    → (found : Latest) × (gather segments disk latest ≡ ok found)
      × HasDistinctKeys found
      × ((i : IdPattern)
          → noted (lookup i found)
            ≡ newest (stored_vector i segments disk) (noted (lookup i latest)))
unfolding gather
gather_total [] disk latest l u = (latest, refl, u, λ i. refl)
gather_total (s ∷ segments) disk latest l u =
    let (ids, vs, loaded, _) = l.0 in
    let (found, done, distinct, says) =
      gather_total segments disk (note_rows s.snapshot_id ids vs latest) l.1
        (note_rows-HasDistinctKeys s.snapshot_id ids vs latest u) in
    (
      found,
      ground (arith, loaded, done),
      distinct,
      λ i. ground (
        arith,
        says i,
        loaded,
        noted-note_rows i s.snapshot_id ids vs latest,
        newest_assoc (stored_vector i segments disk) (last_vector i ids vs)
            (noted (lookup i latest)),
      ),
    )

lookup-vectors_of :
    (i : IdPattern) (latest : Latest) → lookup i (vectors_of latest) ≡ noted (lookup i latest)
lookup-vectors_of i [] = refl
lookup-vectors_of i ((j, (t, v)) ∷ latest) = ground (arith, lookup-vectors_of i latest)

has_key-vectors_of :
    (i : IdPattern) (latest : Latest) → has_key i (vectors_of latest) ≡ has_key i latest
has_key-vectors_of i [] = refl
has_key-vectors_of i ((j, (t, v)) ∷ latest) = ground (arith, has_key-vectors_of i latest)

vectors_of-HasDistinctKeys :
    (latest : Latest) → HasDistinctKeys latest → HasDistinctKeys (vectors_of latest)
vectors_of-HasDistinctKeys [] u = tt
vectors_of-HasDistinctKeys ((j, (t, v)) ∷ latest) u =
    (ground (arith, has_key-vectors_of j latest, u.0), vectors_of-HasDistinctKeys latest u.1)

-- What a merge plans: the rows hold of every gathered id that is not buried its newest vector, and
-- the cleaned ids are those that are gathered and buried.
pub record IsPlan {Index : Type 0} (rows : Rows) (cleaned : List IdPattern)
    (to_merge : List (Segment Index)) (tombstones : List IdPattern) (disk : Storage) : Type 0 where
  pub distinct : HasDistinctKeys rows
  pub row :
      (i : IdPattern)
      → lookup i rows ≡ (if contains i tombstones then none else stored_vector i to_merge disk)
  pub clean :
      (i : IdPattern)
      → contains i cleaned ≡ (contains i tombstones && is_held (stored_vector i to_merge disk))

abbrev pub planned :
    {Index : Type 0} → ℕ → List (Segment Index) → Rows → List IdPattern → Merged Index
planned threshold segments rows cleaned = record {
  to_merge = take threshold segments;
  remaining = drop threshold segments;
  snapshot_id = max_of (λ s. s.snapshot_id) 0 (take threshold segments);
  rows = rows;
  cleaned = cleaned;
}

pub newest-none : (a : Option Vector) → newest a none ≡ a
newest-none none = refl
newest-none (some v) = refl

abbrev by_id : IdPattern × Vector → IdPattern × Vector → Bool
by_id = key_lt (λ (e : IdPattern × Vector). signed_key e.0)

-- A merge of segments that are on disk is planned.
pub plan_merge_total :
    {Index : Type 0} (threshold : ℕ) (segments : List (Segment Index)) (tombstones : List IdPattern)
    (disk : Storage)
    → All (Loads disk) (take threshold segments)
    → (rows : Rows) × (cleaned : List IdPattern) × (plan_merge threshold segments tombstones disk
        ≡ ok (planned threshold segments rows cleaned))
      × IsPlan rows cleaned (take threshold segments) tombstones disk
unfolding plan_merge
plan_merge_total {Index} threshold segments tombstones disk l =
    let to_merge = take threshold segments in
    let (found, done, distinct, says) = gather_total to_merge disk [] l tt in
    let rows = vectors_of found in
    let sorted = sort_by by_id rows in
    let alone = vectors_of-HasDistinctKeys found distinct in
    let row : (i : IdPattern) → lookup i sorted ≡ stored_vector i to_merge disk = λ i.
      lookup-sort_by by_id i rows alone
      ∙ lookup-vectors_of i found
      ∙ says i
      ∙ newest-none (stored_vector i to_merge disk) in
    (
      keep (λ e. not (contains e.0 tombstones)) sorted,
      keep (λ i. contains i tombstones) (keys sorted),
      ground (arith, done),
      record {
        distinct =
            keep-HasDistinctKeys (λ j. not (contains j tombstones)) sorted
              (sort_by-HasDistinctKeys by_id rows alone);
        row = λ i. ground (arith, row i, lookup-keep (λ j. not (contains j tombstones)) i sorted);
        clean = λ i. ground (
          arith,
          row i,
          contains-keep (λ j. contains j tombstones) i (keys sorted),
          contains-keys i sorted,
        );
      },
    )
