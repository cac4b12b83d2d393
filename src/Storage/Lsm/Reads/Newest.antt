-- ===== src/Storage/Lsm/Reads/Newest.antt =====
-- vecscaledb/storage/lsm.py: the hits of a segment that a search lets through are of ids whose newest
-- vector the segment has.
use distributed_vector_db.Prelude.{
  ℕ, ◌<◌, ◌≤◌, ◌≡◌, refl, ap, ◌∙◌, arith, Option, none, some, List, [], ◌∷◌, Bool, true, false, not,
  ◌&&◌, ltb, leb, All, ◌==◌, ==_iff, Bool-cases, inl, inr,
}
use distributed_vector_db.Prelude.Eq.{nat_eq}
use distributed_vector_db.Prelude.Dict.{Dict, lookup, insert, lookup-insert}
use distributed_vector_db.Prelude.SortedDict.{is_held}
use distributed_vector_db.Prelude.Pairwise.{All-map}
use distributed_vector_db.Prelude.Set.{contains}
use distributed_vector_db.Prelude.Outcome.{Outcome, ok}
use distributed_vector_db.Arrays.{IdPattern, Vector}
use distributed_vector_db.Index.Segment
use distributed_vector_db.Index.Segment.{Segment, Storage, load_arrays}
use distributed_vector_db.Storage.MemTable.Laws.{last_vector}
use distributed_vector_db.Storage.Lsm.View.{stored_vector, vector_in, newest}
use distributed_vector_db.Storage.Lsm.Visibility.{raised_to, note_ids, note_segments, newer_than}
use distributed_vector_db.Storage.Lsm.Compaction.Shelf.{IsAscending}

abbrev pub reaches : ℕ → Option ℕ → Bool
reaches n none = false
reaches n (some t) = leb n t

-- The latest snapshot of an id never falls.
note_ids-keeps :
    (n : ℕ) (i : IdPattern) (snapshot : ℕ) (ids : List IdPattern) (latest : Dict IdPattern ℕ)
    → reaches n (lookup i latest) ≡ true
    → reaches n (lookup i (note_ids snapshot ids latest)) ≡ true
unfolding note_ids
note_ids-keeps n i snapshot [] latest h = h
note_ids-keeps n i snapshot (j ∷ ids) latest h =
    note_ids-keeps n i snapshot ids (insert j (raised_to snapshot (lookup j latest)) latest) (
      ground
        (arith, h, ==_iff i j, lookup-insert i j (raised_to snapshot (lookup j latest)) latest))

note_ids-notes :
    (i : IdPattern) (snapshot : ℕ) (ids : List IdPattern) (latest : Dict IdPattern ℕ)
    → contains i ids ≡ true
    → reaches snapshot (lookup i (note_ids snapshot ids latest)) ≡ true
unfolding note_ids
note_ids-notes i snapshot [] latest h = cc
note_ids-notes i snapshot (j ∷ ids) latest h =
    let latest' = insert j (raised_to snapshot (lookup j latest)) latest in
    let here = lookup-insert i j (raised_to snapshot (lookup j latest)) latest in
    elim (Bool-cases (i == j)) [
      | inl p ↦ note_ids-keeps snapshot i snapshot ids latest' (ground (arith, p, here))
      | inr p ↦ note_ids-notes i snapshot ids latest' (ground (arith, p, h))
    ]

pub newer_than-lookup :
    (i : IdPattern) (n t : ℕ) (latest : Dict IdPattern ℕ)
    → contains i (newer_than n latest) ≡ false
    → lookup i latest ≡ some t
    → t ≤ n
newer_than-lookup i n t [] h p = cc
newer_than-lookup i n t ((j, u) ∷ latest) h p =
    ground (arith, h, p, newer_than-lookup i n t latest, ==_iff i j)

-- The ids of a segment, in its cache or on disk, are those of its arrays.
abbrev pub HasIds : {Index : Type 0} → Storage → Segment Index → Type 0
HasIds {Index} disk s =
    (ids : List IdPattern) × (vectors : List Vector) × (t : Segment Index) × (Segment.load_ids s
        disk
      ≡ ok (ids, t))
    × (load_arrays s disk ≡ ok (ids, vectors))

held_contains :
    (i : IdPattern) (ids : List IdPattern) (vectors : List Vector)
    → contains i ids ≡ false
    → is_held (last_vector i ids vectors) ≡ false
held_contains i [] vectors h = refl
held_contains i (j ∷ ids) [] h = refl
held_contains i (j ∷ ids) (v ∷ vectors) h = ground (arith, h, held_contains i ids vectors)

-- The latest snapshots of segments on disk are found, and no segment that holds an id is above them.
pub note_segments_total :
    {Index : Type 0} (segments : List (Segment Index)) (disk : Storage) (latest : Dict IdPattern ℕ)
    → All (HasIds disk) segments
    → (found : Dict IdPattern ℕ) × (note_segments segments disk latest ≡ ok found)
      × ((n : ℕ) (i : IdPattern)
          → reaches n (lookup i latest) ≡ true
          → reaches n (lookup i found) ≡ true)
      × ((i : IdPattern)
          → All
              (λ s.
                (is_held (vector_in i (load_arrays s disk))
                  && not (reaches s.snapshot_id (lookup i found)))
                ≡ false)
              segments)
unfolding note_segments
note_segments_total [] disk latest l = (latest, refl, λ n i h. h, λ i. tt)
note_segments_total (s ∷ segments) disk latest l =
    let (ids, vectors, t, loaded, arrays) = l.0 in
    let (found, done, keeps, covers) =
      note_segments_total segments disk (note_ids s.snapshot_id ids latest) l.1 in
    (
      found,
      ground (arith, loaded, done),
      λ n i h. keeps n i (note_ids-keeps n i s.snapshot_id ids latest h),
      λ i. (
        covered i ids vectors s.snapshot_id latest found (load_arrays s disk) arrays
            (keeps s.snapshot_id i),
        covers i,
      ),
    )
  where
    covered :
        (i : IdPattern) (ids : List IdPattern) (vectors : List Vector) (n : ℕ)
        (latest found : Dict IdPattern ℕ) (arrays : Outcome (List IdPattern × List Vector))
        → arrays ≡ ok (ids, vectors)
        → (reaches n (lookup i (note_ids n ids latest)) ≡ true → reaches n (lookup i found) ≡ true)
        → (is_held (vector_in i arrays) && not (reaches n (lookup i found))) ≡ false
    covered i ids vectors n latest found arrays p keeps = elim (Bool-cases (contains i ids)) [
      | inl h ↦ rw (keeps (note_ids-notes i n ids latest h)) (ground arith)
      | inr h ↦ ground (arith, p, held_contains i ids vectors h)
    ]

-- In an ascending list, a segment that has an id that no later one has gives the stored vector.
pub stored_vector-newest :
    {Index : Type 0} (i : IdPattern) (n : ℕ) (segments : List (Segment Index)) (disk : Storage)
    → IsAscending segments
    → All
        (λ t. (is_held (vector_in i (load_arrays t disk)) && ltb n t.snapshot_id) ≡ false)
        segments
    → All
        (λ s.
          s.snapshot_id ≡ n
          → is_held (vector_in i (load_arrays s disk)) ≡ true
          → stored_vector i segments disk ≡ vector_in i (load_arrays s disk))
        segments
stored_vector-newest i n [] disk a h = tt
stored_vector-newest {Index} i n (s ∷ segments) disk a h = (
  λ p q. ap (λ v. newest v (vector_in i (load_arrays s disk))) (nothing segments a.0 h.1 p),
  All-map _ _ segments
      (λ t r p q. ap (λ v. newest v (vector_in i (load_arrays s disk))) (r p q) ∙ first_held t q)
      (stored_vector-newest i n segments disk a.1 h.1),
)
  where
    first_held :
        (t : Segment Index)
        → is_held (vector_in i (load_arrays t disk)) ≡ true
        → newest (vector_in i (load_arrays t disk)) (vector_in i (load_arrays s disk))
          ≡ vector_in i (load_arrays t disk)
    first_held t q = ground (arith, q)

    nothing :
        (ts : List (Segment Index))
        → All (λ t. s.snapshot_id < t.snapshot_id) ts
        → All (λ t. (is_held (vector_in i (load_arrays t disk)) && ltb n t.snapshot_id) ≡ false) ts
        → s.snapshot_id ≡ n
        → stored_vector i ts disk ≡ none
    nothing [] a h p = refl
    nothing (t ∷ ts) a h p = ground (arith, nothing ts a.1 h.1 p, a.0, h.0, p)
