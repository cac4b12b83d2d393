-- ===== src/Storage/Lsm/Reads/Exactness.antt =====
-- vecscaledb/storage/lsm.py: the answer of `search` against what the engine holds.
use distributed_vector_db.Prelude.{
  ℕ, ◌≡◌, refl, ap, arith, Option, none, some, List, [], ◌∷◌, ◌++◌, Bool, true, false, not, All,
  All-append, keep, ◌==◌, Bool-cases, inl, inr, subst,
}
use distributed_vector_db.Prelude.Eq.{nat_eq}
use distributed_vector_db.Prelude.Dict.{lookup, keys}
use distributed_vector_db.Prelude.SortedDict.{is_held, contains-keys}
use distributed_vector_db.Prelude.Pairwise.{All-map}
use distributed_vector_db.Prelude.Set.{contains, union, contains-union}
use distributed_vector_db.Prelude.Outcome.{ok}
use distributed_vector_db.Arrays.{IdPattern, Vector, Distance, Hit}
use distributed_vector_db.Index.Faiss.{Faiss}
use distributed_vector_db.Index.Segment
use distributed_vector_db.Index.Segment.{Segment, Storage, load_arrays}
use distributed_vector_db.Storage.MemTable
use distributed_vector_db.Storage.MemTable.{MemTable}
use distributed_vector_db.Storage.MemTable.EntryMap.{Entries, Rows, live_rows, deleted_keys}
use distributed_vector_db.Storage.Merge.{filter_result_ids}
use distributed_vector_db.Storage.Merge.Best.{best, all_hits, nearer}
use distributed_vector_db.Storage.Snapshot
use distributed_vector_db.Storage.Lsm.View.{stored_vector, vector_in, newest}
use distributed_vector_db.Storage.Lsm.Visibility.{
  Hidden, hidden_ids, newer_than, search_segments, with_memtable,
}
use distributed_vector_db.Storage.Lsm.Reads.{flat_search}
use distributed_vector_db.Storage.Lsm.Compaction.Shelf.{AllAtMost}
use distributed_vector_db.Storage.Lsm.Compaction.Settled.{AllUpTo}

-- The distance of a vector that is there.
abbrev pub measured : (Vector → Distance) → Option Vector → Option Distance
measured far none = none
measured far (some v) = some (far v)

pub All-pi :
    {A B : Type 0} (P : B → A → Type 0) (xs : List A)
    → ((b : B) → All (P b) xs)
    → All (λ x. (b : B) → P b x) xs
All-pi P [] f = tt
All-pi P (x ∷ xs) f = (λ b. (f b).0, All-pi P xs (λ b. (f b).1))

abbrev is_said : Distance → Distance → Bool
is_said c d = c == d

nearer_other :
    (c d : Distance) (o : Option Distance)
    → is_said c d ≡ false
    → nearer (some c) o ≡ some d
    → o ≡ some d
nearer_other c d none q h = ground (arith, q, h)
nearer_other c d (some b) q h = ground (arith, q, h)

-- What the smallest distance of an id is has some hit said.
pub All-best :
    (P : Distance → IdPattern → Type 0) (hits : List Hit) (i : IdPattern) (d : Distance)
    → All (λ h. P h.0 h.1) hits
    → best i hits ≡ some d
    → P d i
All-best P [] i d a h = cc
All-best P ((c, j) ∷ hits) i d a h = elim (Bool-cases (i == j)) [
  | inr p ↦ All-best P hits i d a.1 (ground (arith, h, p))
  | inl p ↦ elim (Bool-cases (is_said c d)) [
    | inl q ↦ subst (λ d. P d i) (ground (arith, q)) (subst (λ j. P c j) (ground (arith, p)) a.0)
    | inr q ↦ All-best P hits i d a.1 (nearer_other c d (best i hits) q (ground (arith, h, p)))
  ]
]

keep_visible :
    (P : Hit → Type 0) (hits : List Hit) (hidden : List IdPattern)
    → All (λ h. contains h.1 hidden ≡ false → P h) hits
    → All P (keep (λ h. not (contains h.1 hidden)) hits)
keep_visible P [] hidden a = tt
keep_visible P (h ∷ hits) hidden a = elim (Bool-cases (contains h.1 hidden)) [
  | inl q ↦ rw q (keep_visible P hits hidden a.1)
  | inr q ↦ rw q (a.0 q, keep_visible P hits hidden a.1)
]

filtered-All :
    (P : Hit → Type 0) (hits : List Hit) (hidden : List IdPattern)
    → All (λ h. contains h.1 hidden ≡ false → P h) hits
    → All P (filter_result_ids hits hidden)
unfolding filter_result_ids
filtered-All P [] [] a = tt
filtered-All P [] (x ∷ hidden) a = tt
filtered-All P (h ∷ hits) [] a = All-map _ P (h ∷ hits) (λ g p. p refl) a
filtered-All P (h ∷ hits) (x ∷ hidden) a = keep_visible P (h ∷ hits) (x ∷ hidden) a

All-parts : (P : Hit → Type 0) (xs ys : List Hit) → All P (xs ++ ys) → All P xs × All P ys
All-parts P [] ys a = (tt, a)
All-parts P (x ∷ xs) ys a = let (b, c) = All-parts P xs ys a.1 in ((a.0, b), c)

pub all_hits-append :
    (P : Hit → Type 0) (results : List (List Hit)) (mem : List Hit)
    → All P (all_hits results)
    → All P mem
    → All P (all_hits (with_memtable results mem))
all_hits-append P results [] a b = a
all_hits-append P [] (h ∷ mem) a b = All-append P (h ∷ mem) [] b tt
all_hits-append P (r ∷ results) (h ∷ mem) a b =
    let (first, others) = All-parts P r (all_hits results) a in
    All-append P r (all_hits (results ++ ((h ∷ mem) ∷ []))) first
      (all_hits-append P results (h ∷ mem) others b)

-- Every entry is visible at a snapshot that no LSN exceeds.
pub live_rows-all : (n : ℕ) (d : Entries) → AllUpTo n d → live_rows (some n) d ≡ live_rows none d
unfolding live_rows
live_rows-all n [] a = refl
live_rows-all n ((i, e) ∷ d) a = ground (arith, a.0, live_rows-all n d a.1)

pub deleted_keys-all :
    (n : ℕ) (d : Entries) → AllUpTo n d → deleted_keys (some n) d ≡ deleted_keys none d
unfolding deleted_keys
deleted_keys-all n [] a = refl
deleted_keys-all n ((i, e) ∷ d) a = ground (arith, a.0, deleted_keys-all n d a.1)

pub visible_all :
    {Index : Type 0} (n : ℕ) (segments : List (Segment Index))
    → AllAtMost n segments
    → Snapshot.visible_segments (λ s. s.snapshot_id) n segments ≡ segments
unfolding Snapshot.visible_segments
visible_all n [] a = refl
visible_all n (s ∷ segments) a = ground (arith, a.0, visible_all n segments a.1)

module _ {Index : Type 0} (faiss : Faiss Index) (far : Vector → Distance) (query : Vector)
    (top_k nprobe : ℕ) where
  -- The hits of a segment are exact: they are of ids that the segment has, at the distances of
  -- their vectors.
  abbrev pub IsExact : Storage → Segment Index → Type 0
  IsExact disk s =
      (hits : List Hit) × (Segment.search faiss query top_k nprobe s ≡ ok hits)
      × All (λ h. measured far (vector_in h.1 (load_arrays s disk)) ≡ some h.0) hits

  abbrev pub IsExactTable : MemTable → Type 0
  IsExactTable m =
      All (λ h. measured far (lookup h.1 (MemTable.to_arrays none m)) ≡ some h.0)
        (MemTable.search (flat_search faiss) query top_k none m)

  module _ (segments : List (Segment Index)) (disk : Storage) (rows : Rows) (h : Hidden) where
    -- What is shown of a segment stands in no newer place.
    abbrev pub IsCurrent : (x : Hit) → Type 0
    IsCurrent (d, i) =
        measured far (newest (lookup i rows) (stored_vector i segments disk)) ≡ some d

    abbrev pub Shows : Segment Index → Type 0
    Shows s =
        (b : (i : IdPattern) × (n : ℕ) × (contains i (hidden_ids h n) ≡ false))
        → s.snapshot_id ≡ b.1
        → is_held (vector_in b.0 (load_arrays s disk)) ≡ true
        → stored_vector b.0 segments disk ≡ vector_in b.0 (load_arrays s disk)

    pub shown-IsCurrent :
        (s : Segment Index) (d : Distance) (i : IdPattern)
        → h.visible_mem_ids ≡ keys rows
        → Shows s
        → measured far (vector_in i (load_arrays s disk)) ≡ some d
        → contains i (hidden_ids h s.snapshot_id) ≡ false
        → IsCurrent (d, i)
    shown-IsCurrent s d i p shows said q = ground (
      arith,
      said,
      ap (contains i) p,
      contains-keys i rows,
      contains-union i h.deleted_ids (union h.visible_mem_ids (newer_than s.snapshot_id h.latest)),
      contains-union i h.visible_mem_ids (newer_than s.snapshot_id h.latest),
      q,
      shows (i, s.snapshot_id, q) refl (held_measured (vector_in i (load_arrays s disk)) said),
    )
      where
        held_measured : (o : Option Vector) → measured far o ≡ some d → is_held o ≡ true
        held_measured none r = cc
        held_measured (some v) r = refl

    pub search_segments_exact :
        (ts : List (Segment Index))
        → h.visible_mem_ids ≡ keys rows
        → All Shows ts
        → All (IsExact disk) ts
        → (results : List (List Hit)) × (search_segments faiss query top_k nprobe h ts ≡ ok results)
          × All IsCurrent (all_hits results)
    unfolding search_segments
    search_segments_exact [] p shows exact = ([], refl, tt)
    search_segments_exact (s ∷ ts) p shows exact =
        let (hits, found, says) = exact.0 in
        let (results, done, current) = search_segments_exact ts p shows.1 exact.1 in
        (
          filter_result_ids hits (hidden_ids h s.snapshot_id) ∷ results,
          ground (arith, found, done),
          All-append IsCurrent (filter_result_ids hits (hidden_ids h s.snapshot_id))
              (all_hits results)
              (filtered-All IsCurrent hits (hidden_ids h s.snapshot_id) (
                All-map (λ x. measured far (vector_in x.1 (load_arrays s disk)) ≡ some x.0)
                  (λ x. contains x.1 (hidden_ids h s.snapshot_id) ≡ false → IsCurrent x) hits
                  (λ x r. shown-IsCurrent s x.0 x.1 p shows.0 r) says))
              current,
        )
