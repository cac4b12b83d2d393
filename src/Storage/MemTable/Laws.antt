-- ===== src/Storage/MemTable/Laws.antt =====
-- What the MemTable says of an id after each operation, and what a reader of a snapshot sees.
use distributed_vector_db.Prelude.{
  ℕ, ◌≡◌, refl, Option, none, some, List, [], ◌∷◌, Bool, true, false, not, ◌&&◌, leb, ◌==◌, ==_iff,
  length, arith, if◌then◌else◌, All, sym, subst, Bool-cases, inl, inr,
}
use distributed_vector_db.Prelude.Eq.{nat_eq, beq}
use distributed_vector_db.Prelude.Dict.{
  lookup, insert, has_key, lookup-insert, HasDistinctKeys, insert-HasDistinctKeys,
}
use distributed_vector_db.Prelude.Set.{contains, contains-add}
use distributed_vector_db.Prelude.Outcome.{ok}
use distributed_vector_db.Arrays.{IdPattern, Vector, NdArray, check_shape}
use distributed_vector_db.Storage.MemTable.EntryMap.{
  MemTableEntry, Entries, live_entry, dead_entry, insert_all, delete_all, live_rows, deleted_keys,
  count_live,
}
use distributed_vector_db.Storage.MemTable
use distributed_vector_db.Storage.MemTable.{
  MemTable, to_arrays, visible_deleted_ids, ntotal, max_lsn,
}

abbrev pub is_some : Option Vector → Bool
is_some none = false
is_some (some v) = true

-- The last vector that a batch gives to an id.
abbrev pub last_vector : IdPattern → List IdPattern → List Vector → Option Vector
last_vector i [] vs = none
last_vector i (j ∷ ids) [] = none
last_vector i (j ∷ ids) (v ∷ vs) = elim (last_vector i ids vs) [
  | some w ↦ some w
  | none ↦ if i == j then some v else none
]

-- What an id reads after a batch.
abbrev pub overwritten : Option Vector → ℕ → Option MemTableEntry → Option MemTableEntry
overwritten none lsn old = old
overwritten (some v) lsn old = some (live_entry v lsn)

pub lookup-insert_all :
    (i : IdPattern) (ids : List IdPattern) (vs : List Vector) (lsn : ℕ) (d : Entries)
    → lookup i (insert_all ids vs lsn d) ≡ overwritten (last_vector i ids vs) lsn (lookup i d)
unfolding insert_all
lookup-insert_all i [] vs lsn d = refl
lookup-insert_all i (j ∷ ids) [] lsn d = refl
lookup-insert_all i (j ∷ ids) (v ∷ vs) lsn d = ground (
  arith,
  lookup-insert_all i ids vs lsn (insert j (live_entry v lsn) d),
  lookup-insert i j (live_entry v lsn) d,
)

pub lookup-delete_all :
    (i : IdPattern) (ids : List IdPattern) (lsn : ℕ) (d : Entries)
    → lookup i (delete_all ids lsn d)
      ≡ (if contains i ids then some (dead_entry lsn) else lookup i d)
unfolding delete_all
lookup-delete_all i [] lsn d = refl
lookup-delete_all i (j ∷ ids) lsn d = ground (
  arith,
  lookup-delete_all i ids lsn (insert j (dead_entry lsn) d),
  lookup-insert i j (dead_entry lsn) d,
)

pub insert_all-HasDistinctKeys :
    (ids : List IdPattern) (vs : List Vector) (lsn : ℕ) (d : Entries)
    → HasDistinctKeys d
    → HasDistinctKeys (insert_all ids vs lsn d)
unfolding insert_all
insert_all-HasDistinctKeys [] vs lsn d u = u
insert_all-HasDistinctKeys (j ∷ ids) [] lsn d u = u
insert_all-HasDistinctKeys (j ∷ ids) (v ∷ vs) lsn d u =
    insert_all-HasDistinctKeys ids vs lsn (insert j (live_entry v lsn) d)
      (insert-HasDistinctKeys j (live_entry v lsn) d u)

pub delete_all-HasDistinctKeys :
    (ids : List IdPattern) (lsn : ℕ) (d : Entries)
    → HasDistinctKeys d
    → HasDistinctKeys (delete_all ids lsn d)
unfolding delete_all
delete_all-HasDistinctKeys [] lsn d u = u
delete_all-HasDistinctKeys (j ∷ ids) lsn d u =
    delete_all-HasDistinctKeys ids lsn (insert j (dead_entry lsn) d)
      (insert-HasDistinctKeys j (dead_entry lsn) d u)

-- A reader without a snapshot sees every entry, one of a snapshot those up to its LSN.
abbrev pub is_visible : Option ℕ → ℕ → Bool
is_visible none lsn = true
is_visible (some s) lsn = leb lsn s

-- What a reader should find for an id, given the entry of the id.
abbrev pub vector_at : Option ℕ → Option MemTableEntry → Option Vector
vector_at s none = none
vector_at s (some e) = if is_visible s e.lsn && not e.deleted then e.vector else none

-- Whether a reader should be told that the id is deleted, given the entry of the id.
abbrev pub deleted_at : Option ℕ → Option MemTableEntry → Bool
deleted_at s none = false
deleted_at s (some e) = is_visible s e.lsn && e.deleted

not-has_key-live_rows :
    (i : IdPattern) (s : Option ℕ) (d : Entries)
    → has_key i d ≡ false
    → lookup i (live_rows s d) ≡ none
unfolding live_rows
not-has_key-live_rows i s [] h = refl
not-has_key-live_rows i s ((j, e) ∷ d) h = ground (arith, not-has_key-live_rows i s d)

lookup-live_rows :
    (i : IdPattern) (s : Option ℕ) (d : Entries)
    → HasDistinctKeys d
    → lookup i (live_rows s d) ≡ vector_at s (lookup i d)
unfolding live_rows
lookup-live_rows i s [] u = refl
lookup-live_rows i s ((j, e) ∷ d) u =
    ground (arith, lookup-live_rows i s d u.1, not-has_key-live_rows j s d u.0, ==_iff i j)

not-has_key-deleted_keys :
    (i : IdPattern) (s : Option ℕ) (d : Entries)
    → has_key i d ≡ false
    → contains i (deleted_keys s d) ≡ false
unfolding deleted_keys
not-has_key-deleted_keys i s [] h = refl
not-has_key-deleted_keys i s ((j, e) ∷ d) h =
    ground (arith, not-has_key-deleted_keys i s d, contains-add i j (deleted_keys s d))

contains-deleted_keys :
    (i : IdPattern) (s : Option ℕ) (d : Entries)
    → HasDistinctKeys d
    → contains i (deleted_keys s d) ≡ deleted_at s (lookup i d)
unfolding deleted_keys
contains-deleted_keys i s [] u = refl
contains-deleted_keys i s ((j, e) ∷ d) u = ground (
  arith,
  contains-deleted_keys i s d u.1,
  not-has_key-deleted_keys j s d u.0,
  contains-add i j (deleted_keys s d),
  ==_iff i j,
)

-- An entry has a vector exactly when it is no deletion.
abbrev pub IsFilled : MemTableEntry → Type 0
IsFilled e = (is_some e.vector) ≡ not e.deleted

-- A MemTable that its methods have built: no id twice, and an entry has a vector unless deleted.
pub record IsValid (m : MemTable) : Type 0 where
  pub distinct : HasDistinctKeys m.entries
  pub filled : All (λ e. IsFilled e.1) m.entries

-- In a table with no id twice, an entry is visible when its LSN is not above the snapshot, or
-- there is no snapshot. The arrays hold for an id the vector of its visible entry that is no
-- deletion and nothing else, and an id is reported deleted exactly when its visible entry is a
-- deletion.
pub visible_entries :
    (i : IdPattern) (s : Option ℕ) (m : MemTable)
    → HasDistinctKeys m.entries
    → (lookup i (to_arrays s m) ≡ vector_at s (lookup i m.entries))
      × (contains i (visible_deleted_ids s m) ≡ deleted_at s (lookup i m.entries))
unfolding to_arrays visible_deleted_ids
visible_entries i s m u = (lookup-live_rows i s m.entries u, contains-deleted_keys i s m.entries u)

-- No id is both in the arrays and reported deleted.
pub never_both :
    (i : IdPattern) (s : Option ℕ) (m : MemTable) {v : Vector}
    → HasDistinctKeys m.entries
    → lookup i (to_arrays s m) ≡ some v
    → contains i (visible_deleted_ids s m) ≡ false
never_both i s m u h = ground (arith, visible_entries i s m u)

insert_here :
    (i j : IdPattern) (e x : MemTableEntry) (d : Entries)
    → beq i j ≡ true
    → insert i e ((j, x) ∷ d) ≡ (i, e) ∷ d
insert_here i j e x d h = ground (arith, h)

insert_behind :
    (i j : IdPattern) (e x : MemTableEntry) (d : Entries)
    → beq i j ≡ false
    → insert i e ((j, x) ∷ d) ≡ (j, x) ∷ insert i e d
insert_behind i j e x d h = ground (arith, h)

-- What holds of every entry of a table, and of every entry that a method adds, holds afterwards.
module _ (P : MemTableEntry → Type 0) where
  insert-All :
      (i : IdPattern) (e : MemTableEntry) (d : Entries)
      → P e
      → All (λ x. P x.1) d
      → All (λ x. P x.1) (insert i e d)
  insert-All i e [] p a = (p, tt)
  insert-All i e ((j, x) ∷ d) p a = elim (Bool-cases (beq i j)) [
    | inl h ↦ subst (λ d. All (λ x. P x.1) d) (sym (insert_here i j e x d h)) (p, a.1)
    | inr h ↦
        subst (λ d. All (λ x. P x.1) d) (sym (insert_behind i j e x d h))
          (a.0, insert-All i e d p a.1)
  ]

  pub insert_all-All :
      (ids : List IdPattern) (vs : List Vector) (lsn : ℕ) (d : Entries)
      → ((v : Vector) → P (live_entry v lsn))
      → All (λ x. P x.1) d
      → All (λ x. P x.1) (insert_all ids vs lsn d)
  unfolding insert_all
  insert_all-All [] vs lsn d p a = a
  insert_all-All (j ∷ ids) [] lsn d p a = a
  insert_all-All (j ∷ ids) (v ∷ vs) lsn d p a =
      insert_all-All ids vs lsn (insert j (live_entry v lsn) d) p
        (insert-All j (live_entry v lsn) d (p v) a)

  pub delete_all-All :
      (ids : List IdPattern) (lsn : ℕ) (d : Entries)
      → P (dead_entry lsn)
      → All (λ x. P x.1) d
      → All (λ x. P x.1) (delete_all ids lsn d)
  unfolding delete_all
  delete_all-All [] lsn d p a = a
  delete_all-All (j ∷ ids) lsn d p a =
      delete_all-All ids lsn (insert j (dead_entry lsn) d) p (insert-All j (dead_entry lsn) d p a)

count_live-length :
    (d : Entries) → All (λ x. IsFilled x.1) d → count_live d ≡ length (live_rows none d)
unfolding count_live live_rows
count_live-length [] a = refl
count_live-length ((i, e) ∷ d) a = ground (arith, count_live-length d a.1)

-- `ntotal` is the number of rows that `to_arrays()` returns, which is what a flush writes.
pub ntotal-eq-length : (m : MemTable) → IsValid m → ntotal m ≡ length (to_arrays none m)
unfolding ntotal to_arrays
ntotal-eq-length m v = count_live-length m.entries v.filled

-- An insert of a batch of the right shape keeps the table valid, and gives every id of the batch
-- its last vector there and the batch's LSN; other ids keep their entries.
pub insert_lem :
    (ids : List IdPattern) (vectors : NdArray) (lsn : ℕ) (m : MemTable)
    → check_shape m.dim ids vectors ≡ ok tt
    → IsValid m
    → (m' : MemTable) × (MemTable.insert ids vectors lsn m ≡ ok m')
      × IsValid m'
      × ((i : IdPattern)
          → lookup i m'.entries
            ≡ overwritten (last_vector i ids vectors.rows) lsn (lookup i m.entries))
unfolding MemTable.insert
insert_lem ids vectors lsn m fits v = (
  record m { entries = insert_all ids vectors.rows lsn m.entries },
  rw fits,
  record {
    distinct = insert_all-HasDistinctKeys ids vectors.rows lsn m.entries v.distinct;
    filled = insert_all-All IsFilled ids vectors.rows lsn m.entries (λ v. refl) v.filled;
  },
  λ i. lookup-insert_all i ids vectors.rows lsn m.entries,
)

-- A delete keeps the table valid, marks every id of the batch as deleted at its LSN, whether it was
-- there or not, and leaves the others alone.
pub delete_lem :
    (ids : List IdPattern) (lsn : ℕ) (m : MemTable)
    → IsValid m
    → IsValid (MemTable.delete ids lsn m)
      × ((i : IdPattern)
          → lookup i (MemTable.delete ids lsn m).entries
            ≡ (if contains i ids then some (dead_entry lsn) else lookup i m.entries))
unfolding MemTable.delete
delete_lem ids lsn m v = (
  record {
    distinct = delete_all-HasDistinctKeys ids lsn m.entries v.distinct;
    filled = delete_all-All IsFilled ids lsn m.entries refl v.filled;
  },
  λ i. lookup-delete_all i ids lsn m.entries,
)
