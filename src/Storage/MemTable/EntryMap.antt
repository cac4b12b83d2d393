-- ===== src/Storage/MemTable/EntryMap.antt =====
-- The dictionary of a MemTable, and the loops over it.
use distributed_vector_db.Prelude.{
  ℕ, suc, Option, none, some, List, [], ◌∷◌, Bool, true, false, ltb, if◌then◌else◌,
}
use distributed_vector_db.Prelude.Eq.{nat_eq}
use distributed_vector_db.Prelude.Dict.{Dict, insert}
use distributed_vector_db.Prelude.Set.{add}
use distributed_vector_db.Arrays.{IdPattern, Vector}

pub record MemTableEntry : Type 0 where
  pub vector : Option Vector
  pub lsn : ℕ
  pub deleted : Bool

abbrev pub Entries : Type 0
Entries = Dict IdPattern MemTableEntry

abbrev pub Rows : Type 0
Rows = List (IdPattern × Vector)

abbrev pub live_entry : Vector → ℕ → MemTableEntry
live_entry v lsn = record { vector = some v; lsn = lsn; deleted = false }

abbrev pub dead_entry : ℕ → MemTableEntry
dead_entry lsn = record { vector = none; lsn = lsn; deleted = true }

-- `for vector_id, vector in zip(ids, vectors)`
unfoldable pub insert_all : List IdPattern → List Vector → ℕ → Entries → Entries
insert_all [] vectors lsn d = d
insert_all (i ∷ ids) [] lsn d = d
insert_all (i ∷ ids) (v ∷ vectors) lsn d =
    insert_all ids vectors lsn (insert i (live_entry v lsn) d)

unfoldable pub delete_all : List IdPattern → ℕ → Entries → Entries
delete_all [] lsn d = d
delete_all (i ∷ ids) lsn d = delete_all ids lsn (insert i (dead_entry lsn) d)

-- `snapshot_id is not None and entry.lsn > snapshot_id`
abbrev pub too_new : Option ℕ → MemTableEntry → Bool
too_new none e = false
too_new (some s) e = ltb s e.lsn

-- The vector of an entry that a reader of the snapshot sees.
abbrev pub seen_vector : Option ℕ → MemTableEntry → Option Vector
seen_vector snapshot_id e =
    if too_new snapshot_id e then none else if e.deleted then none else e.vector

abbrev pub prepend : IdPattern → Option Vector → Rows → Rows
prepend i none rows = rows
prepend i (some v) rows = (i, v) ∷ rows

unfoldable pub live_rows : Option ℕ → Entries → Rows
live_rows snapshot_id [] = []
live_rows snapshot_id ((i, e) ∷ d) = prepend i (seen_vector snapshot_id e) (live_rows snapshot_id d)

abbrev pub seen_deleted : Option ℕ → MemTableEntry → Bool
seen_deleted snapshot_id e = if too_new snapshot_id e then false else e.deleted

unfoldable pub deleted_keys : Option ℕ → Entries → List IdPattern
deleted_keys snapshot_id [] = []
deleted_keys snapshot_id ((i, e) ∷ d) =
    if seen_deleted snapshot_id e
    then add i (deleted_keys snapshot_id d)
    else deleted_keys snapshot_id d

-- `sum(1 for entry in ... if not entry.deleted)`
unfoldable pub count_live : Entries → ℕ
count_live [] = 0
count_live ((i, e) ∷ d) = if e.deleted then count_live d else suc (count_live d)
