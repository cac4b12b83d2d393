-- ===== src/Storage/Lsm/Writes/Refinement.antt =====
-- The write methods against the view: an insert sets the ids of its batch, a delete unsets them,
-- and neither touches another id.
use distributed_vector_db.Prelude.{
  ℕ, ◌+◌, ◌^◌, ◌<◌, ◌++◌, All, ◌≡◌, refl, ap, subst, ◌∙◌, sym, Option, none, some, List, [], ◌∷◌,
  Bool, true, false, not, ◌&&◌, ◌||◌, if◌then◌else◌, arith, length, is_empty, Bool-cases, inl, inr,
}
use distributed_vector_db.Prelude.Eq.{nat_eq}
use distributed_vector_db.Prelude.Dict.{lookup, HasDistinctKeys}
use distributed_vector_db.Prelude.Set.{
  contains, intersection, contains-union, contains-difference, contains-keep,
}
use distributed_vector_db.Prelude.Outcome.{ok}
use distributed_vector_db.Arrays.{IdPattern, Vector, NdArray, check_shape}
use distributed_vector_db.Storage.Wal
use distributed_vector_db.Storage.Wal.{Wal}
use distributed_vector_db.Storage.Wal.Words.{Bytes}
use distributed_vector_db.Storage.Wal.Frame.{WalRecord, op_insert, op_delete}
use distributed_vector_db.Storage.Wal.FrameLaws.{IsWritable}
use distributed_vector_db.Storage.Wal.Invariant.{entry, append-Holds, append-dim}
use distributed_vector_db.Storage.MemTable
use distributed_vector_db.Storage.MemTable.{MemTable}
use distributed_vector_db.Storage.MemTable.EntryMap.{dead_entry}
use distributed_vector_db.Storage.MemTable.Laws.{
  last_vector, overwritten, visible_entries, insert_lem, delete_lem,
}
use distributed_vector_db.Storage.Lsm.State.{Engine}
use distributed_vector_db.Storage.Lsm.Invariant.{Runs, deletion-IsWritable}
use distributed_vector_db.Storage.Lsm.View.{newest, view, stored_vector}
use distributed_vector_db.Storage.Lsm.Writes.{write, delete, clear_tombstones, bury, zeros}

abbrev pub has_vector : Option Vector → Bool
has_vector none = false
has_vector (some v) = true

pub contains-last_vector :
    (i : IdPattern) (ids : List IdPattern) (vs : List Vector)
    → length ids ≡ length vs
    → contains i ids ≡ has_vector (last_vector i ids vs)
contains-last_vector i [] [] h = refl
contains-last_vector i [] (v ∷ vs) h = refl
contains-last_vector i (j ∷ ids) [] h = absurd (omega arith)
contains-last_vector i (j ∷ ids) (v ∷ vs) h =
    ground (arith, contains-last_vector i ids vs (omega arith))

-- With nothing to take away the set stays as it is, which `contains` does not tell apart.
empty_intersection :
    (i : IdPattern) (s ids : List IdPattern)
    → is_empty (intersection s ids) ≡ true
    → (contains i s && contains i ids) ≡ false
empty_intersection i s ids h =
    ground (arith, contains-keep (λ a. contains a ids) i s, nothing i (intersection s ids))
  where
    nothing : (i : IdPattern) (l : List IdPattern) → is_empty l ≡ true → contains i l ≡ false
    nothing i [] h = refl
    nothing i (x ∷ l) h = cc

module _ {Index : Type 0} where
  pub tombstones-clear :
      (i : IdPattern) (ids : List IdPattern) (e : Engine Index)
      → contains i (clear_tombstones ids e).tombstones
        ≡ (contains i e.tombstones && not (contains i ids))
  tombstones-clear i ids e = elim (Bool-cases (is_empty (intersection e.tombstones ids))) [
    | inl none_left ↦ rw none_left (ground (arith, empty_intersection i e.tombstones ids none_left))
    | inr some_left ↦ rw some_left (
        ground (
          arith,
          contains-difference i e.tombstones (intersection e.tombstones ids),
          contains-keep (λ a. contains a ids) i e.tombstones,
        ))
  ]

  -- What clearing tombstones leaves alone.
  pub clear_tombstones-same :
      (ids : List IdPattern) (e : Engine Index)
      → ((clear_tombstones ids e).memtable ≡ e.memtable)
        × ((clear_tombstones ids e).segments ≡ e.segments)
        × ((clear_tombstones ids e).disk ≡ e.disk)
  clear_tombstones-same ids e = ground arith

  pub write_lem :
      (crc32 : Bytes → ℕ) (ids : List IdPattern) (vectors : NdArray) (e : Engine Index) (lsn : ℕ)
      (w : Wal) (m : MemTable)
      → e.started ≡ true
      → check_shape e.config.dim ids vectors ≡ ok tt
      → Wal.append crc32 op_insert ids vectors e.wal ≡ (ok lsn, w)
      → MemTable.insert ids vectors lsn e.memtable ≡ ok m
      → write crc32 ids vectors e
        ≡ (ok lsn, clear_tombstones ids (record e { wal = w; memtable = m }))
  unfolding write
  write_lem crc32 ids vectors e lsn w m up shape logged stored = ground arith

  view-write :
      (i : IdPattern) (ids : List IdPattern) (vs : List Vector) (lsn : ℕ) (e e' : Engine Index)
      → length ids ≡ length vs
      → HasDistinctKeys e.memtable.entries
      → HasDistinctKeys e'.memtable.entries
      → lookup i e'.memtable.entries
        ≡ overwritten (last_vector i ids vs) lsn (lookup i e.memtable.entries)
      → contains i e'.tombstones ≡ (contains i e.tombstones && not (contains i ids))
      → stored_vector i e'.segments e'.disk ≡ stored_vector i e.segments e.disk
      → view e' i ≡ newest (last_vector i ids vs) (view e i)
  view-write i ids vs lsn e e' paired u u' table tombs same = ground (
    arith,
    visible_entries i none e.memtable u,
    visible_entries i none e'.memtable u',
    contains-last_vector i ids vs paired,
  )

  view-delete :
      (i : IdPattern) (ids : List IdPattern) (lsn : ℕ) (e e' : Engine Index)
      → HasDistinctKeys e.memtable.entries
      → HasDistinctKeys e'.memtable.entries
      → lookup i e'.memtable.entries
        ≡ (if contains i ids then some (dead_entry lsn) else lookup i e.memtable.entries)
      → contains i e'.tombstones ≡ (contains i ids || contains i e.tombstones)
      → stored_vector i e'.segments e'.disk ≡ stored_vector i e.segments e.disk
      → view e' i ≡ (if contains i ids then none else view e i)
  view-delete i ids lsn e e' u u' table tombs same =
      ground (arith, visible_entries i none e.memtable u, visible_entries i none e'.memtable u')

  pub delete-bury :
      (crc32 : Bytes → ℕ) (ids : List IdPattern) (e : Engine Index) (lsn : ℕ) (w : Wal)
      → e.started ≡ true
      → Wal.append crc32 op_delete ids (zeros ids e.config.dim) e.wal ≡ (ok lsn, w)
      → delete crc32 ids e ≡ (ok lsn, bury ids lsn (record e { wal = w }))
  unfolding delete
  delete-bury crc32 ids e lsn w up logged = ground arith

delete-dim :
    (ids : List IdPattern) (lsn : ℕ) (m : MemTable) → (MemTable.delete ids lsn m).dim ≡ m.dim
unfolding MemTable.delete
delete-dim ids lsn m = refl

insert-dim :
    (ids : List IdPattern) (vectors : NdArray) (lsn : ℕ) (m m' : MemTable)
    → MemTable.insert ids vectors lsn m ≡ ok m'
    → m'.dim ≡ m.dim
unfolding MemTable.insert
insert-dim ids vectors lsn m m' h = ground arith

clear_tombstones-Runs :
    {Index : Type 0} (crc32 : Bytes → ℕ) (ids : List IdPattern) (e : Engine Index)
    (rs : List WalRecord)
    → Runs crc32 e rs
    → Runs crc32 (clear_tombstones ids e) rs
clear_tombstones-Runs crc32 ids e rs r =
    elim (Bool-cases (is_empty (intersection e.tombstones ids))) [
      | inl none_left ↦ rw none_left r
      | inr some_left ↦ rw some_left (record {
        started = r.started;
        log = r.log;
        log_open = r.log_open;
        log_dim = r.log_dim;
        table_dim = r.table_dim;
        table = r.table;
      })
    ]

pub shape_of_writable :
    (dim lsn op : ℕ) (ids : List IdPattern) (vectors : NdArray)
    → IsWritable dim (entry lsn op ids vectors)
    → check_shape dim ids vectors ≡ ok tt
shape_of_writable dim lsn op ids vectors w = ground (arith, w.matrix, w.width, w.paired)

module _ {Index : Type 0} (crc32 : Bytes → ℕ) {e : Engine Index} {rs : List WalRecord} where
  -- On a running engine, the critical section of an insert of arrays that fit returns the next LSN,
  -- logs one record with it, keeps the engine running, and sets in the view every id of the batch to
  -- its last vector there, and no other id.
  pub write-refines :
      (ids : List IdPattern) (vectors : NdArray)
      → Runs crc32 e rs
      → IsWritable e.config.dim (entry (e.wal.last_lsn + 1) op_insert ids vectors)
      → (e' : Engine Index) × (write crc32 ids vectors e ≡ (ok (e.wal.last_lsn + 1), e'))
        × Runs crc32 e' (rs ++ entry (e.wal.last_lsn + 1) op_insert ids vectors ∷ [])
        × ((i : IdPattern) → view e' i ≡ newest (last_vector i ids vectors.rows) (view e i))
  write-refines ids vectors runs fits =
      let n = e.wal.last_lsn + 1 in
      let (logged, held, _, up) =
        append-Holds crc32 op_insert ids vectors runs.log runs.log_open
          (subst (λ d. IsWritable d (entry n op_insert ids vectors)) (sym runs.log_dim) fits) in
      let w = (Wal.append crc32 op_insert ids vectors e.wal).1 in
      let (m, inserted, valid, table) =
        insert_lem ids vectors n e.memtable
          (shape_of_writable e.memtable.dim n op_insert ids vectors
            (subst (λ d. IsWritable d (entry n op_insert ids vectors)) (sym runs.table_dim) fits))
          runs.table in
      let e₁ : Engine Index = record e { wal = w; memtable = m } in
      let (same_table, same_segments, same_disk) = clear_tombstones-same ids e₁ in
      (
        clear_tombstones ids e₁,
        write_lem crc32 ids vectors e n w m runs.started
            (shape_of_writable e.config.dim n op_insert ids vectors fits) (ap (λ o. (o, w)) logged)
            inserted,
        clear_tombstones-Runs crc32 ids e₁ _ (record {
          started = runs.started;
          log = held;
          log_open = up;
          log_dim = append-dim crc32 op_insert ids vectors e.wal ∙ runs.log_dim;
          table_dim = insert-dim ids vectors n e.memtable m inserted ∙ runs.table_dim;
          table = valid;
        }),
        λ i.
            view-write i ids vectors.rows n e (clear_tombstones ids e₁) fits.paired
              runs.table.distinct (rw same_table valid.distinct) (rw same_table (table i))
              (tombstones-clear i ids e₁) (rw (same_segments, same_disk) refl),
      )

  -- On a running engine, a delete of ids that fit returns the next LSN, logs one record with it,
  -- keeps the engine running, and unsets in the view every id of the batch and no other.
  pub delete-refines :
      (ids : List IdPattern)
      → Runs crc32 e rs
      → e.wal.last_lsn + 1 < 256 ^ 8
      → length ids < 256 ^ 4
      → All (λ i. i < 256 ^ 8) ids
      → (e' : Engine Index) × (delete crc32 ids e ≡ (ok (e.wal.last_lsn + 1), e'))
        × Runs crc32 e'
            (rs ++ entry (e.wal.last_lsn + 1) op_delete ids (zeros ids e.config.dim) ∷ [])
        × ((i : IdPattern) → view e' i ≡ (if contains i ids then none else view e i))
  delete-refines ids runs hl hn hi =
      let n = e.wal.last_lsn + 1 in
      let zs = zeros ids e.config.dim in
      let (logged, held, _, up) = append-Holds crc32 op_delete ids zs runs.log runs.log_open (
        subst (λ d. IsWritable d (entry n op_delete ids zs)) (sym runs.log_dim)
          (deletion-IsWritable e.config.dim n ids hl hn hi)) in
      let w = (Wal.append crc32 op_delete ids zs e.wal).1 in
      let (valid, table) = delete_lem ids n e.memtable runs.table in
      let e' : Engine Index = bury ids n (record e { wal = w }) in
      (
        e',
        delete-bury crc32 ids e n w runs.started (ap (λ o. (o, w)) logged),
        record {
          started = runs.started;
          log = held;
          log_open = up;
          log_dim = append-dim crc32 op_delete ids zs e.wal ∙ runs.log_dim;
          table_dim = delete-dim ids n e.memtable ∙ runs.table_dim;
          table = valid;
        },
        λ i.
            view-delete i ids n e e' runs.table.distinct valid.distinct (table i)
              (contains-union i ids e.tombstones) refl,
      )
