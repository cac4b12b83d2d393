-- ===== src/Storage/Lsm/Writes/Settling.antt =====
-- The write methods leave the segments alone and keep the engine settled: what they put in the MemTable
-- is newer than every segment, and an id that they set to a vector is not buried.
use distributed_vector_db.Prelude.{
  ℕ, ◌+◌, ◌^◌, ◌<◌, ◌≤◌, All, ◌≡◌, refl, ap, subst, sym, none, some, List, false, not, ◌&&◌, ◌||◌,
  if◌then◌else◌, arith, length,
}
use distributed_vector_db.Prelude.Eq.{nat_eq}
use distributed_vector_db.Prelude.Dict.{lookup, HasDistinctKeys}
use distributed_vector_db.Prelude.SortedDict.{is_held}
use distributed_vector_db.Prelude.Pairwise.{All-map}
use distributed_vector_db.Prelude.Set.{contains, contains-union}
use distributed_vector_db.Prelude.Outcome.{ok}
use distributed_vector_db.Arrays.{IdPattern, Vector, NdArray}
use distributed_vector_db.Storage.Wal
use distributed_vector_db.Storage.Wal.Words.{Bytes}
use distributed_vector_db.Storage.Wal.Frame.{WalRecord, op_insert, op_delete}
use distributed_vector_db.Storage.Wal.FrameLaws.{IsWritable}
use distributed_vector_db.Storage.Wal.Invariant.{entry, append-Holds}
use distributed_vector_db.Storage.MemTable
use distributed_vector_db.Storage.MemTable.{MemTable}
use distributed_vector_db.Storage.MemTable.EntryMap.{Entries, dead_entry, insert_all}
use distributed_vector_db.Storage.MemTable.Laws.{
  last_vector, overwritten, visible_entries, insert_lem, delete_lem, insert_all-All, delete_all-All,
}
use distributed_vector_db.Storage.Lsm.State.{Engine}
use distributed_vector_db.Storage.Lsm.Invariant.{Runs, deletion-IsWritable}
use distributed_vector_db.Storage.Lsm.Writes.{write, delete, clear_tombstones, bury, zeros}
use distributed_vector_db.Storage.Lsm.Writes.Refinement.{
  clear_tombstones-same, tombstones-clear, write_lem, delete-bury, shape_of_writable,
  contains-last_vector,
}
use distributed_vector_db.Index.Segment.Stored.{Loads}
use distributed_vector_db.Storage.Lsm.Compaction.Shelf.{IsAscending, IsSpread, AllAtMost}
use distributed_vector_db.Storage.Lsm.Compaction.Settled.{IsSettled, AllAbove, AllUpTo}

AllUpTo-le : (m n : ℕ) (d : Entries) → m ≤ n → AllUpTo m d → AllUpTo n d
AllUpTo-le m n d h a =
    All-map (λ e. e.1.lsn ≤ m) (λ e. e.1.lsn ≤ n) d (λ e b. omega (arith, b, h)) a

insert-entries :
    (ids : List IdPattern) (vectors : NdArray) (lsn : ℕ) (m m' : MemTable)
    → MemTable.insert ids vectors lsn m ≡ ok m'
    → m'.entries ≡ insert_all ids vectors.rows lsn m.entries
unfolding MemTable.insert
insert-entries ids vectors lsn m m' h = ground (arith, h)

-- Every entry of the MemTable is newer than `floor` and at most `lsn`.
abbrev IsBetween : ℕ → ℕ → Entries → Type 0
IsBetween floor lsn d = AllAbove floor d × AllUpTo lsn d

insert-IsBetween :
    (floor old lsn : ℕ) (ids : List IdPattern) (vectors : NdArray) (m m' : MemTable)
    → floor < lsn
    → old ≤ lsn
    → IsBetween floor old m.entries
    → MemTable.insert ids vectors lsn m ≡ ok m'
    → IsBetween floor lsn m'.entries
insert-IsBetween floor old lsn ids vectors m m' above later b done =
    subst (IsBetween floor lsn) (sym (insert-entries ids vectors lsn m m' done)) (
      insert_all-All (λ e. floor < e.lsn) ids vectors.rows lsn m.entries (λ v. above) b.0,
      insert_all-All (λ e. e.lsn ≤ lsn) ids vectors.rows lsn m.entries (λ v. omega arith)
          (AllUpTo-le old lsn m.entries later b.1),
    )

delete-IsBetween :
    (floor old lsn : ℕ) (ids : List IdPattern) (m : MemTable)
    → floor < lsn
    → old ≤ lsn
    → IsBetween floor old m.entries
    → IsBetween floor lsn (MemTable.delete ids lsn m).entries
unfolding MemTable.delete
delete-IsBetween floor old lsn ids m above later b = (
  delete_all-All (λ e. floor < e.lsn) ids lsn m.entries above b.0,
  delete_all-All (λ e. e.lsn ≤ lsn) ids lsn m.entries (omega arith)
      (AllUpTo-le old lsn m.entries later b.1),
)

module _ {Index : Type 0} where
  -- What an engine stands on that has got another MemTable, log and set of tombstones.
  IsSettled-moved :
      (floor : ℕ) (e e' : Engine Index)
      → IsSettled floor e
      → e'.segments ≡ e.segments
      → e'.disk ≡ e.disk
      → IsBetween floor e'.wal.last_lsn e'.memtable.entries
      → e.wal.last_lsn ≤ e'.wal.last_lsn
      → ((i : IdPattern)
          → (is_held (lookup i (MemTable.to_arrays none e'.memtable)) && contains i e'.tombstones)
            ≡ false)
      → IsSettled floor e'
  IsSettled-moved floor e e' s p q b later apart = record {
    ascending = subst IsAscending (sym p) s.ascending;
    spread = subst IsSpread (sym p) s.spread;
    positive = subst (λ l. All (λ t. 0 < t.snapshot_id) l) (sym p) s.positive;
    loads =
        subst (λ d. All (Loads d) e'.segments) (sym q)
          (subst (λ l. All (Loads e.disk) l) (sym p) s.loads);
    below = subst (AllAtMost floor) (sym p) s.below;
    above = b.0;
    logged = b.1;
    floor_logged = omega (arith, s.floor_logged, later);
    unburied = apart;
  }

  unburied-write :
      (i : IdPattern) (ids : List IdPattern) (vs : List Vector) (lsn : ℕ) (e e' : Engine Index)
      → length ids ≡ length vs
      → HasDistinctKeys e.memtable.entries
      → HasDistinctKeys e'.memtable.entries
      → lookup i e'.memtable.entries
        ≡ overwritten (last_vector i ids vs) lsn (lookup i e.memtable.entries)
      → contains i e'.tombstones ≡ (contains i e.tombstones && not (contains i ids))
      → (is_held (lookup i (MemTable.to_arrays none e.memtable)) && contains i e.tombstones) ≡ false
      → (is_held (lookup i (MemTable.to_arrays none e'.memtable)) && contains i e'.tombstones)
        ≡ false
  unburied-write i ids vs lsn e e' paired u u' table tombs before = ground (
    arith,
    visible_entries i none e.memtable u,
    visible_entries i none e'.memtable u',
    contains-last_vector i ids vs paired,
  )

  unburied-delete :
      (i : IdPattern) (ids : List IdPattern) (lsn : ℕ) (e e' : Engine Index)
      → HasDistinctKeys e.memtable.entries
      → HasDistinctKeys e'.memtable.entries
      → lookup i e'.memtable.entries
        ≡ (if contains i ids then some (dead_entry lsn) else lookup i e.memtable.entries)
      → contains i e'.tombstones ≡ (contains i ids || contains i e.tombstones)
      → (is_held (lookup i (MemTable.to_arrays none e.memtable)) && contains i e.tombstones) ≡ false
      → (is_held (lookup i (MemTable.to_arrays none e'.memtable)) && contains i e'.tombstones)
        ≡ false
  unburied-delete i ids lsn e e' u u' table tombs before =
      ground (arith, visible_entries i none e.memtable u, visible_entries i none e'.memtable u')

  clear_tombstones-log :
      (ids : List IdPattern) (e : Engine Index)
      → ((clear_tombstones ids e).wal ≡ e.wal) × ((clear_tombstones ids e).config ≡ e.config)
  clear_tombstones-log ids e = ground arith

  module _ (crc32 : Bytes → ℕ) {e : Engine Index} {rs : List WalRecord} {floor : ℕ}
      (runs : Runs crc32 e rs) (settled : IsSettled floor e) where
    -- An insert keeps the engine settled, and its segments and configuration as they are.
    pub write-settles :
        (ids : List IdPattern) (vectors : NdArray)
        → IsWritable e.config.dim (entry (e.wal.last_lsn + 1) op_insert ids vectors)
        → let e' = (write crc32 ids vectors e).1 in
          IsSettled floor e' × (e'.segments ≡ e.segments) × (e'.config ≡ e.config)
    write-settles ids vectors fits =
        let n = e.wal.last_lsn + 1 in
        let (logged, _, last, _) =
          append-Holds crc32 op_insert ids vectors runs.log runs.log_open
            (subst (λ d. IsWritable d (entry n op_insert ids vectors)) (sym runs.log_dim) fits) in
        let w = (Wal.append crc32 op_insert ids vectors e.wal).1 in
        let (m, inserted, valid, table) =
          insert_lem ids vectors n e.memtable
            (shape_of_writable e.memtable.dim n op_insert ids vectors
              (subst (λ d. IsWritable d (entry n op_insert ids vectors)) (sym runs.table_dim) fits))
            runs.table in
        let e₁ : Engine Index = record e { wal = w; memtable = m } in
        let e₂ : Engine Index = clear_tombstones ids e₁ in
        let (same_table, same_segments, same_disk) = clear_tombstones-same ids e₁ in
        let (same_log, same_config) = clear_tombstones-log ids e₁ in
        let run =
          write_lem crc32 ids vectors e n w m runs.started
            (shape_of_writable e.config.dim n op_insert ids vectors fits) (ap (λ o. (o, w)) logged)
            inserted in
        let newer : IsBetween floor n m.entries =
          insert-IsBetween floor e.wal.last_lsn n ids vectors e.memtable m
            (omega (arith, settled.floor_logged)) (omega arith) (settled.above, settled.logged)
            inserted in
        rw run (
          IsSettled-moved floor e e₂ settled same_segments same_disk
              (rw (same_log, same_table, last) newer) (rw (same_log, last) (omega arith))
              (λ i.
                unburied-write i ids vectors.rows n e e₂ fits.paired runs.table.distinct
                  (rw same_table valid.distinct) (rw same_table (table i))
                  (tombstones-clear i ids e₁) (settled.unburied i)),
          same_segments,
          same_config,
        )

    -- The same of a delete.
    pub delete-settles :
        (ids : List IdPattern)
        → e.wal.last_lsn + 1 < 256 ^ 8
        → length ids < 256 ^ 4
        → All (λ i. i < 256 ^ 8) ids
        → let e' = (delete crc32 ids e).1 in
          IsSettled floor e' × (e'.segments ≡ e.segments) × (e'.config ≡ e.config)
    delete-settles ids hl hn hi =
        let n = e.wal.last_lsn + 1 in
        let zs = zeros ids e.config.dim in
        let (logged, _, last, _) = append-Holds crc32 op_delete ids zs runs.log runs.log_open (
          subst (λ d. IsWritable d (entry n op_delete ids zs)) (sym runs.log_dim)
            (deletion-IsWritable e.config.dim n ids hl hn hi)) in
        let w = (Wal.append crc32 op_delete ids zs e.wal).1 in
        let (valid, table) = delete_lem ids n e.memtable runs.table in
        let e' : Engine Index = bury ids n (record e { wal = w }) in
        let newer : IsBetween floor n e'.memtable.entries =
          delete-IsBetween floor e.wal.last_lsn n ids e.memtable
            (omega (arith, settled.floor_logged)) (omega arith) (settled.above, settled.logged) in
        rw (delete-bury crc32 ids e n w runs.started (ap (λ o. (o, w)) logged)) (
          IsSettled-moved floor e e' settled refl refl (rw last newer) (rw last (omega arith)) (λ i.
              unburied-delete i ids n e e' runs.table.distinct valid.distinct (table i)
                (contains-union i ids e.tombstones) (settled.unburied i)),
          refl,
          refl,
        )
