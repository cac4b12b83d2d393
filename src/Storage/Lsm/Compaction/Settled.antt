-- ===== src/Storage/Lsm/Compaction/Settled.antt =====
-- The invariant of an engine's segments and MemTable, beside the log's: the segments are in
-- the order of their snapshots, on disk and each at a path of its own, no snapshot is above `floor`, every entry of the MemTable is newer, and an id that is live
-- in the MemTable is not buried.
use distributed_vector_db.Prelude.{
  ℕ, ◌<◌, ◌≤◌, ◌≡◌, refl, arith, none, [], ◌∷◌, false, ◌&&◌, All, max_of, is_empty,
}
use distributed_vector_db.Prelude.Eq.{nat_eq}
use distributed_vector_db.Prelude.Dict.{lookup, has_key, HasDistinctKeys}
use distributed_vector_db.Prelude.SortedDict.{is_held}
use distributed_vector_db.Prelude.Set.{contains}
use distributed_vector_db.Arrays.{IdPattern}
use distributed_vector_db.Index.Segment.Stored.{Loads}
use distributed_vector_db.Storage.MemTable.{MemTable, to_arrays, max_lsn}
use distributed_vector_db.Storage.MemTable.EntryMap.{Entries, live_rows}
use distributed_vector_db.Storage.Lsm.State.{Engine}
use distributed_vector_db.Storage.Lsm.Compaction.Shelf.{IsAscending, IsSpread, AllAtMost}

-- Every entry is newer than this snapshot.
abbrev pub AllAbove : ℕ → Entries → Type 0
AllAbove n d = All (λ e. n < e.1.lsn) d

abbrev pub AllUpTo : ℕ → Entries → Type 0
AllUpTo n d = All (λ e. e.1.lsn ≤ n) d

pub record IsSettled {Index : Type 0} (floor : ℕ) (e : Engine Index) : Type 0 where
  pub ascending : IsAscending e.segments
  pub spread : IsSpread e.segments
  pub positive : All (λ s. 0 < s.snapshot_id) e.segments
  pub loads : All (Loads e.disk) e.segments
  pub below : AllAtMost floor e.segments
  pub above : AllAbove floor e.memtable.entries
  pub logged : AllUpTo e.wal.last_lsn e.memtable.entries
  pub floor_logged : floor ≤ e.wal.last_lsn
  pub unburied :
      (i : IdPattern)
      → (is_held (lookup i (to_arrays none e.memtable)) && contains i e.tombstones) ≡ false

-- The LSN of a MemTable with an entry lies above the floor.
max_lsn-above :
    (n : ℕ) (d : Entries)
    → AllAbove n d
    → is_empty (live_rows none d) ≡ false
    → n < max_of (λ e. e.1.lsn) 0 d
unfolding live_rows
max_lsn-above n [] a h = ground arith
max_lsn-above n ((i, e) ∷ d) a h = omega (arith, a.0)

max_lsn-up_to : (n : ℕ) (d : Entries) → AllUpTo n d → max_of (λ e. e.1.lsn) 0 d ≤ n
max_lsn-up_to n [] a = omega arith
max_lsn-up_to n ((i, e) ∷ d) a = omega (arith, a.0, max_lsn-up_to n d a.1)

pub max_lsn_bounds :
    (floor n : ℕ) (m : MemTable)
    → AllAbove floor m.entries
    → AllUpTo n m.entries
    → is_empty (to_arrays none m) ≡ false
    → (floor < max_lsn m) × (max_lsn m ≤ n)
unfolding max_lsn to_arrays
max_lsn_bounds floor n m a b h = (max_lsn-above floor m.entries a h, max_lsn-up_to n m.entries b)

-- A live row for each id at most.
not-has_key-rows :
    (i : IdPattern) (d : Entries) → has_key i d ≡ false → has_key i (live_rows none d) ≡ false
unfolding live_rows
not-has_key-rows i [] h = refl
not-has_key-rows i ((j, e) ∷ d) h = ground (arith, not-has_key-rows i d)

live_rows-HasDistinctKeys : (d : Entries) → HasDistinctKeys d → HasDistinctKeys (live_rows none d)
unfolding live_rows
live_rows-HasDistinctKeys [] u = tt
live_rows-HasDistinctKeys ((j, e) ∷ d) u =
    ground (arith, live_rows-HasDistinctKeys d u.1, not-has_key-rows j d u.0)

pub to_arrays-HasDistinctKeys :
    (m : MemTable) → HasDistinctKeys m.entries → HasDistinctKeys (to_arrays none m)
unfolding to_arrays
to_arrays-HasDistinctKeys m u = live_rows-HasDistinctKeys m.entries u
