-- ===== src/Storage/Snapshot/Laws.antt =====
-- Every reader that takes a snapshot and releases it leaves the counters as they were.
use distributed_vector_db.Prelude.{
  ℕ, ◌+◌, ◌-◌, ◌<◌, ◌≡◌, refl, [], ◌∷◌, false, not, ◌==◌, ==_self, ==_iff, arith,
}
use distributed_vector_db.Prelude.Eq.{nat_eq}
use distributed_vector_db.Prelude.Dict.{
  Dict, insert, remove, has_key, has_key-insert, lookup-insert, lookup-remove, HasDistinctKeys,
  insert-HasDistinctKeys,
}
use distributed_vector_db.Storage.Snapshot.{
  SnapshotManager, count, create_snapshot, release_snapshot, active_count, sum_values,
}

-- The manager as its methods leave it: each LSN once.
abbrev pub IsValid : SnapshotManager → Type 0
IsValid s = HasDistinctKeys s.active

has_key-remove_self : (k : ℕ) (d : Dict ℕ ℕ) → has_key k (remove k d) ≡ false
has_key-remove_self k [] = refl
has_key-remove_self k ((j, n) ∷ d) = ground (arith, has_key-remove_self k d)

-- Taking and releasing a snapshot restores the count of every LSN, and leaves an entry for the LSN
-- exactly when other readers hold it.
pub release-create :
    (lsn j : ℕ) (s : SnapshotManager)
    → let (id, s') = create_snapshot lsn s in
      (count j (release_snapshot id s').active ≡ count j s.active)
      × (has_key lsn (release_snapshot id s').active ≡ not (count lsn s.active == 0))
unfolding create_snapshot release_snapshot
release-create lsn j s =
    let c = count lsn s.active in
    let d = insert lsn (c + 1) s.active in
    (
      ground (
        arith,
        lookup-insert lsn lsn (c + 1) s.active,
        lookup-insert j lsn (c + 1) s.active,
        lookup-remove j lsn d,
        lookup-insert j lsn (count lsn d - 1) d,
        ==_iff j lsn,
      ),
      ground (
        arith,
        lookup-insert lsn lsn (c + 1) s.active,
        has_key-insert lsn lsn (count lsn d - 1) d,
        has_key-remove_self lsn d,
        ==_self lsn,
      ),
    )

sum-insert : (k n : ℕ) (d : Dict ℕ ℕ) → sum_values (insert k n d) + count k d ≡ sum_values d + n
sum-insert k n [] = omega arith
sum-insert k n ((j, m) ∷ d) = ground (arith, sum-insert k n d)

remove_absent : (k : ℕ) (d : Dict ℕ ℕ) → has_key k d ≡ false → remove k d ≡ d
remove_absent k [] h = refl
remove_absent k ((j, m) ∷ d) h = ground (arith, remove_absent k d)

sum-remove :
    (k : ℕ) (d : Dict ℕ ℕ) → HasDistinctKeys d → sum_values (remove k d) + count k d ≡ sum_values d
sum-remove k [] u = omega arith
sum-remove k ((j, m) ∷ d) u = ground (arith, sum-remove k d u.1, remove_absent j d u.0, ==_iff k j)

has_key-remove : (j k : ℕ) (d : Dict ℕ ℕ) → has_key j d ≡ false → has_key j (remove k d) ≡ false
has_key-remove j k [] h = refl
has_key-remove j k ((i, m) ∷ d) h = ground (arith, has_key-remove j k d)

remove-HasDistinctKeys : (k : ℕ) (d : Dict ℕ ℕ) → HasDistinctKeys d → HasDistinctKeys (remove k d)
remove-HasDistinctKeys k [] u = tt
remove-HasDistinctKeys k ((j, m) ∷ d) u =
    ground (arith, remove-HasDistinctKeys k d u.1, has_key-remove j k d u.0)

-- Taking a snapshot keeps the manager valid and adds one active reader.
pub active_count-create_snapshot :
    (lsn : ℕ) (s : SnapshotManager)
    → IsValid s
    → IsValid (create_snapshot lsn s).1
      × (active_count (create_snapshot lsn s).1 ≡ active_count s + 1)
unfolding create_snapshot active_count
active_count-create_snapshot lsn s v =
    let c = count lsn s.active in
    (insert-HasDistinctKeys lsn (c + 1) s.active v, omega (arith, sum-insert lsn (c + 1) s.active))

-- Releasing a snapshot that is held keeps the manager valid and takes one active reader away.
pub active_count-release_snapshot :
    (lsn : ℕ) (s : SnapshotManager)
    → IsValid s
    → 0 < count lsn s.active
    → IsValid (release_snapshot lsn s)
      × (active_count (release_snapshot lsn s) + 1 ≡ active_count s)
unfolding release_snapshot active_count
active_count-release_snapshot lsn s v held =
    let c = count lsn s.active in
    ground (
      arith,
      sum-remove lsn s.active v,
      sum-insert lsn (c - 1) s.active,
      remove-HasDistinctKeys lsn s.active v,
      insert-HasDistinctKeys lsn (c - 1) s.active v,
    )
