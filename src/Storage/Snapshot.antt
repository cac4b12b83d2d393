-- ===== src/Storage/Snapshot.antt =====
-- vecscaledb/storage/snapshot.py: `class SnapshotManager`, a counter of the readers of each LSN.
pub mod Laws
use distributed_vector_db.Prelude.{
  ℕ, ◌+◌, ◌-◌, Option, none, some, List, [], ◌∷◌, leb, if◌then◌else◌, keep,
}
use distributed_vector_db.Prelude.Eq.{nat_eq}
use distributed_vector_db.Prelude.Dict.{Dict, lookup, insert, remove}

pub record SnapshotManager : Type 0 where
  pub active : Dict ℕ ℕ

abbrev pub init : SnapshotManager
init = record { active = [] }

-- `self._active[snapshot_id]`: a `Counter` reads 0 for a missing key.
abbrev pub count : ℕ → Dict ℕ ℕ → ℕ
count j d = elim (lookup j d) [ none ↦ 0 | some n ↦ n ]

unfoldable pub create_snapshot : ℕ → SnapshotManager → ℕ × SnapshotManager
create_snapshot current_lsn s =
    (current_lsn, record { active = insert current_lsn (count current_lsn s.active + 1) s.active })

unfoldable pub release_snapshot : ℕ → SnapshotManager → SnapshotManager
release_snapshot snapshot_id s =
    if leb (count snapshot_id s.active) 1
    then record { active = remove snapshot_id s.active }
    else record { active = insert snapshot_id (count snapshot_id s.active - 1) s.active }

-- `visible_segments`, over what carries a snapshot.
unfoldable pub visible_segments {ℓ} : {S : Type ℓ} → (S → ℕ) → ℕ → List S → List S
visible_segments snapshot_of snapshot_id segments =
    keep (λ s. leb (snapshot_of s) snapshot_id) segments

abbrev pub sum_values : Dict ℕ ℕ → ℕ
sum_values [] = 0
sum_values ((k, n) ∷ d) = n + sum_values d

unfoldable pub active_count : SnapshotManager → ℕ
active_count s = sum_values s.active
