-- ===== src/Storage/Lsm/Reads/SearchRun.antt =====
-- vecscaledb/storage/lsm.py: the way through a search.
use distributed_vector_db.Prelude.{
  ℕ, ◌≡◌, refl, arith, none, some, List, [], ◌∷◌, ◌++◌, Bool, true, false, ◌||◌, All, length, ◌==◌,
  ==_iff, Option-cases, inl, inr, if◌then◌else◌,
}
use distributed_vector_db.Prelude.Eq.{nat_eq}
use distributed_vector_db.Prelude.Dict.{Dict, lookup, has_key, HasDistinctKeys}
use distributed_vector_db.Prelude.Outcome.{ok}
use distributed_vector_db.Arrays.{IdPattern, Vector, Distance, Hit}
use distributed_vector_db.Index.Faiss.{Faiss}
use distributed_vector_db.Storage.MemTable
use distributed_vector_db.Storage.MemTable.{MemTable}
use distributed_vector_db.Storage.Merge.{merge_results}
use distributed_vector_db.Storage.Merge.Best.{best, all_hits}
use distributed_vector_db.Storage.Snapshot
use distributed_vector_db.Storage.Lsm.State.{Engine}
use distributed_vector_db.Storage.Lsm.Visibility.{
  search_segments, with_memtable, latest_segment_snapshot_by_id,
}
use distributed_vector_db.Storage.Lsm.Reads.{flat_search, search, hidden_at}
use distributed_vector_db.Storage.Lsm.Compaction.Settled.{AllUpTo}
use distributed_vector_db.Storage.Lsm.Reads.Exactness.{live_rows-all, deleted_keys-all}

pub to_arrays-all :
    (n : ℕ) (m : MemTable)
    → AllUpTo n m.entries
    → MemTable.to_arrays (some n) m ≡ MemTable.to_arrays none m
unfolding MemTable.to_arrays
to_arrays-all n m a = live_rows-all n m.entries a

pub deleted-all :
    (n : ℕ) (m : MemTable)
    → AllUpTo n m.entries
    → MemTable.visible_deleted_ids (some n) m ≡ MemTable.visible_deleted_ids none m
unfolding MemTable.visible_deleted_ids
deleted-all n m a = deleted_keys-all n m.entries a

pub search-all :
    {Index : Type 0} (faiss : Faiss Index) (query : Vector) (top_k n : ℕ) (m : MemTable)
    → AllUpTo n m.entries
    → MemTable.search (flat_search faiss) query top_k (some n) m
      ≡ MemTable.search (flat_search faiss) query top_k none m
unfolding MemTable.search
search-all faiss query top_k n m a = rw (to_arrays-all n m a) refl

pub All-lookup :
    (P : IdPattern → Distance → Type 0) (d : Dict IdPattern Distance)
    → HasDistinctKeys d
    → ((i : IdPattern) (c : Distance) → lookup i d ≡ some c → P i c)
    → All (λ e. P e.0 e.1) d
All-lookup P [] u f = tt
All-lookup P ((j, c) ∷ d) u f = (
  f j c (ground (arith, ==_iff j j)),
  All-lookup P d u.1
      (λ i b h. f i b (ground (arith, h, u.0, ==_iff i j, has_key_of_lookup i b d h))),
)
  where
    has_key_of_lookup :
        (i : IdPattern) (b : Distance) (d : Dict IdPattern Distance)
        → lookup i d ≡ some b
        → has_key i d ≡ true
    has_key_of_lookup i b [] h = cc
    has_key_of_lookup i b ((k, w) ∷ d) h = ground (arith, h, has_key_of_lookup i b d)

-- Whether a hit is of an id.
abbrev pub has_hit_of : IdPattern → List Hit → Bool
has_hit_of i [] = false
has_hit_of i ((d, j) ∷ hits) = if i == j then true else has_hit_of i hits

has_hit_of-append :
    (i : IdPattern) (xs ys : List Hit)
    → has_hit_of i (xs ++ ys) ≡ (has_hit_of i xs || has_hit_of i ys)
has_hit_of-append i [] ys = refl
has_hit_of-append i ((d, j) ∷ xs) ys = ground (arith, has_hit_of-append i xs ys)

pub has_hit_of-with_memtable :
    (i : IdPattern) (results : List (List Hit)) (mem : List Hit)
    → has_hit_of i mem ≡ true
    → has_hit_of i (all_hits (with_memtable results mem)) ≡ true
has_hit_of-with_memtable i results [] h = cc
has_hit_of-with_memtable i [] (x ∷ mem) h = ground (arith, h, has_hit_of-append i (x ∷ mem) [])
has_hit_of-with_memtable i (r ∷ results) (x ∷ mem) h = ground (
  arith,
  has_hit_of-with_memtable i results (x ∷ mem) h,
  has_hit_of-append i r (all_hits (results ++ ((x ∷ mem) ∷ []))),
)

-- An id with a hit has a smallest distance.
pub best_of_hit :
    (i : IdPattern) (hits : List Hit)
    → has_hit_of i hits ≡ true
    → (d : Distance) × (best i hits ≡ some d)
best_of_hit i hits h = elim (Option-cases (best i hits)) [
  | inl p ↦ absurd (none_best i hits h p)
  | inr found ↦ found
]
  where
    none_best :
        (i : IdPattern) (hits : List Hit) → has_hit_of i hits ≡ true → best i hits ≡ none → ⊥
    none_best i [] h p = cc
    none_best i ((d, j) ∷ hits) h p = ground (arith, h, p, none_best i hits)

module _ {Index : Type 0} (faiss : Faiss Index) (query : Vector) (top_k nprobe : ℕ)
    (e : Engine Index) where
  -- The engine after a search that took a snapshot of its own.
  abbrev pub searched : Engine Index
  searched = record e {
    snapshots =
        Snapshot.release_snapshot e.wal.last_lsn
          (Snapshot.create_snapshot e.wal.last_lsn e.snapshots).1;
  }

  abbrev pub table_hits : ℕ → List Hit
  table_hits n = MemTable.search (flat_search faiss) query top_k (some n) e.memtable

  pub search_run :
      (latest : Dict IdPattern ℕ) (results : List (List Hit)) (n : ℕ)
      → e.started ≡ true
      → (length query == e.config.dim) ≡ true
      → e.wal.last_lsn ≡ n
      → Snapshot.visible_segments (λ s. s.snapshot_id) n e.segments ≡ e.segments
      → latest_segment_snapshot_by_id e.segments e.disk ≡ ok latest
      → search_segments faiss query top_k nprobe (hidden_at n e latest) e.segments ≡ ok results
      → search faiss query top_k nprobe none e ≡ (
        ok (
            merge_results
              (with_memtable results (table_hits n))
              top_k
              (hidden_at n e latest).deleted_ids),
        searched,
      )
  unfolding search Snapshot.create_snapshot
  search_run latest results n up fits last all noted found =
      ground (arith, up, fits, last, all, noted, found)
