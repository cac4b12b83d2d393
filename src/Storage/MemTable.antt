-- ===== src/Storage/MemTable.antt =====
-- vecscaledb/storage/lsm.py: `class MemTable` and `MemTableEntry`. The flat index of `search` is
-- faiss's, a parameter.
pub mod EntryMap
pub mod Laws
use distributed_vector_db.Prelude.{
  ℕ, ◌+◌, Option, none, some, List, [], ◌∷◌, Bool, true, false, not, ◌&&◌, ◌||◌, leb, ltb, keep,
  is_empty, min, length, max_of, if◌then◌else◌,
}
use distributed_vector_db.Prelude.Eq.{nat_eq}
use distributed_vector_db.Prelude.Outcome.{Outcome, ok, raise, ◌>>=◌, ◌>>◌}
use distributed_vector_db.Arrays.{IdPattern, Vector, Hit, NdArray, is_negative, check_shape}
use EntryMap.{Entries, Rows, insert_all, delete_all, live_rows, deleted_keys, count_live}

pub record MemTable : Type 0 where
  pub dim : ℕ
  pub flush_threshold : ℕ
  pub entries : Entries

abbrev pub init : ℕ → ℕ → MemTable
init dim flush_threshold = record { dim = dim; flush_threshold = flush_threshold; entries = [] }

unfoldable pub insert : List IdPattern → NdArray → ℕ → MemTable → Outcome MemTable
unfolding insert_all
insert ids vectors lsn m = do
  check_shape m.dim ids vectors
  ok (record m { entries = insert_all ids vectors.rows lsn m.entries })

unfoldable pub delete : List IdPattern → ℕ → MemTable → MemTable
unfolding delete_all
delete ids lsn m = record m { entries = delete_all ids lsn m.entries }

-- `to_arrays`: the two arrays, as the list of their pairs.
unfoldable pub to_arrays : Option ℕ → MemTable → Rows
unfolding live_rows
to_arrays snapshot_id m = live_rows snapshot_id m.entries

unfoldable pub visible_deleted_ids : Option ℕ → MemTable → List IdPattern
unfolding deleted_keys
visible_deleted_ids snapshot_id m = deleted_keys snapshot_id m.entries

abbrev pub clear : MemTable → MemTable
clear m = record m { entries = [] }

unfoldable pub ntotal : MemTable → ℕ
unfolding count_live
ntotal m = count_live m.entries

unfoldable pub max_lsn : MemTable → ℕ
max_lsn m = max_of (λ e. e.1.lsn) 0 m.entries

unfoldable pub should_flush : MemTable → Bool
unfolding ntotal
should_flush m = leb m.flush_threshold (ntotal m)

-- `IndexIDMap2(IndexFlatL2(dim))` over the visible rows. Faiss fills free places with the id -1,
-- which the mask removes.
unfoldable pub search :
    (ℕ → Rows → Vector → ℕ → List Hit) → Vector → ℕ → Option ℕ → MemTable → List Hit
unfolding to_arrays
search flat_search query top_k snapshot_id m =
    let rows = to_arrays snapshot_id m in
    if is_empty rows
    then []
    else keep (λ h. not (is_negative h.1)) (flat_search m.dim rows query (min top_k (length rows)))
