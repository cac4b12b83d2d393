-- ===== src/Index/Faiss.antt =====
-- What the program calls of faiss. An index is a value of an unknown type; `write_index` and
-- `read_index` are the bytes of its file.
use distributed_vector_db.Prelude.{ℕ, ◌≡◌, List, Bool}
use distributed_vector_db.Arrays.{IdPattern, Vector, Hit}

pub record Faiss (Index : Type 0) : Type 0 where
  -- `IndexIDMap2(IndexFlatL2(dim))`
  pub flat : ℕ → Index
  -- `IndexIVFFlat(IndexFlatL2(dim), dim, nlist, METRIC_L2)`
  pub ivf : ℕ → ℕ → Index
  pub train : List Vector → Index → Index
  pub add_with_ids : List (IdPattern × Vector) → Index → Index
  -- `hasattr(index, "nprobe")`, of the index or the one that it wraps, after `downcast_index`
  pub has_nprobe : Index → Bool
  pub set_nprobe : ℕ → Index → Index
  -- Free places of the answer carry the id -1.
  pub search : Vector → ℕ → Index → List Hit
  pub ntotal : Index → ℕ
  pub write_index : Index → List ℕ
  pub read_index : List ℕ → Index

-- The documented contract of the two file functions.
pub record KeepsFiles {Index : Type 0} (faiss : Faiss Index) : Type 0 where
  pub read_write : (x : Index) → faiss.read_index (faiss.write_index x) ≡ x
