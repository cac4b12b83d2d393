-- ===== src/Tests/Index.antt =====
-- An index that keeps ids and finds all of them at distance 0, in the place of faiss.
use distributed_vector_db.Prelude.{
  ℕ, refl, none, some, List, [], ◌∷◌, ◌++◌, map, true, false, length, take,
}
use distributed_vector_db.Prelude.Dict.{keys}
use distributed_vector_db.Arrays.{NdArray}
use distributed_vector_db.Index.Faiss.{Faiss, KeepsFiles}
use distributed_vector_db.Index.IvfFlat.{IvfFlatIndex, train}

abbrev pub toy : Faiss (List ℕ)
toy = record {
  flat = λ dim. [];
  ivf = λ dim nlist. [];
  train = λ rows x. x;
  add_with_ids = λ rows x. x ++ keys rows;
  has_nprobe = λ x. false;
  set_nprobe = λ n x. x;
  search = λ q k x. take k (map (λ i. (0, i)) x);
  ntotal = λ x. length x;
  write_index = λ x. x;
  read_index = λ x. x;
}

toy-KeepsFiles : KeepsFiles toy
toy-KeepsFiles = record { read_write = λ x. refl }

abbrev two_rows : NdArray
two_rows = record { ndim = 2; width = 1; rows = (1 ∷ []) ∷ (2 ∷ []) ∷ [] }

-- Id 2 ^ 63 stands for a negative number.
abbrev filled : IvfFlatIndex (List ℕ)
filled = record {
  dim = 1;
  nlist = 1;
  trained = true;
  index = some (7 ∷ 9223372036854775808 ∷ []);
  quantizer = false;
  ivf = false;
  flat = true;
  loaded = none;
}
