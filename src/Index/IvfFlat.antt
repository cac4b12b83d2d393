-- ===== src/Index/IvfFlat.antt =====
-- vecscaledb/index/ivf_flat.py: `class IVFFlatIndex`, over faiss. `ivf` says whether `_ivf` is set;
-- the object that it names is the one in `_index`.
pub mod Lifecycle
use distributed_vector_db.Prelude.{
  ℕ, ◌*◌, max, Option, none, some, List, [], ◌∷◌, Bool, true, false, not, ◌||◌, ◌==◌, ltb, keep,
  length, if◌then◌else◌,
}
use distributed_vector_db.Prelude.Outcome.{
  Outcome, ok, raise, raise_if, runtime_error, value_error, ◌>>=◌, ◌>>◌,
}
use distributed_vector_db.Arrays.{IdPattern, Vector, Hit, NdArray, is_negative}
use distributed_vector_db.Index.Faiss.{Faiss}

pub record IvfFlatIndex (Index : Type 0) : Type 0 where
  pub dim : ℕ
  pub nlist : ℕ
  pub trained : Bool
  pub index : Option Index
  pub quantizer : Bool
  pub ivf : Bool
  pub flat : Bool
  pub loaded : Option Index

abbrev pub init : {Index : Type 0} → ℕ → ℕ → IvfFlatIndex Index
init dim nlist = record {
  dim = dim;
  nlist = nlist;
  trained = false;
  index = none;
  quantizer = false;
  ivf = false;
  flat = false;
  loaded = none;
}

abbrev pub min_training_points : ℕ → ℕ
min_training_points nlist = max 1 nlist * 39

-- `zip(ids, vectors)`
abbrev pub pair_rows : List IdPattern → List Vector → List (IdPattern × Vector)
pair_rows [] vs = []
pair_rows (i ∷ ids) [] = []
pair_rows (i ∷ ids) (v ∷ vs) = (i, v) ∷ pair_rows ids vs

module _ {Index : Type 0} (faiss : Faiss Index) where
  abbrev pub train_flat : IvfFlatIndex Index → IvfFlatIndex Index
  train_flat x = record x {
    index = some (faiss.flat x.dim);
    flat = true;
    quantizer = false;
    ivf = false;
    trained = true;
  }

  abbrev pub train_ivf : List Vector → IvfFlatIndex Index → IvfFlatIndex Index
  train_ivf rows x = record x {
    index = some (faiss.train rows (faiss.ivf x.dim x.nlist));
    quantizer = true;
    ivf = true;
    loaded = none;
    trained = true;
  }

  -- `windows` is `sys.platform == "win32"`.
  unfoldable pub train : Bool → NdArray → IvfFlatIndex Index → Outcome (IvfFlatIndex Index)
  train windows vectors x = do
    raise_if (not (vectors.ndim == 2) || not (vectors.width == x.dim)) value_error
    ok (
        if windows || ltb (length vectors.rows) (min_training_points x.nlist)
        then train_flat x
        else train_ivf vectors.rows x)

  abbrev pub require_index : Option Index → Outcome Index
  require_index none = raise runtime_error
  require_index (some i) = ok i

  unfoldable pub add :
      List Vector → List IdPattern → IvfFlatIndex Index → Outcome (IvfFlatIndex Index)
  add rows ids x = do
    raise_if (not x.trained) runtime_error
    i ← require_index x.index
    ok (record x { index = some (faiss.add_with_ids (pair_rows ids rows) i) })

  -- `self._ivf.nprobe = nprobe`
  abbrev pub probed : ℕ → Bool → Index → Index
  probed nprobe ivf i = if ivf then faiss.set_nprobe nprobe i else i

  -- The index with its new `nprobe`, and the hits that fill a place.
  unfoldable pub search :
      Vector → ℕ → ℕ → IvfFlatIndex Index → Outcome (List Hit × IvfFlatIndex Index)
  search query top_k nprobe x = do
    i ← require_index x.index
    let i' = probed nprobe x.ivf i
    ok (
      keep (λ h. not (is_negative h.1)) (faiss.search query top_k i'),
      record x { index = some i' },
    )

  unfoldable pub save : IvfFlatIndex Index → Outcome (List ℕ)
  save x = do i ← require_index x.index; ok (faiss.write_index i)

  unfoldable pub load : List ℕ → IvfFlatIndex Index → IvfFlatIndex Index
  load bytes x =
      let i : Index = faiss.read_index bytes in
      record x {
        loaded = some i;
        index = some i;
        ivf = faiss.has_nprobe i;
        quantizer = false;
        flat = false;
        trained = true;
      }

  unfoldable pub ntotal : IvfFlatIndex Index → ℕ
  ntotal x = elim x.index [ none ↦ 0 | some i ↦ faiss.ntotal i ]
