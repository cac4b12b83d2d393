-- ===== src/Index/Segment.antt =====
-- vecscaledb/index/segment.py: `class Segment`, with its directory on disk. The JSON of
-- `SegmentMeta` (pydantic) is stored as the record that it writes and reads.
pub mod Stored
use Prim.Native.String.{◌++◌}
use distributed_vector_db.Prelude.{
  ℕ, suc, ◌^◌, min, Option, none, some, List, Bool, length, String, if◌then◌else◌, ltb,
}
use distributed_vector_db.Prelude.Eq.{string_eq}
use distributed_vector_db.Prelude.Strings.{padded, digits}
use distributed_vector_db.Prelude.Dict.{Dict, lookup, insert}
use distributed_vector_db.Prelude.Outcome.{Outcome, ok, raise, file_not_found, ◌>>=◌}
use distributed_vector_db.Arrays.{IdPattern, Vector, Hit, NdArray}
use distributed_vector_db.Index.Faiss.{Faiss}
use distributed_vector_db.Index.IvfFlat
use distributed_vector_db.Index.IvfFlat.{IvfFlatIndex}

-- vecscaledb/models.py: `SegmentMeta`
pub record SegmentMeta : Type 0 where
  pub segment_id : String
  pub shard_id : ℕ
  pub num_vectors : ℕ
  pub snapshot_id : ℕ
  pub path : String

-- The files of one directory, `none` for a file that is not there.
pub record SegmentDir : Type 0 where
  pub index_file : Option (List ℕ)
  pub ids_file : Option (List IdPattern)
  pub vectors_file : Option (List Vector)
  pub meta_file : Option SegmentMeta

-- The directories by their paths.
abbrev pub Storage : Type 0
Storage = Dict String SegmentDir

pub record Segment (Index : Type 0) : Type 0 where
  pub segment_id : String
  pub shard_id : ℕ
  pub snapshot_id : ℕ
  pub path : String
  pub meta : SegmentMeta
  pub index : IvfFlatIndex Index
  pub ids_cache : Option (List IdPattern)

-- `f"{n:0{width}d}"`: a number with more digits than the width is written whole.
unfoldable pub format_padded : ℕ → ℕ → String
unfolding padded digits
format_padded width n = if ltb n (10 ^ width) then padded width n else digits (suc n) n

-- `f"{shard_id:04d}-{snapshot_id:010d}-{uuid.uuid4().hex[:8]}"`
unfoldable pub make_segment_id : ℕ → ℕ → String → String
unfolding format_padded
make_segment_id shard_id snapshot_id uuid =
    format_padded 4 shard_id ++ ("-" ++ (format_padded 10 snapshot_id ++ ("-" ++ uuid)))

abbrev pub join_path : String → String → String
join_path base name = base ++ ("/" ++ name)

abbrev pub empty_dir : SegmentDir
empty_dir = record { index_file = none; ids_file = none; vectors_file = none; meta_file = none }

abbrev pub read_dir : String → Storage → SegmentDir
read_dir path disk = elim (lookup path disk) [ none ↦ empty_dir | some d ↦ d ]

abbrev pub file {ℓ} : {A : Type ℓ} → Option A → Outcome A
file none = raise file_not_found
file (some a) = ok a

module _ {Index : Type 0} (faiss : Faiss Index) where
  -- `IVFFlatIndex(dim, min(nlist, len(vectors)))`, trained, filled and written.
  abbrev pub build_index :
      Bool → ℕ → ℕ → NdArray → List IdPattern → Outcome (IvfFlatIndex Index × List ℕ)
  build_index windows dim nlist vectors ids = do
    trained ←
        IvfFlat.train faiss windows vectors (IvfFlat.init dim (min nlist (length vectors.rows)))
    filled ← IvfFlat.add faiss vectors.rows ids trained
    bytes ← IvfFlat.save faiss filled
    ok (filled, bytes)

  abbrev pub new_meta : String → ℕ → ℕ → String → List IdPattern → SegmentMeta
  new_meta segment_id shard_id snapshot_id path ids = record {
    segment_id = segment_id;
    shard_id = shard_id;
    num_vectors = length ids;
    snapshot_id = snapshot_id;
    path = path;
  }

  abbrev pub persisted :
      SegmentMeta
      → NdArray
      → List IdPattern
      → Storage
      → Outcome (IvfFlatIndex Index × List ℕ)
      → Outcome (Segment Index) × Storage
  persisted meta vectors ids disk (raise e) = (raise e, insert meta.path empty_dir disk)
  persisted meta vectors ids disk (ok (index, bytes)) = (
    ok (record {
      segment_id = meta.segment_id;
      shard_id = meta.shard_id;
      snapshot_id = meta.snapshot_id;
      path = meta.path;
      meta = meta;
      index = index;
      ids_cache = none;
    }),
    insert meta.path
        (record {
          index_file = some bytes;
          ids_file = some ids;
          vectors_file = some vectors.rows;
          meta_file = some meta;
        })
        disk,
  )

  -- `Segment.create`; the directory is made before anything that can raise.
  unfoldable pub create :
      Bool
      → ℕ
      → ℕ
      → NdArray
      → List IdPattern
      → ℕ
      → ℕ
      → String
      → String
      → Storage
      → Outcome (Segment Index) × Storage
  create windows shard_id snapshot_id vectors ids dim nlist base_path uuid disk =
      let segment_id = make_segment_id shard_id snapshot_id uuid in
      persisted (new_meta segment_id shard_id snapshot_id (join_path base_path segment_id) ids)
        vectors ids disk (build_index windows dim nlist vectors ids)

  unfoldable pub load : String → Storage → Outcome (Segment Index)
  load path disk = do
    let dir = read_dir path disk
    meta ← file dir.meta_file
    bytes ← file dir.index_file
    ok (record {
      segment_id = meta.segment_id;
      shard_id = meta.shard_id;
      snapshot_id = meta.snapshot_id;
      path = path;
      meta = meta;
      index = IvfFlat.load faiss bytes (IvfFlat.init 0 0);
      ids_cache = none;
    })

  -- The hits. The `nprobe` that a search leaves in the index is set again by the next one.
  unfoldable pub search : Vector → ℕ → ℕ → Segment Index → Outcome (List Hit)
  search query top_k nprobe s = do
    (hits, _) ← IvfFlat.search faiss query top_k nprobe s.index
    ok hits

  unfoldable pub ntotal : Segment Index → ℕ
  ntotal s = IvfFlat.ntotal faiss s.index

module _ {Index : Type 0} where
  unfoldable pub load_arrays : Segment Index → Storage → Outcome (List IdPattern × List Vector)
  load_arrays s disk = do
    let dir = read_dir s.path disk
    ids ← file dir.ids_file
    vectors ← file dir.vectors_file
    ok (ids, vectors)

  -- The ids, and the segment with them in its cache.
  unfoldable pub load_ids : Segment Index → Storage → Outcome (List IdPattern × Segment Index)
  load_ids s disk = elim s.ids_cache [
    | some ids ↦ ok (ids, s)
    | none ↦ do
      ids ← file (read_dir s.path disk).ids_file
      ok (ids, record s { ids_cache = some ids })
  ]
