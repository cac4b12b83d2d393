-- ===== src/Index/Segment/Stored.antt =====
-- vecscaledb/index/segment.py: what `create` leaves on disk, and what `load_arrays` reads back.
use distributed_vector_db.Prelude.{
  ℕ, ◌≡◌, refl, length, arith, none, some, List, Bool, false, String, ap, inl, inr,
}
use distributed_vector_db.Prelude.Eq.{string_eq, beq, beq_self}
use distributed_vector_db.Prelude.Dict.{lookup, insert, remove, lookup-insert, lookup-remove}
use distributed_vector_db.Prelude.Outcome.{ok, Outcome-cases}
use distributed_vector_db.Arrays.{IdPattern, Vector, NdArray}
use distributed_vector_db.Index.Faiss.{Faiss}
use distributed_vector_db.Index.IvfFlat
use distributed_vector_db.Index.IvfFlat.{IvfFlatIndex}
use distributed_vector_db.Index.Segment.{
  Segment, SegmentDir, Storage, create, load_arrays, build_index, make_segment_id, join_path,
  new_meta, persisted,
}

-- The arrays of a segment are on disk, a vector for each id.
abbrev pub Loads : {Index : Type 0} → Storage → Segment Index → Type 0
Loads disk s =
    (ids : List IdPattern) × (vectors : List Vector) × (load_arrays s disk ≡ ok (ids, vectors))
    × (length ids ≡ length vectors)

module _ {Index : Type 0} where
  -- Only the segment's own directory is read.
  pub load_arrays-lookup :
      (s : Segment Index) (disk disk' : Storage)
      → lookup s.path disk' ≡ lookup s.path disk
      → load_arrays s disk' ≡ load_arrays s disk
  unfolding load_arrays
  load_arrays-lookup s disk disk' h = ground (arith, h)

  pub load_arrays-insert :
      (s : Segment Index) (path : String) (dir : SegmentDir) (disk : Storage)
      → beq s.path path ≡ false
      → load_arrays s (insert path dir disk) ≡ load_arrays s disk
  load_arrays-insert s path dir disk h =
      load_arrays-lookup s disk (insert path dir disk)
        (ground (arith, h, lookup-insert s.path path dir disk))

  load_arrays-insert_self :
      (s : Segment Index) (ids : List IdPattern) (vectors : List Vector) (dir : SegmentDir)
      (disk : Storage)
      → dir.ids_file ≡ some ids
      → dir.vectors_file ≡ some vectors
      → load_arrays s (insert s.path dir disk) ≡ ok (ids, vectors)
  unfolding load_arrays
  load_arrays-insert_self s ids vectors dir disk h k =
      ground (arith, h, k, lookup-insert s.path s.path dir disk, beq_self s.path)

  pub load_arrays-remove :
      (s : Segment Index) (path : String) (disk : Storage)
      → beq s.path path ≡ false
      → load_arrays s (remove path disk) ≡ load_arrays s disk
  load_arrays-remove s path disk h =
      load_arrays-lookup s disk (remove path disk)
        (ground (arith, h, lookup-remove s.path path disk))

-- An index is built from every matrix of the right width.
build_index_total :
    {Index : Type 0} (faiss : Faiss Index) (windows : Bool) (dim nlist : ℕ) (vectors : NdArray)
    (ids : List IdPattern)
    → vectors.ndim ≡ 2
    → vectors.width ≡ dim
    → (b : IvfFlatIndex Index × List ℕ) × (build_index faiss windows dim nlist vectors ids ≡ ok b)
unfolding IvfFlat.train IvfFlat.add IvfFlat.save
build_index_total faiss windows dim nlist vectors ids two even =
    elim (Outcome-cases (build_index faiss windows dim nlist vectors ids)) [
      | inl (x, p) ↦ absurd (ground (arith, p, two, even))
      | inr built ↦ built
    ]

-- What `create` returns for a matrix of the right width, and what it leaves on disk: the arrays of
-- the new segment, and every other directory as it was.
pub record IsCreated {Index : Type 0} (s : Segment Index) (snapshot : ℕ) (path : String)
    (ids : List IdPattern) (vectors : List Vector) (disk disk' : Storage) : Type 0 where
  pub snapshot_id : s.snapshot_id ≡ snapshot
  pub path_of : s.path ≡ path
  pub arrays : load_arrays s disk' ≡ ok (ids, vectors)
  pub others :
      (t : Segment Index) → beq t.path path ≡ false → load_arrays t disk' ≡ load_arrays t disk

pub create_lem :
    {Index : Type 0} (faiss : Faiss Index) (windows : Bool) (shard_id snapshot_id : ℕ)
    (vectors : NdArray) (ids : List IdPattern) (dim nlist : ℕ) (base uuid : String) (disk : Storage)
    → vectors.ndim ≡ 2
    → vectors.width ≡ dim
    → (s : Segment Index) × (disk' : Storage) × (create faiss windows shard_id snapshot_id vectors
          ids dim nlist base uuid disk
        ≡ (ok s, disk'))
      × IsCreated s snapshot_id
          (join_path base (make_segment_id shard_id snapshot_id uuid))
          ids
          vectors.rows
          disk
          disk'
unfolding create load_arrays
create_lem {Index} faiss windows shard_id snapshot_id vectors ids dim nlist base uuid disk two
      even =
    let ((index, bytes), built) = build_index_total faiss windows dim nlist vectors ids two even in
    let segment_id = make_segment_id shard_id snapshot_id uuid in
    let path = join_path base segment_id in
    let meta = new_meta faiss segment_id shard_id snapshot_id path ids in
    let out = persisted faiss meta vectors ids disk (ok (index, bytes)) in
    let s : Segment Index = record {
      segment_id = segment_id;
      shard_id = shard_id;
      snapshot_id = snapshot_id;
      path = path;
      meta = meta;
      index = index;
      ids_cache = none;
    } in
    (
      s,
      out.1,
      ap (persisted faiss meta vectors ids disk) built,
      record {
        snapshot_id = refl;
        path_of = refl;
        arrays = load_arrays-insert_self s ids vectors.rows _ disk refl refl;
        others = λ t h. unfold load_arrays in load_arrays-insert t path _ disk h;
      },
    )
