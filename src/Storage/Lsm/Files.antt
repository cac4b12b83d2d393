-- ===== src/Storage/Lsm/Files.antt =====
-- vecscaledb/storage/lsm.py: the files that an engine reads when it starts, and the tombstones that
-- it writes.
use distributed_vector_db.Prelude.{
  ℕ, none, some, List, [], ◌∷◌, Bool, true, false, ◌==◌, keep, String, if◌then◌else◌,
}
use distributed_vector_db.Prelude.Dict.{keys}
use distributed_vector_db.Prelude.Sort.{sort_by, key_lt}
use distributed_vector_db.Prelude.Strings.{string_ltb}
use distributed_vector_db.Prelude.Outcome.{Outcome, ok, ◌>>=◌}
use distributed_vector_db.Arrays.{IdPattern, signed_key}
use distributed_vector_db.Index.Faiss.{Faiss}
use distributed_vector_db.Index.Segment
use distributed_vector_db.Index.Segment.{Segment, Storage, SegmentDir, read_dir}
use distributed_vector_db.Storage.Lsm.State.{
  Engine, TombstoneFile, missing, malformed, stored, segment_lt,
}

abbrev pub has_meta : SegmentDir → Bool
has_meta d = elim d.meta_file [ none ↦ false | some m ↦ true ]

-- `sorted(os.listdir(...))`, of the directories with a `meta.json`
abbrev pub listed : Storage → List String
listed disk = keep (λ path. has_meta (read_dir path disk)) (sort_by string_ltb (keys disk))

module _ {Index : Type 0} (faiss : Faiss Index) where
  unfoldable pub load_listed : ℕ → List String → Storage → Outcome (List (Segment Index))
  load_listed shard_id [] disk = ok []
  load_listed shard_id (path ∷ paths) disk = do
    s ← Segment.load faiss path disk
    rest ← load_listed shard_id paths disk
    ok (if s.shard_id == shard_id then s ∷ rest else rest)

  -- `_load_existing_segments`
  unfoldable pub load_existing_segments : ℕ → Storage → Outcome (List (Segment Index))
  unfolding load_listed
  load_existing_segments shard_id disk = do
    segments ← load_listed shard_id (listed disk) disk
    ok (sort_by segment_lt segments)

-- `_load_tombstones`
abbrev pub load_tombstones : TombstoneFile → List IdPattern
load_tombstones missing = []
load_tombstones malformed = []
load_tombstones (stored ids) = ids

-- `_persist_tombstones`
abbrev pub persist_tombstones : {Index : Type 0} → Engine Index → Engine Index
persist_tombstones e = record e {
  tombstone_file = stored (sort_by (key_lt signed_key) e.tombstones);
}
