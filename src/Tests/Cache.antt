-- ===== src/Tests/Cache.antt =====
-- A cache for one segment, with two segments of its shard and one of another in the shared storage.
use distributed_vector_db.Prelude.{
  ℕ, ◌≡◌, ◌≤◌, refl, some, List, [], ◌∷◌, true, false, String, arith,
}
use distributed_vector_db.Prelude.Eq.{string_eq, nat_eq}
use distributed_vector_db.Prelude.Set.{contains}
use distributed_vector_db.Arrays.{IdPattern}
use distributed_vector_db.Index.Segment
use distributed_vector_db.Index.Segment.{SegmentMeta, SegmentDir, Storage, Segment}
use distributed_vector_db.Storage.Lsm.State.{stored}
use distributed_vector_db.Reader.Cache.{
  SegmentCache, refresh, refresh_visibility, load_visible, search_all, segments_loaded, segment_ids,
  LoadedIds, build_segment_hidden_ids, search_cached,
}
use distributed_vector_db.Reader.Cache.Residency.{refresh-bound}
use distributed_vector_db.Reader.Cache.Ownership.{AllListed, is_owned, refresh-AllListed}
use distributed_vector_db.Reader.Cache.Visibility.{build_segment_hidden_ids_lem, hides}
use distributed_vector_db.Prelude.Dict.{Dict, lookup}
use distributed_vector_db.Storage.Merge.{merge_results, filter_result_ids}
use distributed_vector_db.Index.IvfFlat
use distributed_vector_db.Storage.Lsm.Visibility.{note_ids}
use distributed_vector_db.Reader.Cache.Answers.{IsOffered, search_all_sound}
use distributed_vector_db.Tests.Index.{toy}

abbrev meta_of : String → ℕ → ℕ → SegmentMeta
meta_of name shard snapshot = record {
  segment_id = name;
  shard_id = shard;
  num_vectors = 1;
  snapshot_id = snapshot;
  path = name;
}

abbrev dir_of : SegmentMeta → List IdPattern → SegmentDir
dir_of meta ids = record {
  index_file = some ids;
  ids_file = some ids;
  vectors_file = some [];
  meta_file = some meta;
}

abbrev pub metas : List SegmentMeta
metas = meta_of "old" 0 1 ∷ meta_of "new" 0 2 ∷ meta_of "other" 1 3 ∷ []

abbrev pub shared : Storage
shared =
    ("old", dir_of (meta_of "old" 0 1) (5 ∷ 6 ∷ []))
    ∷ ("new", dir_of (meta_of "new" 0 2) (6 ∷ 7 ∷ []))
    ∷ []

abbrev pub cache : ℕ → SegmentCache (List ℕ)
cache size = record {
  shard_id = 0;
  max_segments_in_memory = size;
  load_all_shards = false;
  segments = [];
  tombstones = [];
  segment_hidden_ids = [];
  visibility_signature = [];
}

abbrev loaded : ℕ → SegmentCache (List ℕ)
loaded size = (refresh toy metas shared (stored (7 ∷ [])) (cache size)).1

-- The newer segment has pushed the older one out.
newest_is_kept : segment_ids (loaded 1) ≡ ("new" ∷ [])
unfolding refresh refresh_visibility load_visible segment_ids Segment.load build_segment_hidden_ids
    Segment.load_ids
newest_is_kept = refl

refresh-bound_example : segments_loaded (loaded 1) ≤ 1
unfolding segments_loaded
refresh-bound_example = refresh-bound toy metas shared (stored (7 ∷ [])) (cache 1) (omega arith)

refresh-AllListed_example : AllListed (is_owned false 0 metas) (loaded 2).segments
refresh-AllListed_example = refresh-AllListed toy metas shared (stored (7 ∷ [])) (cache 2)

abbrev in_memory : List LoadedIds
in_memory =
    record { segment_id = "old"; snapshot_id = 1; ids = 5 ∷ 6 ∷ [] }
    ∷ record { segment_id = "new"; snapshot_id = 2; ids = 6 ∷ 7 ∷ [] }
    ∷ []

abbrev both : Dict String (Segment (List ℕ))
both = (loaded 2).segments

abbrev index : Dict String (List IdPattern)
index = ("old", 6 ∷ []) ∷ ("new", []) ∷ []

-- Id 6 is hidden in the older segment, since the newer one holds it too.
build_segment_hidden_ids_lem_example : hides 6 (lookup "old" index) ≡ true
unfolding refresh refresh_visibility load_visible Segment.load build_segment_hidden_ids
    Segment.load_ids note_ids
build_segment_hidden_ids_lem_example =
    build_segment_hidden_ids_lem 6 "old" both shared in_memory index refl refl

-- Id 7 is deleted, and id 6 comes from the newer segment.
search_all_sound_example :
    (contains {A = IdPattern} 6 (7 ∷ []) ≡ false)
    × IsOffered toy (1 ∷ []) 5 1 6 2 (loaded 2).segment_hidden_ids (loaded 2).segments
unfolding refresh refresh_visibility load_visible Segment.load build_segment_hidden_ids
    Segment.load_ids search_all search_cached Segment.search IvfFlat.search merge_results
    filter_result_ids IvfFlat.load note_ids
search_all_sound_example =
    search_all_sound toy (1 ∷ []) 5 1 6 2 (loaded 2) (5 ∷ 6 ∷ []) (0 ∷ 0 ∷ []) refl refl
