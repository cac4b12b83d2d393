-- ===== src/Reader/Cache.antt =====
-- vecscaledb/reader/search.py: `class SegmentCache`. An `OrderedDict` is an association list, oldest
-- entry first. The shared storage and `tombstones.json` are arguments, and a method returns its
-- outcome beside the cache that it leaves, which after an exception is as it was at the `raise`.
pub mod Residency
pub mod Ownership
pub mod Visibility
pub mod Answers
use distributed_vector_db.Prelude.{
  ℕ, suc, Option, none, some, List, [], ◌∷◌, ◌++◌, Bool, true, false, not, ◌&&◌, ◌||◌, ◌==◌, ltb,
  leb, length, keep, map, if◌then◌else◌, String,
}
use distributed_vector_db.Prelude.Eq.{nat_eq, string_eq, beq}
use distributed_vector_db.Prelude.Dict.{Dict, keys, values, lookup, has_key, insert, remove}
use distributed_vector_db.Prelude.Set.{union, difference}
use distributed_vector_db.Prelude.Sort.{sort_by}
use distributed_vector_db.Prelude.Strings.{string_ltb}
use distributed_vector_db.Prelude.Outcome.{Outcome, ok, raise, raise_if, value_error, ◌>>=◌, ◌>>◌}
use distributed_vector_db.Arrays.{IdPattern, Vector, Distance, Hit}
use distributed_vector_db.Index.Faiss.{Faiss}
use distributed_vector_db.Index.Segment
use distributed_vector_db.Index.Segment.{Segment, SegmentMeta, Storage}
use distributed_vector_db.Storage.Merge.{merge_results, filter_result_ids}
use distributed_vector_db.Storage.Lsm.State.{TombstoneFile}
use distributed_vector_db.Storage.Lsm.Files.{load_tombstones}
use distributed_vector_db.Storage.Lsm.Visibility.{note_ids}

pub record SegmentCache (Index : Type 0) : Type 0 where
  pub shard_id : ℕ
  pub max_segments_in_memory : ℕ
  pub load_all_shards : Bool
  pub segments : Dict String (Segment Index)
  pub tombstones : List IdPattern
  pub segment_hidden_ids : Dict String (List IdPattern)
  pub visibility_signature : List (String × ℕ)

-- `__init__`
unfoldable pub init : {Index : Type 0} → ℕ → ℕ → Bool → Outcome (SegmentCache Index)
init shard_id max_segments load_all_shards = do
  raise_if (max_segments == 0) value_error
  ok (record {
    shard_id = shard_id;
    max_segments_in_memory = max_segments;
    load_all_shards = load_all_shards;
    segments = [];
    tombstones = [];
    segment_hidden_ids = [];
    visibility_signature = [];
  })

-- `OrderedDict.move_to_end`
abbrev pub move_to_end {ℓ} : {A : Type ℓ} → String → Dict String A → Dict String A
move_to_end k d = elim (lookup k d) [ none ↦ d | some v ↦ remove k d ++ ((k, v) ∷ []) ]

-- `while len(d) > max_size: d.popitem(last=False)`
abbrev pub pop_oldest {ℓ} : {A : Type ℓ} → ℕ → Dict String A → Dict String A
pop_oldest max_size [] = []
pop_oldest max_size (e ∷ d) = if ltb max_size (length (e ∷ d)) then pop_oldest max_size d else e ∷ d

-- `{meta.segment_id: meta for meta in all_segments if ...}`, onto what is there.
abbrev pub collect_visible :
    Bool → ℕ → List SegmentMeta → Dict String SegmentMeta → Dict String SegmentMeta
collect_visible load_all_shards shard_id [] visible = visible
collect_visible load_all_shards shard_id (meta ∷ metas) visible =
    collect_visible load_all_shards shard_id metas (
      if load_all_shards || meta.shard_id == shard_id
      then insert meta.segment_id meta visible
      else visible)

-- `key=lambda item: (item[1].snapshot_id, item[0])`
abbrev pub item_lt : String × SegmentMeta → String × SegmentMeta → Bool
item_lt (id, m) (id', m') =
    ltb m.snapshot_id m'.snapshot_id || (m.snapshot_id == m'.snapshot_id && string_ltb id id')

-- The order of `(segment_id, snapshot_id)`.
abbrev pub signature_lt : String × ℕ → String × ℕ → Bool
signature_lt (id, t) (id', t') = string_ltb id id' || (beq id id' && ltb t t')

abbrev pub same_signature : List (String × ℕ) → List (String × ℕ) → Bool
same_signature [] [] = true
same_signature [] (y ∷ ys) = false
same_signature (x ∷ xs) [] = false
same_signature ((id, t) ∷ xs) ((id', t') ∷ ys) = beq id id' && (t == t' && same_signature xs ys)

-- The ids of a cached segment, as the first loop of `_build_segment_hidden_ids` finds them.
pub record LoadedIds : Type 0 where
  pub segment_id : String
  pub snapshot_id : ℕ
  pub ids : List IdPattern

-- `latest_snapshot_by_id`
unfoldable pub latest_by_id : List LoadedIds → Dict IdPattern ℕ → Dict IdPattern ℕ
latest_by_id [] latest = latest
latest_by_id (l ∷ loaded) latest = latest_by_id loaded (note_ids l.snapshot_id l.ids latest)

-- `latest_snapshot_by_id[vector_id] > segment.snapshot_id`
abbrev pub is_superseded : Dict IdPattern ℕ → ℕ → IdPattern → Bool
is_superseded latest snapshot i = elim (lookup i latest) [ none ↦ false | some t ↦ ltb snapshot t ]

-- The second loop.
unfoldable pub hidden_by_segment : Dict IdPattern ℕ → List LoadedIds → Dict String (List IdPattern)
hidden_by_segment latest [] = []
hidden_by_segment latest (l ∷ loaded) =
    (l.segment_id, keep (λ i. is_superseded latest l.snapshot_id i) l.ids)
    ∷ hidden_by_segment latest loaded

module _ {Index : Type 0} where
  -- The loops over `self._segments` that call `load_ids`: each segment keeps its ids in its cache,
  -- also when a later one raises.
  unfoldable pub load_all_ids :
      Dict String (Segment Index) → Storage → Outcome (List LoadedIds) × Dict String (Segment Index)
  load_all_ids [] disk = (ok [], [])
  load_all_ids ((id, s) ∷ segments) disk = elim (Segment.load_ids s disk) [
    | raise x ↦ (raise x, (id, s) ∷ segments)
    | ok r ↦
        let (loaded, rest) = load_all_ids segments disk in
        (
          loaded >>= λ ls.
              ok (record { segment_id = id; snapshot_id = s.snapshot_id; ids = r.0 } ∷ ls),
          (id, r.1) ∷ rest,
        )
  ]

  unfoldable pub build_segment_hidden_ids :
      Dict String (Segment Index)
      → Storage
      → Outcome (Dict String (List IdPattern)) × Dict String (Segment Index)
  unfolding load_all_ids latest_by_id hidden_by_segment
  build_segment_hidden_ids segments disk =
      let (loaded, segments') = load_all_ids segments disk in
      (loaded >>= λ ls. ok (hidden_by_segment (latest_by_id ls []) ls), segments')

  abbrev pub signature_of : Dict String (Segment Index) → List (String × ℕ)
  signature_of segments =
      sort_by signature_lt (map (λ s. (s.segment_id, s.snapshot_id)) (values segments))

  -- `_refresh_visibility_index_if_needed`; the signature is set before anything is loaded.
  unfoldable pub refresh_visibility :
      Storage → SegmentCache Index → Outcome (Unit {0}) × SegmentCache Index
  refresh_visibility disk c =
      if same_signature (signature_of c.segments) c.visibility_signature
      then (ok tt, c)
      else let (built, segments') = build_segment_hidden_ids c.segments disk in
        let noted : SegmentCache Index = record c {
          segments = segments';
          visibility_signature = signature_of c.segments;
        } in
        elim built [
          | raise x ↦ (raise x, noted)
          | ok hidden ↦ (ok tt, record noted { segment_hidden_ids = hidden })
        ]

  abbrev pub refreshed :
      Storage
      → SegmentCache Index
      → Outcome (Unit {0}) × Dict String (Segment Index)
      → Outcome (Unit {0}) × SegmentCache Index
  refreshed disk c (raise x, segments) = (raise x, record c { segments = segments })
  refreshed disk c (ok _, segments) = refresh_visibility disk (record c { segments = segments })

  -- The loop that drops the segments that are not listed any more.
  abbrev pub drop_stale :
      Dict String SegmentMeta → Dict String (Segment Index) → Dict String (Segment Index)
  drop_stale visible segments = keep (λ e. has_key e.0 visible) segments

  -- The hidden ids of one segment in a search.
  abbrev pub hidden_in : SegmentCache Index → String → List IdPattern
  hidden_in c id = elim (lookup id c.segment_hidden_ids) [
    | none ↦ c.tombstones
    | some hidden ↦ union hidden c.tombstones
  ]

  abbrev pub visible_segments : ℕ → SegmentCache Index → Dict String (Segment Index)
  visible_segments snapshot_id c = keep (λ e. leb e.1.snapshot_id snapshot_id) c.segments

  -- The ids of all cached segments.
  unfoldable pub cached_ids :
      Dict String (Segment Index) → Storage → Outcome (List IdPattern) × Dict String (Segment Index)
  cached_ids [] disk = (ok [], [])
  cached_ids ((id, s) ∷ segments) disk = elim (Segment.load_ids s disk) [
    | raise x ↦ (raise x, (id, s) ∷ segments)
    | ok r ↦
        let (ids, rest) = cached_ids segments disk in
        (ids >>= λ more. ok (union r.0 more), (id, r.1) ∷ rest)
  ]

  unfoldable pub ntotal : Storage → SegmentCache Index → Outcome ℕ × SegmentCache Index
  unfolding cached_ids
  ntotal disk c =
      let (ids, segments') = cached_ids c.segments disk in
      (
        ids >>= λ found. ok (length (difference found c.tombstones)),
        record c { segments = segments' },
      )

  unfoldable pub segments_loaded : SegmentCache Index → ℕ
  segments_loaded c = length c.segments

  unfoldable pub segment_ids : SegmentCache Index → List String
  segment_ids c = keys c.segments

module _ {Index : Type 0} (faiss : Faiss Index) where
  -- One round of the loop that loads: a segment that is cached becomes the newest.
  abbrev pub admit :
      ℕ
      → String
      → SegmentMeta
      → Storage
      → Dict String (Segment Index)
      → Outcome (Dict String (Segment Index))
  admit max_size id meta disk segments =
      if has_key id segments then ok (move_to_end id segments) else do
        s ← Segment.load faiss meta.path disk
        ok (pop_oldest max_size (move_to_end id (insert id s segments)))

  unfoldable pub load_visible :
      ℕ
      → Dict String SegmentMeta
      → Storage
      → Dict String (Segment Index)
      → Outcome (Unit {0}) × Dict String (Segment Index)
  load_visible max_size [] disk segments = (ok tt, segments)
  load_visible max_size ((id, meta) ∷ visible) disk segments =
      elim (admit max_size id meta disk segments) [
        | raise x ↦ (raise x, segments)
        | ok segments' ↦ load_visible max_size visible disk segments'
      ]

  unfoldable pub refresh :
      List SegmentMeta
      → Storage
      → TombstoneFile
      → SegmentCache Index
      → Outcome (Unit {0}) × SegmentCache Index
  refresh all_segments disk file c =
      let visible = collect_visible c.load_all_shards c.shard_id all_segments [] in
      refreshed disk (record c { tombstones = load_tombstones file })
        (load_visible c.max_segments_in_memory (sort_by item_lt visible) disk
          (drop_stale visible c.segments))

  -- The loop of `search_all`: the results, and the cache with the segments in their new order.
  unfoldable pub search_cached :
      Vector
      → ℕ
      → ℕ
      → Dict String (Segment Index)
      → SegmentCache Index
      → Outcome (List (List Hit)) × SegmentCache Index
  search_cached query top_k nprobe [] c = (ok [], c)
  search_cached query top_k nprobe ((id, s) ∷ visible) c =
      elim (Segment.search faiss query top_k nprobe s) [
        | raise x ↦ (raise x, c)
        | ok hits ↦
            let (rest, c') =
              search_cached query top_k nprobe visible
                (record c { segments = move_to_end id c.segments }) in
            (rest >>= λ results. ok (filter_result_ids hits (hidden_in c id) ∷ results), c')
      ]

  unfoldable pub search_all :
      Vector
      → ℕ
      → ℕ
      → ℕ
      → SegmentCache Index
      → Outcome (List IdPattern × List Distance) × SegmentCache Index
  search_all query top_k nprobe snapshot_id c =
      let (results, c') = search_cached query top_k nprobe (visible_segments snapshot_id c) c in
      (results >>= λ rs. ok (merge_results rs top_k c.tombstones), c')
