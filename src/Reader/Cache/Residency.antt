-- ===== src/Reader/Cache/Residency.antt =====
-- vecscaledb/reader/search.py: which segments `refresh` keeps in memory.
use distributed_vector_db.Prelude.{
  ℕ, ◌≤◌, ◌<◌, ◌≡◌, refl, arith, suc, ap, sym, ◌∙◌, some, List, [], ◌∷◌, Bool, length, keep, String,
  length-append, Bool-cases, Option-cases, inl, inr,
}
use distributed_vector_db.Prelude.Eq.{string_eq}
use distributed_vector_db.Prelude.Dict.{Dict, keys, lookup, has_key, insert, remove}
use distributed_vector_db.Prelude.Sort.{sort_by}
use distributed_vector_db.Prelude.Outcome.{Outcome, ok, raise, Outcome-cases}
use distributed_vector_db.Index.Faiss.{Faiss}
use distributed_vector_db.Index.Segment
use distributed_vector_db.Index.Segment.{Segment, SegmentMeta, Storage}
use distributed_vector_db.Storage.Lsm.State.{TombstoneFile}
use distributed_vector_db.Storage.Lsm.Files.{load_tombstones}
use distributed_vector_db.Reader.Cache
use distributed_vector_db.Reader.Cache.{
  SegmentCache, cached_ids, load_all_ids, build_segment_hidden_ids, move_to_end, pop_oldest,
  collect_visible, drop_stale, admit, load_visible, refreshed, refresh, refresh_visibility, item_lt,
  segments_loaded,
}

length-pop_oldest :
    {A : Type 0} (max_size : ℕ) (d : Dict String A) → length (pop_oldest max_size d) ≤ max_size
length-pop_oldest max_size [] = omega arith
length-pop_oldest max_size (e ∷ d) = ground (arith, length-pop_oldest max_size d)

length-remove : {A : Type 0} (k : String) (d : Dict String A) → length (remove k d) ≤ length d
length-remove k [] = omega arith
length-remove k ((j, v) ∷ d) = ground (arith, length-remove k d)

length-remove_of_key :
    {A : Type 0} (k : String) (v : A) (d : Dict String A)
    → lookup k d ≡ some v
    → length (remove k d) < length d
length-remove_of_key k v [] h = ground arith
length-remove_of_key k v ((j, w) ∷ d) h =
    ground (arith, length-remove k d, length-remove_of_key k v d)

pub length-move_to_end :
    {A : Type 0} (k : String) (d : Dict String A) → length (move_to_end k d) ≤ length d
length-move_to_end k d = elim (Option-cases (lookup k d)) [
  | inl p ↦ ground (arith, p)
  | inr (v, p) ↦
      ground (arith, p, length-remove_of_key k v d p, length-append (remove k d) ((k, v) ∷ []))
]

length-keep : {A : Type 0} (f : A → Bool) (xs : List A) → length (keep f xs) ≤ length xs
length-keep f [] = omega arith
length-keep f (x ∷ xs) = ground (arith, length-keep f xs)

module _ {Index : Type 0} (faiss : Faiss Index) (max_size : ℕ) (disk : Storage) where
  length-admit :
      (id : String) (meta : SegmentMeta) (segments segments' : Dict String (Segment Index))
      → length segments ≤ max_size
      → admit faiss max_size id meta disk segments ≡ ok segments'
      → length segments' ≤ max_size
  length-admit id meta segments segments' h p = elim (Bool-cases (has_key id segments)) [
    | inl q ↦ ground (arith, p, q, length-move_to_end id segments)
    | inr q ↦ elim (Outcome-cases (Segment.load faiss meta.path disk)) [
      | inl (x, r) ↦ ground (arith, p, q, r)
      | inr (s, r) ↦
          ground
            (arith, p, q, r, length-pop_oldest max_size (move_to_end id (insert id s segments)))
    ]
  ]

  length-load_visible :
      (visible : Dict String SegmentMeta) (segments : Dict String (Segment Index))
      → length segments ≤ max_size
      → length (load_visible faiss max_size visible disk segments).1 ≤ max_size
  unfolding load_visible
  length-load_visible [] segments h = h
  length-load_visible ((id, meta) ∷ visible) segments h =
      elim (Outcome-cases (admit faiss max_size id meta disk segments)) [
        | inl (x, r) ↦ ground (arith, r)
        | inr (s, r) ↦
            ground (arith, r, length-load_visible visible s (length-admit id meta segments s h r))
      ]

-- Loading the ids leaves the segments under their names, in their order.
keys-load_all_ids :
    {Index : Type 0} (segments : Dict String (Segment Index)) (disk : Storage)
    → keys (load_all_ids segments disk).1 ≡ keys segments
unfolding load_all_ids
keys-load_all_ids [] disk = refl
keys-load_all_ids ((id, s) ∷ segments) disk = elim (Outcome-cases (Segment.load_ids s disk)) [
  | inl (x, p) ↦ ground (arith, p)
  | inr (r, p) ↦ ground (arith, p, keys-load_all_ids segments disk)
]

keys-refresh_visibility :
    {Index : Type 0} (disk : Storage) (c : SegmentCache Index)
    → keys (refresh_visibility disk c).1.segments ≡ keys c.segments
unfolding refresh_visibility build_segment_hidden_ids
keys-refresh_visibility disk c = ground (arith, keys-load_all_ids c.segments disk)

pub keys-refreshed :
    {Index : Type 0} (disk : Storage) (c : SegmentCache Index)
    (loaded : Outcome (Unit {0}) × Dict String (Segment Index))
    → keys (refreshed disk c loaded).1.segments ≡ keys loaded.1
keys-refreshed disk c (raise x, segments) = refl
keys-refreshed disk c (ok _, segments) =
    keys-refresh_visibility disk (record c { segments = segments })

length-keys : {A : Type 0} (d : Dict String A) → length (keys d) ≡ length d
length-keys [] = refl
length-keys ((k, v) ∷ d) = ap suc (length-keys d)

length-refreshed :
    {Index : Type 0} (disk : Storage) (c : SegmentCache Index)
    (loaded : Outcome (Unit {0}) × Dict String (Segment Index))
    → length (refreshed disk c loaded).1.segments ≡ length loaded.1
length-refreshed disk c loaded =
    sym (length-keys (refreshed disk c loaded).1.segments)
    ∙ ap length (keys-refreshed disk c loaded)
    ∙ length-keys loaded.1

length-cached_ids :
    {Index : Type 0} (segments : Dict String (Segment Index)) (disk : Storage)
    → length (cached_ids segments disk).1 ≡ length segments
unfolding cached_ids
length-cached_ids [] disk = refl
length-cached_ids ((id, s) ∷ segments) disk = elim (Outcome-cases (Segment.load_ids s disk)) [
  | inl (x, p) ↦ ground (arith, p)
  | inr (r, p) ↦ ground (arith, p, length-cached_ids segments disk)
]

-- Counting the ids drops no segment and does not change the limit.
pub ntotal-segments :
    {Index : Type 0} (disk : Storage) (c : SegmentCache Index)
    → (segments_loaded (Cache.ntotal disk c).1 ≡ segments_loaded c)
      × ((Cache.ntotal disk c).1.max_segments_in_memory ≡ c.max_segments_in_memory)
unfolding Cache.ntotal segments_loaded
ntotal-segments disk c = (length-cached_ids c.segments disk, refl)

-- A cache within its limit is within it after every refresh, also after one that raises.
pub refresh-bound :
    {Index : Type 0} (faiss : Faiss Index) (metas : List SegmentMeta) (disk : Storage)
    (file : TombstoneFile) (c : SegmentCache Index)
    → segments_loaded c ≤ c.max_segments_in_memory
    → segments_loaded (refresh faiss metas disk file c).1 ≤ c.max_segments_in_memory
unfolding refresh segments_loaded
refresh-bound {Index = Index} faiss metas disk file c h = ground (
  arith,
  h,
  length-refreshed disk (record c { tombstones = load_tombstones file }) loaded,
  length-load_visible faiss c.max_segments_in_memory disk listed kept
      (omega (arith, h, length-keep (λ e. has_key e.0 visible) c.segments)),
)
  where
    visible : Dict String SegmentMeta
    visible = collect_visible c.load_all_shards c.shard_id metas []

    kept : Dict String (Segment Index)
    kept = drop_stale visible c.segments

    listed : Dict String SegmentMeta
    listed = sort_by item_lt visible

    loaded : Outcome (Unit {0}) × Dict String (Segment Index)
    loaded = load_visible faiss c.max_segments_in_memory listed disk kept
