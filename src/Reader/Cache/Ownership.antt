-- ===== src/Reader/Cache/Ownership.antt =====
-- vecscaledb/reader/search.py: a cached segment is a listed one of the reader's shard.
use distributed_vector_db.Prelude.{
  ℕ, ◌≡◌, refl, arith, Option, none, some, List, [], ◌∷◌, ◌++◌, Bool, true, false, ◌&&◌, ◌||◌, ◌==◌,
  All, if◌then◌else◌, String, Bool-cases, inl, inr, All-append,
}
use distributed_vector_db.Prelude.Eq.{string_eq, beq, beq_self}
use distributed_vector_db.Prelude.Dict.{Dict, keys, lookup, has_key, insert, remove, has_key-insert}
use distributed_vector_db.Prelude.Sort.{sort_by, insert_by}
use distributed_vector_db.Prelude.Outcome.{Outcome, ok, Outcome-cases}
use distributed_vector_db.Index.Faiss.{Faiss}
use distributed_vector_db.Index.Segment
use distributed_vector_db.Index.Segment.{Segment, SegmentMeta, Storage}
use distributed_vector_db.Storage.Lsm.State.{TombstoneFile}
use distributed_vector_db.Storage.Lsm.Files.{load_tombstones}
use distributed_vector_db.Reader.Cache.{
  SegmentCache, move_to_end, pop_oldest, collect_visible, drop_stale, admit, load_visible, refresh,
  refreshed, item_lt,
}
use distributed_vector_db.Reader.Cache.Residency.{keys-refreshed}

-- Every entry's key is listed.
abbrev pub AllListed : {A : Type 0} → (String → Bool) → Dict String A → Type 0
AllListed listed d = All (λ e. listed e.0 ≡ true) d

AllListed-remove :
    {A : Type 0} (listed : String → Bool) (k : String) (d : Dict String A)
    → AllListed listed d
    → AllListed listed (remove k d)
AllListed-remove listed k [] a = tt
AllListed-remove listed k ((j, v) ∷ d) a = ground (arith, AllListed-remove listed k d a.1)

AllListed-insert :
    {A : Type 0} (listed : String → Bool) (k : String) (v : A) (d : Dict String A)
    → listed k ≡ true
    → AllListed listed d
    → AllListed listed (insert k v d)
AllListed-insert listed k v [] h a = (h, tt)
AllListed-insert listed k v ((j, w) ∷ d) h a = ground (arith, AllListed-insert listed k v d h a.1)

AllListed-pop_oldest :
    {A : Type 0} (listed : String → Bool) (max_size : ℕ) (d : Dict String A)
    → AllListed listed d
    → AllListed listed (pop_oldest max_size d)
AllListed-pop_oldest listed max_size [] a = tt
AllListed-pop_oldest listed max_size (e ∷ d) a =
    ground (arith, AllListed-pop_oldest listed max_size d a.1)

AllListed-placed :
    {A : Type 0} (listed : String → Bool) (k : String) (d : Dict String A) (found : Option A)
    → listed k ≡ true
    → AllListed listed d
    → AllListed listed (elim found [ none ↦ d | some v ↦ remove k d ++ ((k, v) ∷ []) ])
AllListed-placed listed k d none h a = a
AllListed-placed listed k d (some v) h a =
    All-append (λ e. listed e.0 ≡ true) (remove k d) ((k, v) ∷ []) (AllListed-remove listed k d a)
      (h, tt)

AllListed-move_to_end :
    {A : Type 0} (listed : String → Bool) (k : String) (d : Dict String A)
    → listed k ≡ true
    → AllListed listed d
    → AllListed listed (move_to_end k d)
AllListed-move_to_end listed k d h a = AllListed-placed listed k d (lookup k d) h a

module _ {Index : Type 0} (faiss : Faiss Index) (max_size : ℕ) (disk : Storage)
    (listed : String → Bool) where
  AllListed-admit :
      (id : String) (meta : SegmentMeta) (segments segments' : Dict String (Segment Index))
      → listed id ≡ true
      → AllListed listed segments
      → admit faiss max_size id meta disk segments ≡ ok segments'
      → AllListed listed segments'
  AllListed-admit id meta segments segments' h a p = elim (Bool-cases (has_key id segments)) [
    | inl q ↦ ground (arith, p, q, AllListed-move_to_end listed id segments h a)
    | inr q ↦ elim (Outcome-cases (Segment.load faiss meta.path disk)) [
      | inl (x, r) ↦ ground (arith, p, q, r)
      | inr (s, r) ↦ ground (
        arith,
        p,
        q,
        r,
        AllListed-pop_oldest listed max_size (move_to_end id (insert id s segments)) (
            AllListed-move_to_end listed id (insert id s segments) h
              (AllListed-insert listed id s segments h a)),
      )
    ]
  ]

  AllListed-load_visible :
      (visible : Dict String SegmentMeta) (segments : Dict String (Segment Index))
      → AllListed listed visible
      → AllListed listed segments
      → AllListed listed (load_visible faiss max_size visible disk segments).1
  unfolding load_visible
  AllListed-load_visible [] segments v a = a
  AllListed-load_visible ((id, meta) ∷ visible) segments v a =
      elim (Outcome-cases (admit faiss max_size id meta disk segments)) [
        | inl (x, r) ↦ ground (arith, r)
        | inr (s, r) ↦ ground (
          arith,
          r,
          AllListed-load_visible visible s v.1 (AllListed-admit id meta segments s v.0 a r),
        )
      ]

-- A segment of this name is listed, and is one that the cache may hold.
abbrev pub is_owned : Bool → ℕ → List SegmentMeta → String → Bool
is_owned load_all_shards shard_id [] id = false
is_owned load_all_shards shard_id (meta ∷ metas) id =
    (beq id meta.segment_id && (load_all_shards || meta.shard_id == shard_id))
    || is_owned load_all_shards shard_id metas id

has_key-collect_visible :
    (load_all_shards : Bool) (shard_id : ℕ) (id : String) (metas : List SegmentMeta)
    (visible : Dict String SegmentMeta)
    → has_key id (collect_visible load_all_shards shard_id metas visible)
      ≡ (is_owned load_all_shards shard_id metas id || has_key id visible)
has_key-collect_visible load_all_shards shard_id id [] visible = refl
has_key-collect_visible load_all_shards shard_id id (meta ∷ metas) visible = ground (
  arith,
  has_key-collect_visible load_all_shards shard_id id metas (
      if load_all_shards || meta.shard_id == shard_id
      then insert meta.segment_id meta visible
      else visible),
  has_key-insert id meta.segment_id meta visible,
)

AllListed-insert_by :
    (listed : String → Bool) (e : String × SegmentMeta) (d : Dict String SegmentMeta)
    → listed e.0 ≡ true
    → AllListed listed d
    → AllListed listed (insert_by item_lt e d)
AllListed-insert_by listed e [] h a = (h, tt)
AllListed-insert_by listed e (x ∷ d) h a = ground (arith, AllListed-insert_by listed e d h a.1)

AllListed-sort_by :
    (listed : String → Bool) (d : Dict String SegmentMeta)
    → AllListed listed d
    → AllListed listed (sort_by item_lt d)
AllListed-sort_by listed [] a = tt
AllListed-sort_by listed (x ∷ d) a =
    AllListed-insert_by listed x (sort_by item_lt d) a.0 (AllListed-sort_by listed d a.1)

AllListed-collect_visible :
    (load_all_shards : Bool) (shard_id : ℕ) (metas : List SegmentMeta) (listed : String → Bool)
    (visible : Dict String SegmentMeta)
    → ((id : String) → is_owned load_all_shards shard_id metas id ≡ true → listed id ≡ true)
    → AllListed listed visible
    → AllListed listed (collect_visible load_all_shards shard_id metas visible)
AllListed-collect_visible load_all_shards shard_id [] listed visible h a = a
AllListed-collect_visible load_all_shards shard_id (meta ∷ metas) listed visible h a =
    AllListed-collect_visible load_all_shards shard_id metas listed
      (if load_all_shards || meta.shard_id == shard_id
        then insert meta.segment_id meta visible
        else visible)
      (λ id o. h id (ground (arith, o))) step
  where
    step : AllListed listed (
        if load_all_shards || meta.shard_id == shard_id
        then insert meta.segment_id meta visible
        else visible)
    step = ground (
      arith,
      AllListed-insert listed meta.segment_id meta visible,
      h meta.segment_id,
      beq_self meta.segment_id,
    )

AllListed-drop_stale :
    {Index : Type 0} (listed : String → Bool) (visible : Dict String SegmentMeta)
    (segments : Dict String (Segment Index))
    → ((id : String) → has_key id visible ≡ true → listed id ≡ true)
    → AllListed listed (drop_stale visible segments)
AllListed-drop_stale listed visible [] h = tt
AllListed-drop_stale listed visible ((id, s) ∷ segments) h =
    ground (arith, AllListed-drop_stale listed visible segments h, h id)

-- What holds of the keys of a dictionary holds of those of another one with the same keys.
AllListed-keys :
    {A : Type 0} (listed : String → Bool) (d d' : Dict String A)
    → keys d' ≡ keys d
    → AllListed listed d
    → AllListed listed d'
AllListed-keys listed d [] same a = tt
AllListed-keys listed [] ((k, v) ∷ d') same a = ground arith
AllListed-keys listed ((j, w) ∷ d) ((k, v) ∷ d') same a =
    (ground (arith, same, a.0), AllListed-keys listed d d' (ground (arith, same)) a.1)

-- After every refresh, also after one that raises, each cached segment is in the list that the
-- refresh was given, and of the reader's shard unless the reader loads all shards.
pub refresh-AllListed :
    {Index : Type 0} (faiss : Faiss Index) (metas : List SegmentMeta) (disk : Storage)
    (file : TombstoneFile) (c : SegmentCache Index)
    → AllListed
        (is_owned c.load_all_shards c.shard_id metas)
        (refresh faiss metas disk file c).1.segments
unfolding refresh
refresh-AllListed {Index = Index} faiss metas disk file c =
    AllListed-keys owned loaded.1
      (refreshed disk (record c { tombstones = load_tombstones file }) loaded).1.segments
      (keys-refreshed disk (record c { tombstones = load_tombstones file }) loaded)
      (AllListed-load_visible faiss c.max_segments_in_memory disk owned (sort_by item_lt visible)
        (drop_stale visible c.segments)
        (AllListed-sort_by owned visible
          (AllListed-collect_visible c.load_all_shards c.shard_id metas owned [] (λ id o. o) tt))
        (AllListed-drop_stale owned visible c.segments (λ id h.
          ground (arith, h, has_key-collect_visible c.load_all_shards c.shard_id id metas []))))
  where
    visible : Dict String SegmentMeta
    visible = collect_visible c.load_all_shards c.shard_id metas []

    owned : String → Bool
    owned = is_owned c.load_all_shards c.shard_id metas

    loaded : Outcome (Unit {0}) × Dict String (Segment Index)
    loaded =
        load_visible faiss c.max_segments_in_memory (sort_by item_lt visible) disk
          (drop_stale visible c.segments)
