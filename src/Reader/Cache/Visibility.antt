-- ===== src/Reader/Cache/Visibility.antt =====
-- vecscaledb/reader/search.py: which ids `_build_segment_hidden_ids` hides in which segment.
use distributed_vector_db.Prelude.{
  ℕ, ◌≡◌, refl, arith, Option, none, some, List, [], ◌∷◌, Bool, false, ◌&&◌, ◌||◌, ltb,
  if◌then◌else◌, String, ==_iff, Option-cases, inl, inr,
}
use distributed_vector_db.Prelude.Eq.{nat_eq, string_eq, beq}
use distributed_vector_db.Prelude.Dict.{Dict, lookup, insert, lookup-insert}
use distributed_vector_db.Prelude.Set.{contains, contains-keep}
use distributed_vector_db.Prelude.Outcome.{ok, Outcome-cases}
use distributed_vector_db.Index.Segment
use distributed_vector_db.Index.Segment.{Segment, Storage}
use distributed_vector_db.Arrays.{IdPattern}
use distributed_vector_db.Storage.Lsm.Visibility.{note_ids, raised_to}
use distributed_vector_db.Reader.Cache.{
  LoadedIds, latest_by_id, is_superseded, hidden_by_segment, load_all_ids, build_segment_hidden_ids,
}

-- A loaded segment with a snapshot above this one holds the id.
abbrev pub is_newer_elsewhere : IdPattern → ℕ → List LoadedIds → Bool
is_newer_elsewhere i snapshot [] = false
is_newer_elsewhere i snapshot (l ∷ loaded) =
    (contains i l.ids && ltb snapshot l.snapshot_id) || is_newer_elsewhere i snapshot loaded

-- The snapshot of an id is above this one.
abbrev pub is_above : ℕ → Option ℕ → Bool
is_above snapshot none = false
is_above snapshot (some t) = ltb snapshot t

pub lookup-note_ids :
    (i : IdPattern) (t snapshot : ℕ) (ids : List IdPattern) (latest : Dict IdPattern ℕ)
    → is_above snapshot (lookup i (note_ids t ids latest))
      ≡ ((contains i ids && ltb snapshot t) || is_above snapshot (lookup i latest))
unfolding note_ids
lookup-note_ids i t snapshot [] latest = refl
lookup-note_ids i t snapshot (j ∷ ids) latest = ground (
  arith,
  lookup-note_ids i t snapshot ids (insert j (raised_to t (lookup j latest)) latest),
  lookup-insert i j (raised_to t (lookup j latest)) latest,
  ==_iff i j,
)

is_above-latest_by_id :
    (i : IdPattern) (snapshot : ℕ) (loaded : List LoadedIds) (latest : Dict IdPattern ℕ)
    → is_above snapshot (lookup i (latest_by_id loaded latest))
      ≡ (is_newer_elsewhere i snapshot loaded || is_above snapshot (lookup i latest))
unfolding latest_by_id
is_above-latest_by_id i snapshot [] latest = refl
is_above-latest_by_id i snapshot (l ∷ loaded) latest = ground (
  arith,
  is_above-latest_by_id i snapshot loaded (note_ids l.snapshot_id l.ids latest),
  lookup-note_ids i l.snapshot_id snapshot l.ids latest,
)

-- The entry of a segment, where one is loaded under this name.
abbrev pub entry : String → List LoadedIds → Option LoadedIds
entry id [] = none
entry id (l ∷ loaded) = if beq id l.segment_id then some l else entry id loaded

-- What an index hides in a segment, where it has the segment.
abbrev pub hides : IdPattern → Option (List IdPattern) → Bool
hides i none = false
hides i (some ids) = contains i ids

abbrev pub holds : IdPattern → Option LoadedIds → Bool
holds i none = false
holds i (some l) = contains i l.ids

abbrev pub snapshot_of : Option LoadedIds → ℕ
snapshot_of none = 0
snapshot_of (some l) = l.snapshot_id

hides-hidden_by_segment :
    (latest : Dict IdPattern ℕ) (i : IdPattern) (id : String) (loaded : List LoadedIds)
    → hides i (lookup id (hidden_by_segment latest loaded))
      ≡ (is_above (snapshot_of (entry id loaded)) (lookup i latest) && holds i (entry id loaded))
unfolding hidden_by_segment
hides-hidden_by_segment latest i id [] = ground arith
hides-hidden_by_segment latest i id (l ∷ loaded) = ground (
  arith,
  hides-hidden_by_segment latest i id loaded,
  contains-keep (λ j. is_superseded latest l.snapshot_id j) i l.ids,
)

hidden_by_segment_lem :
    (i : IdPattern) (id : String) (loaded : List LoadedIds)
    → hides i (lookup id (hidden_by_segment (latest_by_id loaded []) loaded))
      ≡ (holds i (entry id loaded) && is_newer_elsewhere i (snapshot_of (entry id loaded)) loaded)
hidden_by_segment_lem i id loaded = ground (
  arith,
  hides-hidden_by_segment (latest_by_id loaded []) i id loaded,
  is_above-latest_by_id i (snapshot_of (entry id loaded)) loaded [],
)

-- An index that is built hides an id in a segment exactly when the segment holds it and a cached
-- segment with a higher snapshot holds it too.
pub build_segment_hidden_ids_lem :
    {Index : Type 0} (i : IdPattern) (id : String) (segments : Dict String (Segment Index))
    (disk : Storage) (loaded : List LoadedIds) (index : Dict String (List IdPattern))
    → (load_all_ids segments disk).0 ≡ ok loaded
    → (build_segment_hidden_ids segments disk).0 ≡ ok index
    → hides i (lookup id index)
      ≡ (holds i (entry id loaded) && is_newer_elsewhere i (snapshot_of (entry id loaded)) loaded)
unfolding build_segment_hidden_ids
build_segment_hidden_ids_lem i id segments disk loaded index h k =
    ground (arith, h, k, hidden_by_segment_lem i id loaded)

load_ids-load_ids :
    {Index : Type 0} (s t : Segment Index) (disk later : Storage) (ids : List IdPattern)
    → Segment.load_ids s disk ≡ ok (ids, t)
    → (Segment.load_ids t later ≡ ok (ids, t)) × (t.snapshot_id ≡ s.snapshot_id)
unfolding Segment.load_ids
load_ids-load_ids s t disk later ids h = elim (Option-cases s.ids_cache) [
  | inr (cached, p) ↦ ground (arith, p, h)
  | inl p ↦ elim (Option-cases (Segment.read_dir s.path disk).ids_file) [
    | inl q ↦ ground (arith, p, q, h)
    | inr (read, q) ↦ ground (arith, p, q, h)
  ]
]

-- Segments whose ids have been loaded answer them again from memory, whatever the disk holds then,
-- and stay as they are.
pub load_all_ids-load_all_ids :
    {Index : Type 0} (segments : Dict String (Segment Index)) (disk later : Storage)
    (loaded : List LoadedIds)
    → (load_all_ids segments disk).0 ≡ ok loaded
    → load_all_ids (load_all_ids segments disk).1 later
      ≡ (ok loaded, (load_all_ids segments disk).1)
unfolding load_all_ids
load_all_ids-load_all_ids [] disk later loaded h = ground (arith, h)
load_all_ids-load_all_ids ((id, s) ∷ segments) disk later loaded h =
    elim (Outcome-cases (Segment.load_ids s disk)) [
      | inl (x, p) ↦ ground (arith, p, h)
      | inr ((ids, t), p) ↦ elim (Outcome-cases (load_all_ids segments disk).0) [
        | inl (x, q) ↦ ground (arith, p, q, h)
        | inr (rest, q) ↦ ground (
          arith,
          p,
          q,
          h,
          load_ids-load_ids s t disk later ids p,
          load_all_ids-load_all_ids segments disk later rest q,
        )
      ]
    ]
