-- ===== src/Storage/Lsm/View.antt =====
-- What an engine holds, as a map from ids to vectors: the specification that the methods of
-- `LSMEngine` are measured by. A newer segment stands behind an older one in the list.
use distributed_vector_db.Prelude.{
  ◌≡◌, refl, Option, none, some, List, [], ◌∷◌, Bool, ◌||◌, if◌then◌else◌,
}
use distributed_vector_db.Prelude.Eq.{nat_eq}
use distributed_vector_db.Prelude.Dict.{lookup}
use distributed_vector_db.Prelude.Set.{contains}
use distributed_vector_db.Prelude.Outcome.{Outcome, ok, raise}
use distributed_vector_db.Arrays.{IdPattern, Vector}
use distributed_vector_db.Index.Segment
use distributed_vector_db.Index.Segment.{Segment, Storage}
use distributed_vector_db.Storage.MemTable
use distributed_vector_db.Storage.MemTable.Laws.{last_vector}
use distributed_vector_db.Storage.Lsm.State.{Engine}

abbrev pub vector_in : IdPattern → Outcome (List IdPattern × List Vector) → Option Vector
vector_in i (raise x) = none
vector_in i (ok (ids, vectors)) = last_vector i ids vectors

abbrev pub newest : Option Vector → Option Vector → Option Vector
newest (some v) old = some v
newest none old = old

pub newest_assoc : (a b c : Option Vector) → newest (newest a b) c ≡ newest a (newest b c)
newest_assoc none b c = refl
newest_assoc (some a) b c = refl

module _ {Index : Type 0} where
  -- The vector of an id in the last segment that has it.
  abbrev pub stored_vector : IdPattern → List (Segment Index) → Storage → Option Vector
  stored_vector i [] disk = none
  stored_vector i (s ∷ segments) disk =
      newest (stored_vector i segments disk) (vector_in i (Segment.load_arrays s disk))

  abbrev pub is_hidden : IdPattern → Engine Index → Bool
  is_hidden i e =
      contains i (MemTable.visible_deleted_ids none e.memtable) || contains i e.tombstones

  abbrev pub view : Engine Index → IdPattern → Option Vector
  view e i =
      if is_hidden i e
      then none
      else newest (lookup i (MemTable.to_arrays none e.memtable))
          (stored_vector i e.segments e.disk)
