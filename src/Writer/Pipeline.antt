-- ===== src/Writer/Pipeline.antt =====
-- vecscaledb/writer/pipeline.py: `class WriterPipeline`. The engines of all shards share one storage
-- and one `tombstones.json`: an engine's method reads what the method before has left there.
pub mod Methods
pub mod Grouping
use distributed_vector_db.Prelude.{
  ℕ, zero, suc, ◌+◌, ◌-◌, ◌%◌, ◌^◌, max, Option, none, some, List, [], ◌∷◌, ◌++◌, Bool, true, false,
  not, ◌&&◌, ◌||◌, ◌==◌, length, get_elem?, map, if◌then◌else◌, String,
}
use distributed_vector_db.Prelude.Eq.{nat_eq, string_eq, beq}
use distributed_vector_db.Prelude.Dict.{Dict, lookup, insert}
use distributed_vector_db.Prelude.Set.{contains, add, difference}
use distributed_vector_db.Prelude.Outcome.{Outcome, ok, raise, Error, index_error}
pub use distributed_vector_db.Prelude.Action.{Act, continue, ◌>>=◌, ◌>>◌, pure, gets, modify}
use distributed_vector_db.Arrays.{IdPattern, Vector, NdArray, is_negative, check_shape}
use distributed_vector_db.Index.Faiss.{Faiss}
use distributed_vector_db.Index.Segment.{Segment, SegmentMeta, Storage}
use distributed_vector_db.Storage.Wal.Words.{Bytes}
use distributed_vector_db.Storage.Lsm.State.{Engine, Op, TombstoneFile}
use distributed_vector_db.Storage.Lsm.Start
use distributed_vector_db.Storage.Lsm.Writes
use distributed_vector_db.Storage.Lsm.Compaction
use distributed_vector_db.Storage.Lsm.Reads
use distributed_vector_db.Storage.Lsm.Reads.{Health}
use distributed_vector_db.Coordinator.Ring.{range_from}
use distributed_vector_db.Coordinator.Service.{NodeInfo}

-- `CoordinatorApi`, over the coordinator's state.
pub record CoordinatorApi (S : Type 0) : Type 0 where
  pub register_node : NodeInfo → S → Outcome (Unit {0}) × S
  pub register_segment : SegmentMeta → S → Outcome (Unit {0}) × S
  pub delete_segment : String → S → Outcome (Unit {0}) × S
  pub get_all_segments : S → Outcome (List SegmentMeta) × S

-- `engines` holds the engine of shard 0 first. `disk`, `tombstone_file` and the uuids drawn are those
-- of the shared storage.
pub record Pipeline (Index S : Type 0) : Type 0 where
  pub dim : ℕ
  pub num_shards : ℕ
  pub node_id : String
  pub writer_url : String
  pub engines : List (Engine Index)
  pub registered_segments : List String
  pub started : Bool
  pub coordinator : S
  pub disk : Storage
  pub tombstone_file : TombstoneFile
  pub drawn : ℕ

pub record InsertReply : Type 0 where
  pub lsn : ℕ
  pub inserted : ℕ
  pub segment_flushed : Bool
  pub health : Health

pub record DeleteReply : Type 0 where
  pub deleted : ℕ
  pub lsn : ℕ
  pub health : Health

-- `int(vec_id) % self.num_shards`, which for a negative id counts from above.
unfoldable pub shard_of : ℕ → IdPattern → ℕ
shard_of num_shards id =
    if is_negative id
    then (num_shards - (2 ^ 64 - id) % num_shards) % num_shards
    else id % num_shards

abbrev pub Group : Type 0
Group = List IdPattern × List Vector

-- `shard_groups[shard_id]` of a `defaultdict`.
abbrev pub group_of : ℕ → Dict ℕ Group → Group
group_of shard groups = elim (lookup shard groups) [ none ↦ ([], []) | some g ↦ g ]

-- The loop that distributes the vectors.
unfoldable pub group_rows : ℕ → List IdPattern → List Vector → Dict ℕ Group → Dict ℕ Group
group_rows n [] rows groups = groups
group_rows n (i ∷ ids) [] groups = groups
group_rows n (i ∷ ids) (v ∷ rows) groups =
    let g = group_of (shard_of n i) groups in
    group_rows n ids rows (insert (shard_of n i) (g.0 ++ (i ∷ []), g.1 ++ (v ∷ [])) groups)

-- The same loop of `delete`, over ids alone.
unfoldable pub group_ids : ℕ → List IdPattern → Dict ℕ (List IdPattern) → Dict ℕ (List IdPattern)
group_ids n [] groups = groups
group_ids n (i ∷ ids) groups =
    let g : List IdPattern = elim (lookup (shard_of n i) groups) [ none ↦ [] | some g ↦ g ] in
    group_ids n ids (insert (shard_of n i) (g ++ (i ∷ [])) groups)

abbrev pub set_elem {ℓ} : {A : Type ℓ} → ℕ → A → List A → List A
set_elem i a [] = []
set_elem zero a (x ∷ xs) = a ∷ xs
set_elem (suc i) a (x ∷ xs) = x ∷ set_elem i a xs

abbrev pub combine : Health → Health → Health
combine a b = record {
  ntotal = a.ntotal + b.ntotal;
  segments = a.segments + b.segments;
  memtable_size = a.memtable_size + b.memtable_size;
  wal_lsn = max a.wal_lsn b.wal_lsn;
  active_snapshots = a.active_snapshots + b.active_snapshots;
}

abbrev pub no_health : Health
no_health = record {
  ntotal = 0;
  segments = 0;
  memtable_size = 0;
  wal_lsn = 0;
  active_snapshots = 0;
}

abbrev pub all_segments : {Index : Type 0} → List (Engine Index) → List (Segment Index)
all_segments [] = []
all_segments (e ∷ engines) = e.segments ++ all_segments engines

module _ {Index S : Type 0} where
  -- A call of the coordinator.
  abbrev pub call : {A : Type 0} → (S → Outcome A × S) → Act (Pipeline Index S) A
  call f p = let (o, s) = f p.coordinator in (o, record p { coordinator = s })

  -- The engine sees the shared storage as it is, and leaves it changed.
  abbrev pub attached : Pipeline Index S → Engine Index → Engine Index
  attached p e = record e { disk = p.disk; tombstone_file = p.tombstone_file; drawn = p.drawn }

  -- A method of one shard's engine; a shard that has none is a `KeyError`.
  abbrev pub on_engine : {A : Type 0} → ℕ → Op Index A → Act (Pipeline Index S) A
  on_engine i op p = elim (get_elem? p.engines i) [
    | none ↦ (raise index_error, p)
    | some e ↦
        let (o, e') = op (attached p e) in
        (
          o,
          record p {
            engines = set_elem i e' p.engines;
            disk = e'.disk;
            tombstone_file = e'.tombstone_file;
            drawn = e'.drawn;
          },
        )
  ]

  abbrev pub shard_ids : Pipeline Index S → List ℕ
  shard_ids p = range_from 0 (length p.engines)

  -- `for engine in self._engines.values(): await ...`
  abbrev pub each_engine : Op Index (Unit {0}) → List ℕ → Act (Pipeline Index S) (Unit {0})
  each_engine op [] = pure tt
  each_engine op (i ∷ shards) = on_engine i op >> each_engine op shards

  abbrev pub health_from : List ℕ → Health → Act (Pipeline Index S) Health
  health_from [] combined = pure combined
  health_from (i ∷ shards) combined =
      on_engine i Reads.health >>= λ h. health_from shards (combine combined h)

  unfoldable pub health : Act (Pipeline Index S) Health
  health = do shards ← gets shard_ids; health_from shards no_health

  unfoldable pub segments : Pipeline Index S → List (Segment Index)
  segments p = all_segments p.engines
