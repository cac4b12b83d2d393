-- ===== src/Reader/Service.antt =====
-- vecscaledb/reader/app.py: the globals of the reader, its handlers, its start and a round of its refresh
-- loop. The shared storage and `tombstones.json` are arguments; the coordinator is an interface, over
-- a state of its own.
pub mod Readiness
use distributed_vector_db.Prelude.{
  ℕ, Option, none, some, List, [], ◌∷◌, Bool, true, false, not, ◌==◌, length, if◌then◌else◌,
}
use distributed_vector_db.Prelude.Outcome.{Outcome, ok, raise, raise_if, http_error}
use Prim.Native.String.{String, ◌++◌}
use distributed_vector_db.Prelude.Action.{Act, ◌>>=◌, ◌>>◌, pure, gets, modify, attempt}
use distributed_vector_db.Arrays.{IdPattern, Vector, Distance}
use distributed_vector_db.Index.Faiss.{Faiss}
use distributed_vector_db.Index.Segment.{SegmentMeta, Storage}
use distributed_vector_db.Storage.Lsm.State.{TombstoneFile}
use distributed_vector_db.Coordinator.Service.{NodeInfo}
use distributed_vector_db.Reader.Cache
use distributed_vector_db.Reader.Cache.{SegmentCache, search_all, segments_loaded, segment_ids}

-- The calls of `CoordinatorClient` that the reader makes.
pub record SegmentSource (S : Type 0) : Type 0 where
  pub register_node : NodeInfo → S → Outcome (Unit {0}) × S
  pub get_all_segments : S → Outcome (List SegmentMeta) × S

-- The settings and the globals.
pub record ReaderService (Index S : Type 0) : Type 0 where
  pub node_id : String
  pub dim : ℕ
  pub shard_id : ℕ
  pub load_all_shards : Bool
  pub max_segments_in_memory : ℕ
  pub coordinator_client : Option S
  pub cache : Option (SegmentCache Index)
  pub first_refresh_complete : Bool

-- `_health_payload`
pub record HealthPayload : Type 0 where
  pub shard_id : ℕ
  pub load_all_shards : Bool
  pub segments_loaded : ℕ
  pub ntotal : ℕ
  pub segment_ids : List String

-- `_metrics_gauges`: one gauge before the start, and three afterwards.
pub data Gauges : Type 0 where
  unstarted : Gauges
  reader_gauges : ℕ → ℕ → Bool → Gauges

abbrev pub required : {A : Type 0} → Option A → Outcome A
required none = raise (http_error 503)
required (some a) = ok a

module _ {Index S : Type 0} where
  -- `_require_cache`, `_require_coordinator_client`
  abbrev pub require_cache : Act (ReaderService Index S) (SegmentCache Index)
  require_cache = attempt (λ r. required r.cache)

  abbrev pub require_client : Act (ReaderService Index S) S
  require_client = attempt (λ r. required r.coordinator_client)

  -- A method of the cache, and a call of the client.
  abbrev pub on_cache :
      {A : Type 0}
      → (SegmentCache Index → Outcome A × SegmentCache Index)
      → Act (ReaderService Index S) A
  on_cache f = require_cache >>= λ c r. let (o, c') = f c in (o, record r { cache = some c' })

  abbrev pub on_client : {A : Type 0} → (S → Outcome A × S) → Act (ReaderService Index S) A
  on_client f =
      require_client >>= λ s r. let (o, s') = f s in (o, record r { coordinator_client = some s' })

  -- `/search`
  unfoldable pub handle_search :
      Faiss Index
      → Vector
      → ℕ
      → ℕ
      → ℕ
      → Act (ReaderService Index S) (List IdPattern × List Distance)
  handle_search faiss query top_k nprobe snapshot_id = do
    _ ← require_cache
    attempt (λ r. raise_if (not (length query == r.dim)) (http_error 400))
    on_cache (search_all faiss query top_k nprobe snapshot_id)

  unfoldable pub health_payload : Storage → Act (ReaderService Index S) HealthPayload
  health_payload disk = do
    c ← require_cache
    n ← on_cache (Cache.ntotal disk)
    gets λ r. record {
      shard_id = r.shard_id;
      load_all_shards = r.load_all_shards;
      segments_loaded = segments_loaded c;
      ntotal = n;
      segment_ids = segment_ids c;
    }

  -- `/ready`
  unfoldable pub ready : Storage → Act (ReaderService Index S) HealthPayload
  unfolding health_payload
  ready disk = do
    attempt (λ r. raise_if (not r.first_refresh_complete) (http_error 503))
    health_payload disk

  unfoldable pub metrics_gauges : Storage → Act (ReaderService Index S) Gauges
  metrics_gauges disk r = elim r.cache [
    | none ↦ (ok unstarted, r)
    | some c ↦
        let (n, c') = Cache.ntotal disk c in
        (
          elim n [
            | raise x ↦ raise x
            | ok total ↦ ok (reader_gauges (segments_loaded c) total r.first_refresh_complete)
          ],
          record r { cache = some c' },
        )
  ]

  module _ (api : SegmentSource S) where
    -- `_register_self`
    unfoldable pub register_self : Act (ReaderService Index S) (Unit {0})
    register_self = do
      info ← gets (λ r. record {
        node_id = r.node_id;
        role = "reader";
        address = "http://" ++ (r.node_id ++ ":8200");
        shard_ids = r.shard_id ∷ [];
      })
      on_client (api.register_node info)

    module _ (faiss : Faiss Index) where
      -- `_refresh_once`
      unfoldable pub refresh_once : Storage → TombstoneFile → Act (ReaderService Index S) (Unit {0})
      refresh_once disk file = do
        _ ← require_client
        _ ← require_cache
        segments ← on_client api.get_all_segments
        on_cache (Cache.refresh faiss segments disk file)
        modify (λ r. record r { first_refresh_complete = true })

      -- A round of `_refresh_loop`; what is raised is logged.
      abbrev pub round : Storage → TombstoneFile → Act (ReaderService Index S) (Unit {0})
      round disk file = register_self >> refresh_once disk file

      unfoldable pub refresh_round :
          Storage → TombstoneFile → ReaderService Index S → ReaderService Index S
      unfolding register_self refresh_once
      refresh_round disk file r = (round disk file r).1

      -- `lifespan`, up to its `yield`; the health that it logs is computed, and can raise.
      unfoldable pub lifespan : S → Storage → TombstoneFile → Act (ReaderService Index S) (Unit {0})
      unfolding register_self refresh_once health_payload
      lifespan client disk file = do
        modify (λ r. record r { first_refresh_complete = false; coordinator_client = some client })
        cache ← attempt (λ r. Cache.init r.shard_id r.max_segments_in_memory r.load_all_shards)
        modify (λ r. record r { cache = some cache })
        round disk file
        _ ← health_payload disk
        pure tt
