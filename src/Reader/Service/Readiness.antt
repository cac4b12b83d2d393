-- ===== src/Reader/Service/Readiness.antt =====
-- vecscaledb/reader/app.py: what requests and rounds of the refresh loop make of the reader.
use distributed_vector_db.Prelude.{ℕ, none, some, List, [], ◌∷◌, Bool, true, false, leb}
use distributed_vector_db.Prelude.Dict.{Dict}
use distributed_vector_db.Prelude.Outcome.{Outcome, ok, raise}
use distributed_vector_db.Arrays.{Vector}
use distributed_vector_db.Index.Faiss.{Faiss}
use distributed_vector_db.Index.Segment.{Segment, Storage}
use distributed_vector_db.Storage.Lsm.State.{TombstoneFile}
use distributed_vector_db.Reader.Cache
use distributed_vector_db.Reader.Cache.{segments_loaded}
use distributed_vector_db.Reader.Service.{
  ReaderService, SegmentSource, handle_search, ready, health_payload, metrics_gauges, refresh_round,
}

abbrev pub is_ok : {A : Type 0} → Outcome A → Bool
is_ok (ok a) = true
is_ok (raise x) = false

-- The cache, if it is there, is within its limit.
abbrev pub is_bounded : {Index S : Type 0} → ReaderService Index S → Bool
is_bounded r = elim r.cache [
  | none ↦ true
  | some c ↦ leb (segments_loaded c) c.max_segments_in_memory
]

module _ {Index S : Type 0} (faiss : Faiss Index) (api : SegmentSource S) where
  -- What happens to a reader after its start.
  pub data Event : Type 0 where
    searching : Vector → ℕ → ℕ → ℕ → Event
    asking_health : Storage → Event
    asking_ready : Storage → Event
    measuring : Storage → Event
    refreshing : Storage → TombstoneFile → Event

  abbrev pub handled : Event → ReaderService Index S → ReaderService Index S
  handled (searching query top_k nprobe snapshot_id) r =
      (handle_search faiss query top_k nprobe snapshot_id r).1
  handled (asking_health disk) r = (health_payload disk r).1
  handled (asking_ready disk) r = (ready disk r).1
  handled (measuring disk) r = (metrics_gauges disk r).1
  handled (refreshing disk file) r = refresh_round api faiss disk file r

  abbrev pub served : List Event → ReaderService Index S → ReaderService Index S
  served [] r = r
  served (x ∷ events) r = served events (handled x r)
