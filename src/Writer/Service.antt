-- ===== src/Writer/Service.antt =====
-- vecscaledb/writer/app.py: the handlers of the writer, and a round of its registration loop. The
-- arrays of a request come as numpy makes them, or with the error that it raises.
use distributed_vector_db.Prelude.{ℕ, Option, none, some, List, String}
use distributed_vector_db.Prelude.Outcome.{Outcome, ok, raise, value_error, http_error}
use distributed_vector_db.Arrays.{IdPattern, NdArray}
use distributed_vector_db.Index.Faiss.{Faiss}
use distributed_vector_db.Storage.Wal.Words.{Bytes}
use distributed_vector_db.Storage.Lsm.Reads.{Health}
use distributed_vector_db.Writer.Pipeline.{
  CoordinatorApi, Pipeline, InsertReply, DeleteReply, Act, health, ◌>>◌, ◌>>=◌, pure,
}
use distributed_vector_db.Writer.Pipeline.Methods
use distributed_vector_db.Writer.Pipeline.Methods.{insert_vectors, delete_vectors}

-- A `ValueError` becomes a 400.
abbrev pub as_http : {A : Type 0} → Outcome A → Outcome A
as_http (ok a) = ok a
as_http (raise value_error) = raise (http_error 400)
as_http (raise x) = raise x

pub data Gauges : Type 0 where
  unstarted : Gauges
  pipeline_gauges : ℕ → ℕ → ℕ → ℕ → Gauges

module _ {Index S : Type 0} where
  -- `_require_pipeline`, and a method of it.
  abbrev pub on_pipeline :
      {A : Type 0}
      → Act (Pipeline Index S) A
      → Option (Pipeline Index S)
      → Outcome A × Option (Pipeline Index S)
  on_pipeline f none = (raise (http_error 503), none)
  on_pipeline f (some p) = ((f p).0, some (f p).1)

  abbrev pub caught :
      {A : Type 0} → Outcome A × Option (Pipeline Index S) → Outcome A × Option (Pipeline Index S)
  caught (o, p) = (as_http o, p)

  -- `/insert`: arrays that are ragged are a 400 too.
  unfoldable pub handle_insert :
      CoordinatorApi S
      → Faiss Index
      → (ℕ → String)
      → (Bytes → ℕ)
      → List IdPattern
      → Outcome NdArray
      → Option (Pipeline Index S)
      → Outcome InsertReply × Option (Pipeline Index S)
  handle_insert api faiss uuid crc32 ids vectors none = (raise (http_error 503), none)
  handle_insert api faiss uuid crc32 ids (raise x) (some p) = (as_http (raise x), some p)
  handle_insert api faiss uuid crc32 ids (ok vectors) (some p) =
      caught (on_pipeline (insert_vectors api faiss uuid crc32 ids vectors) (some p))

  unfoldable pub handle_delete :
      (Bytes → ℕ)
      → CoordinatorApi S
      → Faiss Index
      → (ℕ → String)
      → List IdPattern
      → Option (Pipeline Index S)
      → Outcome DeleteReply × Option (Pipeline Index S)
  handle_delete crc32 api faiss uuid ids p = on_pipeline (delete_vectors api faiss uuid crc32 ids) p

  unfoldable pub handle_health :
      Option (Pipeline Index S) → Outcome Health × Option (Pipeline Index S)
  handle_health p = on_pipeline health p

  -- A round of `_segment_registration_loop`, which logs what is raised.
  unfoldable pub registration_round :
      CoordinatorApi S → Option (Pipeline Index S) → Option (Pipeline Index S)
  registration_round api p =
      (on_pipeline (Methods.register_self api >> Methods.register_unregistered_segments api) p).1

  abbrev pub gauges_of :
      Outcome Health × Option (Pipeline Index S) → Outcome Gauges × Option (Pipeline Index S)
  gauges_of (raise x, p) = (raise x, p)
  gauges_of (ok h, p) =
      (ok (pipeline_gauges h.wal_lsn h.segments h.memtable_size h.active_snapshots), p)

  -- `_metrics_gauges`: two gauges before the start, and four afterwards.
  unfoldable pub metrics_gauges :
      Option (Pipeline Index S) → Outcome Gauges × Option (Pipeline Index S)
  unfolding handle_health
  metrics_gauges none = (ok unstarted, none)
  metrics_gauges (some p) = gauges_of (handle_health (some p))

  module _ (api : CoordinatorApi S) (faiss : Faiss Index) (uuid : ℕ → String)
      (crc32 : Bytes → ℕ) where
    -- `lifespan`, up to its `yield`, with the pipeline that `create_pipeline` makes.
    unfoldable pub start_up : Pipeline Index S → Outcome (Unit {0}) × Option (Pipeline Index S)
    start_up created =
        on_pipeline (Methods.start api faiss uuid crc32 >> (health >>= λ _. pure tt)) (some created)

    -- `lifespan`, behind its `yield`.
    unfoldable pub shut_down :
        Option (Pipeline Index S) → Outcome (Unit {0}) × Option (Pipeline Index S)
    shut_down none = (ok tt, none)
    shut_down (some p) =
        on_pipeline
          (Methods.register_unregistered_segments api >> Methods.stop api faiss uuid crc32) (some p)
