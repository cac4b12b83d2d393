-- ===== src/Node.antt =====
-- vecscaledb/node.py: the service of a single node, over one engine. The arrays of a request come as numpy
-- makes them, or with the error that it raises.
pub mod Answers
use distributed_vector_db.Prelude.{
  ℕ, Option, none, some, List, [], Bool, not, ◌==◌, length, if◌then◌else◌, String,
}
use distributed_vector_db.Prelude.Outcome.{
  Outcome, ok, raise, raise_if, runtime_error, value_error, http_error,
}
use distributed_vector_db.Prelude.Action.{Act, ◌>>=◌, ◌>>◌, pure, gets, modify, attempt}
use distributed_vector_db.Arrays.{IdPattern, Vector, Distance, NdArray, check_shape}
use distributed_vector_db.Index.Faiss.{Faiss}
use distributed_vector_db.Storage.Wal.Words.{Bytes}
use distributed_vector_db.Storage.Lsm.State.{Engine, Op}
use distributed_vector_db.Storage.Lsm.Start
use distributed_vector_db.Storage.Lsm.Writes
use distributed_vector_db.Storage.Lsm.Compaction
use distributed_vector_db.Storage.Lsm.Reads
use distributed_vector_db.Storage.Lsm.Reads.{Health}

-- `settings.dim`, and the global `engine`.
pub record NodeService (Index : Type 0) : Type 0 where
  pub dim : ℕ
  pub engine : Option (Engine Index)

pub record InsertReply : Type 0 where
  pub inserted : ℕ
  pub segment_flushed : Bool
  pub ntotal : ℕ
  pub lsn : ℕ

-- `_metrics_gauges`: two gauges before the start, and four afterwards.
pub data Gauges : Type 0 where
  unstarted : Gauges
  engine_gauges : ℕ → ℕ → ℕ → ℕ → Gauges

-- `except ValueError` around the conversion of the request's lists
abbrev pub bad_request : {A : Type 0} → Outcome A → Outcome A
bad_request (ok a) = ok a
bad_request (raise value_error) = raise (http_error 400)
bad_request (raise x) = raise x

module _ {Index : Type 0} where
  -- `_require_engine`
  abbrev pub require_engine : Act (NodeService Index) (Engine Index)
  require_engine n = elim n.engine [ none ↦ (raise runtime_error, n) | some e ↦ (ok e, n) ]

  -- A method of the engine.
  abbrev pub on_engine : {A : Type 0} → Op Index A → Act (NodeService Index) A
  on_engine op = require_engine >>= λ e n. let (o, e') = op e in (o, record n { engine = some e' })

  unfoldable pub handle_health : Act (NodeService Index) Health
  handle_health = on_engine Reads.health

  unfoldable pub metrics_gauges : Act (NodeService Index) Gauges
  unfolding handle_health
  metrics_gauges n = elim n.engine [
    | none ↦ (ok unstarted, n)
    | some e ↦
        (handle_health >>= λ h.
        pure (engine_gauges h.wal_lsn h.segments h.memtable_size h.active_snapshots))
          n
  ]

  module _ (faiss : Faiss Index) where
    -- `/search`
    unfoldable pub handle_search :
        Vector → ℕ → ℕ → Act (NodeService Index) (List IdPattern × List Distance)
    handle_search query top_k nprobe = do
      _ ← require_engine
      attempt (λ n. raise_if (not (length query == n.dim)) (http_error 400))
      on_engine (Reads.search faiss query top_k nprobe none)

    module _ (uuid : ℕ → String) (crc32 : Bytes → ℕ) where
      -- `/insert`
      unfoldable pub handle_insert :
          List IdPattern → Outcome NdArray → Act (NodeService Index) InsertReply
      handle_insert ids converted = do
        _ ← require_engine
        vectors ← attempt (λ n. bad_request converted)
        attempt (λ n. bad_request (check_shape n.dim ids vectors))
        result ← on_engine (Writes.insert faiss uuid crc32 ids vectors)
        health ← on_engine Reads.health
        pure (record {
          inserted = length ids;
          segment_flushed = result.1;
          ntotal = health.ntotal;
          lsn = result.0;
        })

      -- `lifespan`, up to its `yield`, with the engine that `create_engine` makes, and behind it.
      unfoldable pub start_up : Engine Index → Act (NodeService Index) (Unit {0})
      unfolding handle_health
      start_up created = do
        modify (λ n. record n { engine = some created })
        on_engine (Start.start faiss crc32)
        _ ← handle_health
        pure tt

      unfoldable pub shut_down : Act (NodeService Index) (Unit {0})
      shut_down n = elim n.engine [
        | none ↦ (ok tt, n)
        | some e ↦ on_engine (Compaction.stop faiss uuid crc32) n
      ]
