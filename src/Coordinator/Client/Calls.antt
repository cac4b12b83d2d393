-- ===== src/Coordinator/Client/Calls.antt =====
-- vecscaledb/coordinator/client.py: the calls of `CoordinatorClient`. The client that sends a request, and
-- what pydantic writes and reads as JSON, are parameters.
use Prim.Native.String.{String, ◌++◌}
use distributed_vector_db.Prelude.{ℕ, Option, none, some, List}
use distributed_vector_db.Prelude.Outcome.{Outcome, ok, raise, ◌>>=◌}
use distributed_vector_db.Index.Segment.{SegmentMeta}
use distributed_vector_db.Coordinator.Service.{NodeInfo}
use distributed_vector_db.Coordinator.Client.{CoordinatorClient, request}

pub record HttpRequest (J : Type 0) : Type 0 where
  pub method : String
  pub path : String
  pub body : Option J

-- `model_dump`, and `model_validate` of the items of an answer.
pub record JsonCodec (J : Type 0) : Type 0 where
  pub node_json : NodeInfo → J
  pub segment_json : SegmentMeta → J
  pub read_segments : J → Outcome (List SegmentMeta)
  pub read_readers : J → Outcome (List NodeInfo)

abbrev pub done : {J : Type 0} → Outcome J → Outcome (Unit {0})
done (ok j) = ok tt
done (raise x) = raise x

module _ {J : Type 0} (codec : JsonCodec J) (http : HttpRequest J → ℕ → String → Outcome J)
    (c : CoordinatorClient) where
  abbrev pub sent : String → String → Option J → Outcome J
  sent method path body = request (http (record { method = method; path = path; body = body })) c

  unfoldable pub register_node : NodeInfo → Outcome (Unit {0})
  register_node info = done (sent "POST" "/register" (some (codec.node_json info)))

  unfoldable pub register_segment : SegmentMeta → Outcome (Unit {0})
  register_segment meta = done (sent "POST" "/segments" (some (codec.segment_json meta)))

  unfoldable pub delete_segment : String → Outcome (Unit {0})
  delete_segment segment_id = done (sent "DELETE" ("/segments/" ++ segment_id) none)

  unfoldable pub get_all_segments : Outcome (List SegmentMeta)
  get_all_segments = do answer ← sent "GET" "/segments" none; codec.read_segments answer

  unfoldable pub get_search_targets : Outcome (List NodeInfo)
  get_search_targets = do answer ← sent "GET" "/route/search" none; codec.read_readers answer
