-- ===== src/Tests/Service.antt =====
-- Two coordinators at one store, and a service with two readers.
use distributed_vector_db.Prelude.{
  ℕ, ◌≡◌, refl, arith, some, List, [], ◌∷◌, true, false, String, ◌<◌, ◌++◌, map, take, drop,
}
use distributed_vector_db.Prelude.Eq.{string_eq}
use distributed_vector_db.Prelude.Outcome.{ok}
use distributed_vector_db.Coordinator.Etcd.{MemoryStore, campaign, prune_expired, put, get}
use distributed_vector_db.Coordinator.Service.{
  NodeInfo, Coordinator, sync_leader_state, search_targets,
}
use distributed_vector_db.Coordinator.Service.Leadership.{sync_leader_state-excludes}
use distributed_vector_db.Coordinator.Service.Fanout.{answers, search_targets-rotates}

abbrev no_keys : MemoryStore
no_keys = record { values = []; leader = []; ttls = [] }

abbrev reader : String → NodeInfo
reader id = record { node_id = id; role = "reader"; address = id; shard_ids = [] }

abbrev named : String → Coordinator
named id = record {
  settings = record {
    node_id = id;
    node_role = "coordinator";
    writer_url = "w";
    search_fanout_mode = "replicated";
  };
  etcd = some no_keys;
  ring = record { virtual_nodes = 2; points = []; nodes = [] };
  nodes = ("r1", reader "r1") ∷ ("r2", reader "r2") ∷ [];
  leader = false;
  search_counter = 3;
}

abbrev second : Coordinator
second = record (named "c2") { etcd = (sync_leader_state 0 (named "c1")).1.etcd; leader = true }

sync_leader_state-excludes_example : (sync_leader_state 5 second).1.leader ≡ false
unfolding sync_leader_state campaign prune_expired put get
sync_leader_state-excludes_example =
    sync_leader_state-excludes 0 5 (named "c1") second no_keys refl tt refl (omega arith) refl refl

abbrev readers : List NodeInfo
readers = reader "r1" ∷ reader "r2" ∷ []

search_targets-rotates_example :
    (p : ℕ) × (p < 2)
    × (answers readers 2 (named "c1") ≡ map (λ r. ok (r ∷ [])) (drop p readers ++ take p readers))
search_targets-rotates_example = search_targets-rotates readers (omega arith) (named "c1") refl

-- The counter is 3, so the second reader is first.
second_reader_first :
    answers readers 3 (named "c1")
    ≡ ok (reader "r2" ∷ []) ∷ ok (reader "r1" ∷ []) ∷ ok (reader "r2" ∷ []) ∷ []
unfolding search_targets
second_reader_first = refl

abbrev digest : String → List ℕ
digest s = 1 ∷ []
