-- ===== src/Coordinator/Service.antt =====
-- vecscaledb/coordinator/app.py: the handlers and loops of the coordinator, over its module globals.
-- A step reads one time of the clock. The JSON texts in the metadata store are written and read by
-- pydantic, which is the parameter `Codec`; readers are asked through a parameter. A request that is
-- proxied is a result of its own, with the node that it goes to.
pub mod Handlers
pub mod Leadership
pub mod Fanout
use Prim.Native.String.{◌++◌}
use distributed_vector_db.Prelude.{
  ℕ, suc, ◌+◌, ◌%◌, max, Option, none, some, List, [], ◌∷◌, Bool, true, false, not, ◌&&◌, ◌||◌, ltb,
  leb, ◌==◌, is_empty, length, get_elem?, keep, if◌then◌else◌, String,
}
use distributed_vector_db.Prelude.Eq.{string_eq, beq}
use distributed_vector_db.Prelude.Dict.{Dict, values, lookup, insert}
use distributed_vector_db.Prelude.Sort.{sort_by}
use distributed_vector_db.Prelude.Strings.{string_ltb, decimal}
use distributed_vector_db.Prelude.ParseNumber.{parse_int}
use distributed_vector_db.Prelude.Outcome.{
  Outcome, ok, raise, raise_if, value_error, index_error, http_error,
}
use distributed_vector_db.Arrays.{IdPattern, Vector, Distance, Hit}
use distributed_vector_db.Index.Segment.{SegmentMeta}
use distributed_vector_db.Storage.Merge.{merge_results}
use distributed_vector_db.Coordinator.Ring
use distributed_vector_db.Coordinator.Ring.{Ring, add_node, get_node, get_shard_id, ring_size}
use distributed_vector_db.Coordinator.Etcd
use distributed_vector_db.Coordinator.Etcd.{MemoryStore, campaign, put, get, get_prefix}

-- vecscaledb/models.py: `NodeInfo`
pub record NodeInfo : Type 0 where
  pub node_id : String
  pub role : String
  pub address : String
  pub shard_ids : List ℕ

pub record SearchRequest : Type 0 where
  pub query : Vector
  pub top_k : ℕ
  pub nprobe : ℕ

-- The settings that the coordinator reads; `search_fanout_mode` in lower case.
pub record Settings : Type 0 where
  pub node_id : String
  pub node_role : String
  pub writer_url : String
  pub search_fanout_mode : String

-- `model_dump_json` and `model_validate_json`
pub record Codec : Type 0 where
  pub write_node : NodeInfo → String
  pub read_node : String → Outcome NodeInfo
  pub write_segment : SegmentMeta → String
  pub read_segment : String → Outcome SegmentMeta

-- The module's globals. `etcd` is `none` until the service has started.
pub record Coordinator : Type 0 where
  pub settings : Settings
  pub etcd : Option MemoryStore
  pub ring : Ring
  pub nodes : Dict String NodeInfo
  pub leader : Bool
  pub search_counter : ℕ

abbrev pub Act : Type 0 → Type 0
Act A = Coordinator → Outcome A × Coordinator

abbrev pub continue : {A B : Type 0} → Outcome A → (A → Act B) → Act B
continue (ok a) f s = f a s
continue (raise x) f s = (raise x, s)

infixl 5 ◌>>=◌ ◌>>◌
abbrev pub ◌>>=◌ : {A B : Type 0} → Act A → (A → Act B) → Act B
◌>>=◌ m f s = let (o, s') = m s in continue o f s'

abbrev pub ◌>>◌ : {B : Type 0} → Act (Unit {0}) → Act B → Act B
m >> k = m >>= λ _. k

abbrev pub pure : {A : Type 0} → A → Act A
pure a s = (ok a, s)

abbrev pub gets : {A : Type 0} → (Coordinator → A) → Act A
gets f s = (ok (f s), s)

abbrev pub lift : {A : Type 0} → (Coordinator → Outcome A) → Act A
lift f s = (f s, s)

abbrev pub modify : (Coordinator → Coordinator) → Act (Unit {0})
modify f s = (ok tt, f s)

-- A method of the store; `_require_etcd` answers 503 where there is none.
abbrev pub on_etcd : {A : Type 0} → (MemoryStore → A × MemoryStore) → Act A
on_etcd f s = elim s.etcd [
  | none ↦ (raise (http_error 503), s)
  | some store ↦ (ok (f store).0, record s { etcd = some (f store).1 })
]

abbrev pub update_etcd : (MemoryStore → MemoryStore) → Act (Unit {0})
update_etcd f = on_etcd (λ store. (tt, f store))

abbrev pub node_key : String → String
node_key id = "/vecscaledb/nodes/" ++ id

abbrev pub segment_key : String → String
segment_key id = "/vecscaledb/segments/" ++ id

abbrev pub snapshot_current : String
snapshot_current = "/vecscaledb/snapshots/current"

-- `sorted([...], key=lambda node: node.node_id)` of the nodes with a role
abbrev pub nodes_with : String → Dict String NodeInfo → List NodeInfo
nodes_with role nodes =
    sort_by (λ a b. string_ltb a.node_id b.node_id) (keep (λ n. beq n.role role) (values nodes))

unfoldable pub reader_nodes : Coordinator → List NodeInfo
reader_nodes s = nodes_with "reader" s.nodes

unfoldable pub find_writer : Coordinator → Option NodeInfo
find_writer s = elim (nodes_with "writer" s.nodes) [ [] ↦ none | w ∷ ws ↦ some w ]

-- `_search_targets`
unfoldable pub search_targets : List NodeInfo → Act (List NodeInfo)
search_targets readers s =
    if beq s.settings.search_fanout_mode "scatter" || leb (length readers) 1
    then (ok readers, s)
    else if not (beq s.settings.search_fanout_mode "replicated")
    then (raise (http_error 500), s)
    else elim (get_elem? readers (s.search_counter % length readers)) [
      | none ↦ (raise index_error, record s { search_counter = s.search_counter + 1 })
      | some r ↦ (ok (r ∷ []), record s { search_counter = s.search_counter + 1 })
    ]

unfoldable pub node_address : Settings → String
node_address t =
    if beq t.node_role "coordinator"
    then "http://" ++ (t.node_id ++ ":8000")
    else if beq t.node_role "writer"
    then t.writer_url
    else "http://" ++ (t.node_id ++ ":8200")

-- `_sync_leader_state`, at a time.
unfoldable pub sync_leader_state : ℕ → Act (Unit {0})
sync_leader_state now = do
  current ← on_etcd (get now Etcd.public_key)
  id ← gets (λ s. s.settings.node_id)
  leads ← gets (λ s. s.leader)
  if leads
      then (if beq_option current id
          then update_etcd (λ store.
            put now Etcd.public_key id (some 10)
              (put now (Etcd.election_key "coordinator") id (some 10) store))
          else modify (λ s. record s { leader = false }))
      else elim current [
        | some _ ↦ pure tt
        | none ↦ on_etcd (campaign now "coordinator" id) >>= λ won.
            modify (λ s. record s { leader = won })
      ]
  where
    beq_option : Option String → String → Bool
    beq_option none id = false
    beq_option (some v) id = beq v id
