-- ===== src/Coordinator/Service/Handlers.antt =====
-- vecscaledb/coordinator/app.py: the handlers, the heartbeat and the start.
use distributed_vector_db.Prelude.{
  ℕ, max, Option, none, some, List, [], ◌∷◌, Bool, true, false, ltb, is_empty, length, keep, max_of,
  if◌then◌else◌, String,
}
use distributed_vector_db.Prelude.Eq.{string_eq, beq}
use distributed_vector_db.Prelude.Dict.{Dict, values, lookup, insert}
use distributed_vector_db.Prelude.Strings.{decimal}
use distributed_vector_db.Prelude.ParseNumber.{parse_int}
use distributed_vector_db.Prelude.Outcome.{Outcome, ok, raise, http_error}
use distributed_vector_db.Arrays.{IdPattern, Distance, Hit}
use distributed_vector_db.Index.Segment.{SegmentMeta}
use distributed_vector_db.Storage.Merge.{merge_results}
use distributed_vector_db.Coordinator.Ring
use distributed_vector_db.Coordinator.Ring.{Ring, add_node, get_node, get_shard_id, ring_size}
use distributed_vector_db.Coordinator.Etcd
use distributed_vector_db.Coordinator.Etcd.{MemoryStore, campaign, put, get, get_prefix, public_key}
use distributed_vector_db.Coordinator.Service.{
  NodeInfo, SearchRequest, Codec, Coordinator, Act, pure, gets, lift, modify, on_etcd, update_etcd,
  ◌>>=◌, ◌>>◌, node_key, segment_key, snapshot_current, reader_nodes, find_writer, search_targets,
  node_address, sync_leader_state,
}

-- A request is answered here, or proxied to the leader.
pub data Routed (A : Type 0) : Type 0 where
  answered : A → Routed A
  proxied : NodeInfo → Routed A

pub record InsertRoute : Type 0 where
  pub writer_url : String
  pub writer_node_id : Option String
  pub shard_id : ℕ
  pub shard_owner : Option String

pub record Answer : Type 0 where
  pub ids : List IdPattern
  pub distances : List Distance
  pub incomplete : Bool

pub record CoordinatorHealth : Type 0 where
  pub leader : Bool
  pub ring_size : ℕ
  pub search_fanout_mode : String
  pub nodes : List NodeInfo

pub record Gauges : Type 0 where
  pub ring_size : ℕ
  pub registered_nodes : ℕ
  pub registered_readers : ℕ
  pub coordinator_leader : Bool

-- `[read(value) for value in values]`
abbrev pub read_all : {A : Type 0} → (String → Outcome A) → List String → Outcome (List A)
read_all read [] = ok []
read_all read (v ∷ vs) = elim (read v) [
  | raise x ↦ raise x
  | ok a ↦ elim (read_all read vs) [ raise x ↦ raise x | ok rest ↦ ok (a ∷ rest) ]
]

-- `int(current or "0")`
abbrev pub snapshot_of : Option String → Outcome ℕ
snapshot_of none = ok 0
snapshot_of (some text) = if beq text "" then ok 0 else parse_int text

-- The answers of the readers that answered, and whether one did not.
abbrev pub gathered : List (Outcome (List Hit)) → List (List Hit) × Bool
gathered [] = ([], false)
gathered (r ∷ rs) =
    let (results, incomplete) = gathered rs in
    elim r [ raise x ↦ (results, true) | ok hits ↦ (hits ∷ results, incomplete) ]

-- The calls of the readers, each with the snapshot.
abbrev pub ask_all :
    (NodeInfo → SearchRequest → ℕ → Outcome (List Hit))
    → List NodeInfo
    → SearchRequest
    → ℕ
    → List (Outcome (List Hit))
ask_all ask [] req snapshot = []
ask_all ask (r ∷ readers) req snapshot = ask r req snapshot ∷ ask_all ask readers req snapshot

abbrev pub empty_answer : Answer
empty_answer = record { ids = []; distances = []; incomplete = false }

abbrev pub answer_of : List (List Hit) × Bool → ℕ → Answer
answer_of (results, incomplete) top_k =
    let (ids, distances) = merge_results results top_k [] in
    record { ids = ids; distances = distances; incomplete = incomplete }

module _ (md5 : String → List ℕ) where
  abbrev pub add_readers : List NodeInfo → Ring → Ring
  add_readers [] r = r
  add_readers (n ∷ nodes) r = add_readers nodes (add_node md5 n.node_id r)

  -- `_rebuild_ring`
  unfoldable pub rebuild_ring : Coordinator → Coordinator
  rebuild_ring s = record s { ring = add_readers (reader_nodes s) (Ring.clear s.ring) }

-- The loop of `_refresh_nodes`. The nodes before the first text that does not read are in `nodes`
-- when it raises.
abbrev pub read_nodes :
    (String → Outcome NodeInfo)
    → List String
    → Dict String NodeInfo
    → Outcome (Unit {0}) × Dict String NodeInfo
read_nodes read [] nodes = (ok tt, nodes)
read_nodes read (v ∷ vs) nodes = elim (read v) [
  | raise x ↦ (raise x, nodes)
  | ok n ↦ read_nodes read vs (insert n.node_id n nodes)
]

module _ (md5 : String → List ℕ) (codec : Codec) (now : ℕ) where
  -- `_refresh_nodes`
  unfoldable pub refresh_nodes : Act (Unit {0})
  unfolding rebuild_ring
  refresh_nodes = do
    found ← on_etcd (get_prefix now "/vecscaledb/nodes/")
    λ s.
        let (o, nodes) = read_nodes codec.read_node (values found) [] in
        (o, record s { nodes = nodes })
    modify (rebuild_ring md5)

  -- `_register_self`
  unfoldable pub register_self : Act (Unit {0})
  register_self = do
    t ← gets (λ s. s.settings)
    update_etcd (
        put now (node_key t.node_id)
          (codec.write_node (record {
            node_id = t.node_id;
            role = t.node_role;
            address = node_address t;
            shard_ids = [];
          }))
          (some 10))

  -- `lifespan`, up to the `yield`
  unfoldable pub start : MemoryStore → Act (Unit {0})
  start store = do
    modify (λ s. record s { etcd = some store })
    id ← gets (λ s. s.settings.node_id)
    won ← on_etcd (campaign now "coordinator" id)
    modify (λ s. record s { leader = won })
    register_self
    refresh_nodes

  -- A round of `_heartbeat_loop`
  unfoldable pub heartbeat : Act (Unit {0})
  heartbeat = do register_self; sync_leader_state now

  -- `_proxy_to_leader`: the node that the request is sent to.
  unfoldable pub proxy_to_leader : Act NodeInfo
  proxy_to_leader = do
    leader_id ← on_etcd (get now public_key)
    own ← gets (λ s. s.settings.node_id)
    elim leader_id [
      | none ↦ lift (λ _. raise (http_error 503))
      | some id ↦
          if beq id own
          then lift (λ _. raise (http_error 503))
          else refresh_nodes
            >> lift
                (λ s. elim (lookup id s.nodes) [ none ↦ raise (http_error 503) | some n ↦ ok n ])
    ]

  abbrev pub or_proxy : {A : Type 0} → Act A → Act (Routed A)
  or_proxy answer = do
    leads ← gets (λ s. s.leader)
    if leads
        then (answer >>= λ a. pure (answered a))
        else (proxy_to_leader >>= λ n. pure (proxied n))

  unfoldable pub register : NodeInfo → Act (Routed String)
  unfolding proxy_to_leader
  register info = or_proxy (do
    update_etcd (put now (node_key info.node_id) (codec.write_node info) (some 10))
    modify (λ s. rebuild_ring md5 (record s { nodes = insert info.node_id info s.nodes }))
    pure info.node_id)

  unfoldable pub list_segments : Act (List SegmentMeta)
  list_segments = do
    found ← on_etcd (get_prefix now "/vecscaledb/segments/")
    lift (λ _. read_all codec.read_segment (values found))

  unfoldable pub register_segment : SegmentMeta → Act (Routed (String × ℕ))
  unfolding proxy_to_leader
  register_segment meta = or_proxy (do
    update_etcd (put now (segment_key meta.segment_id) (codec.write_segment meta) none)
    current ← on_etcd (get now snapshot_current)
    previous ← lift (λ _. snapshot_of current)
    update_etcd (put now snapshot_current (decimal (max previous meta.snapshot_id)) none)
    pure (meta.segment_id, max previous meta.snapshot_id))

  unfoldable pub delete_segment : String → Act (Routed String)
  unfolding proxy_to_leader
  delete_segment id = or_proxy (do update_etcd (Etcd.delete (segment_key id)); pure id)

  unfoldable pub health : Act CoordinatorHealth
  health = do
    sync_leader_state now
    refresh_nodes
    gets (λ s. record {
      leader = s.leader;
      ring_size = ring_size s.ring;
      search_fanout_mode = s.settings.search_fanout_mode;
      nodes = values s.nodes;
    })

  -- `_current_snapshot_id`
  unfoldable pub current_snapshot_id : Act ℕ
  current_snapshot_id = do
    text ← on_etcd (get now snapshot_current)
    current ← lift (λ _. snapshot_of text)
    if ltb 0 current then pure current else do
      found ← on_etcd (get_prefix now "/vecscaledb/segments/")
      metas ← lift (λ _. read_all codec.read_segment (values found))
      pure (max_of (λ m. m.snapshot_id) current metas)

  -- `POST /search`
  unfoldable pub search :
      (NodeInfo → SearchRequest → ℕ → Outcome (List Hit)) → SearchRequest → Act Answer
  search ask req = do
    refresh_nodes
    snapshot_id ← current_snapshot_id
    readers ← gets reader_nodes
    if is_empty readers then pure empty_answer else do
      targets ← search_targets readers
      pure (answer_of (gathered (ask_all ask targets req snapshot_id)) req.top_k)

module _ (md5 : String → List ℕ) where
  abbrev pub owner_and_shard : ℕ → Coordinator → Outcome (Option String × ℕ)
  owner_and_shard count s =
      if is_empty (reader_nodes s)
      then ok (none, 0)
      else elim (get_node md5 (decimal count) s.ring) [
        | raise x ↦ raise x
        | ok owner ↦ elim (get_shard_id md5 owner s.ring) [
          | raise x ↦ raise x
          | ok shard ↦ ok (some owner, shard)
        ]
      ]

  unfoldable pub route_insert : ℕ → Act InsertRoute
  route_insert count = do
    owned ← lift (owner_and_shard count)
    gets (λ s. elim (find_writer s) [
      | none ↦ record {
        writer_url = s.settings.writer_url;
        writer_node_id = none;
        shard_id = owned.1;
        shard_owner = owned.0;
      }
      | some w ↦ record {
        writer_url = w.address;
        writer_node_id = some w.node_id;
        shard_id = owned.1;
        shard_owner = owned.0;
      }
    ])

  -- `GET /route/search`, with the hash as `str` writes it.
  unfoldable pub route_search : Option String → Act (List NodeInfo)
  route_search none s = (ok (reader_nodes s), s)
  route_search (some query_hash) s =
      if is_empty (reader_nodes s)
      then (ok (reader_nodes s), s)
      else if is_empty s.ring.nodes
      then (ok (reader_nodes s), s)
      else elim (get_node md5 query_hash s.ring) [
        | raise x ↦ (raise x, s)
        | ok owner ↦ (ok (keep (λ n. beq n.node_id owner) (reader_nodes s)), s)
      ]

unfoldable pub metrics_gauges : Coordinator → Gauges
metrics_gauges s = record {
  ring_size = ring_size s.ring;
  registered_nodes = length s.nodes;
  registered_readers = length (reader_nodes s);
  coordinator_leader = s.leader;
}
