-- ===== src/Coordinator/Service/Leadership.antt =====
-- vecscaledb/coordinator/app.py: a coordinator that believes that it leads does.
use distributed_vector_db.Prelude.{
  ℕ, ◌+◌, ◌<◌, ltb, ◌≡◌, ap, ◌∙◌, arith, Option, none, some, true, false, if◌then◌else◌, String,
  Option-cases, inl, inr,
}
use distributed_vector_db.Prelude.Eq.{string_eq, beq}
use distributed_vector_db.Coordinator.Etcd
use distributed_vector_db.Coordinator.Etcd.{
  MemoryStore, campaign, put, get, public_key, prune_expired,
}
use distributed_vector_db.Coordinator.Etcd.Pruning.{HasDistinctTtls, prune_expired-HasDistinctTtls}
use distributed_vector_db.Coordinator.Etcd.Election.{get-put, put-HasDistinctTtls}
use distributed_vector_db.Coordinator.Service.{Coordinator, sync_leader_state}

get-refresh :
    (now later : ℕ) (name value : String) (s : MemoryStore)
    → HasDistinctTtls s
    → (get later public_key (Etcd.refresh now name value s)).0
      ≡ (if ltb later (now + 10) then some value else none)
get-refresh now later name value s d =
    get-put now later public_key value (some 10)
      (put now (Etcd.election_key name) value (some 10) s)
      (put-HasDistinctTtls now (Etcd.election_key name) value (some 10) s d)

publish-HasDistinctTtls :
    (current name value : String) (s : MemoryStore)
    → HasDistinctTtls s
    → HasDistinctTtls (Etcd.publish current (Etcd.elect name value s))
publish-HasDistinctTtls current name value s d = ground (arith, d)

-- For ten seconds the store names the winner of a campaign.
get-campaign :
    (now later : ℕ) (name value : String) (s : MemoryStore)
    → HasDistinctTtls s
    → (campaign now name value s).0 ≡ true
    → (get later public_key (campaign now name value s).1).0
      ≡ (if ltb later (now + 10) then some value else none)
unfolding campaign
get-campaign now later name value s d h =
    let elected = Etcd.elect name value (prune_expired now s) in
    let published = Etcd.publish (Etcd.leader_of name value elected) elected in
    ground (
      arith,
      h,
      get-refresh now later name value published (
          publish-HasDistinctTtls (Etcd.leader_of name value elected) name value
            (prune_expired now s) (prune_expired-HasDistinctTtls now s d)),
    )

get-HasDistinctTtls :
    (now : ℕ) (key : String) (s : MemoryStore)
    → HasDistinctTtls s
    → HasDistinctTtls (get now key s).1
unfolding get
get-HasDistinctTtls now key s d = prune_expired-HasDistinctTtls now s d

-- What the store names at a time, where there is a store.
abbrev pub named_at : ℕ → Option MemoryStore → Option String
named_at later none = none
named_at later (some store) = (get later public_key store).0

-- A coordinator that leads after it has synchronised is named by the store for ten seconds.
pub sync_leader_state-leads :
    (now later : ℕ) (s : Coordinator) (store : MemoryStore)
    → s.etcd ≡ some store
    → HasDistinctTtls store
    → (sync_leader_state now s).1.leader ≡ true
    → later < now + 10
    → named_at later (sync_leader_state now s).1.etcd ≡ some s.settings.node_id
unfolding sync_leader_state
sync_leader_state-leads now later s store p d h l =
    let id = s.settings.node_id in
    let after = (get now public_key store).1 in
    ground (
      arith,
      p,
      h,
      get-refresh now later "coordinator" id after (get-HasDistinctTtls now public_key store d),
      get-campaign now later "coordinator" id after (get-HasDistinctTtls now public_key store d),
    )

-- A coordinator that reads another name does not lead.
follows :
    (later : ℕ) (t : Coordinator) (id : String)
    → named_at later t.etcd ≡ some id
    → beq id t.settings.node_id ≡ false
    → (sync_leader_state later t).1.leader ≡ false
unfolding sync_leader_state
follows later t id h n = elim (Option-cases t.etcd) [
  | inl p ↦ ground (arith, p, h)
  | inr (store, p) ↦ ground (arith, p, h, n)
]

-- While the lease of a coordinator runs, another one that synchronises with the same store does not
-- lead.
pub sync_leader_state-excludes :
    (now later : ℕ) (s t : Coordinator) (store : MemoryStore)
    → s.etcd ≡ some store
    → HasDistinctTtls store
    → (sync_leader_state now s).1.leader ≡ true
    → later < now + 10
    → t.etcd ≡ (sync_leader_state now s).1.etcd
    → beq s.settings.node_id t.settings.node_id ≡ false
    → (sync_leader_state later t).1.leader ≡ false
sync_leader_state-excludes now later s t store p d h l q n =
    follows later t s.settings.node_id
      (ap (named_at later) q ∙ sync_leader_state-leads now later s store p d h l) n
