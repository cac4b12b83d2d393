-- ===== src/Coordinator/Etcd/Election.antt =====
-- vecscaledb/coordinator/etcd_client.py: leases and leaders.
use distributed_vector_db.Prelude.{
  ℕ, ◌+◌, ◌≡◌, refl, arith, Option, none, some, [], ◌∷◌, Bool, true, false, ltb, if◌then◌else◌,
  String, Option-cases, inl, inr,
}
use distributed_vector_db.Prelude.Eq.{string_eq, beq, beq_self}
use distributed_vector_db.Prelude.Dict.{
  Dict, lookup, has_key, insert, lookup-remove, lookup-insert, insert-HasDistinctKeys,
}
use distributed_vector_db.Coordinator.Etcd.{
  MemoryStore, election_key, public_key, prune_expired, put, get, delete, campaign, elect,
  leader_of, publish,
}
use distributed_vector_db.Coordinator.Etcd.Pruning.{
  HasDistinctTtls, is_past, values-prune_expired, leader-prune_expired,
  prune_expired-HasDistinctTtls, remove-HasDistinctKeys,
}

-- When a value that is put now with this `ttl` is there.
abbrev pub is_live : ℕ → Option ℕ → ℕ → Bool
is_live now none later = true
is_live now (some t) later = ltb later (now + t)

pub put-HasDistinctTtls :
    (now : ℕ) (key value : String) (ttl : Option ℕ) (s : MemoryStore)
    → HasDistinctTtls s
    → HasDistinctTtls (put now key value ttl s)
unfolding put
put-HasDistinctTtls now key value none s d = remove-HasDistinctKeys key s.ttls d
put-HasDistinctTtls now key value (some t) s d = insert-HasDistinctKeys key (now + t) s.ttls d

-- A value that was put is read until its lease is over, and for ever without a lease.
pub get-put :
    (now later : ℕ) (key value : String) (ttl : Option ℕ) (s : MemoryStore)
    → HasDistinctTtls s
    → (get later key (put now key value ttl s)).0
      ≡ (if is_live now ttl later then some value else none)
unfolding get put
get-put now later key value none s d = ground (
  arith,
  values-prune_expired later key (put now key value none s)
      (put-HasDistinctTtls now key value none s d),
  lookup-insert key key value s.values,
  lookup-remove key key s.ttls,
  beq_self key,
)
get-put now later key value (some t) s d = ground (
  arith,
  values-prune_expired later key (put now key value (some t) s)
      (put-HasDistinctTtls now key value (some t) s d),
  lookup-insert key key value s.values,
  lookup-insert key key (now + t) s.ttls,
  beq_self key,
)

-- A key that was deleted is not read at any time.
pub get-delete :
    (now : ℕ) (key : String) (s : MemoryStore)
    → HasDistinctTtls s
    → (get now key (delete key s)).0 ≡ none
unfolding get delete
get-delete now key s d = ground (
  arith,
  values-prune_expired now key (delete key s) d,
  lookup-remove key key s.values,
  beq_self key,
)

-- A candidate wins when the election has no leader, or leads it already.
abbrev pub wins : String → Option String → Bool
wins value none = true
wins value (some leader) = beq leader value

has_key-lookup :
    (k : String) (d : Dict String String)
    → has_key k d ≡ elim (lookup k d) as (λ _. Bool) [ none ↦ false | some _ ↦ true ]
has_key-lookup k [] = refl
has_key-lookup k ((j, v) ∷ d) = ground (arith, has_key-lookup k d)

elect_lem :
    (name value : String) (s : MemoryStore)
    → beq (leader_of name value (elect name value s)) value ≡ wins value (lookup name s.leader)
elect_lem name value s = ground (
  arith,
  has_key-lookup name s.leader,
  lookup-insert name name value s.leader,
  beq_self name,
  beq_self value,
)

-- The outcome of a campaign: it is won when no other leader's lease is running.
pub campaign_lem :
    (now : ℕ) (name value : String) (s : MemoryStore)
    → HasDistinctTtls s
    → (campaign now name value s).0 ≡ (
        if is_past now (lookup (election_key name) s.ttls)
        then true
        else wins value (lookup name s.leader))
unfolding campaign
campaign_lem now name value s d =
    ground (arith, elect_lem name value (prune_expired now s), leader-prune_expired now name s d)

-- The leader after an election that the candidate wins.
lookup-elect :
    (name value : String) (s : MemoryStore)
    → wins value (lookup name s.leader) ≡ true
    → lookup name (elect name value s).leader ≡ some value
lookup-elect name value s h = elim (Option-cases (lookup name s.leader)) [
  | inl p ↦ ground (
    arith,
    p,
    has_key-lookup name s.leader,
    lookup-insert name name value s.leader,
    beq_self name,
  )
  | inr (w, p) ↦ ground (arith, p, has_key-lookup name s.leader, string_eq.beq_iff w value)
]

-- What a campaign that was won leaves behind: the leader, with a lease of ten seconds.
won :
    (now : ℕ) (name value : String) (s : MemoryStore)
    → HasDistinctTtls s
    → (campaign now name value s).0 ≡ true
    → (lookup name (campaign now name value s).1.leader ≡ some value)
      × (lookup (election_key name) (campaign now name value s).1.ttls ≡ some (now + 10))
unfolding campaign put
won now name value s d h = (leads, leased)
  where
    leads : lookup name (campaign now name value s).1.leader ≡ some value
    leads = ground (
      arith,
      h,
      lookup-elect name value (prune_expired now s),
      elect_lem name value (prune_expired now s),
    )

    leased : lookup (election_key name) (campaign now name value s).1.ttls ≡ some (now + 10)
    leased = ground (
      arith,
      h,
      lookup-insert (election_key name) (election_key name) (now + 10) (prune_expired now s).ttls,
      lookup-insert (election_key name) public_key (now + 10)
          (insert (election_key name) (now + 10) (prune_expired now s).ttls),
      beq_self (election_key name),
      string_eq.beq_iff (election_key name) public_key,
    )

campaign-HasDistinctTtls :
    (now : ℕ) (name value : String) (s : MemoryStore)
    → HasDistinctTtls s
    → HasDistinctTtls (campaign now name value s).1
unfolding campaign
campaign-HasDistinctTtls now name value s d = ground (
  arith,
  prune_expired-HasDistinctTtls now s d,
  put-HasDistinctTtls now (election_key name) value (some 10) (
      publish (leader_of name value (elect name value (prune_expired now s)))
        (elect name value (prune_expired now s))),
  put-HasDistinctTtls now public_key value (some 10) (
      put now (election_key name) value (some 10) (
        publish (leader_of name value (elect name value (prune_expired now s)))
          (elect name value (prune_expired now s)))),
)

-- Once a campaign is won, for ten seconds exactly the winner wins the campaigns of that election,
-- and after them anyone does.
pub campaign-campaign :
    (now later : ℕ) (name value other : String) (s : MemoryStore)
    → HasDistinctTtls s
    → (campaign now name value s).0 ≡ true
    → (campaign later name other (campaign now name value s).1).0
      ≡ (if ltb later (now + 10) then beq value other else true)
campaign-campaign now later name value other s d h = ground (
  arith,
  campaign_lem later name other (campaign now name value s).1
      (campaign-HasDistinctTtls now name value s d),
  won now name value s d h,
)
