-- ===== src/Coordinator/Etcd/Pruning.antt =====
-- vecscaledb/coordinator/etcd_client.py: what `_prune_expired` leaves in the store.
use distributed_vector_db.Prelude.{
  ℕ, ◌≡◌, refl, arith, Option, none, some, List, [], ◌∷◌, Bool, false, ◌&&◌, leb, if◌then◌else◌,
  String,
}
use distributed_vector_db.Prelude.Eq.{string_eq, beq}
use distributed_vector_db.Prelude.Dict.{
  Dict, keys, lookup, has_key, remove, lookup-remove, HasDistinctKeys,
}
use distributed_vector_db.Prelude.Set.{contains}
use distributed_vector_db.Coordinator.Etcd.{
  MemoryStore, election_key, expired_keys, drop_leaders, prune_keys, prune_expired,
}

-- Every key has one expiry.
abbrev pub HasDistinctTtls : MemoryStore → Type 0
HasDistinctTtls s = HasDistinctKeys s.ttls

abbrev pub is_past : ℕ → Option ℕ → Bool
is_past now none = false
is_past now (some expiry) = leb expiry now

expired_of_not-has_key :
    (now : ℕ) (key : String) (ttls : Dict String ℕ)
    → has_key key ttls ≡ false
    → contains key (expired_keys now ttls) ≡ false
expired_of_not-has_key now key [] h = refl
expired_of_not-has_key now key ((k, t) ∷ ttls) h =
    ground (arith, expired_of_not-has_key now key ttls)

contains-expired_keys :
    (now : ℕ) (key : String) (ttls : Dict String ℕ)
    → HasDistinctKeys ttls
    → contains key (expired_keys now ttls) ≡ is_past now (lookup key ttls)
contains-expired_keys now key [] d = refl
contains-expired_keys now key ((k, t) ∷ ttls) d = ground (
  arith,
  contains-expired_keys now key ttls d.1,
  expired_of_not-has_key now key ttls,
  string_eq.beq_iff key k,
)

lookup-drop_leaders :
    (key name : String) (names : List String) (leader : Dict String String)
    → lookup name (drop_leaders key names leader)
      ≡ (if contains name names && beq key (election_key name) then none else lookup name leader)
lookup-drop_leaders key name [] leader = refl
lookup-drop_leaders key name (m ∷ names) leader = ground (
  arith,
  lookup-drop_leaders key name names (if beq key (election_key m) then remove m leader else leader),
  lookup-remove name m leader,
  string_eq.beq_iff name m,
)

lookup_of_not-contains :
    (name : String) (d : Dict String String) → contains name (keys d) ≡ false → lookup name d ≡ none
lookup_of_not-contains name [] h = refl
lookup_of_not-contains name ((k, v) ∷ d) h = ground (arith, lookup_of_not-contains name d)

leader-prune_keys :
    (name : String) (expired : List String) (s : MemoryStore)
    → lookup name (prune_keys expired s).leader
      ≡ (if contains (election_key name) expired then none else lookup name s.leader)
leader-prune_keys name [] s = refl
leader-prune_keys name (key ∷ expired) s = ground (
  arith,
  leader-prune_keys name expired (record {
    values = remove key s.values;
    leader = drop_leaders key (keys s.leader) s.leader;
    ttls = remove key s.ttls;
  }),
  lookup-drop_leaders key name (keys s.leader) s.leader,
  lookup_of_not-contains name s.leader,
  string_eq.beq_iff key (election_key name),
  string_eq.beq_iff (election_key name) key,
)

values-prune_keys :
    (k : String) (expired : List String) (s : MemoryStore)
    → lookup k (prune_keys expired s).values
      ≡ (if contains k expired then none else lookup k s.values)
values-prune_keys k [] s = refl
values-prune_keys k (key ∷ expired) s = ground (
  arith,
  values-prune_keys k expired (record {
    values = remove key s.values;
    leader = drop_leaders key (keys s.leader) s.leader;
    ttls = remove key s.ttls;
  }),
  lookup-remove k key s.values,
)

has_key-remove :
    (j k : String) (d : Dict String ℕ) → has_key j d ≡ false → has_key j (remove k d) ≡ false
has_key-remove j k [] h = refl
has_key-remove j k ((i, w) ∷ d) h = ground (arith, has_key-remove j k d)

pub remove-HasDistinctKeys :
    (k : String) (d : Dict String ℕ) → HasDistinctKeys d → HasDistinctKeys (remove k d)
remove-HasDistinctKeys k [] h = tt
remove-HasDistinctKeys k ((i, w) ∷ d) h =
    ground (arith, remove-HasDistinctKeys k d h.1, has_key-remove i k d)

ttls-prune_keys :
    (expired : List String) (s : MemoryStore)
    → HasDistinctTtls s
    → HasDistinctTtls (prune_keys expired s)
ttls-prune_keys [] s d = d
ttls-prune_keys (key ∷ expired) s d =
    ttls-prune_keys expired
      (record {
        values = remove key s.values;
        leader = drop_leaders key (keys s.leader) s.leader;
        ttls = remove key s.ttls;
      })
      (remove-HasDistinctKeys key s.ttls d)

-- A value is gone when its time is over, and stays otherwise.
pub values-prune_expired :
    (now : ℕ) (k : String) (s : MemoryStore)
    → HasDistinctTtls s
    → lookup k (prune_expired now s).values
      ≡ (if is_past now (lookup k s.ttls) then none else lookup k s.values)
unfolding prune_expired
values-prune_expired now k s d =
    ground
      (arith, values-prune_keys k (expired_keys now s.ttls) s, contains-expired_keys now k s.ttls d)

-- An election has no leader when the time of its key is over, and keeps it otherwise.
pub leader-prune_expired :
    (now : ℕ) (name : String) (s : MemoryStore)
    → HasDistinctTtls s
    → lookup name (prune_expired now s).leader
      ≡ (if is_past now (lookup (election_key name) s.ttls) then none else lookup name s.leader)
unfolding prune_expired
leader-prune_expired now name s d = ground (
  arith,
  leader-prune_keys name (expired_keys now s.ttls) s,
  contains-expired_keys now (election_key name) s.ttls d,
)

pub prune_expired-HasDistinctTtls :
    (now : ℕ) (s : MemoryStore) → HasDistinctTtls s → HasDistinctTtls (prune_expired now s)
unfolding prune_expired
prune_expired-HasDistinctTtls now s d = ttls-prune_keys (expired_keys now s.ttls) s d
