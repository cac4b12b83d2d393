-- ===== src/Coordinator/Etcd.antt =====
-- vecscaledb/coordinator/etcd_client.py: the in-memory backend of `EtcdClient`, and its retries.
-- Times are seconds of the monotonic clock. A method runs without waiting, so it reads one time.
pub mod Pruning
pub mod Election
use Prim.Native.String.{◌++◌}
use text.Mathlib.Text.{starts_with}
use distributed_vector_db.Prelude.{
  ℕ, zero, suc, ◌+◌, Option, none, some, List, [], ◌∷◌, Bool, true, false, not, ◌||◌, leb, keep,
  if◌then◌else◌, String,
}
use distributed_vector_db.Prelude.Eq.{string_eq, beq}
use distributed_vector_db.Prelude.Dict.{Dict, keys, lookup, has_key, insert, remove}
use distributed_vector_db.Prelude.Set.{difference}
use distributed_vector_db.Prelude.Sort.{sort_by}
use distributed_vector_db.Prelude.Strings.{string_ltb}
use distributed_vector_db.Prelude.Outcome.{Outcome, ok, raise, Error, runtime_error}

pub record MemoryStore : Type 0 where
  pub values : Dict String String
  pub leader : Dict String String
  pub ttls : Dict String ℕ

-- `f"/vecscaledb/elections/{election_name}"`
abbrev pub election_key : String → String
election_key name = "/vecscaledb/elections/" ++ name

abbrev pub public_key : String
public_key = "/vecscaledb/leader"

-- `[key for key, expiry in self.ttls.items() if now >= expiry]`
abbrev pub expired_keys : ℕ → Dict String ℕ → List String
expired_keys now [] = []
expired_keys now ((key, expiry) ∷ ttls) =
    if leb expiry now then key ∷ expired_keys now ttls else expired_keys now ttls

-- The inner loop of `_prune_expired`, over a copy of the leaders' names.
abbrev pub drop_leaders : String → List String → Dict String String → Dict String String
drop_leaders key [] leader = leader
drop_leaders key (name ∷ names) leader =
    drop_leaders key names (if beq key (election_key name) then remove name leader else leader)

-- The outer loop.
abbrev pub prune_keys : List String → MemoryStore → MemoryStore
prune_keys [] s = s
prune_keys (key ∷ expired) s = prune_keys expired (record {
  values = remove key s.values;
  leader = drop_leaders key (keys s.leader) s.leader;
  ttls = remove key s.ttls;
})

unfoldable pub prune_expired : ℕ → MemoryStore → MemoryStore
prune_expired now s = prune_keys (expired_keys now s.ttls) s

unfoldable pub put : ℕ → String → String → Option ℕ → MemoryStore → MemoryStore
put now key value ttl s = record s {
  values = insert key value s.values;
  ttls = elim ttl [ none ↦ remove key s.ttls | some t ↦ insert key (now + t) s.ttls ];
}

unfoldable pub get : ℕ → String → MemoryStore → Option String × MemoryStore
get now key s = let s' = prune_expired now s in (lookup key s'.values, s')

-- `{k: v for k, v in sorted(items) if k.startswith(prefix)}`; the keys are distinct.
unfoldable pub get_prefix : ℕ → String → MemoryStore → Dict String String × MemoryStore
get_prefix now prefix s =
    let s' = prune_expired now s in
    (keep (λ item. starts_with item.0 prefix) (sort_by (λ a b. string_ltb a.0 b.0) s'.values), s')

unfoldable pub delete : String → MemoryStore → MemoryStore
delete key s = record s { values = remove key s.values }

-- The candidate becomes the leader where there is none.
abbrev pub elect : String → String → MemoryStore → MemoryStore
elect name value s =
    if has_key name s.leader then s else record s { leader = insert name value s.leader }

-- `self._memory.leader[election_name]`, which is set by then.
abbrev pub leader_of : String → String → MemoryStore → String
leader_of name value s = elim (lookup name s.leader) [ none ↦ value | some w ↦ w ]

abbrev pub publish : String → MemoryStore → MemoryStore
publish current s = record s { values = insert public_key current s.values }

abbrev pub refresh : ℕ → String → String → MemoryStore → MemoryStore
refresh now name value s =
    put now public_key value (some 10) (put now (election_key name) value (some 10) s)

unfoldable pub campaign : ℕ → String → String → MemoryStore → Bool × MemoryStore
campaign now name value s =
    let elected = elect name value (prune_expired now s) in
    let current = leader_of name value elected in
    let published = publish current elected in
    (beq current value, if beq current value then refresh now name value published else published)

abbrev pub reset_memory : MemoryStore → MemoryStore
reset_memory s = record { values = []; leader = []; ttls = [] }

-- `seen.get(key) == value`
abbrev pub is_seen : String → Option String → Bool
is_seen value none = false
is_seen value (some v) = beq v value

-- The first loop of a round of `watch_prefix`: what is yielded, and what has been seen.
abbrev pub watch_current :
    Dict String String → Dict String String → List (String × String) × Dict String String
watch_current [] seen = ([], seen)
watch_current ((key, value) ∷ current) seen =
    let (events, seen') =
      watch_current current
        (if is_seen value (lookup key seen) then seen else insert key value seen) in
    ((if is_seen value (lookup key seen) then events else (key, value) ∷ events), seen')

-- The second loop: a key that has gone is yielded with an empty value.
abbrev pub watch_gone :
    List String → Dict String String → List (String × String) × Dict String String
watch_gone [] seen = ([], seen)
watch_gone (key ∷ gone) seen =
    let (events, seen') = watch_gone gone (remove key seen) in ((key, "") ∷ events, seen')

-- `_retry`, over the outcome of each attempt; `last_error` is that of the last one.
unfoldable pub retry_from : {A : Type 0} → ℕ → ℕ → (ℕ → Outcome A) → Error → Outcome A
retry_from zero attempt fn last_error = raise last_error
retry_from (suc left) attempt fn last_error =
    let again = retry_from left (suc attempt) fn in
    elim (fn attempt) [ ok a ↦ ok a | raise x ↦ again x ]

unfoldable pub retry : {A : Type 0} → (ℕ → Outcome A) → Outcome A
unfolding retry_from
retry fn = retry_from 3 0 fn runtime_error
