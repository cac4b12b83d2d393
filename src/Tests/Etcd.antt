-- ===== src/Tests/Etcd.antt =====
-- An empty store, and two candidates.
use distributed_vector_db.Prelude.{◌≡◌, refl, some, [], false}
use distributed_vector_db.Coordinator.Etcd.{MemoryStore, campaign, prune_expired, put, get}
use distributed_vector_db.Coordinator.Etcd.Election.{get-put, campaign-campaign}

abbrev no_keys : MemoryStore
no_keys = record { values = []; leader = []; ttls = [] }

-- `x` leads from time 0 on.
abbrev led : MemoryStore
led = (campaign 0 "coordinator" "x" no_keys).1

get-put_example : (get 4 "k" (put 0 "k" "v" (some 5) no_keys)).0 ≡ some "v"
get-put_example = get-put 0 4 "k" "v" (some 5) no_keys tt

campaign-campaign_example : (campaign 9 "coordinator" "y" led).0 ≡ false
unfolding campaign prune_expired
campaign-campaign_example = campaign-campaign 0 9 "coordinator" "x" "y" no_keys tt refl
