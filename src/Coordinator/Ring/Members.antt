-- ===== src/Coordinator/Ring/Members.antt =====
-- vecscaledb/coordinator/ring.py: the nodes and their virtual nodes.
use Prim.Native.String.{◌++◌}
use distributed_vector_db.Prelude.{
  ℕ, zero, suc, ◌+◌, ◌*◌, ◌<◌, ◌≤◌, ◌≡◌, refl, arith, List, [], ◌∷◌, true, false, not, is_empty,
  length, none, some, keep, if◌then◌else◌, String, Option-cases, inl, inr,
}
use distributed_vector_db.Prelude.Strings.{decimal}
use distributed_vector_db.Prelude.Eq.{string_eq, beq, beq_self}
use distributed_vector_db.Prelude.Set.{contains, contains-keep, IsDistinct, keep-IsDistinct}
use distributed_vector_db.Prelude.Outcome.{ok}
use distributed_vector_db.Coordinator.Ring.{
  Ring, Point, insort, without, add_replicas, get_node, add_node, remove_node, range_from, hash,
  ring_size,
}
use distributed_vector_db.Coordinator.Ring.Routing.{owner, found, head, get_node_lem}

-- How many virtual nodes a node has.
abbrev pub count : String → List Point → ℕ
count node [] = 0
count node (p ∷ points) = if beq p.1 node then suc (count node points) else count node points

-- The nodes are distinct; each has its share of virtual nodes, and no other node has one.
abbrev pub IsWellFormed : Ring → Type 0
IsWellFormed r =
    IsDistinct r.nodes
    × ((node : String)
        → count node r.points ≡ (if contains node r.nodes then r.virtual_nodes else 0))

count-insort :
    (node : String) (p : Point) (points : List Point)
    → count node (insort p points)
      ≡ (if beq p.1 node then suc (count node points) else count node points)
count-insort node p [] = refl
count-insort node p (q ∷ points) = ground (arith, count-insort node p points)

length-range_from : (start n : ℕ) → length (range_from start n) ≡ n
length-range_from start zero = refl
length-range_from start (suc n) = omega (arith, length-range_from (suc start) n)

count-add_replicas :
    (md5 : String → List ℕ) (m node : String) (replicas : List ℕ) (points : List Point)
    → count m (add_replicas md5 node replicas points)
      ≡ (if beq node m then count m points + length replicas else count m points)
count-add_replicas md5 m node [] points = ground arith
count-add_replicas md5 m node (i ∷ replicas) points = ground (
  arith,
  count-add_replicas md5 m node replicas
      (insort (hash md5 (node ++ (":" ++ decimal i)), node) points),
  count-insort m (hash md5 (node ++ (":" ++ decimal i)), node) points,
)

count-without :
    (m node : String) (points : List Point)
    → count m (without node points) ≡ (if beq m node then 0 else count m points)
count-without m node [] = ground arith
count-without m node (p ∷ points) = ground (
  arith,
  count-without m node points,
  string_eq.beq_iff p.1 node,
  string_eq.beq_iff p.1 m,
  string_eq.beq_iff m node,
)

length-without :
    (node : String) (points : List Point)
    → length points ≡ count node points + length (without node points)
length-without node [] = omega arith
length-without node (p ∷ points) = ground (arith, length-without node points)

-- A node that joins keeps the ring well formed, and is a node afterwards.
pub add_node-IsWellFormed :
    (md5 : String → List ℕ) (node : String) (r : Ring)
    → IsWellFormed r
    → IsWellFormed (add_node md5 node r) × (contains node (add_node md5 node r).nodes ≡ true)
unfolding add_node
add_node-IsWellFormed md5 node r (d, c) = ((distinct, counted), member)
  where
    distinct : IsDistinct (add_node md5 node r).nodes
    distinct = ground arith

    counted :
        (m : String)
        → count m (add_node md5 node r).points ≡ (
            if contains m (add_node md5 node r).nodes
            then (add_node md5 node r).virtual_nodes
            else 0)
    counted m = ground (
      arith,
      c m,
      count-add_replicas md5 m node (range_from 0 r.virtual_nodes) r.points,
      length-range_from 0 r.virtual_nodes,
      string_eq.beq_iff m node,
      string_eq.beq_iff node m,
    )

    member : contains node (add_node md5 node r).nodes ≡ true
    member = ground (arith, beq_self node)

-- A node that leaves keeps the ring well formed, and is no node afterwards.
pub remove_node-IsWellFormed :
    (node : String) (r : Ring)
    → IsWellFormed r
    → IsWellFormed (remove_node node r) × (contains node (remove_node node r).nodes ≡ false)
unfolding remove_node
remove_node-IsWellFormed node r (d, c) = ((distinct, counted), gone)
  where
    distinct : IsDistinct (remove_node node r).nodes
    distinct = ground (arith, keep-IsDistinct (λ n. not (beq n node)) r.nodes d)

    counted :
        (m : String)
        → count m (remove_node node r).points ≡ (
            if contains m (remove_node node r).nodes then (remove_node node r).virtual_nodes else 0)
    counted m = ground (
      arith,
      c m,
      count-without m node r.points,
      contains-keep (λ n. not (beq n node)) m r.nodes,
      string_eq.beq_iff m node,
    )

    gone : contains node (remove_node node r).nodes ≡ false
    gone = ground (arith, contains-keep (λ n. not (beq n node)) node r.nodes, beq_self node)

-- With no node that has a virtual node there is none.
length_of_no-count :
    (points : List Point) → ((node : String) → count node points ≡ 0) → length points ≡ 0
length_of_no-count [] c = refl
length_of_no-count (p ∷ points) c = ground (arith, c p.1, beq_self p.1)

length-count :
    (v : ℕ) (nodes : List String) (points : List Point)
    → IsDistinct nodes
    → ((node : String) → count node points ≡ (if contains node nodes then v else 0))
    → length points ≡ v * length nodes
length-count v [] points d c = omega (arith, length_of_no-count points c)
length-count v (n ∷ nodes) points d c =
    omega (arith, length-without n points, own, length-count v nodes (without n points) d.1 others)
  where
    own : count n points ≡ v
    own = ground (arith, c n, beq_self n)

    others : (m : String) → count m (without n points) ≡ (if contains m nodes then v else 0)
    others m = ground (arith, d.0, c m, count-without m n points, string_eq.beq_iff m n)

-- In a well-formed ring there are `virtual_nodes` points for each node.
pub ring_size_lem : (r : Ring) → IsWellFormed r → ring_size r ≡ r.virtual_nodes * length r.nodes
unfolding ring_size
ring_size_lem r (d, c) = length-count r.virtual_nodes r.nodes r.points d c

count-found :
    (key q : Point) (points : List Point) → found key points ≡ some q → 1 ≤ count q.1 points
count-found key q [] h = ground arith
count-found key q (p ∷ points) h = ground (arith, count-found key q points, beq_self q.1)

count-head : (q : Point) (points : List Point) → head points ≡ some q → 1 ≤ count q.1 points
count-head q [] h = ground arith
count-head q (p ∷ points) h = ground (arith, beq_self q.1)

count-owner :
    (key q : Point) (points : List Point) → owner key points ≡ some q → 1 ≤ count q.1 points
count-owner key q points h = ground (arith, count-found key q points, count-head q points)

owner_missing : (key : Point) (points : List Point) → owner key points ≡ none → length points ≡ 0
owner_missing key [] h = refl
owner_missing key (p ∷ points) h = ground arith

length-is_empty : (points : List Point) → is_empty points ≡ true → length points ≡ 0
length-is_empty [] h = refl
length-is_empty (p ∷ points) h = ground arith

-- A well-formed ring with a point routes every key, and to one of its nodes.
pub get_node-IsMember :
    (md5 : String → List ℕ) (key : String) (r : Ring)
    → IsWellFormed r
    → 0 < ring_size r
    → (node : String) × (get_node md5 key r ≡ ok node) × (contains node r.nodes ≡ true)
unfolding ring_size
get_node-IsMember md5 key r (d, c) h = elim (Option-cases (owner (hash md5 key, "") r.points)) [
  | inl p ↦ ground (arith, owner_missing (hash md5 key, "") r.points p)
  | inr (q, p) ↦ (
    q.1,
    ground (arith, p, get_node_lem md5 key r, length-is_empty r.points),
    ground (arith, c q.1, count-owner (hash md5 key, "") q r.points p),
  )
]

without-insort :
    (node : String) (t : ℕ) (points : List Point)
    → without node (insort (t, node) points) ≡ without node points
without-insort node t [] = ground (arith, beq_self node)
without-insort node t (q ∷ points) = ground (arith, without-insort node t points, beq_self node)

without-add_replicas :
    (md5 : String → List ℕ) (node : String) (replicas : List ℕ) (points : List Point)
    → without node (add_replicas md5 node replicas points) ≡ without node points
without-add_replicas md5 node [] points = refl
without-add_replicas md5 node (i ∷ replicas) points = ground (
  arith,
  without-add_replicas md5 node replicas
      (insort (hash md5 (node ++ (":" ++ decimal i)), node) points),
  without-insort node (hash md5 (node ++ (":" ++ decimal i))) points,
)

without_absent :
    (node : String) (points : List Point) → count node points ≡ 0 → without node points ≡ points
without_absent node [] h = refl
without_absent node (p ∷ points) h = ground (arith, without_absent node points)

keep_absent :
    (node : String) (nodes : List String)
    → contains node nodes ≡ false
    → keep (λ n. not (beq n node)) nodes ≡ nodes
keep_absent node [] h = refl
keep_absent node (n ∷ nodes) h =
    ground (arith, keep_absent node nodes, string_eq.beq_iff n node, string_eq.beq_iff node n)

-- A node that joins a well-formed ring and leaves again leaves the ring as it was.
pub remove_node-add_node :
    (md5 : String → List ℕ) (node : String) (r : Ring)
    → IsWellFormed r
    → contains node r.nodes ≡ false
    → remove_node node (add_node md5 node r) ≡ r
unfolding add_node remove_node
remove_node-add_node md5 node r (d, c) h = ground (
  arith,
  h,
  c node,
  beq_self node,
  without-add_replicas md5 node (range_from 0 r.virtual_nodes) r.points,
  without_absent node r.points,
  keep_absent node r.nodes,
)
