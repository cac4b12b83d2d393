-- ===== src/Coordinator/Ring/Order.antt =====
-- vecscaledb/coordinator/ring.py: the order of the ring list, which `bisect` relies on.
use distributed_vector_db.Prelude.{ℕ, ◌≡◌, arith, List, [], ◌∷◌, true, false, All, String}
use Prim.Native.String.{◌++◌}
use distributed_vector_db.Prelude.Eq.{string_eq}
use distributed_vector_db.Prelude.Strings.{decimal}
use distributed_vector_db.Prelude.StringOrder.{
  string_ltb_irrefl, string_ltb_trans, string_ltb_not_trans,
}
use distributed_vector_db.Coordinator.Ring
use distributed_vector_db.Coordinator.Ring.{
  Ring, Point, point_lt, insort, without, range_from, hash, add_replicas, add_node, remove_node,
}

-- Each point is not above any of those behind it.
abbrev pub IsAscending : List Point → Type 0
IsAscending [] = Unit
IsAscending (p ∷ points) = All (λ q. point_lt q p ≡ false) points × IsAscending points

point_lt_trans : (p q r : Point) → point_lt p q ≡ true → point_lt q r ≡ true → point_lt p r ≡ true
point_lt_trans (t, n) (t', n') (t'', n'') h k = ground (arith, string_ltb_trans n n' n'')

pub point_lt_not_trans :
    (p q r : Point) → point_lt p q ≡ false → point_lt q r ≡ false → point_lt p r ≡ false
point_lt_not_trans (t, n) (t', n') (t'', n'') h k = ground (arith, string_ltb_not_trans n n' n'')

point_lt_asym : (p q : Point) → point_lt p q ≡ true → point_lt q p ≡ false
point_lt_asym (t, n) (t', n') h = ground (arith, string_ltb_trans n n' n, string_ltb_irrefl n)

-- What is not below a point is not below a smaller one.
not_below : (p q r : Point) → point_lt p q ≡ true → point_lt r q ≡ false → point_lt r p ≡ false
not_below p q r h k = ground (arith, point_lt_trans r p q)

All-not_below :
    (p q : Point) (points : List Point)
    → point_lt p q ≡ true
    → All (λ r. point_lt r q ≡ false) points
    → All (λ r. point_lt r p ≡ false) points
All-not_below p q [] h a = tt
All-not_below p q (r ∷ points) h a = (not_below p q r h a.0, All-not_below p q points h a.1)

All-insort :
    (p q : Point) (points : List Point)
    → point_lt p q ≡ false
    → All (λ r. point_lt r q ≡ false) points
    → All (λ r. point_lt r q ≡ false) (insort p points)
All-insort p q [] h a = (h, tt)
All-insort p q (r ∷ points) h a = ground (arith, All-insort p q points h a.1)

pub insort-IsAscending :
    (p : Point) (points : List Point) → IsAscending points → IsAscending (insort p points)
insort-IsAscending p [] a = (tt, tt)
insort-IsAscending p (q ∷ points) a = ground (
  arith,
  insort-IsAscending p points a.1,
  All-insort p q points,
  All-not_below p q points,
  point_lt_asym p q,
)

add_replicas-IsAscending :
    (md5 : String → List ℕ) (node : String) (replicas : List ℕ) (points : List Point)
    → IsAscending points
    → IsAscending (add_replicas md5 node replicas points)
add_replicas-IsAscending md5 node [] points a = a
add_replicas-IsAscending md5 node (i ∷ replicas) points a =
    let p : Point = (hash md5 (node ++ (":" ++ decimal i)), node) in
    add_replicas-IsAscending md5 node replicas (insort p points) (insort-IsAscending p points a)

-- A node that joins keeps the points in ascending order.
pub add_node-IsAscending :
    (md5 : String → List ℕ) (node : String) (r : Ring)
    → IsAscending r.points
    → IsAscending (add_node md5 node r).points
unfolding add_node
add_node-IsAscending md5 node r a =
    ground (arith, a, add_replicas-IsAscending md5 node (range_from 0 r.virtual_nodes) r.points a)

All-without :
    (node : String) (q : Point) (points : List Point)
    → All (λ r. point_lt r q ≡ false) points
    → All (λ r. point_lt r q ≡ false) (without node points)
All-without node q [] a = tt
All-without node q (r ∷ points) a = ground (arith, All-without node q points a.1)

without-IsAscending :
    (node : String) (points : List Point) → IsAscending points → IsAscending (without node points)
without-IsAscending node [] a = tt
without-IsAscending node (q ∷ points) a =
    ground (arith, without-IsAscending node points a.1, All-without node q points a.0)

-- A node that leaves keeps the points in ascending order.
pub remove_node-IsAscending :
    (node : String) (r : Ring) → IsAscending r.points → IsAscending (remove_node node r).points
unfolding remove_node
remove_node-IsAscending node r a = ground (arith, a, without-IsAscending node r.points a)

-- What a coordinator does to its ring.
pub data Change : Type 0 where
  joining : String → Change
  leaving : String → Change
  clearing : Change

abbrev pub changed : (String → List ℕ) → List Change → Ring → Ring
changed md5 [] r = r
changed md5 (joining node ∷ changes) r = changed md5 changes (add_node md5 node r)
changed md5 (leaving node ∷ changes) r = changed md5 changes (remove_node node r)
changed md5 (clearing ∷ changes) r = changed md5 changes (Ring.clear r)

clear-IsAscending : (r : Ring) → IsAscending (Ring.clear r).points
unfolding Ring.clear
clear-IsAscending r = tt

-- After any changes of a ring whose points are in ascending order, they are in ascending order; an
-- empty ring is one.
pub changed-IsAscending :
    (md5 : String → List ℕ) (changes : List Change) (r : Ring)
    → IsAscending r.points
    → IsAscending (changed md5 changes r).points
changed-IsAscending md5 [] r a = a
changed-IsAscending md5 (joining node ∷ changes) r a =
    changed-IsAscending md5 changes (add_node md5 node r) (add_node-IsAscending md5 node r a)
changed-IsAscending md5 (leaving node ∷ changes) r a =
    changed-IsAscending md5 changes (remove_node node r) (remove_node-IsAscending node r a)
changed-IsAscending md5 (clearing ∷ changes) r a =
    changed-IsAscending md5 changes (Ring.clear r) (clear-IsAscending r)
