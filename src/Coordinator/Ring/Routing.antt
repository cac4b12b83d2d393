-- ===== src/Coordinator/Ring/Routing.antt =====
-- vecscaledb/coordinator/ring.py: where `get_node` sends a key, before and after a change of nodes.
use distributed_vector_db.Prelude.{
  ℕ, suc, ◌<◌, ◌≡◌, refl, ◌≢◌, ◌⊎◌, inl, inr, arith, List, [], ◌∷◌, true, false, ◌==◌, is_empty,
  length, get_elem?, Option, none, some, if◌then◌else◌, String, Option-cases,
}
use Prim.Native.String.{◌++◌}
use distributed_vector_db.Prelude.Strings.{decimal}
use distributed_vector_db.Prelude.Eq.{string_eq, beq}
use distributed_vector_db.Prelude.Outcome.{Outcome, ok, raise, value_error, index_error}
use distributed_vector_db.Coordinator.Ring.{
  Ring, Point, point_lt, insort, bisect_left, without, add_replicas, node_at, get_node, add_node,
  remove_node, range_from, hash,
}

-- The first point that is not below the key.
abbrev pub found : Point → List Point → Option Point
found key [] = none
found key (q ∷ points) = if point_lt q key then found key points else some q

abbrev pub head : List Point → Option Point
head [] = none
head (p ∷ points) = some p

-- The point that owns the key: past the last point the ring starts again.
abbrev pub owner : Point → List Point → Option Point
owner key points = elim (found key points) [ none ↦ head points | some q ↦ some q ]

abbrev pub named : Option Point → Outcome String
named none = raise index_error
named (some p) = ok p.1

bisect_left-bound :
    (key : Point) (points : List Point) → bisect_left key points < suc (length points)
bisect_left-bound key [] = omega arith
bisect_left-bound key (q ∷ points) = ground (arith, bisect_left-bound key points)

found_at :
    (key : Point) (points : List Point)
    → found key points ≡ (
        if bisect_left key points == length points
        then none
        else get_elem? points (bisect_left key points))
found_at key [] = ground arith
found_at key (q ∷ points) = ground (arith, found_at key points, bisect_left-bound key points)

found_missing :
    (key : Point) (points : List Point)
    → found key points ≡ none
    → bisect_left key points ≡ length points
found_missing key [] h = refl
found_missing key (q ∷ points) h = ground (arith, found_missing key points)

get_elem?-zero : (points : List Point) → get_elem? points 0 ≡ head points
get_elem?-zero [] = refl
get_elem?-zero (p ∷ points) = refl

module _ (md5 : String → List ℕ) where
  pub node_at-owner :
      (token : ℕ) (points : List Point)
      → node_at md5 token points ≡ named (owner (token, "") points)
  node_at-owner token points =
      ground (
        arith,
        found_at (token, "") points,
        found_missing (token, "") points,
        get_elem?-zero points,
      )

  -- What `get_node` computes.
  pub get_node_lem :
      (key : String) (r : Ring)
      → get_node md5 key r ≡ (
          if is_empty r.points
          then raise value_error
          else named (owner (hash md5 key, "") r.points))
  unfolding get_node
  get_node_lem key r = ground (arith, node_at-owner (hash md5 key) r.points)

owner-insort :
    (key p : Point) (points : List Point)
    → (found key (insort p points) ≡ some p) ⊎ (found key (insort p points) ≡ found key points)
owner-insort key p [] = ground arith
owner-insort key p (q ∷ points) = ground (arith, owner-insort key p points)

head-insort :
    (p : Point) (points : List Point)
    → (head (insort p points) ≡ some p) ⊎ (head (insort p points) ≡ head points)
head-insort p [] = ground arith
head-insort p (q ∷ points) = ground arith

-- The point is the node's, or it is this one.
abbrev pub MovesTo : String → Option Point → Option Point → Type 0
MovesTo node new old = (named new ≡ ok node) ⊎ (new ≡ old)

insort-MovesTo :
    (key p : Point) (points : List Point)
    → MovesTo p.1 (owner key (insort p points)) (owner key points)
insort-MovesTo key p points = ground (arith, owner-insort key p points, head-insort p points)

module _ (md5 : String → List ℕ) where
  add_replicas-MovesTo :
      (key : Point) (node : String) (replicas : List ℕ) (points : List Point)
      → MovesTo node (owner key (add_replicas md5 node replicas points)) (owner key points)
  add_replicas-MovesTo key node [] points = inr refl
  add_replicas-MovesTo key node (i ∷ replicas) points = ground (
    arith,
    add_replicas-MovesTo key node replicas
        (insort (hash md5 (node ++ (":" ++ decimal i)), node) points),
    insort-MovesTo key (hash md5 (node ++ (":" ++ decimal i)), node) points,
  )

  add_replicas-is_empty :
      (node : String) (replicas : List ℕ) (points : List Point)
      → is_empty points ≡ false
      → is_empty (add_replicas md5 node replicas points) ≡ false
  add_replicas-is_empty node [] points h = h
  add_replicas-is_empty node (i ∷ replicas) [] h = ground arith
  add_replicas-is_empty node (i ∷ replicas) (q ∷ points) h = ground (
    arith,
    add_replicas-is_empty node replicas
        (insort (hash md5 (node ++ (":" ++ decimal i)), node) (q ∷ points)),
  )

  -- A key that is routed before a node joins is routed afterwards to the same node as before, or to
  -- the node that joined.
  pub get_node-add_node :
      (key node : String) (r : Ring) (before : String)
      → get_node md5 key r ≡ ok before
      → (get_node md5 key (add_node md5 node r) ≡ ok before)
        ⊎ (get_node md5 key (add_node md5 node r) ≡ ok node)
  unfolding add_node
  get_node-add_node key node r before h = ground (
    arith,
    get_node_lem md5 key r,
    get_node_lem md5 key (add_node md5 node r),
    add_replicas-is_empty node (range_from 0 r.virtual_nodes) r.points,
    add_replicas-MovesTo (hash md5 key, "") node (range_from 0 r.virtual_nodes) r.points,
  )

found-without_missing :
    (key : Point) (node : String) (points : List Point)
    → found key points ≡ none
    → found key (without node points) ≡ none
found-without_missing key node [] h = refl
found-without_missing key node (p ∷ points) h =
    ground (arith, found-without_missing key node points)

found-without_kept :
    (key : Point) (node : String) (q : Point) (points : List Point)
    → found key points ≡ some q
    → beq q.1 node ≡ false
    → found key (without node points) ≡ some q
found-without_kept key node q [] h k = ground arith
found-without_kept key node q (p ∷ points) h k =
    ground (arith, found-without_kept key node q points)

head-without :
    (node : String) (q : Point) (points : List Point)
    → head points ≡ some q
    → beq q.1 node ≡ false
    → head (without node points) ≡ some q
head-without node q [] h k = ground arith
head-without node q (p ∷ points) h k = ground arith

owner-without :
    (key : Point) (node : String) (q : Point) (points : List Point)
    → owner key points ≡ some q
    → beq q.1 node ≡ false
    → owner key (without node points) ≡ some q
owner-without key node q points h k = ground (
  arith,
  found-without_missing key node points,
  found-without_kept key node q points,
  head-without node q points,
)

owner-of-empty :
    (key : Point) (points : List Point) → is_empty points ≡ true → owner key points ≡ none
owner-of-empty key [] h = refl
owner-of-empty key (p ∷ points) h = ground arith

-- A key that is routed to a node is routed to it still when another node has left.
pub get_node-remove_node :
    (md5 : String → List ℕ) (key node : String) (r : Ring) (before : String)
    → get_node md5 key r ≡ ok before
    → before ≢ node
    → get_node md5 key (remove_node node r) ≡ ok before
unfolding remove_node
get_node-remove_node md5 key node r before h k =
    elim (Option-cases (owner (hash md5 key, "") r.points)) [
      | inl p ↦ ground (arith, p, get_node_lem md5 key r)
      | inr (q, p) ↦ ground (
        arith,
        p,
        get_node_lem md5 key r,
        get_node_lem md5 key (remove_node node r),
        owner-without (hash md5 key, "") node q r.points p,
        owner-of-empty (hash md5 key, "") (without node r.points),
        string_eq.beq_iff q.1 node,
      )
    ]
