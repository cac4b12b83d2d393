-- ===== src/Coordinator/Ring.antt =====
-- vecscaledb/coordinator/ring.py: `class ConsistentHashRing`. `hashlib.md5(value.encode()).digest()`
-- is a parameter. `bisect` is a walk from the front here: Ring/Order.antt has the order of the ring
-- list, and Ring/Bisect.antt the binary search beside the walk.
pub mod Routing
pub mod Members
pub mod Order
pub mod Bisect
use Prim.Native.String.{◌++◌}
use distributed_vector_db.Prelude.{
  ℕ, zero, suc, ◌+◌, ◌-◌, ◌*◌, ◌%◌, Option, none, some, List, [], ◌∷◌, Bool, not, ◌&&◌, ◌||◌, ◌==◌,
  ltb, is_empty, length, take, get_elem?, keep, if◌then◌else◌, String,
}
use distributed_vector_db.Prelude.Eq.{string_eq, beq}
use distributed_vector_db.Prelude.Set.{contains, add}
use distributed_vector_db.Prelude.Strings.{string_ltb, decimal}
use distributed_vector_db.Prelude.Outcome.{
  Outcome, ok, raise, raise_if, value_error, index_error, ◌>>=◌, ◌>>◌,
}

-- A virtual node: its token and its node.
abbrev pub Point : Type 0
Point = ℕ × String

pub record Ring : Type 0 where
  pub virtual_nodes : ℕ
  pub points : List Point
  pub nodes : List String

-- `__init__`
unfoldable pub init : ℕ → Outcome Ring
init virtual_nodes = do
  raise_if (virtual_nodes == 0) value_error
  ok (record { virtual_nodes = virtual_nodes; points = []; nodes = [] })

-- The order of pairs.
abbrev pub point_lt : Point → Point → Bool
point_lt (t, n) (t', n') = ltb t t' || (t == t' && string_ltb n n')

-- `bisect.insort`: behind the points that are not greater.
abbrev pub insort : Point → List Point → List Point
insort p [] = p ∷ []
insort p (q ∷ points) = if point_lt p q then p ∷ q ∷ points else q ∷ insort p points

-- `bisect.bisect_left`
abbrev pub bisect_left : Point → List Point → ℕ
bisect_left p [] = 0
bisect_left p (q ∷ points) = if point_lt q p then suc (bisect_left p points) else 0

-- `range(start, start + count)`
abbrev pub range_from : ℕ → ℕ → List ℕ
range_from start zero = []
range_from start (suc count) = start ∷ range_from (suc start) count

-- `[(token, node) for token, node in ring if node != node_id]`
abbrev pub without : String → List Point → List Point
without node points = keep (λ p. not (beq p.1 node)) points

-- `int.from_bytes(digest, "big")`
abbrev pub from_be : ℕ → List ℕ → ℕ
from_be acc [] = acc
from_be acc (b ∷ bytes) = from_be (acc * 256 + b) bytes

module _ (md5 : String → List ℕ) where
  -- `_hash`
  unfoldable pub hash : String → ℕ
  hash value = from_be 0 (take 8 (md5 value))

  -- The loop of `add_node`.
  abbrev pub add_replicas : String → List ℕ → List Point → List Point
  add_replicas node [] points = points
  add_replicas node (replica ∷ replicas) points =
      add_replicas node replicas (insort (hash (node ++ (":" ++ decimal replica)), node) points)

  unfoldable pub add_node : String → Ring → Ring
  add_node node r = if contains node r.nodes then r else record r {
    points = add_replicas node (range_from 0 r.virtual_nodes) r.points;
    nodes = add node r.nodes;
  }

  -- `self._ring[index][1]`, of a key with this token.
  abbrev pub node_at : ℕ → List Point → Outcome String
  node_at token points =
      let index = bisect_left (token, "") points in
      let index' = if index == length points then 0 else index in
      elim (get_elem? points index') [ none ↦ raise index_error | some p ↦ ok p.1 ]

  -- `get_node`, for a key as `str` writes it.
  unfoldable pub get_node : String → Ring → Outcome String
  get_node key r = do raise_if (is_empty r.points) value_error; node_at (hash key) r.points

  -- `{self.get_node(key) for key in keys}`
  unfoldable pub nodes_of : List ℕ → Ring → Outcome (List String)
  nodes_of [] r = ok []
  nodes_of (key ∷ rest) r = do
    node ← get_node (decimal key) r
    others ← nodes_of rest r
    ok (add node others)

  unfoldable pub get_nodes_for_range : ℕ → ℕ → Ring → Outcome (List String)
  get_nodes_for_range start_id end_id r = do
    raise_if (ltb end_id start_id) value_error
    if is_empty r.points then ok [] else nodes_of (range_from start_id (suc end_id - start_id)) r

  unfoldable pub get_shard_id : String → Ring → Outcome ℕ
  get_shard_id node r = do raise_if (is_empty r.nodes) value_error; ok (hash node % length r.nodes)

unfoldable pub remove_node : String → Ring → Ring
remove_node node r =
    if contains node r.nodes
    then record r { points = without node r.points; nodes = keep (λ n. not (beq n node)) r.nodes }
    else r

unfoldable pub clear : Ring → Ring
clear r = record r { points = []; nodes = [] }

unfoldable pub ring_size : Ring → ℕ
ring_size r = length r.points
