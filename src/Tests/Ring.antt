-- ===== src/Tests/Ring.antt =====
-- A ring of two nodes with two points each, under a digest that reads a table.
use distributed_vector_db.Prelude.{
  ℕ, ◌≡◌, ◌⊎◌, refl, List, [], ◌∷◌, true, false, String, if◌then◌else◌, arith,
}
use distributed_vector_db.Prelude.Eq.{beq, string_eq}
use distributed_vector_db.Prelude.Set.{contains}
use distributed_vector_db.Prelude.Strings.{decimal}
use distributed_vector_db.Prelude.Outcome.{ok}
use distributed_vector_db.Coordinator.Ring.{Ring, hash, get_node, add_node, remove_node, ring_size}
use distributed_vector_db.Coordinator.Ring.Routing.{get_node-add_node, get_node-remove_node}
use distributed_vector_db.Coordinator.Ring.Members.{
  IsWellFormed, add_node-IsWellFormed, remove_node-IsWellFormed, get_node-IsMember,
  remove_node-add_node,
}

abbrev table : String → List ℕ
table s =
    if beq s "a:0"
    then 10 ∷ []
    else if beq s "a:1"
    then 50 ∷ []
    else if beq s "b:0"
    then 30 ∷ []
    else if beq s "b:1"
    then 70 ∷ []
    else if beq s "7"
    then 20 ∷ []
    else 60 ∷ []

abbrev no_nodes : Ring
no_nodes = record { virtual_nodes = 2; points = []; nodes = [] }

no_nodes-IsWellFormed : IsWellFormed no_nodes
no_nodes-IsWellFormed = (tt, λ m. refl)

abbrev one_node : Ring
one_node = add_node table "a" no_nodes

one_node-IsWellFormed : IsWellFormed one_node
one_node-IsWellFormed = (add_node-IsWellFormed table "a" no_nodes no_nodes-IsWellFormed).0

abbrev two_nodes : Ring
two_nodes = add_node table "b" one_node

two_nodes-IsWellFormed : IsWellFormed two_nodes
two_nodes-IsWellFormed = (add_node-IsWellFormed table "b" one_node one_node-IsWellFormed).0

-- Key 7 has moved to the node that joined, and key 9 has not.
seven_moves : get_node table "7" two_nodes ≡ ok "b"
unfolding get_node add_node hash decimal
seven_moves = refl

nine_stays : get_node table "9" two_nodes ≡ ok "b"
unfolding get_node add_node hash decimal
nine_stays = refl

get_node-add_node_example :
    (get_node table "7" two_nodes ≡ ok "a") ⊎ (get_node table "7" two_nodes ≡ ok "b")
unfolding get_node add_node hash decimal
get_node-add_node_example = get_node-add_node table "7" "b" one_node "a" refl

get_node-remove_node_example : get_node table "7" (remove_node "a" two_nodes) ≡ ok "b"
unfolding get_node add_node hash decimal
get_node-remove_node_example =
    get_node-remove_node table "7" "a" two_nodes "b" refl
      (λ p. ground (arith, p, string_eq.beq_iff "b" "a"))

add_node-IsWellFormed_example : IsWellFormed two_nodes × (contains "b" two_nodes.nodes ≡ true)
add_node-IsWellFormed_example = add_node-IsWellFormed table "b" one_node one_node-IsWellFormed

remove_node-IsWellFormed_example :
    IsWellFormed (remove_node "a" two_nodes)
    × (contains "a" (remove_node "a" two_nodes).nodes ≡ false)
remove_node-IsWellFormed_example = remove_node-IsWellFormed "a" two_nodes two_nodes-IsWellFormed

get_node-IsMember_example :
    (node : String) × (get_node table "7" two_nodes ≡ ok node)
    × (contains node two_nodes.nodes ≡ true)
unfolding ring_size add_node hash decimal
get_node-IsMember_example =
    get_node-IsMember table "7" two_nodes two_nodes-IsWellFormed (omega arith)

remove_node-add_node_example : remove_node "b" (add_node table "b" one_node) ≡ one_node
unfolding add_node
remove_node-add_node_example = remove_node-add_node table "b" one_node one_node-IsWellFormed refl
