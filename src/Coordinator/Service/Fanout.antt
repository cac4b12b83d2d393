-- ===== src/Coordinator/Service/Fanout.antt =====
-- vecscaledb/coordinator/app.py: which readers a search goes to, and the ring of the readers.
use distributed_vector_db.Prelude.{
  ℕ, zero, suc, ◌+◌, ◌%◌, ◌-◌, ◌<◌, ◌≤◌, ◌≡◌, refl, ap, sym, ◌∙◌, arith, some, List, [], ◌∷◌, ◌++◌,
  Bool, true, false, ◌||◌, length, take, drop, length-drop, map, get_elem?, if◌then◌else◌, String,
}
use mathlib.Core.List.{append-nil, map-append}
use native.Mathlib.Nat.{mod-lt, mod_self, mod-eq_of_lt, mod-add-mod, zero-mod, mod-mod}
use distributed_vector_db.Prelude.Eq.{string_eq, beq}
use distributed_vector_db.Prelude.Set.{contains}
use distributed_vector_db.Prelude.Outcome.{Outcome, ok}
use distributed_vector_db.Coordinator.Ring
use distributed_vector_db.Coordinator.Ring.{Ring, add_node}
use distributed_vector_db.Coordinator.Ring.Members.{IsWellFormed, add_node-IsWellFormed}
use distributed_vector_db.Coordinator.Service.{Coordinator, NodeInfo, search_targets, reader_nodes}
use distributed_vector_db.Coordinator.Service.Handlers.{add_readers, rebuild_ring}

abbrev pub is_member : String → List NodeInfo → Bool
is_member id [] = false
is_member id (n ∷ nodes) = if beq id n.node_id then true else is_member id nodes

get_elem?-bound :
    (readers : List NodeInfo) (i : ℕ)
    → i < length readers
    → (r : NodeInfo) × (get_elem? readers i ≡ some r)
get_elem?-bound [] i h = ground arith
get_elem?-bound (r ∷ readers) zero h = (r, refl)
get_elem?-bound (r ∷ readers) (suc i) h = get_elem?-bound readers i (omega arith)

abbrev IsReplicated : Coordinator → Type 0
IsReplicated s = s.settings.search_fanout_mode ≡ "replicated"

-- A search goes to the reader at the place of the counter, and the counter moves on.
search_targets_lem :
    (readers : List NodeInfo) (s : Coordinator) (r : NodeInfo)
    → IsReplicated s
    → 1 < length readers
    → get_elem? readers (s.search_counter % length readers) ≡ some r
    → search_targets readers s ≡ (ok (r ∷ []), record s { search_counter = s.search_counter + 1 })
unfolding search_targets
search_targets_lem readers s r m h p =
    ground (arith, p, ap (λ mode. beq mode "scatter") m, ap (λ mode. beq mode "replicated") m, h)

-- The answers of this many searches, one after the other.
abbrev pub answers : List NodeInfo → ℕ → Coordinator → List (Outcome (List NodeInfo))
answers readers zero s = []
answers readers (suc k) s = let (o, s') = search_targets readers s in o ∷ answers readers k s'

abbrev only : NodeInfo → Outcome (List NodeInfo)
only r = ok (r ∷ [])

drop-cons :
    (readers : List NodeInfo) (i : ℕ) (r : NodeInfo)
    → get_elem? readers i ≡ some r
    → drop i readers ≡ r ∷ drop (suc i) readers
drop-cons [] i r h = ground arith
drop-cons (x ∷ readers) zero r h = ground (arith, h)
drop-cons (x ∷ readers) (suc i) r h = drop-cons readers i r h

take_all : (n : ℕ) (readers : List NodeInfo) → length readers ≤ n → take n readers ≡ readers
take_all zero [] h = refl
take_all (suc n) [] h = refl
take_all zero (r ∷ readers) h = absurd (omega arith)
take_all (suc n) (r ∷ readers) h = ap (◌∷◌ r) (take_all n readers (omega arith))

abbrev at_counter : ℕ → Coordinator → Coordinator
at_counter c s = record s { search_counter = c }

next_turn : (c p n : ℕ) → c % n ≡ p % n → (c + 1) % n ≡ suc p % n
next_turn c p n h =
    sym (mod-add-mod c n 1)
    ∙ ap (λ x. (x + 1) % n) h
    ∙ mod-add-mod p n 1
    ∙ ap (λ x. x % n) (omega arith)

-- After as many searches as are left before the first reader, it is the first one's turn.
turned : (c n : ℕ) → c % n < n → (c + (n - c % n)) % n ≡ 0 % n
turned c n h =
    sym (mod-add-mod c n (n - c % n))
    ∙ ap (λ x. x % n) (omega arith)
    ∙ mod_self n
    ∙ sym (zero-mod n)

module _ (readers : List NodeInfo) (several : 1 < length readers) where
  -- From the place of the counter, searches go to one reader after the other, up to the last.
  answers-add :
      (k more p : ℕ) (s : Coordinator)
      → IsReplicated s
      → s.search_counter % length readers ≡ p % length readers
      → p + k ≤ length readers
      → answers readers (k + more) s
        ≡ map only (take k (drop p readers))
          ++ answers readers more (at_counter (s.search_counter + k) s)
  answers-add zero more p s m e h =
      let none_first : 0 + more ≡ more = omega arith in
      let same : s.search_counter + 0 ≡ s.search_counter = omega arith in rw (none_first, same) refl
  answers-add (suc k) more p s m e h =
      let (r, found) = get_elem?-bound readers p (omega arith) in
      let place : s.search_counter % length readers ≡ p = e ∙ mod-eq_of_lt (omega arith) in
      let step =
        search_targets_lem readers s r m several (ap (λ i. get_elem? readers i) place ∙ found) in
      let rest =
        answers-add k more (suc p) (at_counter (s.search_counter + 1) s) m
          (next_turn s.search_counter p (length readers) e) (omega arith) in
      let one_first : suc k + more ≡ suc (k + more) = omega arith in
      let counted : s.search_counter + suc k ≡ s.search_counter + 1 + k = omega arith in
      rw (one_first, counted, step, drop-cons readers p r found, rest) refl

  -- In replicated mode with several readers, as many searches in a row as there are readers go to
  -- all of them, each reader at its place once, in their order from some reader on and then from
  -- the first one; whatever the counter is.
  pub search_targets-rotates :
      (s : Coordinator)
      → IsReplicated s
      → (p : ℕ) × (p < length readers)
        × (answers readers (length readers) s ≡ map only (drop p readers ++ take p readers))
  search_targets-rotates s m =
      let n = length readers in
      let p = s.search_counter % n in
      let in_range : p < n = mod-lt s.search_counter (omega arith) in
      let first = answers-add (n - p) p p s m (sym (mod-mod s.search_counter n)) (omega arith) in
      let second =
        answers-add p 0 0 (at_counter (s.search_counter + (n - p)) s) m
          (turned s.search_counter n in_range) (omega arith) in
      let whole : length readers ≡ n - p + p = omega arith in
      let last : p ≡ p + 0 = omega arith in
      (
        p,
        in_range,
        ap (λ k. answers readers k s) whole
            ∙ first
            ∙ ap
                (λ xs. map only xs ++ answers readers p (at_counter (s.search_counter + (n - p)) s))
                (take_all (n - p) (drop p readers) (omega (arith, length-drop p readers)))
            ∙ ap
                (λ k.
                  map only (drop p readers)
                  ++ answers readers k (at_counter (s.search_counter + (n - p)) s))
                last
            ∙ ap (λ ys. map only (drop p readers) ++ ys)
                (second ∙ append-nil (map only (take p readers)))
            ∙ sym (map-append only (drop p readers) (take p readers)),
      )

contains-add_node :
    (md5 : String → List ℕ) (m node : String) (r : Ring)
    → contains m (add_node md5 node r).nodes ≡ (beq m node || contains m r.nodes)
unfolding add_node
contains-add_node md5 m node r = ground (arith, string_eq.beq_iff m node)

add_readers_lem :
    (md5 : String → List ℕ) (nodes : List NodeInfo) (r : Ring)
    → IsWellFormed r
    → IsWellFormed (add_readers md5 nodes r)
      × ((m : String)
          → contains m (add_readers md5 nodes r).nodes ≡ (is_member m nodes || contains m r.nodes))
add_readers_lem md5 [] r w = (w, λ m. refl)
add_readers_lem md5 (n ∷ nodes) r w =
    let rest =
      add_readers_lem md5 nodes (add_node md5 n.node_id r)
        (add_node-IsWellFormed md5 n.node_id r w).0 in
    (rest.0, λ m. ground (arith, rest.1 m, contains-add_node md5 m n.node_id r))

clear-IsWellFormed : (r : Ring) → IsWellFormed (Ring.clear r)
unfolding Ring.clear
clear-IsWellFormed r = (tt, λ m. refl)

-- The ring that is rebuilt is well formed, and its nodes are exactly the readers that are
-- registered.
pub rebuild_ring_lem :
    (md5 : String → List ℕ) (s : Coordinator)
    → IsWellFormed (rebuild_ring md5 s).ring
      × ((m : String) → contains m (rebuild_ring md5 s).ring.nodes ≡ is_member m (reader_nodes s))
unfolding rebuild_ring Ring.clear
rebuild_ring_lem md5 s =
    let built =
      add_readers_lem md5 (reader_nodes s) (Ring.clear s.ring) (clear-IsWellFormed s.ring) in
    (built.0, λ m. ground (arith, built.1 m))
