-- ===== src/Coordinator/Ring/Bisect.antt =====
-- vecscaledb/coordinator/ring.py: the binary searches of `bisect` on a ring in ascending order find
-- the places that the walks of the model find.
use distributed_vector_db.Prelude.{
  ℕ, zero, suc, ◌+◌, ◌-◌, ◌/◌, ◌<◌, ◌≤◌, ◌≡◌, refl, sym, ◌∙◌, arith, none, some, List, [], ◌∷◌,
  ◌++◌, Bool, true, false, not, ltb, length, take, drop, get_elem?, All, if◌then◌else◌,
  Option-cases, Bool-cases, inl, inr, String,
}
use distributed_vector_db.Prelude.Outcome.{ok}
use distributed_vector_db.Coordinator.Ring
use distributed_vector_db.Coordinator.Ring.{Ring, Point, point_lt, bisect_left, insort}
use distributed_vector_db.Coordinator.Ring.Order.{
  Change, changed, changed-IsAscending, IsAscending, point_lt_not_trans,
}

-- A search by halves between two bounds, for the first point that does not pass the test.
abbrev halve : (Point → Bool) → List Point → ℕ → ℕ → ℕ → ℕ
halve test points zero lo hi = lo
halve test points (suc fuel) lo hi = elim (ltb lo hi) [
  | false ↦ lo
  | true ↦ elim (get_elem? points ((lo + hi) / 2)) [
    | none ↦ lo
    | some q ↦ elim (test q) [
      | true ↦ halve test points fuel (suc ((lo + hi) / 2)) hi
      | false ↦ halve test points fuel lo ((lo + hi) / 2)
    ]
  ]
]

-- How many points at the front pass the test.
abbrev passing : (Point → Bool) → List Point → ℕ
passing test [] = 0
passing test (q ∷ points) = if test q then suc (passing test points) else 0

passing-le : (test : Point → Bool) (points : List Point) → passing test points ≤ length points
passing-le test [] = omega arith
passing-le test (q ∷ points) = ground (arith, passing-le test points)

-- Where a point does not pass, none behind it does.
abbrev IsSplit : (Point → Bool) → List Point → Type 0
IsSplit test [] = Unit
IsSplit test (q ∷ points) =
    (test q ≡ false → All (λ r. test r ≡ false) points) × IsSplit test points

no_more :
    (test : Point → Bool) (points : List Point) (i : ℕ) (q : Point)
    → All (λ r. test r ≡ false) points
    → get_elem? points i ≡ some q
    → test q ≡ false
no_more test [] i q a h = ground arith
no_more test (r ∷ points) zero q a h = ground arith
no_more test (r ∷ points) (suc i) q a h = no_more test points i q a.1 h

-- Exactly the points in front of the place pass.
test-at :
    (test : Point → Bool) (points : List Point) (i : ℕ) (q : Point)
    → IsSplit test points
    → get_elem? points i ≡ some q
    → test q ≡ ltb i (passing test points)
test-at test [] i q a h = ground arith
test-at test (r ∷ points) zero q a h = ground arith
test-at test (r ∷ points) (suc i) q a h = elim (Bool-cases (test r)) [
  | inl p ↦ ground (arith, p, test-at test points i q a.1 h)
  | inr p ↦ ground (arith, p, no_more test points i q (a.0 p) h)
]

get_elem?-missing :
    (points : List Point) (i : ℕ) → i < length points → get_elem? points i ≡ none → ⊥
get_elem?-missing [] i h k = absurd (omega arith)
get_elem?-missing (q ∷ points) zero h k = ground arith
get_elem?-missing (q ∷ points) (suc i) h k = get_elem?-missing points i (omega arith) k

halve-passing :
    (test : Point → Bool) (points : List Point) (fuel lo hi : ℕ)
    → IsSplit test points
    → lo ≤ passing test points
    → passing test points ≤ hi
    → hi ≤ length points
    → hi - lo ≤ fuel
    → halve test points fuel lo hi ≡ passing test points
halve-passing test points zero lo hi a low high h enough = omega arith
halve-passing test points (suc fuel) lo hi a low high h enough = elim (Bool-cases (ltb lo hi)) [
  | inr p ↦ ground (arith, p)
  | inl p ↦
      let mid : ℕ = (lo + hi) / 2 in
      let from : lo ≤ mid = ground arith in
      let below : mid < hi = ground arith in
      elim (Option-cases (get_elem? points mid)) [
        | inl q ↦ absurd (get_elem?-missing points mid (omega arith) q)
        | inr (x, q) ↦ elim (Bool-cases (test x)) [
          | inl t ↦
              let before : mid < passing test points =
                ground (arith, t, test-at test points mid x a q) in
              ground (
                arith,
                p,
                q,
                t,
                halve-passing test points fuel (suc mid) hi a (omega arith) high h (omega arith),
              )
          | inr t ↦
              let after : passing test points ≤ mid =
                ground (arith, t, test-at test points mid x a q) in
              ground (
                arith,
                p,
                q,
                t,
                halve-passing test points fuel lo mid a low after (omega arith) (omega arith),
              )
        ]
      ]
]

bisect_left-passing :
    (key : Point) (points : List Point)
    → bisect_left key points ≡ passing (λ q. point_lt q key) points
bisect_left-passing key [] = refl
bisect_left-passing key (q ∷ points) = ground (arith, bisect_left-passing key points)

insort-passing :
    (p : Point) (points : List Point)
    → insort p points
      ≡ take (passing (λ q. not (point_lt p q)) points) points
        ++ p ∷ drop (passing (λ q. not (point_lt p q)) points) points
insort-passing p [] = refl
insort-passing p (q ∷ points) = ground (arith, insort-passing p points)

All_left :
    (key q : Point) (points : List Point)
    → point_lt q key ≡ false
    → All (λ r. point_lt r q ≡ false) points
    → All (λ r. point_lt r key ≡ false) points
All_left key q [] h a = tt
All_left key q (r ∷ points) h a = (point_lt_not_trans r q key a.0 h, All_left key q points h a.1)

left-IsSplit :
    (key : Point) (points : List Point) → IsAscending points → IsSplit (λ q. point_lt q key) points
left-IsSplit key [] a = tt
left-IsSplit key (q ∷ points) a = ((λ h. All_left key q points h a.0), left-IsSplit key points a.1)

behind :
    (p q r : Point) → point_lt r q ≡ false → not (point_lt p q) ≡ false → not (point_lt p r) ≡ false
behind p q r h k = ground (arith, point_lt_not_trans p r q)

All_right :
    (p q : Point) (points : List Point)
    → not (point_lt p q) ≡ false
    → All (λ r. point_lt r q ≡ false) points
    → All (λ r. not (point_lt p r) ≡ false) points
All_right p q [] h a = tt
All_right p q (r ∷ points) h a = (behind p q r a.0 h, All_right p q points h a.1)

right-IsSplit :
    (p : Point) (points : List Point)
    → IsAscending points
    → IsSplit (λ q. not (point_lt p q)) points
right-IsSplit p [] a = tt
right-IsSplit p (q ∷ points) a = ((λ h. All_right p q points h a.0), right-IsSplit p points a.1)

init-IsAscending :
    (virtual_nodes : ℕ) (r : Ring) → Ring.init virtual_nodes ≡ ok r → IsAscending r.points
unfolding Ring.init
init-IsAscending virtual_nodes r h = ground (arith, h)

-- The place that a search by halves finds for a key in front of all that are not below it.
abbrev pub halving_left : Point → List Point → ℕ
halving_left key points = halve (λ q. point_lt q key) points (length points) 0 (length points)

-- The place that a search by halves finds for a point behind all that are not above it.
abbrev pub halving_right : Point → List Point → ℕ
halving_right p points = halve (λ q. not (point_lt p q)) points (length points) 0 (length points)

-- On points in ascending order, a search by halves finds the place that `bisect_left` finds, and
-- `insort` inserts at the place that a search by halves finds.
pub bisect_left-insort :
    (p : Point) (points : List Point)
    → IsAscending points
    → (bisect_left p points ≡ halving_left p points)
      × (insort p points
          ≡ take (halving_right p points) points ++ p ∷ drop (halving_right p points) points)
bisect_left-insort p points a =
    let left =
      halve-passing (λ q. point_lt q p) points (length points) 0 (length points)
        (left-IsSplit p points a) (omega arith) (passing-le (λ q. point_lt q p) points)
        (omega arith) (omega arith) in
    let right =
      halve-passing (λ q. not (point_lt p q)) points (length points) 0 (length points)
        (right-IsSplit p points a) (omega arith) (passing-le (λ q. not (point_lt p q)) points)
        (omega arith) (omega arith) in
    (bisect_left-passing p points ∙ sym left, rw right (insort-passing p points))

-- A ring that starts without a node: after any changes of its nodes, `get_node` looks where a search
-- by halves finds the key, and a point is inserted where a search by halves finds its place.
pub bisect-changed :
    (md5 : String → List ℕ) (virtual_nodes : ℕ) (changes : List Change) (p : Point) {r : Ring}
    → Ring.init virtual_nodes ≡ ok r
    → let points = (changed md5 changes r).points in
      (bisect_left p points ≡ halving_left p points)
      × (insort p points
          ≡ take (halving_right p points) points ++ p ∷ drop (halving_right p points) points)
bisect-changed md5 virtual_nodes changes p {r = r} h =
    bisect_left-insort p (changed md5 changes r).points
      (changed-IsAscending md5 changes r (init-IsAscending virtual_nodes r h))
