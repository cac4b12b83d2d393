-- ===== src/Observability/Counting.antt =====
-- vecscaledb/observability.py: the counters of a registry, against a count over all that was observed.
use distributed_vector_db.Prelude.{
  ℕ, ◌+◌, ◌≡◌, refl, arith, List, [], ◌∷◌, Bool, if◌then◌else◌, String, suc, Bool-cases, inl, inr,
}
use distributed_vector_db.Prelude.Eq.{Eq, string_eq, nat_eq, pair_eq, beq}
use distributed_vector_db.Prelude.Dict.{Dict, insert, lookup-insert}
use distributed_vector_db.Observability.{
  Floats, Route, MetricsRegistry, Observation, init, observe, read,
}

abbrev pub is_request : {F : Type 0} → Route → ℕ → Observation F → Bool
is_request route status o = beq {A = Route × ℕ} (route, status) ((o.method, o.path), o.status_code)

abbrev pub is_on : {F : Type 0} → Route → Observation F → Bool
is_on route o = beq {A = Route} route (o.method, o.path)

-- How many observations pass a test.
abbrev pub count_where : {F : Type 0} → (Observation F → Bool) → List (Observation F) → ℕ
count_where test [] = 0
count_where test (o ∷ seen) = if test o then suc (count_where test seen) else count_where test seen

-- A counter that is raised.
read-insert :
    {K : Type 0} ⦃e : Eq K⦄ (j k : K) (d : Dict K ℕ)
    → read 0 j (insert k (read 0 k d + 1) d) ≡ (if e.beq j k then read 0 j d + 1 else read 0 j d)
read-insert ⦃e⦄ j k d = elim (Bool-cases (e.beq j k)) [
  | inl h ↦
      rw ((e.beq_iff j k).0 h)
        (ground (arith, lookup-insert k k (read 0 k d + 1) d, (e.beq_iff k k).1 refl))
  | inr h ↦ ground (arith, h, lookup-insert j k (read 0 k d + 1) d)
]

module _ {F : Type 0} (floats : Floats F) where
  -- The requests that a registry has been told of, the last one first.
  abbrev pub observed_all : List (Observation F) → MetricsRegistry F → MetricsRegistry F
  observed_all [] r = r
  observed_all (o ∷ seen) r = observe floats o (observed_all seen r)

  observe_lem :
      (o : Observation F) (r : MetricsRegistry F) (route : Route) (status : ℕ)
      → (read 0 (route, status) (observe floats o r).request_total ≡ (
          if is_request route status o
          then read 0 (route, status) r.request_total + 1
          else read 0 (route, status) r.request_total))
        × (read 0 route (observe floats o r).duration_count ≡ (
            if is_on route o
            then read 0 route r.duration_count + 1
            else read 0 route r.duration_count))
        × ((observe floats o r).search_count
            ≡ (if beq o.path "/search" then r.search_count + 1 else r.search_count))
  unfolding observe
  observe_lem o r route status = elim (Bool-cases (beq o.path "/search")) [
    | inl h ↦ rw h (
      read-insert {K = Route × ℕ} (route, status) ((o.method, o.path), o.status_code)
          r.request_total,
      read-insert {K = Route} route (o.method, o.path) r.duration_count,
      refl,
    )
    | inr h ↦ rw h (
      read-insert {K = Route × ℕ} (route, status) ((o.method, o.path), o.status_code)
          r.request_total,
      read-insert {K = Route} route (o.method, o.path) r.duration_count,
      refl,
    )
  ]

  -- After any requests, a new registry counts for a method, path and status the requests with these, for a
  -- method and path the requests with these, and as searches the requests of /search.
  pub observed_all_counts :
      (role id : String) (seen : List (Observation F)) (route : Route) (status : ℕ)
      → let r = observed_all seen (init floats role id) in
        (read 0 (route, status) r.request_total ≡ count_where (is_request route status) seen)
        × (read 0 route r.duration_count ≡ count_where (is_on route) seen)
        × (r.search_count ≡ count_where (λ o. beq o.path "/search") seen)
  observed_all_counts role id [] route status = (refl, refl, refl)
  observed_all_counts role id (o ∷ seen) route status =
      let r = observed_all seen (init floats role id) in
      let (requests, durations, searches) = observed_all_counts role id seen route status in
      let (one, two, three) = observe_lem o r route status in
      (
        ground (arith, one, requests),
        ground (arith, two, durations),
        ground (arith, three, searches),
      )
