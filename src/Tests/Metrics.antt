-- ===== src/Tests/Metrics.antt =====
-- A registry after two searches and an insertion, with floats counted as numbers.
use distributed_vector_db.Prelude.{ℕ, ◌+◌, ◌≡◌, List, [], ◌∷◌, false}
use distributed_vector_db.Prelude.Strings.{decimal}
use distributed_vector_db.Observability.{Floats, Observation, init, read}
use distributed_vector_db.Observability.Counting.{
  observed_all, observed_all_counts, count_where, is_request, is_on,
}
use distributed_vector_db.Prelude.Eq.{string_eq, nat_eq, pair_eq, beq}
use distributed_vector_db.Observability.Escaping.{
  esc, unesc_from, unesc-esc, occurs, occurs-esc, newline,
}

abbrev counted_floats : Floats ℕ
counted_floats = record { zero = 0; plus = λ x y. x + y; nine_places = decimal; str = decimal }

abbrev seen : List (Observation ℕ)
seen =
    record { method = "POST"; path = "/search"; status_code = 200; duration = 3 }
    ∷ record { method = "POST"; path = "/insert"; status_code = 200; duration = 5 }
    ∷ record { method = "POST"; path = "/search"; status_code = 200; duration = 4 }
    ∷ []

observed_all_counts_example :
    let r = observed_all counted_floats seen (init counted_floats "node" "node-0") in
    (read 0 (("POST", "/search"), 200) r.request_total
      ≡ count_where (is_request ("POST", "/search") 200) seen)
    × (read 0 ("POST", "/search") r.duration_count ≡ count_where (is_on ("POST", "/search")) seen)
    × (r.search_count ≡ count_where (λ o. beq o.path "/search") seen)
observed_all_counts_example =
    observed_all_counts counted_floats "node" "node-0" seen ("POST", "/search") 200

unesc-esc_example : unesc_from false (esc "a\\b\"c\nd") ≡ "a\\b\"c\nd"
unesc-esc_example = unesc-esc "a\\b\"c\nd"

occurs-esc_example : occurs newline (esc "a\\b\"c\nd") ≡ false
occurs-esc_example = occurs-esc "a\\b\"c\nd"
