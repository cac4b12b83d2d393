-- ===== src/Tests/Client.antt =====
-- Two URLs, of which the second answers at the second attempt.
use distributed_vector_db.Prelude.{ℕ, ◌≡◌, [], ◌∷◌, true, ◌==◌, String, if◌then◌else◌}
use distributed_vector_db.Prelude.Eq.{string_eq, beq}
use distributed_vector_db.Prelude.Outcome.{Outcome, ok, raise, runtime_error}
use distributed_vector_db.Coordinator.Client.{CoordinatorClient, request, is_answer, request_lem}

abbrev send : ℕ → String → Outcome ℕ
send attempt url =
    if beq url "b"
    then (if attempt == 1 then ok 7 else raise runtime_error)
    else raise runtime_error

abbrev client : CoordinatorClient
client = record { coordinator_urls = "a" ∷ "b" ∷ [] }

request_lem_example : is_answer send (request send client) ≡ true
request_lem_example = request_lem send client
