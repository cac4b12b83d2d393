-- ===== src/Coordinator/Client.antt =====
-- vecscaledb/coordinator/client.py: the retries of `CoordinatorClient`. What a URL answers at an
-- attempt is a parameter.
pub mod Calls
use distributed_vector_db.Prelude.{
  ℕ, zero, suc, ◌≡◌, refl, arith, Option, none, some, List, [], ◌∷◌, Bool, true, false, ◌||◌,
  is_empty, String, map,
}
use distributed_vector_db.Prelude.Strings.{rstrip_slash}
use distributed_vector_db.Prelude.Outcome.{
  Outcome, ok, raise, raise_if, value_error, runtime_error, ◌>>◌,
}

pub record CoordinatorClient : Type 0 where
  pub coordinator_urls : List String

-- `__init__`
unfoldable pub init : List String → Outcome CoordinatorClient
unfolding rstrip_slash
init urls = do
  raise_if (is_empty urls) value_error
  ok (record { coordinator_urls = map rstrip_slash urls })

module _ {A : Type 0} (send : ℕ → String → Outcome A) where
  -- The inner loop: the answer of the first URL that gives one.
  unfoldable pub try_urls : ℕ → List String → Option A
  try_urls attempt [] = none
  try_urls attempt (url ∷ urls) =
      let rest = try_urls attempt urls in elim (send attempt url) [ ok a ↦ some a | raise x ↦ rest ]

  unfoldable pub request_from : ℕ → ℕ → List String → Outcome A
  unfolding try_urls
  request_from zero attempt urls = raise runtime_error
  request_from (suc left) attempt urls =
      let rest = request_from left (suc attempt) urls in
      elim (try_urls attempt urls) [ some a ↦ ok a | none ↦ rest ]

  -- `_request`
  unfoldable pub request : CoordinatorClient → Outcome A
  unfolding request_from
  request c = request_from 3 0 c.coordinator_urls

  abbrev pub is_answer : Outcome A → Bool
  is_answer (ok a) = true
  is_answer (raise x) = false

  -- A URL answers at one attempt.
  abbrev pub answers : ℕ → List String → Bool
  answers attempt [] = false
  answers attempt (url ∷ urls) = is_answer (send attempt url) || answers attempt urls

  abbrev pub is_found : Option A → Bool
  is_found none = false
  is_found (some a) = true

  try_urls_lem :
      (attempt : ℕ) (urls : List String) → is_found (try_urls attempt urls) ≡ answers attempt urls
  unfolding try_urls
  try_urls_lem attempt [] = refl
  try_urls_lem attempt (url ∷ urls) = ground (arith, try_urls_lem attempt urls)

  -- A request succeeds exactly when some URL answers at one of three attempts.
  pub request_lem :
      (c : CoordinatorClient)
      → is_answer (request c) ≡ (
          answers 0 c.coordinator_urls
          || (answers 1 c.coordinator_urls || answers 2 c.coordinator_urls))
  unfolding request request_from
  request_lem c = ground (
    arith,
    try_urls_lem 0 c.coordinator_urls,
    try_urls_lem 1 c.coordinator_urls,
    try_urls_lem 2 c.coordinator_urls,
  )
