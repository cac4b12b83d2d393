-- ===== src/Observability.antt =====
-- vecscaledb/observability.py: the metrics of a service, and the middleware that counts requests. A float is
-- of a type `F`, with what Python does to it as parameters.
pub mod Escaping
pub mod Lines
pub mod Counting
use distributed_vector_db.Prelude.{
  ℕ, ◌+◌, Option, none, some, List, [], ◌∷◌, ◌++◌, Bool, ◌||◌, ◌&&◌, ltb, if◌then◌else◌, String,
  map,
}
use distributed_vector_db.Prelude.Eq.{Eq, string_eq, nat_eq, pair_eq, beq}
use distributed_vector_db.Prelude.Dict.{Dict, lookup, insert}
use distributed_vector_db.Prelude.Sort.{sort_by}
use distributed_vector_db.Prelude.Strings.{string_ltb}
use distributed_vector_db.Prelude.Outcome.{Outcome, ok, raise}
use distributed_vector_db.Prelude.Action.{Act}
use Lines.{
  GaugeValue, num, request_line, count_line, sum_line, search_count_line, search_sum_line,
  gauge_type_line, gauge_line, put_line,
}

-- `0.0`, `+`, `f"{x:.9f}"` and `str(x)`
pub record Floats (F : Type 0) : Type 0 where
  pub zero : F
  pub plus : F → F → F
  pub nine_places : F → String
  pub str : F → String

-- Method and path.
abbrev pub Route : Type 0
Route = String × String

pub record MetricsRegistry (F : Type 0) : Type 0 where
  pub node_role : String
  pub node_id : String
  pub request_total : Dict (Route × ℕ) ℕ
  pub duration_count : Dict Route ℕ
  pub duration_sum : Dict Route F
  pub search_count : ℕ
  pub search_duration_sum : F

-- A `defaultdict` reads its default for a missing key.
abbrev pub read {ℓ} : {K : Type 0} {V : Type ℓ} ⦃e : Eq K⦄ → V → K → Dict K V → V
read default k d = elim (lookup k d) [ none ↦ default | some v ↦ v ]

-- The order of tuples of strings.
abbrev pub route_lt : Route → Route → Bool
route_lt a b = string_ltb a.0 b.0 || (beq a.0 b.0 && string_ltb a.1 b.1)

abbrev pub request_lt : Route × ℕ → Route × ℕ → Bool
request_lt a b = route_lt a.0 b.0 || (beq a.0 b.0 && ltb a.1 b.1)

-- What the middleware has seen of a request.
pub record Observation (F : Type 0) : Type 0 where
  pub method : String
  pub path : String
  pub status_code : ℕ
  pub duration : F

module _ {F : Type 0} (floats : Floats F) where
  abbrev pub init : String → String → MetricsRegistry F
  init role id = record {
    node_role = role;
    node_id = id;
    request_total = [];
    duration_count = [];
    duration_sum = [];
    search_count = 0;
    search_duration_sum = floats.zero;
  }

  abbrev pub count_search : String → F → MetricsRegistry F → MetricsRegistry F
  count_search path duration r =
      if beq path "/search"
      then record r {
        search_count = r.search_count + 1;
        search_duration_sum = floats.plus r.search_duration_sum duration;
      }
      else r

  unfoldable pub observe : Observation F → MetricsRegistry F → MetricsRegistry F
  observe o r =
      let route : Route = (o.method, o.path) in
      let request : Route × ℕ = (route, o.status_code) in
      count_search o.path o.duration (record r {
        request_total = insert request (read 0 request r.request_total + 1) r.request_total;
        duration_count = insert route (read 0 route r.duration_count + 1) r.duration_count;
        duration_sum =
            insert route (floats.plus (read floats.zero route r.duration_sum) o.duration)
              r.duration_sum;
      })

  module _ (r : MetricsRegistry F) where
    abbrev pub request_lines : Dict (Route × ℕ) ℕ → List String
    request_lines [] = []
    request_lines ((((method, path), status), value) ∷ items) =
        request_line r.node_role r.node_id method path status value ∷ request_lines items

    abbrev pub duration_lines : Dict Route ℕ → List String
    duration_lines [] = []
    duration_lines (((method, path), count) ∷ items) =
        count_line r.node_role r.node_id method path count
        ∷ sum_line r.node_role r.node_id method path
            (floats.nine_places (read floats.zero (method, path) r.duration_sum))
        ∷ duration_lines items

    abbrev pub gauge_lines : Dict String (GaugeValue F) → List String
    gauge_lines [] = []
    gauge_lines ((name, value) ∷ items) =
        gauge_type_line name
        ∷ gauge_line r.node_role r.node_id name (num floats.str value)
        ∷ gauge_lines items

    unfoldable pub rendered_lines : Dict String (GaugeValue F) → List String
    rendered_lines gauges =
        ("# HELP vecscaledb_request_total Total HTTP requests."
          ∷ "# TYPE vecscaledb_request_total counter" ∷ [])
        ++ (request_lines (sort_by (λ a b. request_lt a.0 b.0) r.request_total)
            ++ (("# HELP vecscaledb_request_duration_seconds HTTP request duration."
                  ∷ "# TYPE vecscaledb_request_duration_seconds summary" ∷ [])
                ++ (duration_lines (sort_by (λ a b. route_lt a.0 b.0) r.duration_count)
                    ++ (("# HELP vecscaledb_search_duration_seconds Search request duration."
                          ∷ "# TYPE vecscaledb_search_duration_seconds summary"
                          ∷ search_count_line r.node_role r.node_id r.search_count
                          ∷ search_sum_line r.node_role r.node_id
                              (floats.nine_places r.search_duration_sum)
                          ∷ [])
                        ++ gauge_lines (sort_by (λ a b. string_ltb a.0 b.0) gauges)))))

  -- `"\n".join(lines) + "\n"`
  abbrev pub with_ends : List String → String
  with_ends [] = ""
  with_ends (line ∷ lines) = put_line line (with_ends lines)

  unfoldable pub render : Option (Dict String (GaugeValue F)) → MetricsRegistry F → String
  unfolding rendered_lines
  render gauges r = with_ends (rendered_lines r (elim gauges [ none ↦ [] | some d ↦ d ]))

  -- `_collect_gauges`
  abbrev pub collect_gauges :
      Option (Outcome (Dict String (GaugeValue F))) → Outcome (Dict String (GaugeValue F))
  collect_gauges none = ok []
  collect_gauges (some values) = values

  -- `/metrics`
  unfoldable pub metrics :
      Option (Outcome (Dict String (GaugeValue F))) → MetricsRegistry F → Outcome String
  unfolding render
  metrics provider r = elim (collect_gauges provider) [
    | raise x ↦ raise x
    | ok gauges ↦ ok (render (some gauges) r)
  ]

  -- The status that the middleware counts: 500 for what raises.
  abbrev pub status_of : Outcome ℕ → ℕ
  status_of (ok status) = status
  status_of (raise x) = 500

  -- `_request_observability`: the answer of the next handler, here its status, is passed on.
  unfoldable pub request_observability : String → String → F → Outcome ℕ → Act (MetricsRegistry F) ℕ
  unfolding observe
  request_observability method path duration answer r = (
    answer,
    observe
        (record {
          method = method;
          path = path;
          status_code = status_of answer;
          duration = duration;
        })
        r,
  )

-- `request.headers.get("x-trace-id") or uuid.uuid4().hex`
abbrev pub trace_id_of : Option String → String → String
trace_id_of none uuid = uuid
trace_id_of (some id) uuid = if beq id "" then uuid else id
