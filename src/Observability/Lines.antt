-- ===== src/Observability/Lines.antt =====
-- vecscaledb/observability.py: the lines of `MetricsRegistry.render`.
use Prim.Native.String.{String, ◌++◌}
use distributed_vector_db.Prelude.{ℕ, Bool, true, false}
use distributed_vector_db.Prelude.Strings.{decimal}
use distributed_vector_db.Observability.Escaping.{esc}

-- A gauge, with floats of the type `F`.
pub data GaugeValue (F : Type 0) : Type 0 where
  int_value : ℕ → GaugeValue F
  float_value : F → GaugeValue F
  bool_value : Bool → GaugeValue F

-- `_num`
abbrev pub num : {F : Type 0} → (F → String) → GaugeValue F → String
num str (bool_value true) = "1"
num str (bool_value false) = "0"
num str (int_value n) = decimal n
num str (float_value x) = str x

-- `node_role="...",node_id="..."`
abbrev pub node_labels : String → String → String
node_labels role id = "node_role=\"" ++ (esc role ++ ("\",node_id=\"" ++ (esc id ++ "\"")))

abbrev pub route_labels : String → String → String → String → String
route_labels role id method path =
    node_labels role id ++ (",method=\"" ++ (esc method ++ ("\",path=\"" ++ (esc path ++ "\""))))

abbrev pub sample : String → String → String → String
sample name labels value = name ++ ("{" ++ (labels ++ ("} " ++ value)))

abbrev pub request_line : String → String → String → String → ℕ → ℕ → String
request_line role id method path status value =
    sample "vecscaledb_request_total"
      (route_labels role id method path ++ (",status=\"" ++ (decimal status ++ "\"")))
      (decimal value)

abbrev pub count_line : String → String → String → String → ℕ → String
count_line role id method path count =
    sample "vecscaledb_request_duration_seconds_count" (route_labels role id method path)
      (decimal count)

abbrev pub sum_line : String → String → String → String → String → String
sum_line role id method path sum =
    sample "vecscaledb_request_duration_seconds_sum" (route_labels role id method path) sum

abbrev pub search_count_line : String → String → ℕ → String
search_count_line role id count =
    sample "vecscaledb_search_duration_seconds_count" (node_labels role id) (decimal count)

abbrev pub search_sum_line : String → String → String → String
search_sum_line role id sum =
    sample "vecscaledb_search_duration_seconds_sum" (node_labels role id) sum

abbrev pub gauge_type_line : String → String
gauge_type_line name = "# TYPE vecscaledb_" ++ (name ++ " gauge")

abbrev pub gauge_line : String → String → String → String → String
gauge_line role id name value = sample ("vecscaledb_" ++ name) (node_labels role id) value

-- A line and its end, in front of a text.
abbrev pub put_line : String → String → String
put_line line text = line ++ ("\n" ++ text)
