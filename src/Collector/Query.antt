-- ===== src/Collector/Query.antt =====
-- `QUERIES` and `prom_query` of collector/collect.py. What the HTTP client gives and `float(v)` are
-- arguments.
pub mod Number
use kavach_ai.Common.{
  String, cat, ℕ, Float, isfinite, eqb, Bool, true, false, not, Option, none, some, List, [], ◌∷◌,
  if◌then◌else◌,
}
use kavach_ai.Py.{
  Value, eq_text, truthy, len, element, get_of, subscript, value_error, Result, ok, raise_if, ◌>>=◌,
  ◌>>◌,
}

abbrev pub rate : String
rate = "kavach_requests_total{job=\"payment-api\"}"

abbrev pub cpu : String
cpu = "kavach_container_cpu_seconds_total{job=\"payment-api\"}"

abbrev pub mem : String
mem = "kavach_container_memory_working_set_bytes{job=\"payment-api\"}"

-- the query for a quantile, which is written with two digits
abbrev pub latency_query : String → String
latency_query q =
    cat "1000 * histogram_quantile(" (
      cat q ", sum by(le)(rate(kavach_request_duration_seconds_bucket{job=\"payment-api\"}[10s])))")

abbrev pub queries : List (String × String)
queries =
    ("current_rps", cat "sum(rate(" (cat rate "[10s]))"))
    ∷ (
      "success_rps",
      "sum(rate(kavach_requests_total{job=\"payment-api\",status=~\"2..|3..\"}[10s])) or vector(0)",
    )
    ∷ (
      "error_rps",
      "sum(rate(kavach_requests_total{job=\"payment-api\",status=~\"4..|5..\"}[10s])) or vector(0)",
    )
    ∷ (
      "latency_mean_ms",
      "1000 * sum(rate(kavach_request_duration_seconds_sum{job=\"payment-api\"}[10s])) / sum(rate(kavach_request_duration_seconds_count{job=\"payment-api\"}[10s]))",
    )
    ∷ ("latency_p50_ms", latency_query "0.5")
    ∷ ("latency_p95_ms", latency_query "0.95")
    ∷ ("latency_p99_ms", latency_query "0.99")
    ∷ ("cpu_usage_cores", cat "sum(rate(" (cat cpu "[10s]))"))
    ∷ ("memory_bytes", cat "sum(" (cat mem ")"))
    ∷ (
      "cpu_source_timestamp", "min(kavach_container_sample_timestamp_seconds{job=\"payment-api\"})",
    )
    ∷ (
      "memory_source_timestamp",
      "min(kavach_container_sample_timestamp_seconds{job=\"payment-api\"})",
    )
    ∷ ("app_source_timestamp", cat "min(timestamp(" (cat rate "))"))
    ∷ ("app_targets_up", "sum(up{job=\"payment-api\"})")
    ∷ ("app_targets_count", "count(up{job=\"payment-api\"})")
    ∷ ("cadvisor_up", "min(up{job=\"cadvisor\"})")
    ∷ []

-- the answer to the request
pub record Response : Type 0 where
  -- `http.get` and `raise_for_status`
  pub fetched : Result (Unit {0})
  -- `json()`
  pub json : Result Value

-- `number if math.isfinite(number) else None`
abbrev pub finite_only : Float → Option Float
finite_only x = if isfinite x then some x else none

-- the one sample of a result that is not empty
unfoldable pub single : (Value → Result Float) → Value → Result (Option Float)
single to_float result = do
  n ← len result
  raise_if (not (eqb n 1)) (value_error "Expected one aggregate Prometheus sample")
  sample ← element result 0
  pair ← subscript sample "value"
  number ← element pair 1
  x ← to_float number
  ok (finite_only x)

unfoldable pub prom_query : (Value → Result Float) → Response → Result (Option Float)
prom_query to_float response = do
  response.fetched
  payload ← response.json
  status ← get_of payload "status"
  raise_if (not (eq_text "success" status)) (value_error "Prometheus query failed")
  found ← subscript payload "data"
  result ← subscript found "result"
  if truthy result then single to_float result else ok none
