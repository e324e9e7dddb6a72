-- ===== src/Collector/Rows.antt =====
-- `validate_rows` of collector/collect.py. A row holds what `collect` puts into it: under the fields
-- that are read here numbers or None, and under `error` a text. The rounding of a difference of two
-- numbers is not modelled.
pub mod Readings
pub mod Good
use text.Mathlib.Text.{◌==◌}
use kavach_ai.Common.{
  ℕ, suc, ◌+◌, ◌*◌, ◌-◌, ◌^◌, String, ℤ, pos, negsuc, pos_part, neg_part, Float, nan, inf, neg_inf,
  finite, isfinite, le_float, lt_float, leb, eqb, Bool, true, false, not, ◌&&◌, ◌||◌, Option, none,
  some, List, [], ◌∷◌, ◌++◌, length, float_unit, if◌then◌else◌,
}
use kavach_ai.Py.{eq_float}

pub record Row : Type 0 where
  -- `row.get(field)`: none is None, or a key that is missing
  pub reading : String → Option Float
  -- `row.get("error")`: a key that is missing is the empty text
  pub error : String

abbrev pub required : List String
required =
    "timestamp" ∷ "current_rps" ∷ "success_rps" ∷ "error_rps" ∷ "cpu_usage_cores" ∷ "memory_bytes"
    ∷ "ready_replicas" ∷ "desired_replicas" ∷ "pending_replicas" ∷ "restart_count"
    ∷ "pod_start_events" ∷ "app_source_timestamp" ∷ "cpu_source_timestamp"
    ∷ "memory_source_timestamp" ∷ "app_targets_up" ∷ "app_targets_count" ∷ "cadvisor_up"
    ∷ "snapshot_duration_s" ∷ []

abbrev pub sources : List String
sources = "app_source_timestamp" ∷ "cpu_source_timestamp" ∷ "memory_source_timestamp" ∷ []

abbrev pub latencies : List String
latencies = "latency_mean_ms" ∷ "latency_p50_ms" ∷ "latency_p95_ms" ∷ "latency_p99_ms" ∷ []

-- the texts of the source, by what they are built from
pub data Reason : Type 0 where
  sample_count : (found : ℕ) (expected : ℤ) → Reason
  missing_or_invalid stale_or_future missing_latency : (index : ℕ) → (field : String) → Reason
  cadence_gap snapshot_exceeds_interval cadvisor_unavailable incomplete_app_scrapes :
      (index : ℕ) → Reason
  collection_error : (index : ℕ) → (error : String) → Reason

abbrev pub sub_ℤ : ℤ → ℤ → ℤ
sub_ℤ a b =
    let u = pos_part a + neg_part b in
    let v = pos_part b + neg_part a in if leb v u then pos (u - v) else negsuc (v - u - 1)

-- `a - b` for doubles
abbrev pub minus : Float → Float → Float
minus nan _ = nan
minus inf nan = nan
minus inf inf = nan
minus inf _ = inf
minus neg_inf nan = nan
minus neg_inf neg_inf = nan
minus neg_inf _ = neg_inf
minus (finite a) nan = nan
minus (finite a) inf = neg_inf
minus (finite a) neg_inf = inf
minus (finite a) (finite b) = finite (sub_ℤ a b)

-- the number of half seconds, as a double
abbrev pub halves : ℕ → Float
halves n = finite (pos (n * 2 ^ 1073))

abbrev pub zero_float : Float
zero_float = finite (pos 0)

-- `if test: reasons.append(reason)`
abbrev pub when : Bool → Reason → List Reason
when true reason = reason ∷ []
when false reason = []

abbrev pub for_each : List String → (String → List Reason) → List Reason
for_each [] f = []
for_each (field ∷ fields) f = f field ++ for_each fields f

-- `value` is no number, not finite or negative
abbrev pub is_invalid : Option Float → Bool
is_invalid none = true
is_invalid (some x) = not (isfinite x) || lt_float x zero_float

abbrev pub is_gap : (interval : ℕ) → Option Float → Float → Bool
is_gap interval none stamp = false
is_gap interval (some previous) stamp = not (
    lt_float zero_float (minus stamp previous)
    && le_float (minus stamp previous) (halves (3 * interval)))

-- `not -1 <= stamp - source <= 6`
abbrev pub is_stale : Float → Option Float → Bool
is_stale stamp none = false
is_stale stamp (some source) = not (
    le_float (finite (negsuc (2 ^ 1074 - 1))) (minus stamp source)
    && le_float (minus stamp source) (halves 12))

abbrev pub stamp_reasons :
    (index interval : ℕ) → (previous stamp : Option Float) → Row → List Reason
stamp_reasons index interval previous none row = []
stamp_reasons index interval previous (some stamp) row =
    when (is_gap interval previous stamp) (cadence_gap index)
    ++ for_each sources
        (λ field. when (is_stale stamp (row.reading field)) (stale_or_future index field))

-- `value > bound`, false for None
abbrev pub exceeds : Option Float → Float → Bool
exceeds none bound = false
exceeds (some x) bound = lt_float bound x

-- `value is None or not math.isfinite(value)`
abbrev pub lacks_number : Option Float → Bool
lacks_number none = true
lacks_number (some x) = not (isfinite x)

abbrev pub latency_reasons : ℕ → Row → List Reason
latency_reasons index row =
    if exceeds (row.reading "current_rps") zero_float
    then for_each latencies
        (λ field. when (lacks_number (row.reading field)) (missing_latency index field))
    else []

-- `a == b`
abbrev pub eq_reading : Option Float → Option Float → Bool
eq_reading none none = true
eq_reading (some x) (some y) = eq_float x y
eq_reading _ _ = false

-- `value or 0`
abbrev pub or_zero : Option Float → Float
or_zero none = zero_float
or_zero (some x) = x

abbrev pub required_reasons : ℕ → Row → List Reason
required_reasons index row =
    for_each required
      (λ field. when (is_invalid (row.reading field)) (missing_or_invalid index field))

abbrev pub duration_reasons : (index interval : ℕ) → Row → List Reason
duration_reasons index interval row =
    when (exceeds (row.reading "snapshot_duration_s") (halves (2 * interval)))
      (snapshot_exceeds_interval index)

abbrev pub cadvisor_reasons : ℕ → Row → List Reason
cadvisor_reasons index row =
    when (not (eq_reading (row.reading "cadvisor_up") (some (halves 2))))
      (cadvisor_unavailable index)

abbrev pub lacks_scrapes : Row → Bool
lacks_scrapes row =
    not (eq_reading (row.reading "app_targets_up") (row.reading "app_targets_count"))
    || lt_float (or_zero (row.reading "app_targets_up")) (or_zero (row.reading "ready_replicas"))

abbrev pub scrape_reasons : ℕ → Row → List Reason
scrape_reasons index row = when (lacks_scrapes row) (incomplete_app_scrapes index)

abbrev pub error_reasons : ℕ → Row → List Reason
error_reasons index row = when (not (row.error == "")) (collection_error index row.error)

-- one round of the loop over the rows
unfoldable pub row_reasons : (index interval : ℕ) → (previous : Option Float) → Row → List Reason
row_reasons index interval previous row =
    required_reasons index row
    ++ stamp_reasons index interval previous (row.reading "timestamp") row
    ++ duration_reasons index interval row
    ++ latency_reasons index row
    ++ cadvisor_reasons index row
    ++ scrape_reasons index row
    ++ error_reasons index row

-- `previous` after a row
abbrev pub latest : Option Float → Row → Option Float
latest previous row = elim (row.reading "timestamp") [ none ↦ previous | some stamp ↦ some stamp ]

unfoldable pub rows_reasons : (index interval : ℕ) → Option Float → List Row → List Reason
rows_reasons index interval previous [] = []
rows_reasons index interval previous (row ∷ rows) =
    row_reasons index interval previous row
    ++ rows_reasons (suc index) interval (latest previous row) rows

pub record Validation : Type 0 where
  -- "PASS", or "INVALID"
  pub passed : Bool
  pub found : ℕ
  pub expected : ℤ
  pub reasons : List Reason

abbrev pub is_empty {ℓ} : {A : Type ℓ} → List A → Bool
is_empty [] = true
is_empty (_ ∷ _) = false

-- `len(rows) == expected`, where the count that is expected may be negative
abbrev pub is_count : ℕ → ℤ → Bool
is_count n (pos m) = eqb n m
is_count n (negsuc m) = false

unfoldable pub validate_rows : List Row → (expected : ℤ) (interval : ℕ) → Validation
unfolding rows_reasons
validate_rows rows expected interval =
    let reasons =
      when (not (is_count (length rows) expected)) (sample_count (length rows) expected)
      ++ rows_reasons 0 interval none rows in
    record {
      passed = is_empty reasons && not (is_empty rows);
      found = length rows;
      expected = expected;
      reasons = reasons;
    }
