-- ===== src/Collector/Rows/Readings.antt =====
-- What a good row of `validate_rows` is, and what each of its tests says of a reading.
use mathlib.Core.List.{List, [], ◌∷◌}
use kavach_ai.Common.{
  append-nil_inv, ℕ, ◌+◌, ◌*◌, ◌^◌, ◌≤◌, ◌<◌, ◌≡◌, refl, String, ℤ, pos, negsuc, Float, nan, inf,
  neg_inf, finite, lt_float, Bool, true, false, not, ◌||◌, Option, none, some, All, arith,
}
use kavach_ai.Py.{eq_float}
use kavach_ai.Collector.Rows.{
  missing_latency, Row, Reason, required, sources, latencies, when, for_each, is_invalid, is_gap,
  is_stale, exceeds, lacks_number, latency_reasons, eq_reading, or_zero, halves, zero_float,
}

-- 2^1074 units of a double are one second, and 2^1073 are half of one
abbrev pub second : ℕ
second = 2 ^ 1074

abbrev pub half_second : ℕ
half_second = 2 ^ 1073

-- the row holds a finite number of at least 0 there
abbrev pub Reads : Row → String → ℕ → Type 0
Reads row field n = row.reading field ≡ some (finite (pos n))

-- the time of a row after the one before it, at most one and a half intervals later
abbrev pub InCadence : (interval : ℕ) → Option ℕ → ℕ → Type 0
InCadence interval none time = Unit
InCadence interval (some previous) time =
    (previous < time) × (time ≤ previous + 3 * interval * half_second)

-- a source's own time, at most six seconds before the row's and at most one after it
abbrev pub IsFresh : Row → ℕ → String → Type 0
IsFresh row time field =
    (n : ℕ) × (Reads row field n × ((time ≤ n + 6 * second) × (n ≤ time + second)))

abbrev pub IsNumber : Row → String → Type 0
IsNumber row field = (x : ℤ) × (row.reading field ≡ some (finite x))

pub record IsGood (interval : ℕ) (previous : Option ℕ) (row : Row) (time : ℕ) : Type 0 where
  pub required_read : All (λ field. (n : ℕ) × Reads row field n) required
  pub time_read : Reads row "timestamp" time
  pub in_cadence : InCadence interval previous time
  pub fresh : All (IsFresh row time) sources
  pub on_time : (n : ℕ) × (Reads row "snapshot_duration_s" n × (n ≤ interval * second))
  pub latencies_read :
      (n : ℕ) × (Reads row "current_rps" n × (0 < n → All (IsNumber row) latencies))
  pub cadvisor : Reads row "cadvisor_up" second
  -- every target that counts is up, and there are no fewer than ready replicas
  pub scraped :
      (up ready : ℕ) × (Reads row "app_targets_up" up
        × (Reads row "app_targets_count" up × (Reads row "ready_replicas" ready × (ready ≤ up))))
  pub error_free : row.error ≡ ""

-- good rows, each after the time of the one before it
pub data AreGood (interval : ℕ) : Option ℕ → List Row → Type 0 where
  done : {previous : Option ℕ} → AreGood interval previous []
  good :
      {previous : Option ℕ} {row : Row} {rows : List Row} (time : ℕ)
      → IsGood interval previous row time
      → AreGood interval (some time) rows
      → AreGood interval previous (row ∷ rows)

pub when-nil : (b : Bool) (r : Reason) → when b r ≡ [] → b ≡ false
when-nil true r h = absurd (cc h)
when-nil false r h = refl

pub for_each-nil :
    (fields : List String) (test : String → Bool) (r : String → Reason)
    → for_each fields (λ field. when (test field) (r field)) ≡ []
    → All (λ field. test field ≡ false) fields
for_each-nil [] test r h = tt
for_each-nil (field ∷ fields) test r h =
    let (a, b) = append-nil_inv (when (test field) (r field)) _ h in
    (when-nil (test field) (r field) a, for_each-nil fields test r b)

pub valid_number : (o : Option Float) → is_invalid o ≡ false → (n : ℕ) × (o ≡ some (finite (pos n)))
valid_number none h = absurd (cc h)
valid_number (some nan) h = absurd (cc h)
valid_number (some inf) h = absurd (cc h)
valid_number (some neg_inf) h = absurd (cc h)
valid_number (some (finite (pos n))) h = (n, refl)
valid_number (some (finite (negsuc n))) h = absurd (ground arith)

-- a time as the number that the loop keeps
abbrev pub stamped : Option ℕ → Option Float
stamped none = none
stamped (some t) = some (finite (pos t))

pub gap_sound :
    (interval : ℕ) (previous : Option ℕ) (time : ℕ)
    → is_gap interval (stamped previous) (finite (pos time)) ≡ false
    → InCadence interval previous time
gap_sound interval none time h = tt
gap_sound interval (some p) time h = ground arith

pub IsFresh-sound :
    (row : Row) (time : ℕ) (field : String) (n : ℕ)
    → Reads row field n
    → is_stale (finite (pos time)) (row.reading field) ≡ false
    → IsFresh row time field
IsFresh-sound row time field n e h =
    let k : is_stale (finite (pos time)) (some (finite (pos n))) ≡ false = rw e at h in
    (n, (e, ground arith))

pub IsNumber-sound :
    (row : Row) (field : String) → lacks_number (row.reading field) ≡ false → IsNumber row field
IsNumber-sound row field h = go (row.reading field) refl h
  where
    go : (o : Option Float) → row.reading field ≡ o → lacks_number o ≡ false → IsNumber row field
    go none e k = absurd (cc k)
    go (some nan) e k = absurd (cc k)
    go (some inf) e k = absurd (cc k)
    go (some neg_inf) e k = absurd (cc k)
    go (some (finite x)) e k = (x, e)

pub All-imp :
    {P Q : String → Type 0} (fields : List String)
    → ((field : String) → P field → Q field)
    → All P fields
    → All Q fields
All-imp [] f h = tt
All-imp (field ∷ fields) f (p, h) = (f field p, All-imp fields f h)

pub latencies_sound :
    (index : ℕ) (row : Row) (n : ℕ)
    → Reads row "current_rps" n
    → latency_reasons index row ≡ []
    → 0 < n
    → All (IsNumber row) latencies
latencies_sound index row n e h positive =
    let above : exceeds (row.reading "current_rps") zero_float ≡ true = rw e (ground arith) in
    All-imp latencies (IsNumber-sound row) (
      for_each-nil latencies (λ field. lacks_number (row.reading field)) (missing_latency index)
        (rw above at h))

pub exceeds_sound :
    (row : Row) (field : String) (n interval : ℕ)
    → Reads row field n
    → exceeds (row.reading field) (halves (2 * interval)) ≡ false
    → n ≤ interval * second
exceeds_sound row field n interval e h =
    let k : exceeds (some (finite (pos n))) (halves (2 * interval)) ≡ false = rw e at h in
    ground arith

pub cadvisor_sound :
    (row : Row) (n : ℕ)
    → Reads row "cadvisor_up" n
    → not (eq_reading (row.reading "cadvisor_up") (some (halves 2))) ≡ false
    → Reads row "cadvisor_up" second
unfolding eq_float
cadvisor_sound row n e h =
    let k : not (eq_reading (some (finite (pos n))) (some (halves 2))) ≡ false = rw e at h in
    let same : n ≡ second = ground arith in rw (← same) e

pub scraped_sound :
    (row : Row) (up count ready : ℕ)
    → Reads row "app_targets_up" up
    → Reads row "app_targets_count" count
    → Reads row "ready_replicas" ready
    → (not (eq_reading (row.reading "app_targets_up") (row.reading "app_targets_count"))
        || lt_float
            (or_zero (row.reading "app_targets_up"))
            (or_zero (row.reading "ready_replicas")))
      ≡ false
    → (up ≡ count) × (ready ≤ up)
unfolding eq_float
scraped_sound row up count ready e f g h =
    let k : (not (eq_reading (some (finite (pos up))) (some (finite (pos count))))
          || lt_float (or_zero (some (finite (pos up)))) (or_zero (some (finite (pos ready)))))
        ≡ false =
      rw (e, f, g) at h in
    (ground arith, ground arith)
