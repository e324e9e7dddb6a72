-- ===== src/Experiments/Calibration.antt =====
-- `summarize` of experiments/calibration.py, from the stages of the configuration and the rows of
-- requests.jsonl. Offsets and latencies are whole ticks, of which `second` make a second; a fraction
-- is its numerator and denominator, and 0.95 and 0.99 are exact: the rounding of doubles is not
-- modelled. Reading and writing the files is not modelled.
pub mod Windows
pub mod Percentiles
pub mod Keep
pub mod Lines
pub mod Seconds
pub mod Complete
mod Tests
use kavach_ai.Common.{
  ℕ, zero, suc, ◌+◌, ◌-◌, ◌*◌, ◌/◌, ltb, leb, Bool, true, false, ◌&&◌, ◌||◌, Option, none, some,
  List, [], ◌∷◌, length, if◌then◌else◌,
}

-- the status and the latency of a request that was sent
pub record Response : Type 0 where
  pub status : ℕ
  pub latency : ℕ

-- `response` is `none` for a row that was dropped
pub record Request : Type 0 where
  pub offset : ℕ
  pub response : Option Response

pub record Stage : Type 0 where
  pub duration : ℕ
  pub rps : ℕ

pub record StageReport : Type 0 where
  pub rps : ℕ
  pub start : ℕ
  pub finish : ℕ
  pub offered : ℕ
  pub dropped : ℕ
  pub error_fraction : Option (ℕ × ℕ)
  pub mean_latency : Option (ℕ × ℕ)
  pub p95_latency : Option ℕ
  pub p99_latency : Option ℕ

-- `left <= r["offset_s"] < right`, in ticks
abbrev pub within : (left right : ℕ) → Request → Bool
within left right r = leb left r.offset && ltb r.offset right

-- `[r for r in requests if ...]`
unfoldable pub keep {ℓ} : {A : Type ℓ} → (A → Bool) → List A → List A
keep test [] = []
keep test (x ∷ xs) = let rest = keep test xs in if test x then x ∷ rest else rest

-- the responses of the rows that were not dropped
unfoldable pub dispatched : List Request → List Response
dispatched [] = []
dispatched (r ∷ rows) =
    let rest = dispatched rows in elim r.response [ none ↦ rest | some response ↦ response ∷ rest ]

unfoldable pub insert : ℕ → List ℕ → List ℕ
insert x [] = x ∷ []
insert x (y ∷ ys) = let rest = insert x ys in if leb x y then x ∷ y ∷ ys else y ∷ rest

-- `sorted(r["latency_ms"] for r in responses)`
unfoldable pub sorted_latencies : List Response → List ℕ
sorted_latencies [] = []
sorted_latencies (r ∷ responses) = insert r.latency (sorted_latencies responses)

abbrev pub is_error : Response → Bool
is_error r = ltb r.status 200 || leb 400 r.status

abbrev pub sum : List ℕ → ℕ
sum [] = 0
sum (n ∷ ns) = n + sum ns

-- `xs[i]`
unfoldable pub at : ℕ → List ℕ → Option ℕ
at i [] = none
at zero (x ∷ xs) = some x
at (suc i) (x ∷ xs) = at i xs

-- `latencies[int(q * (len(latencies) - 1))] if latencies else None`, for q percent
unfoldable pub percentile : (q : ℕ) → List ℕ → Option ℕ
percentile q [] = none
percentile q (x ∷ xs) = at (q * length xs / 100) (x ∷ xs)

-- `n / len(xs) if xs else None`
abbrev pub per_element {ℓ} : {A : Type ℓ} → ℕ → List A → Option (ℕ × ℕ)
per_element n [] = none
per_element n (x ∷ xs) = some (n, suc (length xs))

unfoldable pub stage_report : (second left right rps : ℕ) → List Request → StageReport
unfolding keep dispatched sorted_latencies percentile
stage_report second left right rps requests =
    let rows = keep (within (left * second) (right * second)) requests in
    let responses = dispatched rows in
    let latencies = sorted_latencies responses in
    record {
      rps = rps;
      start = left;
      finish = right;
      offered = length rows;
      dropped = length rows - length responses;
      error_fraction = per_element (length (keep is_error responses)) responses;
      mean_latency = per_element (sum latencies) latencies;
      p95_latency = percentile 95 latencies;
      p99_latency = percentile 99 latencies;
    }

-- the loop over the stages; the first 10 seconds of each are left out
unfoldable pub summarize : (second elapsed : ℕ) → List Stage → List Request → List StageReport
unfolding stage_report
summarize second elapsed [] requests = []
summarize second elapsed (stage ∷ stages) requests =
    stage_report second (elapsed + 10) (elapsed + stage.duration) stage.rps requests
    ∷ summarize second (elapsed + stage.duration) stages requests
