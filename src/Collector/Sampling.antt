-- ===== src/Collector/Sampling.antt =====
-- The sampling loop of `collect` in collector/collect.py: a `Tick` is what one round meets. Writing
-- the rows, the snapshots and the events to files is taken to succeed.
pub mod Answered
pub mod Starts
pub mod Changes
pub mod Scaling
use text.Mathlib.Text.{◌==◌}
use kavach_ai.Common.{
  ℕ, zero, suc, ◌+◌, ◌-◌, ◌*◌, ◌/◌, ◌%◌, ◌^◌, String, ℤ, pos, negsuc, Float, finite, scaled,
  le_float, lt_float, leb, ltb, eqb, Bool, true, false, not, ◌&&◌, ◌||◌, Option, none, some, List,
  [], ◌∷◌, ◌++◌, map, length, any, if◌then◌else◌,
}
use kavach_ai.Py.{Value, Error, Result, ok, raised, describe, ◌>>=◌, ◌>>◌}
use kavach_ai.Collector.Query.{Response, queries, prom_query}
use kavach_ai.Collector.Rows.{Row, Validation, eq_reading, or_zero, validate_rows}

pub record Pod : Type 0 where
  pub uid : String
  pub phase : String
  -- the type and the status of each condition
  pub conditions : List (String × String)
  -- the restart count of each container
  pub restarts : List ℕ
  -- the image id of each container
  pub images : List String

pub record Event : Type 0 where
  pub uid : String
  pub version : String

pub record Tick : Type 0 where
  pub stamp : Float
  -- the answer to each query, by its name
  pub responses : String → Response
  pub pods : Result (List Pod)
  -- the replicas that the deployment asks for
  pub deployment : Result ℕ
  pub events : Result (List Event)
  pub duration : Float

-- the double operations whose rounding is not modelled, and `float(v)`
pub record Doubles : Type 0 where
  pub divide : Float → Float → Float
  pub multiply : Float → Float → Float
  pub to_float : Value → Result Float

abbrev pub Readings : Type 0
Readings = List (String × Option Float)

pub record Sample : Type 0 where
  pub readings : Readings
  pub scaling_event : Option Bool
  pub slo_violation : Option Bool
  pub error : String

-- `row.get(field)`
abbrev pub find : String → Readings → Option Float
find field [] = none
find field ((f, x) ∷ rest) = if f == field then x else find field rest

-- the row that `validate_rows` reads
abbrev pub row_of : Sample → Row
row_of s = record { reading = λ field. find field s.readings; error = s.error }

pub record Progress : Type 0 where
  pub seen_pods : List String
  -- the version of each event that was written last
  pub seen_events : List (String × String)
  pub samples : List Sample
  -- the events that were written
  pub written : List Event

-- an int as a double
abbrev pub whole : ℕ → Float
whole n = finite (scaled (pos n))

abbrev pub contains : String → List String → Bool
contains u us = any (λ v. v == u) us

abbrev pub count_pods : (Pod → Bool) → List Pod → ℕ
count_pods test [] = 0
count_pods test (p ∷ pods) = (if test p then 1 else 0) + count_pods test pods

abbrev pub is_ready : Pod → Bool
is_ready p = any (λ c. c.0 == "Ready" && c.1 == "True") p.conditions

abbrev pub is_pending : Pod → Bool
is_pending p = p.phase == "Pending"

abbrev pub total_restarts : List ℕ → ℕ
total_restarts [] = 0
total_restarts (n ∷ ns) = n + total_restarts ns

abbrev pub restart_count : List Pod → ℕ
restart_count [] = 0
restart_count (p ∷ pods) = total_restarts p.restarts + restart_count pods

-- `p.metadata.uid not in seen_pods`
abbrev pub is_new : List String → Pod → Bool
is_new seen p = not (contains p.uid seen)

abbrev pub uids : List Pod → List String
uids [] = []
uids (p ∷ pods) = p.uid ∷ uids pods

-- `{key: future.result() ...}`
unfoldable pub ask : Doubles → List (String × String) → (String → Response) → Result Readings
ask d [] responses = ok []
ask d ((key, query) ∷ rest) responses = do
  answer ← prom_query d.to_float (responses key)
  answers ← ask d rest responses
  ok ((key, answer) ∷ answers)

-- 0.25, 0.01 and 1e-9, which are these multiples of 2^-1074
abbrev pub quarter : Float
quarter = finite (pos (2 ^ 1072))

abbrev pub one_percent : Float
one_percent = finite (pos (5764607523034235 * 2 ^ 1015))

abbrev pub tiny : Float
tiny = finite (pos (4835703278458517 * 2 ^ 992))

abbrev pub max_float : Float → Float → Float
max_float x y = if lt_float x y then y else x

abbrev pub utilization : Doubles → Option Float → (ready : ℕ) → Option Float
utilization d none ready = none
utilization d (some cores) ready = some (
    d.multiply (d.divide cores (d.multiply quarter (whole (if ltb 1 ready then ready else 1))))
      (whole 100))

abbrev pub slo_violated : Doubles → (rps errors p95 : Option Float) → Option Bool
slo_violated d (some rps) (some errors) p95 = some (
    le_float (whole 300) (or_zero p95)
    || le_float one_percent (d.divide errors (max_float rps tiny)))
slo_violated d _ _ p95 = none

-- what `pods`, the deployment, the events and the queries of a round have answered
pub record Measured : Type 0 where
  pub pods : List Pod
  pub desired : ℕ
  pub events : List Event
  pub answers : Readings

-- the calls of the `try` that may raise
unfoldable pub measure : Doubles → Tick → Result Measured
unfolding ask
measure d t = do
  pods ← t.pods
  desired ← t.deployment
  events ← t.events
  answers ← ask d queries t.responses
  ok (record { pods = pods; desired = desired; events = events; answers = answers })

-- `bool(rows and rows[-1].get("desired_replicas") != desired)`
abbrev pub is_scaling : List Sample → ℕ → Bool
is_scaling [] desired = false
is_scaling (s ∷ []) desired =
    not (eq_reading (find "desired_replicas" s.readings) (some (whole desired)))
is_scaling (s ∷ s' ∷ rest) desired = is_scaling (s' ∷ rest) desired

unfoldable pub good_sample : Doubles → Tick → Measured → Progress → Sample
good_sample d t m s =
    let ready = count_pods is_ready m.pods in
    record {
      readings =
          ("timestamp", some t.stamp)
          ∷ ("ready_replicas", some (whole ready))
          ∷ ("desired_replicas", some (whole m.desired))
          ∷ ("pending_replicas", some (whole (count_pods is_pending m.pods)))
          ∷ ("restart_count", some (whole (restart_count m.pods)))
          ∷ ("pod_start_events", some (whole (count_pods (is_new s.seen_pods) m.pods)))
          ∷ ("cpu_utilization_pct", utilization d (find "cpu_usage_cores" m.answers) ready)
          ∷ ("snapshot_duration_s", some t.duration)
          ∷ m.answers;
      scaling_event = some (is_scaling s.samples m.desired);
      slo_violation =
          slo_violated d (find "current_rps" m.answers) (find "error_rps" m.answers)
            (find "latency_p95_ms" m.answers);
      error = "";
    }

-- the row after an exception
abbrev pub failed_sample : Tick → Error → Sample
failed_sample t e = record {
  readings = ("timestamp", some t.stamp) ∷ ("snapshot_duration_s", some t.duration) ∷ [];
  scaling_event = none;
  slo_violation = none;
  error = describe e;
}

-- `seen_events.get(uid)`
abbrev pub version_of : String → List (String × String) → Option String
version_of u [] = none
version_of u ((k, v) ∷ seen) = if k == u then some v else version_of u seen

-- `seen_events[uid] = version`
abbrev pub set_version : String → String → List (String × String) → List (String × String)
set_version u v [] = (u, v) ∷ []
set_version u v ((k, w) ∷ seen) = if k == u then (k, v) ∷ seen else (k, w) ∷ set_version u v seen

abbrev pub is_version : String → Option String → Bool
is_version v none = false
is_version v (some w) = v == w

-- the loop over the events: what is seen, and what is written
unfoldable pub write_events :
    List Event → List (String × String) × List Event → List (String × String) × List Event
write_events [] state = state
write_events (e ∷ events) (seen, written) = write_events events (
    if is_version e.version (version_of e.uid seen)
    then (seen, written)
    else (set_version e.uid e.version seen, written ++ e ∷ []))

-- one round; `seen_pods.update` is the set's union
unfoldable pub sample : Doubles → Tick → Progress → Progress
unfolding measure good_sample write_events
sample d t s = elim (measure d t) [
  | raised e ↦ record s { samples = s.samples ++ failed_sample t e ∷ [] }
  | ok m ↦
      let (seen, written) = write_events m.events (s.seen_events, s.written) in
      record {
        seen_pods = uids m.pods ++ s.seen_pods;
        seen_events = seen;
        samples = s.samples ++ good_sample d t m s ∷ [];
        written = written;
      }
]

unfoldable pub sample_all : Doubles → List Tick → Progress → Progress
sample_all d [] s = s
sample_all d (t ∷ ticks) s = sample_all d ticks (sample d t s)

abbrev pub drop {ℓ} : {A : Type ℓ} → ℕ → List A → List A
drop zero xs = xs
drop (suc n) [] = []
drop (suc n) (x ∷ xs) = drop n xs

-- before the first round: the pods that are there already
abbrev pub begun : List Pod → Progress
begun pods = record { seen_pods = uids pods; seen_events = []; samples = []; written = [] }

-- `a - b`, which is negative where the warmup is longer than the collection
abbrev pub difference : ℕ → ℕ → ℤ
difference a b = if ltb a b then negsuc (b - a - 1) else pos (a - b)

-- the loop, and the validation of its rows without the warmup
unfoldable pub collect :
    Doubles → (duration interval warmup : ℕ) → List Pod → List Tick → Progress × Validation
unfolding sample_all
collect d duration interval warmup pods ticks =
    let s = sample_all d ticks (begun pods) in
    (
      s,
      validate_rows (map row_of (drop (warmup / interval) s.samples))
          (difference (duration / interval) (warmup / interval)) interval,
    )

-- the arguments that `main` lets through
unfoldable pub valid_arguments : (duration interval : ℤ) → Bool
valid_arguments (pos duration) (pos interval) =
    leb 2 interval && leb interval 10 && leb interval duration && eqb (duration % interval) 0
valid_arguments _ _ = false
