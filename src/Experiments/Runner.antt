-- ===== src/Experiments/Runner.antt =====
-- The life cycle of `run` of experiments/run.py. The state holds the variables that the `finally` reads
-- and the calls that were made to change the cluster, the last one first, with those that raised; what
-- every call gives is in a `World`. Git
-- and the files are taken to succeed where no field of `World` gives their result.
pub mod Documents
pub mod Checksums
pub mod Life
pub mod Triple
pub mod Reached
pub mod Body
pub mod Order
pub mod Peel
pub mod Parts
pub mod Passed
pub mod Safe
pub mod Accepted
mod Tests
use text.Mathlib.Text.{◌==◌}
use kavach_ai.Common.{
  ℕ, zero, suc, ◌+◌, ◌*◌, ◌%◌, String, ℤ, pos, pos_part, ltb, eqb, Bool, true, false, not, ◌&&◌,
  ◌||◌, Option, none, some, List, [], ◌∷◌, ◌++◌, map, length, if◌then◌else◌,
}
use kavach_ai.Py.{
  Value, int, Fields, dict, subscript, eq_value, Error, value_error, runtime_error, other_error,
  Result, ok, raised, raise_if,
}
use kavach_ai.Workload.Config.{int_value}
use kavach_ai.Workload.Rng.{Rng}
use kavach_ai.Workload.Trace.{Row, compile_trace}
use kavach_ai.Workload.Trace.Rows.{Format}
use kavach_ai.Collector.Rows.{Reason, Validation, is_empty}
use kavach_ai.Collector.Clients.{Cluster}
use kavach_ai.Collector.Command.{Site}
use kavach_ai.Experiments.Calibration.{
  Request, Response, dispatched, keep, sorted_latencies, is_error, percentile, per_element, sum,
}
use kavach_ai.Experiments.Stable.{Poll, Wait, stable, timed_out, unfinished, wait_stable}
use kavach_ai.Experiments.Polling.{Look, wait_file}

-- the calls that are to change the cluster, and the copy of the load pod's files
pub data Call : Type 0 where
  delete_autoscaler : String → Call
  scale : ℕ → Call
  apply_autoscaler create_config_map create_pod authorize copy_data : Call
  delete_pod delete_config_map : Call

pub data Strategy : Type 0 where
  static hpa_candidate : Strategy

-- the texts of the source, by what they are built from
pub data Complaint : Type 0 where
  invalid_row : Reason → Complaint
  generator_drops_or_missing_requests trace_hash_mismatch : Complaint
  locust_exit : Value → Complaint
  locust_runtime_exceptions : Complaint
  failed artifact_export_failed : Error → Complaint

pub record Summary : Type 0 where
  pub requests : ℕ
  pub errors : ℕ
  pub error_fraction : Option (ℕ × ℕ)
  pub mean_latency : Option (ℕ × ℕ)
  pub p95_latency : Option ℕ
  pub p99_latency : Option ℕ

-- what is written to validation.json
pub record Verdict : Type 0 where
  pub passed : Bool
  pub reasons : List Complaint

pub record State : Type 0 where
  pub reasons : List Complaint
  -- `api` and `core` are set
  pub connected : Bool
  pub created_pod : Bool
  pub exported : Bool
  pub calls : List Call
  pub summary : Option Summary
  pub verdict : Option Verdict
  pub closed : Bool

abbrev pub begin : State
begin = record {
  reasons = [];
  connected = false;
  created_pod = false;
  exported = false;
  calls = [];
  summary = none;
  verdict = none;
  closed = false;
}

pub record Autoscaler : Type 0 where
  pub name : String
  pub target : String

pub record Service : Type 0 where
  pub kind : String
  pub selector : List (String × String)

-- replay.json
pub record ReplayFile : Type 0 where
  pub generator_valid : Bool
  pub trace_hash : String

pub record World : Type 0 where
  -- `git status --porcelain --untracked-files=no`, without the blanks around it
  pub tracked_changes : Result String
  -- what `make_clients` finds
  pub clients : Cluster
  pub autoscalers : Result (List Autoscaler)
  pub autoscaler_deleted : String → Result (Unit {0})
  pub scaled : Result (Unit {0})
  -- the clock before the wait for stable replicas, in ticks, and the ticks of a second
  pub now : ℕ
  pub second : ℕ
  pub polls : Result (List Poll)
  pub applied : Result (Unit {0})
  -- the deployment and the autoscalers that are written to files
  pub deployment : Result (Unit {0})
  pub listed : Result (Unit {0})
  pub service : Result Service
  pub config_map_created : Result (Unit {0})
  pub pod_created : Result (Unit {0})
  pub ready_deadline : ℕ
  pub ready : List Look
  -- the id of the load pod's image
  pub image_id : Result String
  pub authorized : Result (Unit {0})
  -- what `collect` finds
  pub collector : Site
  pub exit_deadline : ℕ
  pub exit : List Look
  pub copied : Result (Unit {0})
  pub replay : Result ReplayFile
  pub requests : Result (List Request)
  -- the number of rows of locust_exceptions.csv
  pub exceptions : Result ℕ
  pub copied_again : Result (Unit {0})
  pub pod_deleted : Result (Unit {0})
  pub config_map_deleted : Result (Unit {0})
  -- how the trace is written and hashed
  pub format : Format

-- code that changes the state, and may raise
abbrev pub Action : Type 0 → Type 0
Action A = State → State × Result A

abbrev pub after : {A B : Type 0} → State × Result A → (A → Action B) → State × Result B
after (s, raised e) next = (s, raised e)
after (s, ok x) next = next x s

infixl 5 ◌>>=◌ ◌>>◌
unfoldable pub ◌>>=◌ : {A B : Type 0} → Action A → (A → Action B) → Action B
(action >>= next) s = after (action s) next

abbrev pub ◌>>◌ : {A B : Type 0} → Action A → Action B → Action B
action >> next = action >>= λ _. next

-- a call that leaves the state alone
unfoldable pub give : {A : Type 0} → Result A → Action A
give r s = (s, r)

unfoldable pub change : (State → State) → Action (Unit {0})
change f s = (f s, ok tt)

-- a call to the cluster is logged when it is made: one that raises may have changed the cluster or not
unfoldable pub call : Call → Result (Unit {0}) → Action (Unit {0})
call c (raised e) s = (record s { calls = c ∷ s.calls }, raised e)
call c (ok _) s = (record s { calls = c ∷ s.calls }, ok tt)

unfoldable pub complain_if : Bool → Complaint → Action (Unit {0})
unfolding change give
complain_if true c = change (λ s. record s { reasons = s.reasons ++ c ∷ [] })
complain_if false c = give (ok tt)
