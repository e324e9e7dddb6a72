-- ===== src/Experiments/Runner/Life.antt =====
-- What `run` and `main` of experiments/run.py do, from the configuration's fields on. The summary keeps
-- a fraction as its numerator and denominator.
use text.Mathlib.Text.{◌==◌}
use kavach_ai.Common.{
  ℕ, ◌+◌, ◌*◌, ◌%◌, String, pos, pos_part, finite, float_unit, ltb, leb, eqb, Bool, true, false,
  not, ◌&&◌, ◌||◌, Option, none, some, List, [], ◌∷◌, ◌++◌, map, length, if◌then◌else◌,
}
use kavach_ai.Py.{
  Value, int, bool, float, Fields, dict, subscript, eq_value, value_error, runtime_error,
  type_error, other_error, Result, ok, raised, raise_if,
}
use kavach_ai.Workload.Config.{int_value, validate_config}
use kavach_ai.Workload.Rng.{Rng}
use kavach_ai.Workload.Trace.{Row, rounds, compile_trace}
use kavach_ai.Workload.Trace.Rows.{trace_hash}
use kavach_ai.Collector.Rows.{is_empty}
use kavach_ai.Collector.Sampling.{Doubles}
use kavach_ai.Collector.Clients.{make_clients}
use kavach_ai.Collector.Command.{collect_all}
use kavach_ai.Experiments.Runner.Documents.{run_config}
use kavach_ai.Experiments.Calibration.{
  Request, dispatched, keep, sorted_latencies, is_error, percentile, per_element, sum,
}
use kavach_ai.Experiments.Stable.{Wait, stable, wait_stable}
use kavach_ai.Experiments.Polling.{wait_file}
use kavach_ai.Experiments.Runner.{
  delete_autoscaler, scale, apply_autoscaler, create_config_map, create_pod, authorize, copy_data,
  delete_pod, delete_config_map, Strategy, static, hpa_candidate, invalid_row,
  generator_drops_or_missing_requests, trace_hash_mismatch, locust_exit, locust_runtime_exceptions,
  failed, artifact_export_failed, Summary, Verdict, State, begin, Autoscaler, World, Action, ◌>>=◌,
  ◌>>◌, give, change, call, complain_if,
}

-- the loop over the autoscalers
unfoldable pub delete_autoscalers :
    (String → Result (Unit {0})) → List Autoscaler → Action (Unit {0})
delete_autoscalers deleted [] = give (ok tt)
delete_autoscalers deleted (hpa ∷ rest) = do
  if hpa.target == "payment-api"
      then call (delete_autoscaler hpa.name) (deleted hpa.name)
      else give (ok tt)
  delete_autoscalers deleted rest

-- the `else` of the wait for stable replicas; where the list of polls ends, the next reading of the clock
-- is at the deadline
abbrev pub stable_or_raise : Wait → Result (Unit {0})
stable_or_raise stable = ok tt
stable_or_raise _ = raised (other_error "TimeoutError" "Payment replica state never stabilized")

abbrev pub apply_strategy : World → Strategy → Action (Unit {0})
apply_strategy w static = give (ok tt)
apply_strategy w hpa_candidate = call apply_autoscaler w.applied

abbrev pub same_selector : List (String × String) → Bool
same_selector ((k, v) ∷ []) = k == "app" && v == "payment-api"
same_selector _ = false

-- up to the refusal of an unexpected service
unfoldable pub prepare : World → Strategy → (replicas : ℕ) → Action (Unit {0})
unfolding delete_autoscalers
prepare w strategy replicas = do
  give (make_clients w.collector.net w.clients)
  change (λ s. record s { connected = true })
  existing ← give w.autoscalers
  delete_autoscalers w.autoscaler_deleted existing
  call (scale replicas) w.scaled
  polls ← give w.polls
  give (stable_or_raise (wait_stable replicas (w.now + 120 * w.second) (10 * w.second) none polls))
  apply_strategy w strategy
  give w.deployment
  give w.listed
  service ← give w.service
  give (
      raise_if (not (service.kind == "ClusterIP") || not (same_selector service.selector))
        (runtime_error "Unexpected payment Service; refusing workload"))

-- the trace, and the config map of the load pod
unfoldable pub offer : Rng → World → Fields → Action (List Row)
offer r w cfg = do
  trace ← give (compile_trace r cfg)
  call create_config_map w.config_map_created
  give (ok trace)

-- from the creation of the load pod, whose manifest `Documents` holds, up to the copy of its files; gives
-- what the load pod wrote when it ended
unfoldable pub operate : Rng → Doubles → World → Strategy → Fields → Action (Value × List Row)
unfolding offer
operate r d w strategy cfg = do
  trace ← offer r w cfg
  call create_pod w.pod_created
  change (λ s. record s { created_pod = true })
  give (wait_file w.ready_deadline w.ready)
  image ← give w.image_id
  call authorize w.authorized
  config ← give (run_config strategy cfg (trace_hash w.format trace) image)
  give (subscript (dict cfg) "name")
  seconds ← give (subscript (dict cfg) "duration_s")
  duration ← give (rounds seconds)
  collected ← give (collect_all d w.collector duration 2 "http://127.0.0.1:9090" config)
  change (λ s. record s { reasons = s.reasons ++ map invalid_row collected.validation.reasons })
  finished ← give (wait_file w.exit_deadline w.exit)
  call copy_data w.copied
  change (λ s. record s { exported = true })
  give (ok (finished, trace))

unfoldable pub summarize : (warmup : ℕ) → List Request → Summary
unfolding keep dispatched sorted_latencies percentile
summarize warmup requests =
    let measured = dispatched (keep (λ r. leb warmup r.offset) requests) in
    let latencies = sorted_latencies measured in
    record {
      requests = length measured;
      errors = length (keep is_error measured);
      error_fraction = per_element (length (keep is_error measured)) measured;
      mean_latency = per_element (sum latencies) latencies;
      p95_latency = percentile 95 latencies;
      p99_latency = percentile 99 latencies;
    }

-- the judgement of the copied files, and their summary
unfoldable pub judge : World → Fields → Value × List Row → Action (Unit {0})
unfolding summarize
judge w cfg (finished, trace) = do
  replay ← give w.replay
  requests ← give w.requests
  complain_if (not replay.generator_valid || not (eqb (length requests) (length trace)))
      generator_drops_or_missing_requests
  complain_if (not (replay.trace_hash == trace_hash w.format trace)) trace_hash_mismatch
  code ← give (subscript finished "exit_code")
  complain_if (not (eq_value code (int (pos 0)))) (locust_exit code)
  exceptions ← give w.exceptions
  complain_if (not (eqb exceptions 0)) locust_runtime_exceptions
  warmup ← give (subscript (dict cfg) "warmup_s")
  change (λ s. record s {
    summary = some (summarize (pos_part (int_value warmup) * w.second) requests);
  })

-- the `try`
unfoldable pub body : Rng → Doubles → World → Strategy → (replicas : ℕ) → Fields → Action (Unit {0})
unfolding prepare operate judge
body r d w strategy replicas cfg = do
  prepare w strategy replicas
  ended ← operate r d w strategy cfg
  judge w cfg ended

-- the `except`
abbrev pub caught : State × Result (Unit {0}) → State
caught (s, ok _) = s
caught (s, raised e) = record s { reasons = s.reasons ++ failed e ∷ [] }

-- the second try to copy the files
abbrev pub copy_again : Result (Unit {0}) → State → State
copy_again (ok _) s = record s { exported = true; calls = copy_data ∷ s.calls }
copy_again (raised e) s = record s {
  reasons = s.reasons ++ artifact_export_failed e ∷ [];
  calls = copy_data ∷ s.calls;
}

abbrev pub export : World → State → State
export w s = if s.created_pod && not s.exported then copy_again w.copied_again s else s

abbrev pub judged : State → State
judged s = record s { verdict = some (record { passed = is_empty s.reasons; reasons = s.reasons }) }

-- the end of the `finally`
unfoldable pub clean : World → (connected exported : Bool) → Action (Unit {0})
clean w connected exported = do
  if connected && exported
      then (call delete_pod w.pod_deleted >> call delete_config_map w.config_map_deleted)
      else give (ok tt)
  if connected then change (λ s. record s { closed = true }) else give (ok tt)

-- the `finally`, and the value that is returned
unfoldable pub finish : World → State → State × Result (Unit {0})
unfolding clean
finish w s = let s' = judged (export w s) in clean w s'.connected s'.exported s'

-- `bool(v % 2)` of a number that is not negative
unfoldable pub is_odd : Value → Result Bool
is_odd (int n) = ok (not (eqb (pos_part n % 2) 0))
is_odd (bool b) = ok b
is_odd (float (finite n)) = ok (not (eqb (pos_part n % (2 * float_unit)) 0))
is_odd _ = raised type_error

-- what is refused before the `try`
unfoldable pub refuse : World → Fields → Action (Unit {0})
unfolding is_odd
refuse w fields = do
  cfg ← give (validate_config fields)
  warmup ← give (subscript (dict cfg) "warmup_s")
  seconds ← give (subscript (dict cfg) "duration_s")
  odd_warmup ← give (is_odd warmup)
  odd_seconds ← give (is_odd seconds)
  give (
      raise_if (ltb (pos_part (int_value warmup)) 20 || odd_warmup || odd_seconds)
        (value_error "Experiments require >=20s warmup and even warmup/duration"))
  changes ← give w.tracked_changes
  give (
      raise_if (not (changes == ""))
        (runtime_error "Commit tracked source changes before experiments"))

-- from the `try` on
unfoldable pub attempt :
    Rng → Doubles → World → Strategy → (replicas : ℕ) → Fields → Action (Unit {0})
unfolding body finish
attempt r d w strategy replicas cfg s = finish w (caught (body r d w strategy replicas cfg s))

unfoldable pub run :
    Rng → Doubles → World → Strategy → (replicas : ℕ) → Fields → State × Result (Unit {0})
unfolding refuse attempt
run r d w strategy replicas fields =
    (refuse w fields >> attempt r d w strategy replicas fields) begin

-- the exit code of `main`
abbrev pub verdict_code : Option Verdict → ℕ
verdict_code none = 1
verdict_code (some v) = if v.passed then 0 else 1

abbrev pub exit_code : State × Result (Unit {0}) → ℕ
exit_code (s, raised e) = 1
exit_code (s, ok _) = verdict_code s.verdict
