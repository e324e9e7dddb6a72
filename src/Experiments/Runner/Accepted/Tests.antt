-- ===== src/Experiments/Runner/Accepted/Tests.antt =====
-- The judgement of a run whose load pod has answered the two requests of its trace.
use kavach_ai.Common.{ℕ, ◌+◌, inf, pos, true, ◌≡◌, refl, List, [], ◌∷◌, none, some}
use kavach_ai.Py.{Value, int, str, dict, field, end, Result, ok}
use kavach_ai.Example.Configuration.{experiment}
use kavach_ai.Example.Generator.{first_rng}
use kavach_ai.Workload.Trace.{Row, compile_trace}
use kavach_ai.Workload.Trace.Rows.{trace_hash}
use kavach_ai.Workload.Start.{Site, on_start, origin_of}
use kavach_ai.Workload.Start.Target.{on_start-IsTarget}
use kavach_ai.Workload.Entrypoint.{Pod, entrypoint}
use kavach_ai.Workload.Output.{
  Job, Answer, answered, Output, send, answer, Reach, initially, next, generator_valid,
}
use kavach_ai.Experiments.Calibration.{Request}
use kavach_ai.Experiments.Runner.{begin, World}
use kavach_ai.Experiments.Runner.Life.{judge}
use kavach_ai.Experiments.Runner.Tests.{world}
use kavach_ai.Experiments.Runner.Accepted.{judge_accepts}

abbrev row_at : ℕ → Row
row_at n = record {
  sequence = n;
  offset = record { whole = 20 + n; slot = 0; rps = 1 };
  endpoint = "login";
  user = 1;
  amount_minor = 100;
  label = str "flash";
}

abbrev trace : List Row
trace = row_at 0 ∷ row_at 1 ∷ []

abbrev site : Site
site = record {
  expected = "10.0.0.7";
  is_private = λ address. ok true;
  resolved = "10.0.0.7" ∷ [];
  host = origin_of "10.0.0.7";
  status = 200;
  body = dict (field "service" (str "kavach-synthetic-payment") end);
  scenario = experiment;
}

abbrev pod : Pod
pod = record {
  deadline = 300;
  peeks = record { exists = true; now = 0 } ∷ [];
  go = ok (dict (field "start_utc" (int (pos 8)) end));
  scenario = ok (dict experiment);
  address = "10.0.0.7";
  decimal = λ n. "42";
  run = λ arguments limit. ok (pos 0);
  utc = int (pos 9);
}

abbrev finished : Value
finished = dict (field "exit_code" (int (pos 0)) (field "utc" (int (pos 9)) end))

abbrev job_at : ℕ → Job
job_at n = record { event = row_at n; lag = 0 }

abbrev an_answer : Answer
an_answer = record { status = 200; dispatched_utc = inf; completed_utc = inf; latency_ms = inf }

abbrev ended : Output
ended = record {
  left = [];
  pending = [];
  file = answered (job_at 0) an_answer ∷ answered (job_at 1) an_answer ∷ [];
  lost = [];
  drops = 0;
}

ended-Reach : Reach 5 trace ended
ended-Reach =
    next
      (next
        (next (next initially (send _ (row_at 0) (row_at 1 ∷ []) 0 refl refl))
          (answer _ [] (job_at 0) [] an_answer refl))
        (send _ (row_at 1) [] 0 refl refl))
      (answer _ [] (job_at 1) [] an_answer refl)

abbrev requests : List Request
requests = record { offset = 20; response = none } ∷ record { offset = 21; response = none } ∷ []

abbrev answered_world : World
answered_world = record world {
  replay = ok (record { generator_valid = true; trace_hash = "h" });
  requests = ok requests;
}

started : on_start first_rng site ≡ ok (experiment, trace)
unfolding on_start kavach_ai.Py.get kavach_ai.Workload.Config.validate_config
    kavach_ai.Workload.Config.is_plain_int kavach_ai.Workload.Config.int_within
    kavach_ai.Workload.Config.check_mix kavach_ai.Workload.Config.is_nonempty_list
    kavach_ai.Workload.Config.check_stages kavach_ai.Workload.Config.check_stage
    kavach_ai.Workload.Config.warmup_within compile_trace kavach_ai.Py.subscript
    kavach_ai.Workload.Trace.weights_from kavach_ai.Workload.Trace.iterate
    kavach_ai.Workload.Trace.run_stages kavach_ai.Workload.Trace.rounds
    kavach_ai.Workload.Trace.run_seconds kavach_ai.Common.float_unit kavach_ai.Py.get_or
    kavach_ai.Py.lookup kavach_ai.Workload.Config.bad_weight kavach_ai.Workload.Config.is_one_of
    kavach_ai.Workload.Config.same_set kavach_ai.Workload.Config.set_of
    kavach_ai.Workload.Config.sum_weights kavach_ai.Workload.Config.unhashable
    kavach_ai.Workload.Config.values_of kavach_ai.Workload.Start.is_only
    kavach_ai.Workload.Start.service_of kavach_ai.Workload.Trace.append_row
    kavach_ai.Workload.Trace.run_slots kavach_ai.Example.Generator.first_weighted
started = refl

compiled : compile_trace first_rng experiment ≡ ok trace
compiled = (on_start-IsTarget first_rng site experiment trace started).3

exited : entrypoint pod ≡ ok finished
unfolding entrypoint kavach_ai.Py.subscript kavach_ai.Py.lookup kavach_ai.Workload.Trace.rounds
exited = refl

judge_accepts_example :
    let (after, result) = judge answered_world experiment (finished, trace) begin in
    (result ≡ ok tt) × (after.reasons ≡ [])
unfolding generator_valid trace_hash kavach_ai.Py.subscript kavach_ai.Py.lookup
judge_accepts_example =
    judge_accepts first_rng site pod answered_world experiment experiment trace trace 5 ended
      finished (int (pos 20)) requests begin compiled refl started refl ended-Reach
      (refl, refl, refl) refl exited (λ a b. refl) refl refl refl refl
