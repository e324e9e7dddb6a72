-- ===== src/Experiments/Runner/Accepted.antt =====
-- The load pod of workload/entrypoint.py and workload/locustfile.py against the judgement of `run` in
-- experiments/run.py.
mod Tests
use kavach_ai.Common.{
  ℕ, String, ◌+◌, pos, Bool, true, false, not, ◌||◌, ◌≡◌, refl, sym, ap, ◌∙◌, eqb, eqb_iff, eq_refl,
  List, [], ◌∷◌, length, arith,
}
use text.Mathlib.Text.{◌==◌}
use kavach_ai.Py.{Value, int, dict, Fields, subscript, eq_value, Result, ok}
use kavach_ai.Workload.Rng.{Rng}
use kavach_ai.Workload.Trace.{Row, compile_trace}
use kavach_ai.Workload.Trace.Rows.{Format, trace_hash}
use kavach_ai.Workload.Start.{Site, on_start}
use kavach_ai.Workload.Start.Target.{on_start-IsTarget}
use kavach_ai.Workload.Entrypoint.{Pod, entrypoint, entrypoint-exit_code}
use kavach_ai.Workload.Output.{Output, Reach, generator_valid}
use kavach_ai.Workload.Output.Complete.{Reach-Accounts}
use kavach_ai.Experiments.Calibration.{Request}
use kavach_ai.Experiments.Runner.{State, World, ◌>>=◌, give, change, complain_if}
use kavach_ai.Experiments.Runner.Life.{judge}

-- the trace that the load pod compiles is the runner's
same_trace :
    (r : Rng) (site : Site) (cfg config : Fields) (trace sent : List Row)
    → compile_trace r cfg ≡ ok trace
    → on_start r site ≡ ok (config, sent)
    → site.scenario ≡ cfg
    → sent ≡ trace
same_trace r site cfg config trace sent compiled started same =
    let (_, scenario, _, compiled') = on_start-IsTarget r site config sent started in
    let same_rows : compile_trace r cfg ≡ ok sent = rw (← same, ← scenario) compiled' in
    cc (same_rows, compiled)

agreed : (h k : String) → h ≡ k → not (h == k) ≡ false
agreed h k e = rw (e, eq_refl k) refl

whole : (ready : Bool) (m n : ℕ) → ready ≡ true → m ≡ n → (not ready || not (eqb m n)) ≡ false
whole ready m n h e = rw (h, (eqb_iff m n).1 e) refl

-- If the load pod has started with the scenario that the runner gave it, every request was answered and
-- none was dropped, locust has ended with exit code 0 and without an exception, and the runner reads
-- what the pod has written, then the runner returns from its judgement with no reason more against the
-- run.
pub judge_accepts :
    (r : Rng) (site : Site) (pod : Pod) (w : World) (cfg config : Fields) (trace sent : List Row)
    (tolerance : ℕ) (s : Output) (finished warmup : Value) (requests : List Request)
    (before : State)
    → compile_trace r cfg ≡ ok trace
    → subscript (dict cfg) "warmup_s" ≡ ok warmup
    → on_start r site ≡ ok (config, sent)
    → site.scenario ≡ cfg
    → Reach tolerance sent s
    → (s.left ≡ []) × (s.pending ≡ []) × (s.lost ≡ [])
    → s.drops ≡ 0
    → entrypoint pod ≡ ok finished
    → ((arguments : List String) (limit : ℕ) → pod.run arguments limit ≡ ok (pos 0))
    → w.replay
      ≡ ok (record { generator_valid = generator_valid s; trace_hash = trace_hash w.format sent })
    → w.requests ≡ ok requests
    → length requests ≡ length s.file
    → w.exceptions ≡ ok 0
    → let (after, result) = judge w cfg (finished, trace) before in
      (result ≡ ok tt) × (after.reasons ≡ before.reasons)
unfolding judge ◌>>=◌ give complain_if change generator_valid kavach_ai.Py.eq_value
judge_accepts r site pod w cfg config trace sent tolerance s finished warmup requests before
      compiled has_warmup started same reached over no_drops exited code_zero replay lines as_many
      exceptions =
    let one_trace = same_trace r site cfg config trace sent compiled started same in
    let (left, pending, lost) = over in
    let (_, code, ended, exit_code, _) = entrypoint-exit_code pod finished exited in
    let zero_code : code ≡ pos 0 = cc (ended, code_zero _ _) in
    let valid : generator_valid s ≡ true = rw (no_drops, pending) refl in
    let count = (Reach-Accounts reached).count in
    let all_lines : length requests ≡ length trace =
      as_many
      ∙ omega
          (arith, count, ap length left, ap length pending, ap length lost, ap length one_trace) in
    rw
      (
        replay,
        lines,
        has_warmup,
        exit_code,
        exceptions,
        zero_code,
        whole (generator_valid s) (length requests) (length trace) valid all_lines,
        agreed (trace_hash w.format sent) (trace_hash w.format trace)
            (ap (trace_hash w.format) one_trace),
      )
      (refl, refl)
