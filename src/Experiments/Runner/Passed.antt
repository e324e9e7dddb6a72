-- ===== src/Experiments/Runner/Passed.antt =====
-- What a run that ends with exit code 0 has seen.
use kavach_ai.Common.{
  ℕ, Bool, true, false, not, ◌&&◌, ◌≡◌, refl, sym, ap, arith, ◌∙◌, Option, none, some, List, [],
  ◌∷◌, if◌then◌else◌,
}
use kavach_ai.Py.{Value, Fields, Result, ok, raised}
use kavach_ai.Workload.Config.{validate_config}
use kavach_ai.Workload.Rng.{Rng}
use kavach_ai.Workload.Trace.{Row}
use kavach_ai.Collector.Rows.{is_empty}
use kavach_ai.Collector.Sampling.{Doubles}
use kavach_ai.Experiments.Runner.{
  delete_pod, delete_config_map, after, Strategy, Complaint, Verdict, State, begin, World, ◌>>=◌,
  ◌>>◌, give, change, call,
}
use kavach_ai.Experiments.Runner.Peel.{nonempty, Returned, by_action}
use kavach_ai.Experiments.Runner.Life.{
  body, caught, copy_again, export, judged, clean, finish, refuse, attempt, run, verdict_code,
  exit_code,
}
use kavach_ai.Experiments.Runner.Parts.{
  IsReplayed, judge_sound, IsOperated, operate_sound, IsPrepared, prepare_sound, refuse_sound,
}

-- what a run with exit code 0 has seen
pub record IsPassed (r : Rng) (d : Doubles) (w : World) (replicas : ℕ) (fields : Fields)
    : Type 0 where
  pub valid : validate_config fields ≡ ok fields
  pub clean_tree : w.tracked_changes ≡ ok ""
  pub prepared : IsPrepared w replicas
  pub finished : Value
  pub trace : List Row
  pub operated : IsOperated w fields r d finished trace
  pub replayed : IsReplayed w finished trace

verdict-clean :
    (w : World) (connected exported : Bool) (s : State)
    → (clean w connected exported s).0.verdict ≡ s.verdict
unfolding clean ◌>>=◌ call change give
verdict-clean w true true s = by_results w.pod_deleted w.config_map_deleted
  where
    by_results :
        (a b : Result (Unit {0}))
        → (after
            (after (call delete_pod a s) (λ _. call delete_config_map b))
            (λ _. change (λ s. record s { closed = true }))).0.verdict
          ≡ s.verdict
    by_results (raised e) b = refl
    by_results (ok _) (raised e) = refl
    by_results (ok _) (ok _) = refl
verdict-clean w true false s = refl
verdict-clean w false exported s = refl

verdict-attempt :
    (r : Rng) (d : Doubles) (w : World) (strategy : Strategy) (replicas : ℕ) (cfg : Fields)
    (s : State)
    → (attempt r d w strategy replicas cfg s).0.verdict
      ≡ (judged (export w (caught (body r d w strategy replicas cfg s)))).verdict
unfolding attempt finish
verdict-attempt r d w strategy replicas cfg s = verdict-clean w _ _ _

code_zero :
    (o : Option Verdict) → verdict_code o ≡ 0 → (v : Verdict) × (o ≡ some v) × (v.passed ≡ true)
code_zero none h = cc h
code_zero (some v) h = (v, refl, ground arith)

abbrev passed_of : Option Verdict → Bool
passed_of none = false
passed_of (some v) = v.passed

is_empty_sound : (reasons : List Complaint) → is_empty reasons ≡ true → reasons ≡ []
is_empty_sound [] h = refl
is_empty_sound (x ∷ reasons) h = cc h

body_sound :
    (r : Rng) (d : Doubles) (w : World) (strategy : Strategy) (replicas : ℕ) (fields : Fields)
    (s s' : State)
    → validate_config fields ≡ ok fields
    → w.tracked_changes ≡ ok ""
    → Returned (body r d w strategy replicas fields) s s' tt
    → s'.reasons ≡ []
    → IsPassed r d w replicas fields
unfolding body
body_sound r d w strategy replicas fields s s' valid clean_tree h empty =
    by_action h (λ _ s1 prepared h. by_action h (λ (finished, trace) s2 operated judged.
      let (quiet_before, replayed) = judge_sound w fields finished trace s2 s' judged empty in
      record {
        valid = valid;
        clean_tree = clean_tree;
        prepared = prepare_sound w strategy replicas s s1 prepared;
        finished = finished;
        trace = trace;
        operated = operate_sound w fields r d strategy finished trace s1 s2 operated quiet_before;
        replayed = replayed;
      }))

exit_zero :
    (end : State × Result (Unit {0}))
    → exit_code end ≡ 0
    → (v : Verdict) × (end.0.verdict ≡ some v) × (v.passed ≡ true) × (end.1 ≡ ok tt)
exit_zero (s, raised e) h = cc h
exit_zero (s, ok _) h = let (v, some_v, passed) = code_zero s.verdict h in (v, some_v, passed, refl)

reasons-export : (w : World) (s : State) → (export w s).reasons ≡ [] → s.reasons ≡ []
reasons-export w s = by_test (s.created_pod && not s.exported) w.copied_again
  where
    by_test :
        (b : Bool) (r : Result (Unit {0}))
        → (if b then copy_again r s else s).reasons ≡ []
        → s.reasons ≡ []
    by_test true (ok _) h = h
    by_test true (raised e) h = absurd (nonempty s.reasons _ h)
    by_test false r h = h

-- a body that has ended without a reason
quiet :
    (r : State × Result (Unit {0}))
    → (caught r).reasons ≡ []
    → (s : State) × (r ≡ (s, ok tt)) × (s.reasons ≡ [])
quiet (s, ok _) h = (s, refl, h)
quiet (s, raised e) h = absurd (nonempty s.reasons _ h)

attempt-Returned :
    (r : Rng) (d : Doubles) (w : World) (strategy : Strategy) (replicas : ℕ) (cfg : Fields)
    (s : State) (v : Verdict)
    → (attempt r d w strategy replicas cfg s).0.verdict ≡ some v
    → v.passed ≡ true
    → (s' : State) × Returned (body r d w strategy replicas cfg) s s' tt × (s'.reasons ≡ [])
attempt-Returned r d w strategy replicas cfg s v h passed =
    let ended = body r d w strategy replicas cfg s in
    let same : some _ ≡ some v = sym (verdict-attempt r d w strategy replicas cfg s) ∙ h in
    let now = ap (λ o. passed_of o) same ∙ passed in
    let empty = is_empty_sound (export w (caught ended)).reasons now in
    let (s', e, still) = quiet ended (reasons-export w (caught ended) empty) in
    (s', record { eq = e }, still)

-- If the command ends with exit code 0, the configuration is valid, the tree had no tracked change, the
-- wait for stable replicas has succeeded, the samples after the warmup are all answered and good and
-- as many as the duration asks for, the load pod ended with exit code 0 and without an exception and
-- its files are copied, its replay is valid and has the hash of the trace, and it has recorded as many
-- requests as the trace has.
pub run-IsPassed :
    (r : Rng) (d : Doubles) (w : World) (strategy : Strategy) (replicas : ℕ) (fields : Fields)
    → exit_code (run r d w strategy replicas fields) ≡ 0
    → IsPassed r d w replicas fields
unfolding run
run-IsPassed r d w strategy replicas fields h =
    let (v, some_v, passed, returned) = exit_zero (run r d w strategy replicas fields) h in
    let whole : Returned (refuse w fields >> attempt r d w strategy replicas fields) begin
        (run r d w strategy replicas fields).0 tt =
      record { eq = ap (λ o. ((run r d w strategy replicas fields).0, o)) returned } in
    by_action whole (λ _ s1 refused attempted.
      let (valid, clean_tree) = refuse_sound w fields _ _ refused in
      let same = ap (λ p. p.0.verdict) attempted.eq in
      let (s', bodied, still) =
        attempt-Returned r d w strategy replicas fields s1 v (same ∙ some_v) passed in
      body_sound r d w strategy replicas fields s1 s' valid clean_tree bodied still)
