-- ===== src/Experiments/Runner/Parts.antt =====
-- What the parts of `run` have been given when they return without a reason against the run.
use text.Mathlib.Text.{◌==◌}
use kavach_ai.Common.{
  ℕ, String, ◌+◌, ◌*◌, pos, true, not-false, and_true, or_false, eqb_iff, ◌≡◌, refl, sym, ap,
  eq_iff, ◌∙◌, append-nil_inv, none, List, [], ◌∷◌, map, length,
}
use kavach_ai.Py.{Value, int, dict, Fields, subscript, eq_value, raise_if-ok, Result, ok, raised}
use kavach_ai.Workload.Config.{validate_config}
use kavach_ai.Workload.Config.Laws.{validate_config_iff}
use kavach_ai.Workload.Rng.{Rng}
use kavach_ai.Workload.Trace.{Row, rounds, compile_trace}
use kavach_ai.Workload.Trace.Rows.{trace_hash}
use kavach_ai.Collector.Rows.{Reason}
use kavach_ai.Collector.Sampling.{Doubles}
use kavach_ai.Collector.Sampling.Answered.{IsFaultless}
use kavach_ai.Collector.Clients.{IsTestbed, make_clients-IsTestbed}
use kavach_ai.Collector.Command.{Collected}
use kavach_ai.Collector.Command.Passed.{IsCollected, collect_all-IsCollected, collected-IsFaultless}
use kavach_ai.Experiments.Runner.Documents.{run_config-warmup}
use kavach_ai.Experiments.Calibration.{Request}
use kavach_ai.Experiments.Stable.{Poll, Wait, stable, timed_out, unfinished, wait_stable}
use kavach_ai.Experiments.Polling.{wait_file}
use kavach_ai.Experiments.Runner.{
  Strategy, invalid_row, Service, ReplayFile, State, World, give, change,
}
use kavach_ai.Experiments.Runner.Peel.{
  Returned, by_action, by_give, by_call, by_change, by_complain_if,
}
use kavach_ai.Experiments.Runner.Life.{
  stable_or_raise, same_selector, prepare, offer, operate, judge, refuse,
}

-- the files that the load pod has left are those of a faultless replay of the trace
pub record IsReplayed (w : World) (finished : Value) (trace : List Row) : Type 0 where
  pub replay : ReplayFile
  pub is_replay : w.replay ≡ ok replay
  pub valid : replay.generator_valid ≡ true
  pub same_trace : (replay.trace_hash == trace_hash w.format trace) ≡ true
  pub requests : List Request
  pub are_requests : w.requests ≡ ok requests
  pub complete : length requests ≡ length trace
  pub code : Value
  pub is_code : subscript finished "exit_code" ≡ ok code
  pub code_zero : eq_value code (int (pos 0)) ≡ true
  pub no_exceptions : w.exceptions ≡ ok 0

-- the value of a result, or `x`
value_of : {A : Type 0} → A → Result A → A
value_of x (ok y) = y
value_of x (raised e) = x

map-nil : (reasons : List Reason) → map invalid_row reasons ≡ [] → reasons ≡ []
map-nil [] h = refl
map-nil (x ∷ reasons) h = cc h

module _ (w : World) (cfg : Fields) where
  pub judge_sound :
      (finished : Value) (trace : List Row) (s s' : State)
      → Returned (judge w cfg (finished, trace)) s s' tt
      → s'.reasons ≡ []
      → (s.reasons ≡ []) × IsReplayed w finished trace
  unfolding judge change
  judge_sound finished trace s s' h empty = by_give h (λ replay is_replay h.
      by_give h (λ requests are_requests h. by_complain_if _ _ h (λ s3 drops h.
        by_complain_if _ _ h (λ s4 hashes h. by_give h (λ code is_code h.
          by_complain_if _ _ h (λ s6 codes h. by_give h (λ exceptions are_exceptions h.
            by_complain_if _ _ h (λ s8 crashes h. by_give h (λ warmup is_warmup h.
              let last : s8.reasons ≡ s'.reasons = ap (λ r. r.0.reasons) h.eq in
              let (none_crashed, e6) = crashes (last ∙ empty) in
              let (code_zero, e4) = codes e6 in
              let (same, e3) = hashes e4 in
              let (sent, e) = drops e3 in
              let (valid, complete) = or_false _ _ sent in
              (
                e,
                record {
                  replay = replay;
                  is_replay = is_replay;
                  valid = not-false _ valid;
                  same_trace = not-false _ same;
                  requests = requests;
                  are_requests = are_requests;
                  complete = (eqb_iff _ _).0 (not-false _ complete);
                  code = code;
                  is_code = is_code;
                  code_zero = not-false _ code_zero;
                  no_exceptions =
                      are_exceptions ∙ ap ok ((eqb_iff exceptions 0).0 (not-false _ none_crashed));
                },
              ))))))))))

  -- the load pod has ended and has been copied, and the samples are faultless
  pub record IsOperated (r : Rng) (d : Doubles) (finished : Value) (trace : List Row) : Type 0 where
    pub is_trace : compile_trace r cfg ≡ ok trace
    pub is_finished : wait_file w.exit_deadline w.exit ≡ ok finished
    pub seconds : Value
    pub are_seconds : subscript (dict cfg) "duration_s" ≡ ok seconds
    pub duration : ℕ
    pub is_duration : rounds seconds ≡ ok duration
    pub warmup : Value
    pub is_warmup : subscript (dict cfg) "warmup_s" ≡ ok warmup
    pub collected : Collected
    pub seen : IsCollected d w.collector duration 2 warmup collected
    pub faultless : IsFaultless d duration 2 seen.rounds_of_warmup seen.pods w.collector.ticks
    pub copied : w.copied ≡ ok tt

  offer_sound :
      (r : Rng) (trace : List Row) (s s' : State) {C : Type 0}
      → Returned (offer r w cfg) s s' trace
      → (compile_trace r cfg ≡ ok trace → s.reasons ≡ s'.reasons → C)
      → C
  unfolding offer give
  offer_sound r trace s s' h use_it = by_give h (λ trace' is_trace h.
      by_call h
        (λ config_map h. use_it (is_trace ∙ ap (λ p. p.1) h.eq) (ap (λ p. p.0.reasons) h.eq)))

  pub operate_sound :
      (r : Rng) (d : Doubles) (strategy : Strategy) (finished : Value) (trace : List Row)
      (s s' : State)
      → Returned (operate r d w strategy cfg) s s' (finished, trace)
      → s'.reasons ≡ []
      → IsOperated r d finished trace
  unfolding operate change give value_of
  operate_sound r d strategy finished trace s s' h empty = by_action h (λ trace' s1 offered h.
      offer_sound r trace' s s1 offered (λ is_trace same. by_call h (λ pod h. by_change _ h (λ h.
        by_give h (λ ready is_ready h. by_give h (λ image is_image h. by_call h (λ authorized h.
          by_give h (λ config is_config h. by_give h (λ name has_name h.
            by_give h (λ seconds are_seconds h. by_give h (λ duration is_duration h.
              by_give h (λ collected is_collected h. by_change _ h (λ h.
                by_give h (λ finished' is_finished h. by_call h (λ copied h. by_change _ h (λ h.
                  let last = ap (λ p. p.0.reasons) h.eq in
                  let ended : (finished', trace') ≡ (finished, trace) =
                    ap (λ p. value_of (finished, trace) p.1) h.eq in
                  let seen =
                    collect_all-IsCollected d w.collector duration 2 _ config collected
                      is_collected in
                  let none_new = append-nil_inv s1.reasons _ (last ∙ empty) in
                  record {
                    is_trace = is_trace ∙ ap (λ p. ok p.1) ended;
                    is_finished = is_finished ∙ ap (λ p. ok p.0) ended;
                    seconds = seconds;
                    are_seconds = are_seconds;
                    duration = duration;
                    is_duration = is_duration;
                    warmup = _;
                    is_warmup =
                        run_config-warmup strategy cfg _ image config duration 2 _ is_config;
                    collected = collected;
                    seen = seen;
                    faultless = collected-IsFaultless seen (map-nil _ none_new.1);
                    copied = copied;
                  }))))))))))))))))

stable_or_raise-ok : (end : Wait) {x : Unit {0}} → stable_or_raise end ≡ ok x → end ≡ stable
stable_or_raise-ok stable h = refl
stable_or_raise-ok timed_out h = absurd (cc h)
stable_or_raise-ok unfinished h = absurd (cc h)

-- the cluster is the testbed's, the replicas have been stable, and the service is the one inside the
-- cluster
pub record IsPrepared (w : World) (replicas : ℕ) : Type 0 where
  pub testbed : IsTestbed w.collector.net w.clients
  pub polls : List Poll
  pub are_polls : w.polls ≡ ok polls
  pub held : wait_stable replicas (w.now + 120 * w.second) (10 * w.second) none polls ≡ stable
  pub service : Service
  pub is_service : w.service ≡ ok service
  pub inside : service.kind ≡ "ClusterIP"
  pub selector : service.selector ≡ ("app", "payment-api") ∷ []

same_selector_sound :
    (selector : List (String × String))
    → same_selector selector ≡ true
    → selector ≡ ("app", "payment-api") ∷ []
same_selector_sound [] h = absurd (cc h)
same_selector_sound ((k, v) ∷ []) h =
    let (key, value) = and_true (k == "app") _ h in
    rw ((eq_iff k "app").0 key, (eq_iff v "payment-api").0 value) refl
same_selector_sound (x ∷ y ∷ selector) h = absurd (cc h)

pub prepare_sound :
    (w : World) (strategy : Strategy) (replicas : ℕ) (s s' : State)
    → Returned (prepare w strategy replicas) s s' tt
    → IsPrepared w replicas
unfolding prepare give
prepare_sound w strategy replicas s s' h = by_give h (λ connected clients h. by_change _ h (λ h.
    by_give h (λ existing _ h. by_action h (λ _ s1 _ h. by_call h (λ scaled h.
      by_give h (λ polls are_polls h. by_give h (λ _ held h. by_action h (λ _ s2 _ h.
        by_give h (λ _ _ h. by_give h (λ _ _ h. by_give h (λ service is_service h.
          let (kind, selector) = or_false _ _ (raise_if-ok _ _ (ap (λ p. p.1) h.eq)) in
          record {
            testbed = make_clients-IsTestbed w.collector.net w.clients clients;
            polls = polls;
            are_polls = are_polls;
            held = stable_or_raise-ok _ held;
            service = service;
            is_service = is_service;
            inside = (eq_iff service.kind "ClusterIP").0 (not-false _ kind);
            selector = same_selector_sound service.selector (not-false _ selector);
          })))))))))))

pub refuse_sound :
    (w : World) (fields : Fields) (s s' : State) {x : Unit {0}}
    → Returned (refuse w fields) s s' x
    → (validate_config fields ≡ ok fields) × (w.tracked_changes ≡ ok "")
unfolding refuse give
refuse_sound w fields s s' h = by_give h (λ cfg valid h. by_give h (λ warmup _ h.
    by_give h (λ seconds _ h. by_give h (λ odd_warmup _ h. by_give h (λ odd_seconds _ h.
      by_give h (λ _ long_enough h. by_give h (λ changes are_changes h.
        let clean = raise_if-ok _ _ (ap (λ p. p.1) h.eq) in
        let none_tracked : changes ≡ "" = (eq_iff changes "").0 (not-false _ clean) in
        let (same, _, _) = (validate_config_iff fields cfg).0 valid in
        (valid ∙ ap ok (sym same), are_changes ∙ ap ok none_tracked))))))))
