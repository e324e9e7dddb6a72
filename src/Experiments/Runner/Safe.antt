-- ===== src/Experiments/Runner/Safe.antt =====
-- When `run` of experiments/run.py starts a workload.
use text.Mathlib.Text.{◌==◌}
use kavach_ai.Common.{
  ℕ, Bool, true, false, not, ◌&&◌, ◌≡◌, ◌≢◌, refl, ap, inl, inr, List, [], ◌∷◌, Listed,
  if◌then◌else◌,
}
use kavach_ai.Py.{Error, Fields, Result, ok, raised}
use kavach_ai.Workload.Config.{validate_config}
use kavach_ai.Workload.Rng.{Rng}
use kavach_ai.Collector.Sampling.{Doubles}
use kavach_ai.Experiments.Runner.{
  Call, delete_autoscaler, scale, apply_autoscaler, create_pod, delete_pod, delete_config_map,
  Strategy, static, hpa_candidate, State, begin, Autoscaler, World, Action, after, ◌>>=◌, ◌>>◌,
  give, change, call,
}
use kavach_ai.Experiments.Runner.Triple.{Ends, Triple, >>=-Triple, give-Triple}
use kavach_ai.Experiments.Runner.Life.{
  delete_autoscalers, apply_strategy, prepare, body, caught, copy_again, export, judged, clean,
  finish, refuse, attempt, run, operate, judge,
}
use kavach_ai.Experiments.Runner.Parts.{IsPrepared, prepare_sound, refuse_sound}

-- no load pod has been asked for
record NoPod (s : State) : Type 0 where
  absent : ¬ Listed create_pod s.calls

-- an action that asks for none
abbrev IsPodless : {A : Type 0} → Action A → Type 0
IsPodless action = Triple NoPod action (λ x. NoPod) NoPod

give-IsPodless : {A : Type 0} (r : Result A) → IsPodless (give r)
give-IsPodless r = give-Triple r (λ s h. h)

call-IsPodless : (c : Call) (r : Result (Unit {0})) → create_pod ≢ c → IsPodless (call c r)
unfolding call
call-IsPodless c (raised e) other = record {
  ends = λ s h. record {
    absent = λ found. elim found [ inl same ↦ other same | inr before ↦ h.absent before ];
  };
}
call-IsPodless c (ok _) other = record {
  ends = λ s h. record {
    absent = λ found. elim found [ inl same ↦ other same | inr before ↦ h.absent before ];
  };
}

connect-IsPodless : IsPodless (change (λ s. record s { connected = true }))
unfolding change
connect-IsPodless = record { ends = λ s h. record { absent = h.absent } }

close-IsPodless :
    (b : Bool) → IsPodless (if b then change (λ s. record s { closed = true }) else give (ok tt))
unfolding change give
close-IsPodless true = record { ends = λ s h. record { absent = h.absent } }
close-IsPodless false = record { ends = λ s h. h }

module _ (w : World) where
  delete_autoscalers-IsPodless :
      (existing : List Autoscaler) → IsPodless (delete_autoscalers w.autoscaler_deleted existing)
  unfolding delete_autoscalers
  delete_autoscalers-IsPodless [] = give-IsPodless (ok tt)
  delete_autoscalers-IsPodless (hpa ∷ rest) =
      >>=-Triple (deleted (hpa.target == "payment-api")) (λ _. delete_autoscalers-IsPodless rest)
    where
      deleted :
          (b : Bool)
          → IsPodless (
              if b
              then call (delete_autoscaler hpa.name) (w.autoscaler_deleted hpa.name)
              else give (ok tt))
      deleted true = call-IsPodless (delete_autoscaler hpa.name) _ (λ e. cc e)
      deleted false = give-IsPodless (ok tt)

  apply_strategy-IsPodless : (strategy : Strategy) → IsPodless (apply_strategy w strategy)
  apply_strategy-IsPodless static = give-IsPodless (ok tt)
  apply_strategy-IsPodless hpa_candidate = call-IsPodless apply_autoscaler _ (λ e. cc e)

  prepare-IsPodless : (strategy : Strategy) (replicas : ℕ) → IsPodless (prepare w strategy replicas)
  unfolding prepare
  prepare-IsPodless strategy replicas = >>=-Triple (give-IsPodless _) (λ _.
      >>=-Triple connect-IsPodless (λ _. >>=-Triple (give-IsPodless _) (λ existing.
        >>=-Triple (delete_autoscalers-IsPodless existing) (λ _.
          >>=-Triple (call-IsPodless (scale replicas) _ (λ e. cc e)) (λ _.
            >>=-Triple (give-IsPodless _) (λ _. >>=-Triple (give-IsPodless _) (λ _.
              >>=-Triple (apply_strategy-IsPodless strategy) (λ _.
                >>=-Triple (give-IsPodless _) (λ _.
                  >>=-Triple (give-IsPodless _)
                    (λ _. >>=-Triple (give-IsPodless _) (λ _. give-IsPodless _)))))))))))

  refuse-IsPodless : (fields : Fields) → IsPodless (refuse w fields)
  unfolding refuse
  refuse-IsPodless fields = >>=-Triple (give-IsPodless _) (λ cfg.
      >>=-Triple (give-IsPodless _) (λ warmup. >>=-Triple (give-IsPodless _) (λ seconds.
        >>=-Triple (give-IsPodless _) (λ odd_warmup. >>=-Triple (give-IsPodless _) (λ odd_seconds.
          >>=-Triple (give-IsPodless _)
            (λ _. >>=-Triple (give-IsPodless _) (λ changes. give-IsPodless _)))))))

  clean-IsPodless : (connected exported : Bool) → IsPodless (clean w connected exported)
  unfolding clean
  clean-IsPodless connected exported =
      >>=-Triple (deleted (connected && exported)) (λ _. close-IsPodless connected)
    where
      deleted :
          (b : Bool)
          → IsPodless (
              if b
              then (call delete_pod w.pod_deleted >> call delete_config_map w.config_map_deleted)
              else give (ok tt))
      deleted true =
          >>=-Triple (call-IsPodless delete_pod _ (λ e. cc e))
            (λ _. call-IsPodless delete_config_map _ (λ e. cc e))
      deleted false = give-IsPodless (ok tt)

final-NoPod :
    {A : Type 0} {action : Action A} → IsPodless action → (s : State) → NoPod s → NoPod (action s).0
final-NoPod {A} {action} h s none = by_end (action s) (h.ends s none)
  where
    by_end : (r : State × Result A) → Ends (λ x. NoPod) NoPod r → NoPod r.0
    by_end (s', ok x) q = q
    by_end (s', raised e) q = q

export-NoPod : (w : World) (s : State) → NoPod s → NoPod (export w s)
export-NoPod w s h = by_test (s.created_pod && not s.exported) w.copied_again
  where
    by_test : (b : Bool) (r : Result (Unit {0})) → NoPod (if b then copy_again r s else s)
    by_test true (ok _) = record {
      absent = λ found. elim found [ inl same ↦ absurd (cc same) | inr before ↦ h.absent before ];
    }
    by_test true (raised e) = record {
      absent = λ found. elim found [ inl same ↦ absurd (cc same) | inr before ↦ h.absent before ];
    }
    by_test false r = h

-- the `finally` asks for no load pod
finish-NoPod : (w : World) (s : State) → NoPod s → NoPod (finish w s).0
unfolding finish
finish-NoPod w s h =
    let s' = judged (export w s) in
    final-NoPod (clean-IsPodless w s'.connected s'.exported) s'
      (record { absent = (export-NoPod w s h).absent })

split_result :
    {A C : Type 0} (r : State × Result A)
    → ((s : State) (e : Error) → r ≡ (s, raised e) → C)
    → ((s : State) (x : A) → r ≡ (s, ok x) → C)
    → C
split_result (s, raised e) on_raised on_ok = on_raised s e refl
split_result (s, ok x) on_raised on_ok = on_ok s x refl

caught-NoPod :
    (w : World) (ended : State × Result (Unit {0}))
    → NoPod ended.0
    → NoPod (finish w (caught ended)).0
caught-NoPod w (s, ok x) h = finish-NoPod w s h
caught-NoPod w (s, raised e) h =
    finish-NoPod w (caught (s, raised e)) (record { absent = h.absent })

module _ (r : Rng) (d : Doubles) (w : World) (strategy : Strategy) (replicas : ℕ)
    (fields : Fields) where
  -- a body that raises in its preparations
  attempt-NoPod :
      (s s' : State) (e : Error)
      → prepare w strategy replicas s ≡ (s', raised e)
      → NoPod s'
      → NoPod (attempt r d w strategy replicas fields s).0
  unfolding attempt body ◌>>=◌
  attempt-NoPod s s' e eq h =
      let same : body r d w strategy replicas fields s ≡ (s', raised e) =
        ap (λ p. after p (λ _. operate r d w strategy fields >>= judge w fields)) eq in
      caught-NoPod w (body r d w strategy replicas fields s) (rw same h)

  attempt-IsPrepared :
      (s : State)
      → NoPod s
      → Listed create_pod (attempt r d w strategy replicas fields s).0.calls
      → IsPrepared w replicas
  attempt-IsPrepared s h created =
      let stays = final-NoPod (prepare-IsPodless w strategy replicas) s h in
      split_result (prepare w strategy replicas s)
        (λ s' e eq. absurd ((attempt-NoPod s s' e eq (rw eq at stays)).absent created))
        (λ s' x eq. prepare_sound w strategy replicas s s' (record { eq = eq }))

-- A run asks the cluster for its load pod, from which alone requests are sent, only if its configuration is valid, no
-- tracked file has changed, the control plane is at a loopback address and the namespace has the
-- testbed's label, the replicas were stable, and the payment service is a ClusterIP of the payment
-- pods.
pub create_pod-IsPrepared :
    (r : Rng) (d : Doubles) (w : World) (strategy : Strategy) (replicas : ℕ) (fields : Fields)
    → Listed create_pod (run r d w strategy replicas fields).0.calls
    → (validate_config fields ≡ ok fields) × (w.tracked_changes ≡ ok "") × IsPrepared w replicas
unfolding run ◌>>=◌
create_pod-IsPrepared r d w strategy replicas fields created =
    let none : NoPod begin = record { absent = λ found. found } in
    let stays = final-NoPod (refuse-IsPodless w fields) begin none in
    split_result (refuse w fields begin)
      (λ s e eq.
        let not_yet : NoPod s = rw eq at stays in
        let same = ap (λ p. (after p (λ _. attempt r d w strategy replicas fields)).0.calls) eq in
        absurd (not_yet.absent (rw same at created)))
      (λ s x eq.
        let (valid, clean_tree) = refuse_sound w fields begin s (record { eq = eq }) in
        let not_yet : NoPod s = rw eq at stays in
        let same = ap (λ p. (after p (λ _. attempt r d w strategy replicas fields)).0.calls) eq in
        (
          valid,
          clean_tree,
          attempt-IsPrepared r d w strategy replicas fields s not_yet (rw same at created),
        ))
