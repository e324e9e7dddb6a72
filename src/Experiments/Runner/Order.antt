-- ===== src/Experiments/Runner/Order.antt =====
-- The order of the calls of a run.
use kavach_ai.Common.{
  ℕ, Bool, true, false, and_true, ◌&&◌, not, ◌≡◌, refl, inl, inr, List, [], ◌∷◌, All, Listed,
  if◌then◌else◌,
}
use kavach_ai.Py.{Error, Fields, Result, ok, raised}
use kavach_ai.Workload.Rng.{Rng}
use kavach_ai.Collector.Sampling.{Doubles}
use kavach_ai.Experiments.Runner.{
  Call, create_pod, copy_data, delete_pod, delete_config_map, Strategy, State, begin, World, ◌>>◌,
  give, change, call,
}
use kavach_ai.Experiments.Runner.Reached.{
  preceding, IsMade, IsHistory, Reached, later, fewer, give-Reached, call-Reached,
}
use kavach_ai.Experiments.Runner.Triple.{Triple, Ends, >>=-Triple, weaken-Triple}
use kavach_ai.Experiments.Runner.Life.{
  body, caught, copy_again, export, judged, clean, finish, refuse, attempt, run,
}
use kavach_ai.Experiments.Runner.Body.{body-Reached}

module _ (w : World) where
  -- `caught` of an end of the body
  caught-Reached :
      (r : State × Result (Unit {0}))
      → Ends (λ x. Reached w []) (Reached w []) r
      → Reached w [] (caught r)
  caught-Reached (s, ok x) h = h
  caught-Reached (s, raised e) h = record {
    history = h.history;
    created = h.created;
    exported = h.exported;
    made = tt;
  }

  copy_again-Reached :
      (r : Result (Unit {0})) (s : State)
      → (r ≡ ok tt → w.copied_again ≡ ok tt)
      → IsMade w s.calls create_pod
      → Reached w [] s
      → Reached w [] (copy_again r s)
  copy_again-Reached (ok x) s returned created h = record {
    history = ((created, tt), h.history);
    created = λ e. let made = h.created e in (inr made.0, made.1);
    exported = λ e. (inl refl, inr (returned refl));
    made = tt;
  }
  copy_again-Reached (raised e) s returned created h = record {
    history = ((created, tt), h.history);
    created = λ e. let made = h.created e in (inr made.0, made.1);
    exported = λ e. let made = h.exported e in (inr made.0, made.1);
    made = tt;
  }

  export-Reached : (s : State) → Reached w [] s → Reached w [] (judged (export w s))
  export-Reached s h =
      verdict
        (by_test (s.created_pod && not s.exported) (λ e. h.created (and_true s.created_pod _ e).0))
    where
      by_test :
          (b : Bool)
          → (b ≡ true → IsMade w s.calls create_pod)
          → Reached w [] (if b then copy_again w.copied_again s else s)
      by_test true created = copy_again-Reached w.copied_again s (λ e. e) (created refl) h
      by_test false created = h

      verdict : {s' : State} → Reached w [] s' → Reached w [] (judged s')
      verdict h' = record {
        history = h'.history;
        created = h'.created;
        exported = h'.exported;
        made = tt;
      }

  close-Reached :
      (connected : Bool)
      → Triple
          (Reached w [])
          (if connected then change (λ s. record s { closed = true }) else give (ok tt))
          (λ x. Reached w [])
          (Reached w [])
  unfolding change
  close-Reached true = record {
    ends = λ s h. record {
      history = h.history;
      created = h.created;
      exported = h.exported;
      made = tt;
    };
  }
  close-Reached false = give-Reached (ok tt)

  delete_both-Reached :
      Triple
        (Reached w (copy_data ∷ []))
        (call delete_pod w.pod_deleted >> call delete_config_map w.config_map_deleted)
        (λ x. Reached w [])
        (Reached w [])
  delete_both-Reached = >>=-Triple (call-Reached delete_pod _ (λ e. e) (λ calls h. h)) (λ _.
      weaken-Triple (call-Reached delete_config_map _ (λ e. e) (λ calls h. (h.0, tt))) (λ x. fewer))

  clean-Reached :
      (connected exported : Bool) (s : State)
      → (exported ≡ true → IsMade w s.calls copy_data)
      → Reached w [] s
      → Ends (λ x. Reached w []) (Reached w []) (clean w connected exported s)
  unfolding clean
  clean-Reached true true s copied h =
      (>>=-Triple delete_both-Reached (λ _. close-Reached true)).ends s (record {
        history = h.history;
        created = h.created;
        exported = h.exported;
        made = (copied refl, tt);
      })
  clean-Reached true false s copied h =
      (>>=-Triple (give-Reached (ok tt)) (λ _. close-Reached true)).ends s h
  clean-Reached false exported s copied h =
      (>>=-Triple (give-Reached (ok tt)) (λ _. close-Reached false)).ends s h

  attempt-Reached :
      (r : Rng) (d : Doubles) (strategy : Strategy) (replicas : ℕ) (cfg : Fields)
      → Triple
          (Reached w [])
          (attempt r d w strategy replicas cfg)
          (λ x. Reached w [])
          (Reached w [])
  unfolding attempt finish
  attempt-Reached r d strategy replicas cfg = record {
    ends = λ s h.
        let s1 = caught (body r d w strategy replicas cfg s) in
        let s2 = judged (export w s1) in
        let ended = caught-Reached _ ((body-Reached r d strategy replicas cfg).ends s h) in
        let exported = export-Reached s1 ended in
        clean-Reached s2.connected s2.exported s2 exported.exported exported;
  }

  refuse-Reached :
      (fields : Fields) → Triple (Reached w []) (refuse w fields) (λ x. Reached w []) (Reached w [])
  unfolding refuse
  refuse-Reached fields = >>=-Triple (give-Reached _) (λ cfg. >>=-Triple (give-Reached _) (λ warmup.
      >>=-Triple (give-Reached _) (λ seconds. >>=-Triple (give-Reached _) (λ odd_warmup.
        >>=-Triple (give-Reached _) (λ odd_seconds.
          >>=-Triple (give-Reached _)
            (λ _. >>=-Triple (give-Reached _) (λ changes. give-Reached _)))))))

  begin-Reached : Reached w [] begin
  begin-Reached = record { history = tt; created = λ e. cc e; exported = λ e. cc e; made = tt }

  final_state :
      (r : State × Result (Unit {0}))
      → Ends (λ x. Reached w []) (Reached w []) r
      → IsHistory w r.0.calls
  final_state (s, ok x) h = h.history
  final_state (s, raised e) h = h.history

-- In every run, whichever calls raise, and counting a call that raises as made: the load pod is asked for
-- only after its config map has been created, authorized and copied from only after it has been
-- created, and deleted only after its files have been copied, and the deletion of the config map is
-- asked for only after that of the pod has returned.
pub run-IsHistory :
    (r : Rng) (d : Doubles) (w : World) (strategy : Strategy) (replicas : ℕ) (fields : Fields)
    → IsHistory w (run r d w strategy replicas fields).0.calls
unfolding run
run-IsHistory r d w strategy replicas fields = final_state w _ (
    (>>=-Triple (refuse-Reached w fields)
        (λ _. attempt-Reached w r d strategy replicas fields)).ends
      begin (begin-Reached w))

predecessors :
    (w : World) (calls : List Call) (c : Call)
    → IsHistory w calls
    → Listed c calls
    → All (IsMade w calls) (preceding c)
predecessors w [] c h found = absurd found
predecessors w (c' ∷ calls) c (before, h) (inl same) =
    rw same (later w c' calls (preceding c') before)
predecessors w (c' ∷ calls) c (before, h) (inr rest) =
    later w c' calls (preceding c) (predecessors w calls c h rest)

-- A run in which the creation of the load pod has raised does not ask for the deletion of the config map
-- that it has made for it.
pub config_map_left :
    (r : Rng) (d : Doubles) (w : World) (strategy : Strategy) (replicas : ℕ) (fields : Fields)
    (e : Error)
    → w.pod_created ≡ raised e
    → ¬ Listed delete_config_map (run r d w strategy replicas fields).0.calls
config_map_left r d w strategy replicas fields e failed deleted =
    let calls = (run r d w strategy replicas fields).0.calls in
    let h = run-IsHistory r d w strategy replicas fields in
    let (pod, _) = predecessors w calls delete_config_map h deleted in
    let (copied, _) = predecessors w calls delete_pod h pod.0 in
    let (created, _) = predecessors w calls copy_data h copied.0 in cc (failed, created.1)
