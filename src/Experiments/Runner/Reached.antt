-- ===== src/Experiments/Runner/Reached.antt =====
-- The calls that a run has made, and what the single steps of `run` do to them.
use text.Mathlib.Text.{◌==◌}
use kavach_ai.Common.{
  Bool, true, false, ◌≡◌, refl, ◌⊎◌, inl, inr, some, List, [], ◌∷◌, All, Listed, if◌then◌else◌,
}
use kavach_ai.Py.{Result, ok, raised}
use kavach_ai.Experiments.Runner.{
  Call, delete_autoscaler, scale, apply_autoscaler, create_config_map, create_pod, authorize,
  copy_data, delete_pod, delete_config_map, Strategy, static, hpa_candidate, Complaint, Summary,
  State, Autoscaler, World, give, change, call, complain_if,
}
use kavach_ai.Experiments.Runner.Triple.{Triple, >>=-Triple, give-Triple, weaken-Triple}
use kavach_ai.Experiments.Runner.Life.{delete_autoscalers, apply_strategy}

-- the call that comes before
abbrev pub preceding : Call → List Call
preceding create_pod = create_config_map ∷ []
preceding authorize = create_pod ∷ []
preceding copy_data = create_pod ∷ []
preceding delete_pod = copy_data ∷ []
preceding delete_config_map = delete_pod ∷ []
preceding _ = []

-- the call has returned
abbrev pub HasReturned : World → Call → Type 0
HasReturned w (delete_autoscaler name) = w.autoscaler_deleted name ≡ ok tt
HasReturned w (scale n) = w.scaled ≡ ok tt
HasReturned w apply_autoscaler = w.applied ≡ ok tt
HasReturned w create_config_map = w.config_map_created ≡ ok tt
HasReturned w create_pod = w.pod_created ≡ ok tt
HasReturned w authorize = w.authorized ≡ ok tt
HasReturned w copy_data = (w.copied ≡ ok tt) ⊎ (w.copied_again ≡ ok tt)
HasReturned w delete_pod = w.pod_deleted ≡ ok tt
HasReturned w delete_config_map = w.config_map_deleted ≡ ok tt

-- the call was made, and has returned
abbrev pub IsMade : World → List Call → Call → Type 0
IsMade w calls c = Listed c calls × HasReturned w c

-- a call is made only after those that go before it have returned
abbrev pub IsHistory : World → List Call → Type 0
IsHistory w [] = Unit
IsHistory w (c ∷ calls) = All (IsMade w calls) (preceding c) × IsHistory w calls

-- the state of a run in which the calls `needed` have returned
pub record Reached (w : World) (needed : List Call) (s : State) : Type 0 where
  pub history : IsHistory w s.calls
  pub created : s.created_pod ≡ true → IsMade w s.calls create_pod
  pub exported : s.exported ≡ true → IsMade w s.calls copy_data
  pub made : All (IsMade w s.calls) needed

pub later :
    (w : World) (c : Call) (calls needed : List Call)
    → All (IsMade w calls) needed
    → All (IsMade w (c ∷ calls)) needed
later w c calls [] h = tt
later w c calls (p ∷ needed) (found, h) = ((inr found.0, found.1), later w c calls needed h)

module _ {w : World} where
  pub fewer : {needed : List Call} (s : State) → Reached w needed s → Reached w [] s
  fewer s h = record { history = h.history; created = h.created; exported = h.exported; made = tt }

  pub give-Reached :
      {A : Type 0} {needed : List Call} (r : Result A)
      → Triple (Reached w needed) (give r) (λ x. Reached w needed) (Reached w [])
  give-Reached r = give-Triple r fewer

  pub call-Reached :
      {needed : List Call} (c : Call) (r : Result (Unit {0}))
      → (r ≡ ok tt → HasReturned w c)
      → ((calls : List Call) → All (IsMade w calls) needed → All (IsMade w calls) (preceding c))
      → Triple (Reached w needed) (call c r) (λ x. Reached w (c ∷ needed)) (Reached w [])
  unfolding call
  call-Reached c (raised e) returned follows = record {
    ends = λ s h. record {
      history = (follows s.calls h.made, h.history);
      created = λ e. let made = h.created e in (inr made.0, made.1);
      exported = λ e. let made = h.exported e in (inr made.0, made.1);
      made = tt;
    };
  }
  call-Reached {needed} c (ok tt) returned follows = record {
    ends = λ s h. record {
      history = (follows s.calls h.made, h.history);
      created = λ e. let made = h.created e in (inr made.0, made.1);
      exported = λ e. let made = h.exported e in (inr made.0, made.1);
      made = ((inl refl, returned refl), later w c s.calls needed h.made);
    };
  }

  -- a change that leaves the calls and the flags alone
  pub complain_if-Reached :
      {needed : List Call} (b : Bool) (c : Complaint)
      → Triple (Reached w needed) (complain_if b c) (λ x. Reached w needed) (Reached w [])
  unfolding complain_if
  complain_if-Reached true c = record {
    ends = λ s h. record {
      history = h.history;
      created = h.created;
      exported = h.exported;
      made = h.made;
    };
  }
  complain_if-Reached false c = record { ends = λ s h. h }

  pub delete_autoscalers-Reached :
      (deleted : List Autoscaler)
      → Triple
          (Reached w [])
          (delete_autoscalers w.autoscaler_deleted deleted)
          (λ x. Reached w [])
          (Reached w [])
  unfolding delete_autoscalers
  delete_autoscalers-Reached [] = give-Reached (ok tt)
  delete_autoscalers-Reached (hpa ∷ rest) =
      >>=-Triple (by_target (hpa.target == "payment-api")) (λ x. delete_autoscalers-Reached rest)
    where
      by_target :
          (b : Bool)
          → Triple
              (Reached w [])
              (if b
                then call (delete_autoscaler hpa.name) (w.autoscaler_deleted hpa.name)
                else give (ok tt))
              (λ x. Reached w [])
              (Reached w [])
      by_target true =
          weaken-Triple (call-Reached (delete_autoscaler hpa.name) _ (λ e. e) (λ calls h. tt))
            (λ x. fewer)
      by_target false = give-Reached (ok tt)

  pub apply_strategy-Reached :
      {needed : List Call} (strategy : Strategy)
      → Triple (Reached w needed) (apply_strategy w strategy) (λ x. Reached w []) (Reached w [])
  apply_strategy-Reached static = weaken-Triple (give-Reached (ok tt)) (λ x. fewer)
  apply_strategy-Reached hpa_candidate =
      weaken-Triple (call-Reached apply_autoscaler w.applied (λ e. e) (λ calls h. tt)) (λ x. fewer)

  pub connect-Reached :
      Triple
        (Reached w [])
        (change (λ s. record s { connected = true }))
        (λ x. Reached w [])
        (Reached w [])
  unfolding change
  connect-Reached = record {
    ends = λ s h. record {
      history = h.history;
      created = h.created;
      exported = h.exported;
      made = h.made;
    };
  }

  pub created_pod-Reached :
      {needed : List Call}
      → Triple
          (Reached w (create_pod ∷ needed))
          (change (λ s. record s { created_pod = true }))
          (λ x. Reached w (create_pod ∷ needed))
          (Reached w [])
  unfolding change
  created_pod-Reached = record {
    ends = λ s h. record {
      history = h.history;
      created = λ e. h.made.0;
      exported = h.exported;
      made = h.made;
    };
  }

  pub exported-Reached :
      {needed : List Call}
      → Triple
          (Reached w (copy_data ∷ needed))
          (change (λ s. record s { exported = true }))
          (λ x. Reached w (copy_data ∷ needed))
          (Reached w [])
  unfolding change
  exported-Reached = record {
    ends = λ s h. record {
      history = h.history;
      created = h.created;
      exported = λ e. h.made.0;
      made = h.made;
    };
  }

  pub reasons-Reached :
      {needed : List Call} (new : State → List Complaint)
      → Triple
          (Reached w needed)
          (change (λ s. record s { reasons = new s }))
          (λ x. Reached w needed)
          (Reached w [])
  unfolding change
  reasons-Reached new = record {
    ends = λ s h. record {
      history = h.history;
      created = h.created;
      exported = h.exported;
      made = h.made;
    };
  }

  pub summary-Reached :
      {needed : List Call} (summary : Summary)
      → Triple
          (Reached w needed)
          (change (λ s. record s { summary = some summary }))
          (λ x. Reached w needed)
          (Reached w [])
  unfolding change
  summary-Reached summary = record {
    ends = λ s h. record {
      history = h.history;
      created = h.created;
      exported = h.exported;
      made = h.made;
    };
  }
