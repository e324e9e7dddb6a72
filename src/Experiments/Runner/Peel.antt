-- ===== src/Experiments/Runner/Peel.antt =====
-- What is known of the first part of an `Action` that has returned, for use in what follows.
use kavach_ai.Common.{Bool, true, false, ◌≡◌, ◌≢◌, refl, List, [], ◌∷◌, ◌++◌}
use kavach_ai.Py.{Result, ok, raised}
use kavach_ai.Experiments.Runner.{
  Call, Complaint, State, Action, after, ◌>>=◌, ◌>>◌, give, change, call, complain_if,
}

pub record Returned {B : Type 0} (action : Action B) (s s' : State) (y : B) : Type 0 where
  pub eq : action s ≡ (s', ok y)

by_after :
    {A B C : Type 0} (r : State × Result A) (next : A → Action B) {s' : State} {y : B}
    → after r next ≡ (s', ok y)
    → ((x : A) (s : State) → r ≡ (s, ok x) → Returned (next x) s s' y → C)
    → C
by_after (s, ok x) next h use_it = use_it x s refl (record { eq = h })
by_after (s, raised e) next h use_it = absurd (cc h)

module _ {A B C : Type 0} {next : A → Action B} {s s' : State} {y : B} where
  pub by_action :
      {action : Action A}
      → Returned (action >>= next) s s' y
      → ((x : A) (s1 : State) → Returned action s s1 x → Returned (next x) s1 s' y → C)
      → C
  unfolding ◌>>=◌
  by_action {action} h use_it =
      by_after (action s) next h.eq (λ x s1 e. use_it x s1 (record { eq = e }))

  pub by_give :
      {r : Result A}
      → Returned (give r >>= next) s s' y
      → ((x : A) → r ≡ ok x → Returned (next x) s s' y → C)
      → C
  unfolding ◌>>=◌ give
  by_give {r = ok x} h use_it = use_it x refl (record { eq = h.eq })
  by_give {r = raised e} h use_it = absurd (cc h.eq)

pub nonempty : (reasons : List Complaint) (c : Complaint) → reasons ++ c ∷ [] ≢ []
nonempty [] c e = cc e
nonempty (x ∷ reasons) c e = cc e

module _ {B C : Type 0} {rest : Action B} {s s' : State} {y : B} where
  pub by_call :
      {c : Call} {r : Result (Unit {0})}
      → Returned (call c r >> rest) s s' y
      → (r ≡ ok tt → Returned rest (record s { calls = c ∷ s.calls }) s' y → C)
      → C
  unfolding ◌>>=◌ call
  by_call {r = ok _} h use_it = use_it refl (record { eq = h.eq })
  by_call {r = raised e} h use_it = absurd (cc h.eq)

  pub by_change :
      (f : State → State) → Returned (change f >> rest) s s' y → (Returned rest (f s) s' y → C) → C
  unfolding ◌>>=◌ change
  by_change f h use_it = use_it (record { eq = h.eq })

  -- a complaint is in the reasons
  pub by_complain_if :
      (b : Bool) (c : Complaint)
      → Returned (complain_if b c >> rest) s s' y
      → ((s1 : State)
          → (s1.reasons ≡ [] → (b ≡ false) × (s.reasons ≡ []))
          → Returned rest s1 s' y
          → C)
      → C
  unfolding ◌>>=◌ complain_if
  by_complain_if true c h use_it =
      use_it _ (λ e. absurd (nonempty s.reasons c e)) (record { eq = h.eq })
  by_complain_if false c h use_it = use_it s (λ e. (refl, e)) (record { eq = h.eq })
