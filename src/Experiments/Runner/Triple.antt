-- ===== src/Experiments/Runner/Triple.antt =====
-- Conditions before and after an `Action` of experiments/run.py.
use kavach_ai.Py.{Result, ok, raised}
use kavach_ai.Experiments.Runner.{State, Action, after, ◌>>=◌, give}

-- `good` of the value and the state of an action that returned, `bad` of the state of one that raised
abbrev pub Ends : {A : Type 0} → (A → State → Type 0) → (State → Type 0) → State × Result A → Type 0
Ends good bad (s, ok x) = good x s
Ends good bad (s, raised e) = bad s

pub record Triple {A : Type 0} (before : State → Type 0) (action : Action A)
    (good : A → State → Type 0) (bad : State → Type 0) : Type 0 where
  pub ends : (s : State) → before s → Ends good bad (action s)

module _ {A B : Type 0} {before : State → Type 0} {good : A → State → Type 0}
    {best : B → State → Type 0} {bad : State → Type 0} where
  pub >>=-Triple :
      {action : Action A} {next : A → Action B}
      → Triple before action good bad
      → ((x : A) → Triple (good x) (next x) best bad)
      → Triple before (action >>= next) best bad
  unfolding ◌>>=◌
  >>=-Triple {action} {next} h k = record { ends = λ s p. by_end (action s) (h.ends s p) }
    where
      by_end : (r : State × Result A) → Ends good bad r → Ends best bad (after r next)
      by_end (s, ok x) q = (k x).ends s q
      by_end (s, raised e) q = q

module _ {A : Type 0} {before bad : State → Type 0} where
  pub give-Triple :
      (r : Result A) → ((s : State) → before s → bad s) → Triple before (give r) (λ x. before) bad
  unfolding give
  give-Triple (ok x) weaken = record { ends = λ s p. p }
  give-Triple (raised e) weaken = record { ends = weaken }

  pub weaken-Triple :
      {good best : A → State → Type 0} {action : Action A}
      → Triple before action good bad
      → ((x : A) (s : State) → good x s → best x s)
      → Triple before action best bad
  weaken-Triple {good} {best} {action} h weaken = record {
    ends = λ s p. by_end (action s) (h.ends s p);
  }
    where
      by_end : (r : State × Result A) → Ends good bad r → Ends best bad r
      by_end (s, ok x) q = weaken x s q
      by_end (s, raised e) q = q
