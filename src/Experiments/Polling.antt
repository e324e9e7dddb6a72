-- ===== src/Experiments/Polling.antt =====
-- The loops that wait for a file of the load pod: `wait_file` of experiments/run.py. What a round reads
-- of the clock and of kubectl comes from a list; where the list ends, the next reading of the clock is
-- at the deadline.
use kavach_ai.Common.{ℕ, ltb, ℤ, eqb_ℤ, pos, List, [], ◌∷◌, if◌then◌else◌}
use kavach_ai.Py.{Value, Result, raised, other_error, ◌>>=◌}

-- what `kubectl exec` gives, with the JSON of its output
pub record Output : Type 0 where
  pub returncode : ℤ
  pub json : Result Value

pub record Look : Type 0 where
  -- the clock at the loop's condition
  pub entered : ℕ
  pub output : Result Output

unfoldable pub wait_file : (deadline : ℕ) → List Look → Result Value
wait_file deadline [] = raised (other_error "TimeoutError" "Load pod did not produce the file")
wait_file deadline (look ∷ looks) =
    let again = wait_file deadline looks in
    if ltb look.entered deadline
    then (look.output >>= λ output. if eqb_ℤ output.returncode (pos 0) then output.json else again)
    else raised (other_error "TimeoutError" "Load pod did not produce the file")
