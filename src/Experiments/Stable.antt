-- ===== src/Experiments/Stable.antt =====
-- The wait for stable replicas in `run` of experiments/run.py. What the loop reads of the clock and of
-- the deployment comes from a list with one `Poll` for each round; times are whole ticks.
pub mod Held
pub mod Ends
use kavach_ai.Common.{
  ℕ, zero, suc, ◌+◌, ltb, leb, eqb, Bool, true, false, ◌&&◌, Option, none, some, List, [], ◌∷◌,
  if◌then◌else◌,
}

pub record Poll : Type 0 where
  -- the clock at the loop's condition
  pub entered : ℕ
  pub ready_replicas : Option ℕ
  pub replicas : Option ℕ
  -- the clock where `stable_start` is set, and where it is compared
  pub started : ℕ
  pub checked : ℕ

-- how the loop ends; `unfinished` if the list is shorter than the loop
pub data Wait : Type 0 where
  stable timed_out unfinished : Wait

abbrev pub is_count : ℕ → Option ℕ → Bool
is_count n none = false
is_count n (some m) = eqb m n

-- both numbers of the deployment's status are the wanted one
abbrev pub at_target : ℕ → Poll → Bool
at_target target p = is_count target p.ready_replicas && is_count target p.replicas

-- `stable_start or time.monotonic()`: 0 counts as not set
abbrev pub since : Option ℕ → Poll → ℕ
since none p = p.started
since (some zero) p = p.started
since (some (suc t)) p = suc t

unfoldable pub wait_stable : (target deadline hold : ℕ) → Option ℕ → List Poll → Wait
wait_stable target deadline hold start [] = unfinished
wait_stable target deadline hold start (p ∷ polls) =
    let begun = since start p in
    let held = wait_stable target deadline hold (some begun) polls in
    let again = wait_stable target deadline hold none polls in
    if ltb p.entered deadline
    then (if at_target target p
        then (if leb (begun + hold) p.checked then stable else held)
        else again)
    else timed_out
