-- ===== src/Workload/Trace/Schedule.antt =====
-- When a trace of stages offers its requests: a description apart from the loops, and its laws.
use kavach_ai.Common.{
  ℕ, zero, suc, ◌+◌, ◌*◌, ◌≡◌, refl, List, [], ◌∷◌, ◌++◌, length, length-append, arith,
}
use kavach_ai.Py.{Value, str}
use kavach_ai.Workload.Config.Valid.{Stage}
use kavach_ai.Workload.Trace.{Offset}

pub record Tick : Type 0 where
  pub offset : Offset
  pub label : Value

-- the slots of one second
abbrev pub second_ticks : (left slot whole rps : ℕ) → Value → List Tick
second_ticks zero slot whole rps label = []
second_ticks (suc left) slot whole rps label =
    record { offset = record { whole = whole; slot = slot; rps = rps }; label = label }
    ∷ second_ticks left (suc slot) whole rps label

abbrev pub stage_ticks : (left whole rps : ℕ) → Value → List Tick
stage_ticks zero whole rps label = []
stage_ticks (suc left) whole rps label =
    second_ticks rps 0 whole rps label ++ stage_ticks left (suc whole) rps label

abbrev pub schedule : ℕ → List Stage → List Tick
schedule elapsed [] = []
schedule elapsed (s ∷ stages) =
    stage_ticks s.duration elapsed s.rps (str s.label) ++ schedule (elapsed + s.duration) stages

-- how many requests the stages offer
abbrev pub offered : List Stage → ℕ
offered [] = 0
offered (s ∷ stages) = s.duration * s.rps + offered stages

length-second_ticks :
    (left slot whole rps : ℕ) (label : Value)
    → length (second_ticks left slot whole rps label) ≡ left
length-second_ticks zero slot whole rps label = refl
length-second_ticks (suc left) slot whole rps label =
    omega (arith, length-second_ticks left (suc slot) whole rps label)

length-stage_ticks :
    (left whole rps : ℕ) (label : Value) → length (stage_ticks left whole rps label) ≡ left * rps
length-stage_ticks zero whole rps label = omega arith
length-stage_ticks (suc left) whole rps label = rw length-append (
    omega (
      arith,
      length-second_ticks rps 0 whole rps label,
      length-stage_ticks left (suc whole) rps label,
    ))

pub length-schedule :
    (elapsed : ℕ) (stages : List Stage) → length (schedule elapsed stages) ≡ offered stages
length-schedule elapsed [] = refl
length-schedule elapsed (s ∷ stages) = rw length-append (
    omega (
      arith,
      length-stage_ticks s.duration elapsed s.rps (str s.label),
      length-schedule (elapsed + s.duration) stages,
    ))
