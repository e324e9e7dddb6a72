-- ===== src/Workload/Scenarios.antt =====
-- scripts/create-scenarios.py: the configurations that it writes. Creating the folder and the file,
-- which fails if the file is there, is not modelled.
pub mod Valid
use kavach_ai.Common.{
  ℕ, String, pos, Bool, true, false, ltb, List, [], ◌∷◌, ◌++◌, map, if◌then◌else◌,
}
use kavach_ai.Py.{Value, int, str, list, dict, Items, nil, cons, Fields, end, field}
use kavach_ai.Workload.Config.Valid.{Stage, total_duration}

abbrev pub default_mix : Fields
default_mix = field "login" (int (pos 10)) (
    field "balance" (int (pos 30)) (
      field "initiate" (int (pos 30))
        (field "confirm" (int (pos 20)) (field "transaction" (int (pos 10)) end))))

-- `(duration, rps, label)`
abbrev pub stage : ℕ → ℕ → String → Stage
stage duration rps label = record { duration = duration; rps = rps; label = label }

-- `[a, b] * 6`
abbrev six_times : List ℕ → List ℕ
six_times xs = xs ++ (xs ++ (xs ++ (xs ++ (xs ++ xs))))

abbrev pub shapes : List (String × List Stage)
shapes =
    ("steady", stage 180 40 "steady" ∷ [])
    ∷ ("ramp", map (λ rate. stage 30 rate "ramp") (20 ∷ 40 ∷ 60 ∷ 80 ∷ 100 ∷ 120 ∷ []))
    ∷ ("flash", stage 45 20 "steady" ∷ stage 45 180 "flash" ∷ stage 90 20 "recovery" ∷ [])
    ∷ (
      "repeated_burst",
      map (λ rate. stage 15 rate (if ltb 20 rate then "flash" else "steady"))
          (six_times (20 ∷ 150 ∷ [])),
    )
    ∷ ("oscillatory", map (λ rate. stage 15 rate "oscillatory") (six_times (10 ∷ 180 ∷ [])))
    ∷ ("sustained_overload", stage 180 300 "sustained_overload" ∷ [])
    ∷ (
      "hybrid",
      stage 30 30 "steady"
          ∷ stage 30 80 "ramp"
          ∷ stage 30 200 "flash"
          ∷ stage 30 20 "recovery"
          ∷ stage 30 200 "oscillatory"
          ∷ stage 30 30 "recovery"
          ∷ [],
    )
    ∷ ("recovery", stage 60 180 "sustained_overload" ∷ stage 120 10 "recovery" ∷ [])
    ∷ []

abbrev pub stage_value : Stage → Value
stage_value s = dict (
    field "duration_s" (int (pos s.duration))
      (field "rps" (int (pos s.rps)) (field "label" (str s.label) end)))

abbrev pub stage_values : List Stage → Items
stage_values [] = nil
stage_values (s ∷ stages) = cons (stage_value s) (stage_values stages)

-- the `cfg` of `write`
unfoldable pub written : String → List Stage → (warmup : ℕ) → Fields
written name stages warmup = field "name" (str name) (
    field "seed" (int (pos 240005)) (
      field "max_rps" (int (pos 400)) (
        field "duration_s" (int (pos (total_duration stages))) (
          field "warmup_s" (int (pos warmup)) (
            field "request_mix" (dict default_mix)
              (field "stages" (list (stage_values stages)) end))))))

-- the call for an entry of SHAPES
abbrev pub scenario : String × List Stage → Fields
scenario (name, shape) = written name (stage 30 10 "steady" ∷ shape) 30

abbrev pub smoke : Fields
smoke = written "smoke" (stage 60 10 "steady" ∷ []) 20

abbrev pub capacity : Fields
capacity =
    written "capacity"
      (stage 30 10 "steady" ∷ map (λ rps. stage 60 rps "ramp") (20 ∷ 40 ∷ 80 ∷ 120 ∷ 180 ∷ 240 ∷ [])
        ++ stage 60 10 "recovery" ∷ [])
      30
