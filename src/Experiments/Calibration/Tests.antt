-- ===== src/Experiments/Calibration/Tests.antt =====
-- The calibration of a run of two stages, of twelve and of five seconds, whose requests are answered
-- one after the other.
use kavach_ai.Common.{
  none, some, ◌≤◌, ◌+◌, inf, pos, ◌≡◌, inl, inr, refl, List, [], ◌∷◌, ◌++◌, map, length,
  length-append, eqb_iff, arith,
}
use kavach_ai.Py.{int, str, dict, list, Fields, end, field, get, get_or, lookup, ok, cons, nil}
use kavach_ai.Example.Configuration.{mix, mix-IsMix, mix-HasUniqueKeys, stage_of}
use kavach_ai.Example.Generator.{first_rng, first_rng-IsRng}
use kavach_ai.Workload.Config.Valid.{Config, IsConfig}
use kavach_ai.Workload.Trace.{Row, compile_trace}
use kavach_ai.Workload.Trace.Compiled.{IsTrace, compile_trace-IsTrace}
use kavach_ai.Workload.Output.{
  Line, answered, Output, send, answer, Reach, initially, next, has_all_lines,
}
use kavach_ai.Experiments.Calibration.{Request, Stage, summarize}
use kavach_ai.Experiments.Calibration.Windows.{total_offered, summarize_counts_once}
use kavach_ai.Experiments.Calibration.Lines
use kavach_ai.Experiments.Calibration.Complete.{AreCalibrated, summarize-AreCalibrated}

abbrev config : Fields
config = field "name" (str "test") (
    field "seed" (int (pos 7)) (
      field "max_rps" (int (pos 20)) (
        field "duration_s" (int (pos 17)) (
          field "warmup_s" (int (pos 0)) (
            field "request_mix" (dict mix) (
              field "stages"
                (list (cons (stage_of 12 2 "steady") (cons (stage_of 5 3 "flash") nil))) end))))))

abbrev content : Config
content = record {
  seed = pos 7;
  max_rps = 20;
  mix = mix;
  weights = 10 ∷ 30 ∷ 30 ∷ 20 ∷ 10 ∷ [];
  stages =
      record { duration = 12; rps = 2; label = "steady" }
      ∷ record { duration = 5; rps = 3; label = "flash" }
      ∷ [];
  warmup = 0;
}

config-IsConfig : IsConfig config content
unfolding get get_or lookup
config-IsConfig = record {
  seed = refl;
  max_rps = refl;
  max_rps_pos = omega arith;
  max_rps_le = omega arith;
  mix = refl;
  is_mix = mix-IsMix;
  listed = _;
  stages = refl;
  are_stages = (
    record {
      fields = _;
      is_dict = refl;
      duration = refl;
      duration_pos = omega arith;
      duration_le = omega arith;
      rps = refl;
      rps_le = omega arith;
      label = refl;
      label_known = inl refl;
    },
    (
      record {
        fields = _;
        is_dict = refl;
        duration = refl;
        duration_pos = omega arith;
        duration_le = omega arith;
        rps = refl;
        rps_le = omega arith;
        label = refl;
        label_known = inr (inr (inl refl));
      },
      tt,
    ),
  );
  duration = refl;
  duration_le = omega arith;
  warmup = refl;
  warmup_lt = omega arith;
}

traced : (rows : List Row) × (compile_trace first_rng config ≡ ok rows) × IsTrace content rows
traced =
    compile_trace-IsTrace first_rng first_rng-IsRng config content config-IsConfig mix-HasUniqueKeys

abbrev line : Row → Line
line row =
    answered (record { event = row; lag = 0 })
      (record { status = 200; dispatched_utc = inf; completed_utc = inf; latency_ms = inf })

-- the lines so far, and then one for each row
abbrev lines : List Line → List Row → List Line
lines file [] = file
lines file (row ∷ rows) = lines (file ++ line row ∷ []) rows

abbrev output : List Row → List Line → Output
output rows file = record { left = rows; pending = []; file = file; lost = []; drops = 0 }

one_by_one :
    (trace : List Row) (file : List Line) (rows : List Row)
    → Reach 5 trace (output rows file)
    → Reach 5 trace (output [] (lines file rows))
one_by_one trace file [] h = h
one_by_one trace file (row ∷ rows) h =
    one_by_one trace (file ++ line row ∷ []) rows
      (next (next h (send _ row rows 0 refl refl)) (answer _ [] _ [] _ refl))

length-lines :
    (file : List Line) (rows : List Row) → length (lines file rows) ≡ length file + length rows
length-lines file [] = omega arith
length-lines file (row ∷ rows) =
    omega (arith, length-lines (file ++ line row ∷ []) rows, length-append file (line row ∷ []))

summarize-AreCalibrated_example : AreCalibrated content.stages (
    summarize 1000 0
      (map Lines.stage_of content.stages)
      (map (Lines.request_of 1000 (λ x. 3)) (lines [] traced.0)))
unfolding kavach_ai.Workload.Output.generator_valid has_all_lines
summarize-AreCalibrated_example =
    summarize-AreCalibrated 1000 (λ x. 3) first_rng config content traced.0 5
      (output [] (lines [] traced.0)) (omega arith) first_rng-IsRng config-IsConfig
      mix-HasUniqueKeys traced.1 (one_by_one traced.0 [] traced.0 initially) refl refl
      ((eqb_iff (length (lines [] traced.0)) (length traced.0)).1
        (omega (arith, length-lines [] traced.0)))

-- three requests, the last of them dropped
abbrev three_requests : List Request
three_requests =
    record { offset = 11; response = some (record { status = 200; latency = 40 }) }
    ∷ record { offset = 12; response = some (record { status = 503; latency = 20 }) }
    ∷ record { offset = 32; response = none }
    ∷ []

abbrev two_stages : List Stage
two_stages = record { duration = 20; rps = 1 } ∷ record { duration = 20; rps = 2 } ∷ []

summarize_counts_once_example : total_offered (summarize 1 0 two_stages three_requests) ≤ 3
summarize_counts_once_example = summarize_counts_once 1 two_stages three_requests
