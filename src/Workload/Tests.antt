-- ===== src/Workload/Tests.antt =====
-- The theorems on the workload, applied to concrete configurations, traces and rows.
use kavach_ai.Common.{
  starts_with, ℕ, ◌+◌, ◌*◌, ◌/◌, ◌≤◌, pos, finite, true, ◌≡◌, ◌↔◌, inl, inr, refl, List, [], ◌∷◌,
  map, All, none, arith,
}
use kavach_ai.Py.{
  bool, Value, int, str, list, dict, Items, nil, cons, Fields, end, field, HasUniqueKeys, Result,
  ok, lookup, get, get_or,
}
use kavach_ai.Example.Configuration.{mix, mix-IsMix, mix-HasUniqueKeys, stage_of}
use kavach_ai.Example.Generator.{first_rng, first_rng-IsRng}
use kavach_ai.Example.Runtime.{small_runtime, small_runtime-IsRuntime}
use kavach_ai.Api.Settings.{Settings, default_signing_key}
use kavach_ai.Api.Bodies.{confirmation_valid}
use kavach_ai.Api.Serve.{serve}
use kavach_ai.Workload.Config.{validate_config}
use kavach_ai.Workload.Config.Valid.{Config, IsStage, IsConfig}
use kavach_ai.Workload.Config.Laws.{validate_config_iff}
use kavach_ai.Workload.Scenarios.{stage, written}
use kavach_ai.Workload.Scenarios.Valid.{validate_config-written}
use kavach_ai.Workload.Start.{Site, is_only, on_start}
use kavach_ai.Workload.Start.Target.{IsTarget, on_start-IsTarget, on_start-health}
use kavach_ai.Api.Reply.{returned}
use kavach_ai.Api.Requests.{health}
use kavach_ai.Workload.Trace.{Row, compile_trace}
use kavach_ai.Workload.Trace.Spacing.{Within, Ordered}
use kavach_ai.Workload.Trace.Extends.{tick, IsDrawn}
use kavach_ai.Workload.Trace.Compiled.{IsTrace, compile_trace-IsTrace}
use kavach_ai.Workload.Trace.Offered.{compile_trace-Ordered, offsets_of_stages}
use kavach_ai.Workload.Issue.{receipt_for, issue}
use kavach_ai.Api.Serve.Session.{Succeeds}
use kavach_ai.Workload.Issue.Served.{issue-Succeeds}
use kavach_ai.Workload.Replay.{Clock, Wake, replay, max_pending}
use kavach_ai.Workload.Replay.Outcome.{row_of, IsReported, replay_accounts}
use kavach_ai.Workload.Replay.Pacing.{OnTime, Paced, replay-IsPaced}

abbrev stages : Items
stages = cons (stage_of 2 5 "steady") (cons (stage_of 2 20 "flash") nil)

-- the configuration with this seed
abbrev config_of : ℕ → Fields
config_of seed = field "name" (str "test") (
    field "seed" (int (pos seed)) (
      field "max_rps" (int (pos 20)) (
        field "duration_s" (int (pos 4)) (
          field "warmup_s" (int (pos 0))
            (field "request_mix" (dict mix) (field "stages" (list stages) end))))))

abbrev content_of : ℕ → Config
content_of seed = record {
  seed = pos seed;
  max_rps = 20;
  mix = mix;
  weights = 10 ∷ 30 ∷ 30 ∷ 20 ∷ 10 ∷ [];
  stages =
      record { duration = 2; rps = 5; label = "steady" }
      ∷ record { duration = 2; rps = 20; label = "flash" }
      ∷ [];
  warmup = 0;
}

steady-IsStage :
    IsStage 20 (stage_of 2 5 "steady") (record { duration = 2; rps = 5; label = "steady" })
unfolding kavach_ai.Py.get
steady-IsStage = record {
  fields = _;
  is_dict = refl;
  duration = refl;
  duration_pos = omega arith;
  duration_le = omega arith;
  rps = refl;
  rps_le = omega arith;
  label = refl;
  label_known = inl refl;
}

flash-IsStage :
    IsStage 20 (stage_of 2 20 "flash") (record { duration = 2; rps = 20; label = "flash" })
unfolding kavach_ai.Py.get
flash-IsStage = record {
  fields = _;
  is_dict = refl;
  duration = refl;
  duration_pos = omega arith;
  duration_le = omega arith;
  rps = refl;
  rps_le = omega arith;
  label = refl;
  label_known = inr (inr (inl refl));
}

fixture-IsConfig : (seed : ℕ) → IsConfig (config_of seed) (content_of seed)
unfolding get get_or lookup
fixture-IsConfig seed = record {
  seed = refl;
  max_rps = refl;
  max_rps_pos = omega arith;
  max_rps_le = omega arith;
  mix = refl;
  is_mix = mix-IsMix;
  listed = stages;
  stages = refl;
  are_stages = (steady-IsStage, (flash-IsStage, tt));
  duration = refl;
  duration_le = omega arith;
  warmup = refl;
  warmup_lt = omega arith;
}

validate_config_iff_example :
    (validate_config (config_of 240005) ≡ ok (config_of 240005))
    ↔ ((config_of 240005 ≡ config_of 240005) × (c : Config) × IsConfig (config_of 240005) c)
validate_config_iff_example = validate_config_iff (config_of 240005) (config_of 240005)

compile_trace-IsTrace_example :
    (rows : List Row) × (compile_trace first_rng (config_of 240005) ≡ ok rows)
    × IsTrace (content_of 240005) rows
compile_trace-IsTrace_example =
    compile_trace-IsTrace first_rng first_rng-IsRng (config_of 240005) (content_of 240005)
      (fixture-IsConfig 240005) mix-HasUniqueKeys

traced :
    (seed : ℕ)
    → (rows : List Row) × (compile_trace first_rng (config_of seed) ≡ ok rows)
      × IsTrace (content_of seed) rows
traced seed =
    compile_trace-IsTrace first_rng first_rng-IsRng (config_of seed) (content_of seed)
      (fixture-IsConfig seed) mix-HasUniqueKeys

compile_trace-Ordered_example :
    All (λ t. Within 20 0 4 t.offset) (map tick (traced 240005).0)
    × Ordered (map tick (traced 240005).0)
compile_trace-Ordered_example =
    compile_trace-Ordered first_rng first_rng-IsRng (config_of 240005) (content_of 240005)
      (traced 240005).0 (fixture-IsConfig 240005) mix-HasUniqueKeys (traced 240005).1

offsets_of_stages_example : map tick (traced 240005).0 ≡ map tick (traced 240006).0
offsets_of_stages_example =
    offsets_of_stages first_rng first_rng first_rng-IsRng first_rng-IsRng (config_of 240005)
      (config_of 240006) (content_of 240005) (content_of 240006) (traced 240005).0 (traced 240006).0
      (fixture-IsConfig 240005) (fixture-IsConfig 240006) mix-HasUniqueKeys mix-HasUniqueKeys refl
      (traced 240005).1 (traced 240006).1

abbrev settings : Settings
settings = record {
  cpu_work_factor = pos 2000;
  io_delay_ms = finite (pos 0);
  error_injection_rate = finite (pos 0);
  seed = pos 240005;
  signing_key = default_signing_key;
}

abbrev confirm_row : Row
confirm_row = record {
  sequence = 3;
  offset = record { whole = 0; slot = 3; rps = 5 };
  endpoint = "confirm";
  user = 7;
  amount_minor = 100;
  label = str "steady";
}

confirm_row-IsDrawn : IsDrawn (10 ∷ 30 ∷ 30 ∷ 20 ∷ 10 ∷ []) confirm_row
confirm_row-IsDrawn = record {
  endpoint = inr (inr (inr (inl (refl, omega arith))));
  user_pos = omega arith;
  user_le = omega arith;
  amount_ge = omega arith;
  amount_le = omega arith;
}

receipt-IsValid :
    confirmation_valid (record { transaction_id = receipt_for small_runtime confirm_row }) ≡ true
unfolding confirmation_valid receipt_for kavach_ai.Workload.Issue.signed
    kavach_ai.Example.Codec.escape kavach_ai.Example.Codec.dump_fields kavach_ai.Py.merge
    kavach_ai.Workload.Issue.payload_of kavach_ai.Py.put kavach_ai.Example.Codec.put_text
    kavach_ai.Example.Codec.strokes kavach_ai.Example.Codec.numeral
    kavach_ai.Api.Runtime.equal_signs
receipt-IsValid = refl

issue-Succeeds_example : Succeeds (serve small_runtime settings (issue small_runtime confirm_row))
issue-Succeeds_example =
    issue-Succeeds small_runtime small_runtime-IsRuntime settings refl refl confirm_row
      (10 ∷ 30 ∷ 30 ∷ 20 ∷ 10 ∷ []) confirm_row-IsDrawn (omega arith) receipt-IsValid

-- milliseconds, at 20 requests a second
abbrev millis : Clock
millis = record {
  ticks = λ o. o.whole * 1000 + o.slot * 1000 / o.rps;
  interval = 50;
  tolerance = 100;
}

abbrev wakes : List Wake
wakes =
    record { asleep_at = 500; oversleep = 3; finished = 0 }
    ∷ record { asleep_at = 3000; oversleep = 0; finished = 1 }
    ∷ []

-- the request that is still pending ends in time
replay_accounts_example :
    let (s, r) = replay millis 1000 (confirm_row ∷ confirm_row ∷ []) wakes (ok 1) in
    (map row_of s.log ≡ confirm_row ∷ confirm_row ∷ [])
    × IsReported (confirm_row ∷ confirm_row ∷ []) s (ok 1) r
replay_accounts_example =
    replay_accounts millis 1000 (confirm_row ∷ confirm_row ∷ []) wakes (ok 1) refl

replay-IsPaced_example :
    let s = (replay millis 1000 (confirm_row ∷ confirm_row ∷ []) wakes (ok 1)).0 in
    All (OnTime millis 1000) s.log × Paced millis 1000 none s.log × (s.pending ≤ max_pending)
replay-IsPaced_example = replay-IsPaced millis 1000 (confirm_row ∷ confirm_row ∷ []) wakes (ok 1)

validate_config-written_example :
    validate_config (written "smoke" (stage 60 10 "steady" ∷ []) 20)
    ≡ ok (written "smoke" (stage 60 10 "steady" ∷ []) 20)
validate_config-written_example =
    validate_config-written "smoke" (stage 60 10 "steady" ∷ []) 20
      ((omega arith, omega arith, omega arith, inl refl), tt) (omega arith) (omega arith)

abbrev site : Site
site = record {
  expected = "10.96.0.9";
  is_private = λ address. ok (starts_with "10." address);
  resolved = "10.96.0.9" ∷ [];
  host = "http://10.96.0.9:8000";
  status = 200;
  body = dict (
      field "status" (str "ok")
        (field "service" (str "kavach-synthetic-payment") (field "synthetic" (bool true) end)));
  scenario = config_of 240005;
}

address-private : site.is_private "10.96.0.9" ≡ ok true
unfolding starts_with
address-private = refl

address-only : is_only "10.96.0.9" ("10.96.0.9" ∷ []) ≡ true
unfolding is_only
address-only = refl

health-answered : health ≡ returned site.body
unfolding health
health-answered = refl

on_start-health_example :
    (trace : List Row) × (on_start first_rng site ≡ ok (config_of 240005, trace))
    × IsTrace (content_of 240005) trace
on_start-health_example =
    on_start-health first_rng first_rng-IsRng site (content_of 240005) address-private address-only
      refl refl health-answered (fixture-IsConfig 240005) mix-HasUniqueKeys

-- the start of the example above, for the next one
site_started :
    (trace : List Row) × (on_start first_rng site ≡ ok (config_of 240005, trace))
    × IsTrace (content_of 240005) trace
site_started =
    on_start-health first_rng first_rng-IsRng site (content_of 240005) address-private address-only
      refl refl health-answered (fixture-IsConfig 240005) mix-HasUniqueKeys

on_start-IsTarget_example :
    IsTarget site
    × (config_of 240005 ≡ config_of 240005)
    × (validate_config (config_of 240005) ≡ ok (config_of 240005))
    × (compile_trace first_rng (config_of 240005) ≡ ok site_started.0)
on_start-IsTarget_example =
    on_start-IsTarget first_rng site (config_of 240005) site_started.0 site_started.1
