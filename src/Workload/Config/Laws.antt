-- ===== src/Workload/Config/Laws.antt =====
-- `validate_config` of workload/trace.py against `IsConfig`.
use kavach_ai.Common.{
  ℕ, ◌≤◌, pos, ◌≡◌, refl, ◌↔◌, true, not, ltb, arith, or_false, and_true, not-false, ◌&&◌, ◌||◌,
  List, [], ◌∷◌, ◌<◌,
}
use native.Mathlib.Nat.{zero-add}
use kavach_ai.Py.{
  Value, int, list, dict, end, Items, nil, cons, Fields, items, get, get_or, eq_int, ok, >>=-eq-ok,
  raise_if-eq-ok,
}
use kavach_ai.Workload.Config.{
  hard_max_rps, int_within, int_value, is_plain_int, is_nonempty_list, elements, check_mix,
  check_stages, warmup_within, validate_config,
}
use kavach_ai.Workload.Config.Valid.{Stage, Config, total_duration, AreStages, IsConfig}
use kavach_ai.Workload.Config.Guards.{
  int_within_sound, int_within_complete, is_plain_int_sound, warmup_within_sound,
}
use kavach_ai.Workload.Config.Mix.{check_mix_sound, check_mix_complete}
use kavach_ai.Workload.Config.Stages.{check_stages_sound, check_stages_complete}

-- what has been computed when the guards have all let the configuration through
record Passed (config : Fields) : Type 0 where
  elapsed : ℕ
  seed : is_plain_int (get "seed" config) ≡ true
  ceiling : int_within (pos 1) (pos hard_max_rps) (get "max_rps" config) ≡ true
  mix : check_mix (get_or "request_mix" (dict end) config) ≡ ok tt
  nonempty : is_nonempty_list (get "stages" config) ≡ true
  stages :
      check_stages (int_value (get "max_rps" config)) 0 (elements (get "stages" config))
      ≡ ok elapsed
  duration : eq_int (pos elapsed) (get "duration_s" config) ≡ true
  bounded : elapsed ≤ 3600
  warmup : warmup_within elapsed (get_or "warmup_s" (int (pos 0)) config) ≡ true

Passed-validate_config :
    (config r : Fields) → validate_config config ≡ ok r → Passed config × (config ≡ r)
unfolding validate_config
Passed-validate_config config r h =
    let ceiling = get "max_rps" config in
    let stages = get "stages" config in
    let (seed, h1) = raise_if-eq-ok (not (is_plain_int (get "seed" config))) _ _ h in
    let (capped, h2) =
      raise_if-eq-ok (not (is_plain_int ceiling && int_within (pos 1) (pos hard_max_rps) ceiling)) _
        _ h1 in
    let (_, mix, h3) = >>=-eq-ok (check_mix (get_or "request_mix" (dict end) config)) _ h2 in
    let (nonempty, h4) = raise_if-eq-ok (not (is_nonempty_list stages)) _ _ h3 in
    let (elapsed, passed, h5) =
      >>=-eq-ok (check_stages (int_value ceiling) 0 (elements stages)) _ h4 in
    let (timed, h6) =
      raise_if-eq-ok (not (eq_int (pos elapsed) (get "duration_s" config)) || ltb 3600 elapsed) _ _
        h5 in
    let (warm, h7) =
      raise_if-eq-ok (not (warmup_within elapsed (get_or "warmup_s" (int (pos 0)) config))) _ _
        h6 in
    let (same, bounded) = or_false _ _ timed in
    (
      record {
        elapsed = elapsed;
        seed = not-false _ seed;
        ceiling = (and_true _ _ (not-false _ capped)).1;
        mix = mix;
        nonempty = not-false _ nonempty;
        stages = passed;
        duration = not-false _ same;
        bounded = ground arith;
        warmup = not-false _ warm;
      },
      cc h7,
    )

-- the elements of a nonempty list
nonempty_list_sound : (v : Value) → is_nonempty_list v ≡ true → (vs : Items) × (v ≡ list vs)
unfolding is_nonempty_list
nonempty_list_sound (list vs) h = (vs, refl)
nonempty_list_sound v h = absurd (cc h)

Passed-IsConfig : (config : Fields) → Passed config → (c : Config) × IsConfig config c
Passed-IsConfig config p =
    let (seed, seeded) = is_plain_int_sound _ p.seed in
    let (ceiling, is_ceiling, low, high) = int_within_sound 1 hard_max_rps _ p.ceiling in
    let (mix, weights, mixed, is_mix) = check_mix_sound _ p.mix in
    let (listed, is_list) = nonempty_list_sound _ p.nonempty in
    let (stages, are_stages, total) =
      check_stages_sound ceiling 0 (items listed) (rw (is_ceiling, is_list) at p.stages) in
    let (warmup, is_warmup, before) = warmup_within_sound p.elapsed _ p.warmup in
    let same : total_duration stages ≡ p.elapsed = omega arith in
    (
      record {
        seed = seed;
        max_rps = ceiling;
        mix = mix;
        weights = weights;
        stages = stages;
        warmup = warmup;
      },
      record {
        seed = seeded;
        max_rps = is_ceiling;
        max_rps_pos = low;
        max_rps_le = high;
        mix = mixed;
        is_mix = is_mix;
        listed = listed;
        stages = is_list;
        are_stages = are_stages;
        duration = rw same p.duration;
        duration_le = rw same p.bounded;
        warmup = is_warmup;
        warmup_lt = rw same before;
      },
    )

IsConfig-nonempty :
    {config : Fields} {c : Config}
    → IsConfig config c
    → is_nonempty_list (get "stages" config) ≡ true
unfolding is_nonempty_list
IsConfig-nonempty {config} {c} h = rw h.stages (go h.listed c.stages h.are_stages h.warmup_lt)
  where
    go :
        (vs : Items) (ss : List Stage)
        → AreStages c.max_rps (items vs) ss
        → c.warmup < total_duration ss
        → is_nonempty_list (list vs) ≡ true
    go nil [] a lt = absurd (omega arith)
    go nil (s ∷ ss) a lt = absurd a
    go (cons v vs) ss a lt = refl

IsConfig-accepted :
    (config : Fields) (c : Config) → IsConfig config c → validate_config config ≡ ok config
unfolding validate_config is_plain_int warmup_within
IsConfig-accepted config c h =
    let nonempty = IsConfig-nonempty h in
    let listed = check_stages_complete c.max_rps 0 (items h.listed) c.stages h.are_stages in
    rw
      (
        h.seed,
        h.max_rps,
        int_within_complete 1 hard_max_rps c.max_rps h.max_rps_pos h.max_rps_le,
        h.mix,
        check_mix_complete c.mix c.weights h.is_mix,
        nonempty,
        h.stages,
        listed,
        zero-add (total_duration c.stages),
        h.duration,
        h.warmup,
      )
      (ground arith)

-- A call of validate_config returns exactly when the dict is a configuration: an integer seed, a
-- ceiling in [1, 400], the five endpoints with weights that add up to 100, stages within their
-- bounds, a duration that is their sum and at most 3600, and a warmup below it. It then returns
-- its argument.
pub validate_config_iff :
    (config r : Fields)
    → (validate_config config ≡ ok r) ↔ ((config ≡ r) × (c : Config) × IsConfig config c)
validate_config_iff config r = (
  λ h.
      let (passed, same) = Passed-validate_config config r h in
      let (c, valid) = Passed-IsConfig config passed in (same, c, valid),
  λ (same, c, valid). rw (← same) (IsConfig-accepted config c valid),
)
