-- ===== src/Workload/Scenarios/Valid.antt =====
-- What create-scenarios.py writes against `validate_config`.
use kavach_ai.Common.{
  ℕ, ◌≤◌, ◌<◌, String, pos, true, ◌≡◌, refl, inl, inr, List, [], ◌∷◌, All, Listed, arith,
}
use kavach_ai.Py.{int, items, lookup, get, get_or, ok, eq_int}
use kavach_ai.Workload.Config.{classes, validate_config}
use kavach_ai.Workload.Config.Valid.{
  Stage, Config, total_duration, IsStage, AreStages, IsMix, IsConfig,
}
use kavach_ai.Workload.Config.Laws.{validate_config_iff}
use kavach_ai.Workload.Scenarios.{default_mix, stage_value, stage_values, written}

-- a stage within the bounds
abbrev pub IsBounded : Stage → Type 0
IsBounded s = (1 ≤ s.duration) × (s.duration ≤ 600) × (s.rps ≤ 400) × Listed s.label classes

stage_value-IsStage : (s : Stage) → IsBounded s → IsStage 400 (stage_value s) s
unfolding get get_or lookup
stage_value-IsStage s (low, high, rate, label) = record {
  fields = _;
  is_dict = refl;
  duration = refl;
  duration_pos = low;
  duration_le = high;
  rps = refl;
  rps_le = rate;
  label = refl;
  label_known = label;
}

stage_values-AreStages :
    (stages : List Stage)
    → All IsBounded stages
    → AreStages 400 (items (stage_values stages)) stages
stage_values-AreStages [] h = tt
stage_values-AreStages (s ∷ stages) (b, h) =
    (stage_value-IsStage s b, stage_values-AreStages stages h)

default_mix-IsMix : IsMix default_mix (10 ∷ 30 ∷ 30 ∷ 20 ∷ 10 ∷ [])
default_mix-IsMix = record {
  known = (
    inl refl,
    (
      inr (inl refl),
      (inr (inr (inl refl)), (inr (inr (inr (inl refl))), (inr (inr (inr (inr (inl refl)))), tt))),
    ),
  );
  complete = (
    inl refl,
    (
      inr (inl refl),
      (inr (inr (inl refl)), (inr (inr (inr (inl refl))), (inr (inr (inr (inr (inl refl)))), tt))),
    ),
  );
  weights_are = refl;
  weights_sum = refl;
}

abbrev content : List Stage → ℕ → Config
content stages warmup = record {
  seed = pos 240005;
  max_rps = 400;
  mix = default_mix;
  weights = 10 ∷ 30 ∷ 30 ∷ 20 ∷ 10 ∷ [];
  stages = stages;
  warmup = warmup;
}

same_duration : (n : ℕ) → eq_int (pos n) (int (pos n)) ≡ true
same_duration n = ground arith

written-IsConfig :
    (name : String) (stages : List Stage) (warmup : ℕ)
    → All IsBounded stages
    → total_duration stages ≤ 3600
    → warmup < total_duration stages
    → IsConfig (written name stages warmup) (content stages warmup)
unfolding written get get_or lookup
written-IsConfig name stages warmup bounded total early = record {
  seed = refl;
  max_rps = refl;
  max_rps_pos = omega arith;
  max_rps_le = omega arith;
  mix = refl;
  is_mix = default_mix-IsMix;
  listed = stage_values stages;
  stages = refl;
  are_stages = stage_values-AreStages stages bounded;
  duration = same_duration (total_duration stages);
  duration_le = total;
  warmup = refl;
  warmup_lt = early;
}

-- A configuration that create-scenarios.py writes is accepted by validate_config, if its stages are
-- within the bounds, last at most 3600 seconds together and longer than the warmup.
pub validate_config-written :
    (name : String) (stages : List Stage) (warmup : ℕ)
    → All IsBounded stages
    → total_duration stages ≤ 3600
    → warmup < total_duration stages
    → validate_config (written name stages warmup) ≡ ok (written name stages warmup)
validate_config-written name stages warmup bounded total early =
    (validate_config_iff (written name stages warmup) (written name stages warmup)).1
      (refl, content stages warmup, written-IsConfig name stages warmup bounded total early)
