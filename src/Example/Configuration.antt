-- ===== src/Example/Configuration.antt =====
-- Parts of a configuration of a workload, and one of 22 seconds for an experiment.
use kavach_ai.Common.{ℕ, String, pos, inl, inr, refl, [], ◌∷◌}
use kavach_ai.Py.{Value, int, str, list, dict, nil, cons, Fields, end, field, HasUniqueKeys, lookup}
use kavach_ai.Workload.Config.Valid.{IsMix}

abbrev pub mix : Fields
mix = field "login" (int (pos 10)) (
    field "balance" (int (pos 30)) (
      field "initiate" (int (pos 30))
        (field "confirm" (int (pos 20)) (field "transaction" (int (pos 10)) end))))

pub mix-IsMix : IsMix mix (10 ∷ 30 ∷ 30 ∷ 20 ∷ 10 ∷ [])
mix-IsMix = record {
  known = (
    inl refl,
    (
      inr (inl refl),
      (inr (inr (inl refl)), (inr (inr (inr (inl refl))), (inr (inr (inr (inr (inl refl)))), tt))),
    ),
  );
  complete = (
    inl refl,
    (
      inr (inl refl),
      (inr (inr (inl refl)), (inr (inr (inr (inl refl))), (inr (inr (inr (inr (inl refl)))), tt))),
    ),
  );
  weights_are = refl;
  weights_sum = refl;
}

pub mix-HasUniqueKeys : HasUniqueKeys mix
unfolding lookup
mix-HasUniqueKeys = (refl, (refl, (refl, (refl, (refl, tt)))))

-- `{"duration_s": duration, "rps": rps, "label": label}`
abbrev pub stage_of : ℕ → ℕ → String → Value
stage_of duration rps label = dict (
    field "rps" (int (pos rps))
      (field "duration_s" (int (pos duration)) (field "label" (str label) end)))

-- 20 seconds without a request, which are the warmup, and 2 seconds of a request each
abbrev pub experiment : Fields
experiment = field "name" (str "test") (
    field "seed" (int (pos 7)) (
      field "max_rps" (int (pos 20)) (
        field "duration_s" (int (pos 22)) (
          field "warmup_s" (int (pos 20)) (
            field "request_mix" (dict mix) (
              field "stages"
                (list (cons (stage_of 20 0 "steady") (cons (stage_of 2 1 "flash") nil))) end))))))
