-- ===== src/Workload/Trace/Compiled.antt =====
-- `compile_trace` at a valid configuration.
use kavach_ai.Common.{
  sym, ℕ, ◌+◌, ◌<◌, String, ◌≡◌, ◌≢◌, refl, inl, inr, List, [], ◌∷◌, map, length, All, Listed, some,
  Option-cases, arith,
}
use kavach_ai.Py.{
  Value, null, int, str, list, dict, Fields, end, field, items, keys, lookup, get, get_or,
  HasUniqueKeys, subscript, subscript_found, ok,
}
use kavach_ai.Workload.Config.{endpoints}
use kavach_ai.Workload.Config.Valid.{Stage, Config, int_of, AreStages, IsMix, IsConfig}
use kavach_ai.Workload.Config.Laws.{validate_config_iff}
use kavach_ai.Workload.Rng.{Rng, IsRng, total}
use kavach_ai.Workload.Trace.{Row, Run, run_seconds, run_stages, compile_trace, iterate, rounds}
use kavach_ai.Workload.Trace.Schedule.{schedule}
use kavach_ai.Workload.Trace.Extends.{
  tick, Numbered, IsDrawn, Extends, Extends-refl, Extends-trans, run_seconds-Extends,
}
use kavach_ai.Workload.Trace.Weights.{weights_in, weights_from_lem, total-endpoints}

-- what `d.get(k, default)` gives, apart from the default, stands in the dict
get_found :
    (k : String) (default : Value) (d : Fields) {v : Value}
    → get_or k default d ≡ v
    → v ≢ default
    → lookup k d ≡ some v
unfolding get_or
get_found k default d {v} e ne = elim (Option-cases (lookup k d)) [
  | inl missing ↦ absurd (ne (sym (rw (get_or, missing) at e)))
  | inr (w, found) ↦ let same : w ≡ v = rw (get_or, found) at e in rw (found, same) refl
]

present :
    (d : Fields) (k : String) (v : Value) → get k d ≡ v → v ≢ null → subscript (dict d) k ≡ ok v
unfolding get
present d k v e ne = subscript_found d k (get_found k null d e ne)

module _ (r : Rng) (laws : IsRng r) where
  run_stages-Extends :
      (ceiling : ℕ) (weights : List ℕ) (elapsed : ℕ) (vs : List Value) (ss : List Stage)
      (run : Run r)
      → AreStages ceiling vs ss
      → length weights ≡ 5
      → 0 < total weights
      → (run' : Run r) × (run_stages r weights elapsed vs run ≡ ok run')
        × Extends weights run.0 run'.0 (schedule elapsed ss)
  unfolding run_stages rounds
  run_stages-Extends ceiling weights elapsed [] [] run h five some_weight =
      (run, refl, Extends-refl run.0)
  run_stages-Extends ceiling weights elapsed [] (s ∷ ss) run h five some_weight = absurd h
  run_stages-Extends ceiling weights elapsed (v ∷ vs) [] run h five some_weight = absurd h
  run_stages-Extends ceiling weights elapsed (v ∷ vs) (s ∷ ss) run (st, h) five some_weight =
      let run1 = run_seconds r s.duration elapsed weights (str s.label) s.rps run in
      let (run', ran, extends) =
        run_stages-Extends ceiling weights (elapsed + s.duration) vs ss run1 h five some_weight in
      (
        run',
        rw
            (
              st.is_dict,
              present st.fields "duration_s" (int_of s.duration) st.duration (cc),
              present st.fields "rps" (int_of s.rps) st.rps (cc),
              present st.fields "label" (str s.label) st.label (cc),
            )
            ran,
        Extends-trans
            (run_seconds-Extends r laws s.duration elapsed weights (str s.label) s.rps run five
              some_weight)
            extends,
      )

  weights_pos :
      (mix : Fields) (ns : List ℕ)
      → HasUniqueKeys mix
      → IsMix mix ns
      → 0 < total (weights_in mix endpoints)
  weights_pos mix ns u h = omega (arith, total-endpoints mix ns u h)

-- a mix that holds the endpoints is not the empty default
mix_present :
    (config : Fields) (c : Config)
    → IsConfig config c
    → subscript (dict config) "request_mix" ≡ ok (dict c.mix)
mix_present config c h =
    subscript_found config "request_mix"
      (get_found "request_mix" (dict end) config h.mix not_default)
  where
    not_default : dict c.mix ≢ dict end
    not_default e = empty_mix c.mix e h.is_mix.complete.0
      where
        empty_mix : (d : Fields) → dict d ≡ dict end → Listed "login" (keys d) → ⊥
        empty_mix end e' l = l
        empty_mix (field k v d) e' l = cc

-- what a trace of a configuration is
pub record IsTrace (c : Config) (rows : List Row) : Type 0 where
  pub ticks_are : map tick rows ≡ schedule 0 c.stages
  pub numbered : Numbered 0 rows
  pub drawn : All (IsDrawn (weights_in c.mix endpoints)) rows

module _ (r : Rng) (laws : IsRng r) where
  -- For a valid configuration whose mix holds each key once, compile_trace raises nothing, and its
  -- rows are numbered from 0, follow the schedule of the stages, and hold drawn values in range:
  -- an endpoint of positive weight, a user in 1..100 and an amount in 100..10000.
  pub compile_trace-IsTrace :
      (config : Fields) (c : Config)
      → IsConfig config c
      → HasUniqueKeys c.mix
      → (rows : List Row) × (compile_trace r config ≡ ok rows) × IsTrace c rows
  unfolding compile_trace iterate
  compile_trace-IsTrace config c h u =
      let accepted = (validate_config_iff config config).1 (refl, c, h) in
      let ws = weights_in c.mix endpoints in
      let (run, ran, ext) =
        run_stages-Extends r laws c.max_rps ws 0 (items h.listed) c.stages ([], r.seeded c.seed)
          h.are_stages refl (weights_pos r laws c.mix c.weights u h.is_mix) in
      (
        run.0,
        rw
            (
              accepted,
              present config "seed" (int c.seed) h.seed (cc),
              mix_present config c h,
              weights_from_lem c.mix endpoints h.is_mix.complete,
              present config "stages" (list h.listed) h.stages (cc),
              ran,
            )
            refl,
        rw ext.appended
            (record { ticks_are = ext.ticks_are; numbered = ext.numbered; drawn = ext.drawn }),
      )
