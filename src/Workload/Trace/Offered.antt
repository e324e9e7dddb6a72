-- ===== src/Workload/Trace/Offered.antt =====
-- How many requests a compiled trace offers, and when.
use kavach_ai.Common.{ℕ, suc, ◌≡◌, refl, sym, ap, ◌∙◌, List, [], ◌∷◌, map, length, All}
use native.Mathlib.Nat.{zero-add}
use kavach_ai.Py.{Value, Fields, Error, HasUniqueKeys, items, ok, raised}
use kavach_ai.Workload.Config.{validate_config}
use kavach_ai.Workload.Config.Valid.{Stage, Config, total_duration, AreStages, IsConfig}
use kavach_ai.Workload.Rng.{Rng, IsRng}
use kavach_ai.Workload.Trace.{Row, compile_trace}
use kavach_ai.Workload.Trace.Schedule.{schedule, offered, length-schedule}
use kavach_ai.Workload.Trace.Spacing.{
  Within, Ordered, RatesBelow, schedule-Within, schedule-Ordered,
}
use kavach_ai.Workload.Trace.Extends.{tick}
use kavach_ai.Workload.Trace.Compiled.{IsTrace, compile_trace-IsTrace}

pub AreStages-RatesBelow :
    (cap : ℕ) (vs : List Value) (ss : List Stage) → AreStages cap vs ss → RatesBelow cap ss
AreStages-RatesBelow cap [] [] h = tt
AreStages-RatesBelow cap [] (s ∷ ss) h = absurd h
AreStages-RatesBelow cap (v ∷ vs) [] h = absurd h
AreStages-RatesBelow cap (v ∷ vs) (s ∷ ss) (st, h) = (st.rps_le, AreStages-RatesBelow cap vs ss h)

length-map-tick : (rows : List Row) → length (map tick rows) ≡ length rows
length-map-tick [] = refl
length-map-tick (row ∷ rows) = ap suc (length-map-tick rows)

module _ (r : Rng) (laws : IsRng r) (config : Fields) (c : Config) (rows : List Row)
    (valid : IsConfig config c) (unique : HasUniqueKeys c.mix)
    (compiled : compile_trace r config ≡ ok rows) where
  pub is_trace : IsTrace c rows
  is_trace =
      let (rows', same, t) = compile_trace-IsTrace r laws config c valid unique in
      let e : rows' ≡ rows = cc in rw (← e) t

  -- A compiled trace offers, for each stage, its rate times its seconds.
  pub length-compile_trace : length rows ≡ offered c.stages
  length-compile_trace =
      sym (length-map-tick rows) ∙ ap length is_trace.ticks_are ∙ length-schedule 0 c.stages

  -- Every row of a compiled trace is in a second of the configured duration, at a slot of this second
  -- below its rate, which is at most max_rps; and each row is in a later second than any row before it,
  -- or in the same second, at the same rate, at a later slot.
  pub compile_trace-Ordered :
      All (λ t. Within c.max_rps 0 (total_duration c.stages) t.offset) (map tick rows)
      × Ordered (map tick rows)
  compile_trace-Ordered =
      let rates = AreStages-RatesBelow c.max_rps (items valid.listed) c.stages valid.are_stages in
      rw (is_trace.ticks_are) (
        rw zero-add at (schedule-Within c.max_rps 0 c.stages rates),
        schedule-Ordered c.max_rps 0 c.stages rates,
      )

-- Two configurations with the same stages offer their requests at the same offsets, under the same
-- labels, whatever their seeds, mixes and generators.
pub offsets_of_stages :
    (r r' : Rng) (laws : IsRng r) (laws' : IsRng r') (config config' : Fields) (c c' : Config)
    (rows rows' : List Row)
    → IsConfig config c
    → IsConfig config' c'
    → HasUniqueKeys c.mix
    → HasUniqueKeys c'.mix
    → c.stages ≡ c'.stages
    → compile_trace r config ≡ ok rows
    → compile_trace r' config' ≡ ok rows'
    → map tick rows ≡ map tick rows'
offsets_of_stages r r' laws laws' config config' c c' rows rows' v v' u u' same p p' =
    (is_trace r laws config c rows v u p).ticks_are
    ∙ ap (schedule 0) same
    ∙ sym (is_trace r' laws' config' c' rows' v' u' p').ticks_are

-- A configuration that validate_config refuses is not compiled: the same exception leaves the call.
pub compile_trace_refused :
    (r : Rng) (config : Fields) {e : Error}
    → validate_config config ≡ raised e
    → compile_trace r config ≡ raised e
unfolding compile_trace
compile_trace_refused r config e = rw e refl
