-- ===== src/Collector/Tests.antt =====
-- The theorems on the collector, applied to one good row and to a collection of two rounds.
use kavach_ai.Common.{
  ◌^◌, ◌+◌, ℕ, pos, finite, true, none, some, ◌≡◌, ◌≢◌, ◌↔◌, refl, sym, List, [], ◌∷◌, ◌++◌, map,
  length,
}
use kavach_ai.Py.{Value, null, int, str, list, dict, nil, cons, end, field, Result, ok}
use kavach_ai.Example.Samples.{one, doubles, response, old, new, events, tick, cold}
use kavach_ai.Collector.Query.{Response, queries, prom_query}
use kavach_ai.Collector.Query.Number.{HasResult, Answers, prom_query_iff}
use kavach_ai.Collector.Rows.{Row, validate_rows}
use kavach_ai.Collector.Rows.Readings.{AreGood}
use kavach_ai.Collector.Rows.Good.{validate_rows_sound}
use kavach_ai.Collector.Sampling.{
  Pod, Sample, Tick, Progress, Measured, whole, uids, measure, sample, sample_all, begun,
}
use kavach_ai.Collector.Sampling.Starts.{
  HasUniqueUids, HasUniquePods, TotalStarts, distinct, starts_counted_once,
}
use kavach_ai.Collector.Sampling.Scaling.{moved, scaling_event_lem}

-- every reading is 1: a second, a replica, a request a second
abbrev row : Row
row = record { reading = λ field. some (finite (pos (2 ^ 1074))); error = "" }

row-passes : (validate_rows (row ∷ []) (pos 1) 2).passed ≡ true
unfolding validate_rows kavach_ai.Collector.Rows.row_reasons kavach_ai.Py.eq_float
row-passes = refl

validate_rows_sound_example :
    (pos (length (row ∷ [])) ≡ pos 1)
    × (◌≢◌ {A = List Row} (row ∷ []) [])
    × AreGood 2 none (row ∷ [])
validate_rows_sound_example = validate_rows_sound (row ∷ []) (pos 1) 2 row-passes

prom_query-response : prom_query one response ≡ ok (some (whole 1))
unfolding prom_query kavach_ai.Py.get_of kavach_ai.Py.get kavach_ai.Py.subscript kavach_ai.Py.truthy
    kavach_ai.Collector.Query.single kavach_ai.Py.len kavach_ai.Py.element
prom_query-response = refl

prom_query_iff_example :
    (prom_query one response ≡ ok (some (whole 1)))
    ↔ ((result : Value) × HasResult response result × Answers one result (some (whole 1)))
prom_query_iff_example = prom_query_iff one response (some (whole 1))

abbrev ticks : List Tick
ticks = tick 1 (old ∷ []) ∷ tick 3 (old ∷ new ∷ []) ∷ []

tick-HasUniquePods : (n : ℕ) (pods : List Pod) → HasUniqueUids pods → HasUniquePods (tick n pods)
tick-HasUniquePods n pods u pods' h = let same : pods ≡ pods' = cc h in rw (sym same) u

starts_counted_once_example :
    let s = sample_all doubles ticks (begun (old ∷ [])) in
    (n : ℕ) × TotalStarts s.samples n × (distinct s.seen_pods ≡ n + distinct (uids (old ∷ [])))
starts_counted_once_example = starts_counted_once doubles (old ∷ []) ticks (
  tick-HasUniquePods 1 (old ∷ []) (refl, tt),
  (tick-HasUniquePods 3 (old ∷ new ∷ []) (refl, (refl, tt)), tt),
)

abbrev start : Progress
start = begun (old ∷ [])

abbrev measured : Measured
measured = record {
  pods = old ∷ [];
  desired = 1;
  events = events;
  answers = map (λ q. (q.0, some (whole 1))) queries;
}

measure-measured : measure doubles (tick 1 (old ∷ [])) ≡ ok measured
unfolding measure prom_query kavach_ai.Py.get_of kavach_ai.Py.get kavach_ai.Py.subscript
    kavach_ai.Py.truthy kavach_ai.Collector.Query.single kavach_ai.Py.len kavach_ai.Py.element
measure-measured = refl

scaling_event_lem_example :
    (x : Sample) × ((sample doubles (tick 1 (old ∷ [])) (sample doubles cold start)).samples
      ≡ (sample doubles cold start).samples ++ x ∷ [])
    × (x.scaling_event ≡ some (moved (measure doubles cold) 1))
scaling_event_lem_example =
    scaling_event_lem doubles cold (tick 1 (old ∷ [])) start measured measure-measured
