-- ===== src/Workload/Output/Lines.antt =====
-- The dicts that workload/locustfile.py writes: one for each line of requests.jsonl, and replay.json.
use kavach_ai.Common.{
  ℕ, String, Float, pos, arith, true, false, Bool, ◌≡◌, refl, List, length, some,
}
use kavach_ai.Py.{
  Value, bool, int, float, str, Fields, end, field, lookup, merge, put, HasUniqueKeys,
  merge-HasUniqueKeys,
}
use kavach_ai.Workload.Trace.{Offset, Row}
use kavach_ai.Workload.Trace.Rows.{Format, row_fields, trace_hash}
use kavach_ai.Workload.Output.{Line, answered, unsent, event_of, Output, generator_valid}

-- the rest of the doubles
pub record Times : Type 0 where
  -- `started + event["offset_s"]`
  pub scheduled : Offset → Float
  -- `now - due`, of that many ticks
  pub seconds : ℕ → Float
  pub started : Float
  -- `time.time()` when the report is written
  pub ended : Float

module _ (f : Format) (t : Times) where
  -- what follows `**event`
  unfoldable pub outcome_fields : Line → Fields
  outcome_fields (answered job a) = field "scheduled_utc" (float (t.scheduled job.event.offset)) (
      field "dispatched_utc" (float a.dispatched_utc) (
        field "completed_utc" (float a.completed_utc) (
          field "generator_lag_s" (float (t.seconds job.lag)) (
            field "status" (int (pos a.status))
              (field "latency_ms" (float a.latency_ms) (field "dropped" (bool false) end))))))
  outcome_fields (unsent job) =
      field "scheduled_utc" (float (t.scheduled job.event.offset))
        (field "generator_lag_s" (float (t.seconds job.lag)) (field "dropped" (bool true) end))

  unfoldable pub line_fields : Line → Fields
  unfolding outcome_fields
  line_fields l = merge (row_fields f (event_of l)) (outcome_fields l)

  -- replay.json, which is written if `join` raises no exception of a request
  unfoldable pub report_fields : List Row → (max_rps : Value) → Output → Fields
  unfolding generator_valid trace_hash
  report_fields trace max_rps s = field "trace_hash" (str (trace_hash f trace)) (
      field "offered" (int (pos (length trace))) (
        field "dropped" (int (pos s.drops)) (
          field "start_utc" (float t.started) (
            field "end_utc" (float t.ended) (
              field "generator_valid" (bool (generator_valid s))
                (field "request_rate_ceiling" max_rps end))))))

  abbrev pub is_unsent : Line → Bool
  is_unsent (answered job a) = false
  is_unsent (unsent job) = true

  unique_row : (row : Row) → HasUniqueKeys (row_fields f row)
  unfolding row_fields lookup
  unique_row row = (refl, (refl, (refl, (refl, (refl, (refl, tt))))))

  -- The line of an event keeps every field of its row, has no key twice, and says whether the event was
  -- dropped.
  pub line_fields-row :
      (l : Line) (k : String) {v : Value}
      → lookup k (row_fields f (event_of l)) ≡ some v
      → (lookup k (line_fields l) ≡ some v)
        × (lookup "dropped" (line_fields l) ≡ some (bool (is_unsent l)))
        × HasUniqueKeys (line_fields l)
  unfolding line_fields outcome_fields row_fields lookup merge put
  line_fields-row (answered job a) k h = (
    ground arith,
    refl,
    merge-HasUniqueKeys (row_fields f job.event) (outcome_fields (answered job a))
        (unique_row job.event),
  )
  line_fields-row (unsent job) k h = (
    ground arith,
    refl,
    merge-HasUniqueKeys (row_fields f job.event) (outcome_fields (unsent job))
        (unique_row job.event),
  )
