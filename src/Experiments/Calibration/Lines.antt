-- ===== src/Experiments/Calibration/Lines.antt =====
-- The lines of requests.jsonl as `summarize` reads them.
use kavach_ai.Common.{ℕ, Float, ◌+◌, ◌*◌, ◌/◌, Option, none, some}
use kavach_ai.Workload.Config.Valid
use kavach_ai.Workload.Trace.{Offset}
use kavach_ai.Workload.Output.{Line, answered, unsent, event_of}
use kavach_ai.Experiments.Calibration.{Request, Response, Stage}

-- an offset in ticks; part of a tick is left out, so that with enough ticks to a second it is exact
abbrev pub ticks_of : (second : ℕ) → Offset → ℕ
ticks_of second o = o.whole * second + o.slot * second / o.rps

module _ (second : ℕ) (ticks : Float → ℕ) where
  abbrev pub response_of : Line → Option Response
  response_of (answered job a) = some (record { status = a.status; latency = ticks a.latency_ms })
  response_of (unsent job) = none

  -- `json.loads(line)`; `ticks` takes milliseconds to ticks
  abbrev pub request_of : Line → Request
  request_of line = record {
    offset = ticks_of second (event_of line).offset;
    response = response_of line;
  }

-- `stage["duration_s"]` and `stage["rps"]`
abbrev pub stage_of : Valid.Stage → Stage
stage_of s = record { duration = s.duration; rps = s.rps }
