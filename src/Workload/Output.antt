-- ===== src/Workload/Output.antt =====
-- The file requests.jsonl that `TraceReplay.replay` and the greenlets of `TraceReplay.issue` of
-- workload/locustfile.py write together. The steps interleave in any order: the loop takes the next
-- event and drops or sends it, and a pending request is answered, which writes its line, or ends in
-- an exception, which writes none. `join` waits for the requests that are still pending.
pub mod Complete
pub mod Lines
mod Tests
use kavach_ai.Common.{
  ℕ, Float, ◌+◌, ltb, leb, eqb, Bool, true, false, ◌&&◌, ◌||◌, ◌≡◌, Option, none, some, List, [],
  ◌∷◌, ◌++◌, length,
}
use kavach_ai.Workload.Trace.{Row}
use kavach_ai.Workload.Replay.{max_pending}

-- an event of the trace and by how much it was late when the loop took it
pub record Job : Type 0 where
  pub event : Row
  pub lag : ℕ

-- what the greenlet has measured when the response is there
pub record Answer : Type 0 where
  pub status : ℕ
  pub dispatched_utc : Float
  pub completed_utc : Float
  pub latency_ms : Float

-- a line of requests.jsonl, which `dropped` tells apart
pub data Line : Type 0 where
  answered : Job → Answer → Line
  unsent : Job → Line

-- `event` of a line, whose keys it has
abbrev pub event_of : Line → Row
event_of (answered job a) = job.event
event_of (unsent job) = job.event

pub record Output : Type 0 where
  -- the events that the loop has still to take
  pub left : List Row
  -- `self.pending_requests`
  pub pending : List Job
  pub file : List Line
  -- the jobs whose greenlet has ended in an exception
  pub lost : List Job
  pub drops : ℕ

abbrev pub opened : List Row → Output
opened trace = record { left = trace; pending = []; file = []; lost = []; drops = 0 }

-- `lag > 0.1 or len(self.pending_requests) >= 200`
abbrev pub is_dropped : (tolerance lag : ℕ) → List Job → Bool
is_dropped tolerance lag pending = ltb tolerance lag || leb max_pending (length pending)

module _ (tolerance : ℕ) where
  pub data Step : Output → Output → Type 0 where
    drop :
        (s : Output) (row : Row) (rest : List Row) (lag : ℕ)
        → s.left ≡ row ∷ rest
        → is_dropped tolerance lag s.pending ≡ true
        → Step s (record s {
          left = rest;
          file = s.file ++ unsent (record { event = row; lag = lag }) ∷ [];
          drops = s.drops + 1;
        })
    send :
        (s : Output) (row : Row) (rest : List Row) (lag : ℕ)
        → s.left ≡ row ∷ rest
        → is_dropped tolerance lag s.pending ≡ false
        → Step s (record s {
          left = rest;
          pending = s.pending ++ record { event = row; lag = lag } ∷ [];
        })
    answer :
        (s : Output) (before : List Job) (job : Job) (after : List Job) (a : Answer)
        → s.pending ≡ before ++ job ∷ after
        → Step s (record s { pending = before ++ after; file = s.file ++ answered job a ∷ [] })
    lose :
        (s : Output) (before : List Job) (job : Job) (after : List Job)
        → s.pending ≡ before ++ job ∷ after
        → Step s (record s { pending = before ++ after; lost = job ∷ s.lost })

  pub data Reach (trace : List Row) : Output → Type 0 where
    initially : Reach trace (opened trace)
    next : {s t : Output} → Reach trace s → Step s t → Reach trace t

-- `dropped == 0 and not self.pending_requests`, when the loop is over
unfoldable pub generator_valid : Output → Bool
generator_valid s = eqb s.drops 0 && eqb (length s.pending) 0

-- `len(requests) != len(trace)` of experiments/run.py is false
unfoldable pub has_all_lines : Output → List Row → Bool
has_all_lines s trace = eqb (length s.file) (length trace)
