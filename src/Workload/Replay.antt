-- ===== src/Workload/Replay.antt =====
-- `TraceReplay.replay` of workload/locustfile.py: the loop that sends the trace. Times are whole
-- ticks of a clock; `Clock` holds the constants of the loop in ticks, so the rounding of the
-- source's doubles is not modelled. What the other greenlets and the scheduler do is read from a
-- list with one `Wake` for each event.
pub mod Pacing
pub mod Outcome
use kavach_ai.Common.{
  ℕ, ◌+◌, ◌-◌, ltb, leb, eqb, Bool, true, false, ◌&&◌, ◌||◌, Option, none, some, List, [], ◌∷◌,
  ◌++◌, length, if◌then◌else◌,
}
use Prim.Native.Nat.{max}
use kavach_ai.Py.{Result, ok, raised}
use kavach_ai.Workload.Trace.{Row, Offset}

pub record Clock : Type 0 where
  -- an offset in ticks, 1 / max_rps, and the 0.1 s above which an event is too late
  pub ticks : Offset → ℕ
  pub interval : ℕ
  pub tolerance : ℕ

-- what the loop meets at an event: the time when it goes to sleep, by how much the sleep is too
-- long, and how many pending requests have finished by then
pub record Wake : Type 0 where
  pub asleep_at : ℕ
  pub oversleep : ℕ
  pub finished : ℕ

-- what becomes of an event: it is sent at a time, or written to the file as dropped
pub data Entry : Type 0 where
  sent : Row → (at : ℕ) → Entry
  dropped : Row → (lag : ℕ) → Entry

pub record Replay : Type 0 where
  -- `none` is minus infinity
  pub previous : Option ℕ
  pub drops : ℕ
  pub pending : ℕ
  pub log : List Entry

abbrev pub initial : Replay
initial = record { previous = none; drops = 0; pending = 0; log = [] }

-- the length of the list of pending requests that stops the loop from sending
abbrev pub max_pending : ℕ
max_pending = 200

-- `max(0, due - t, previous + 1 / max_rps - t)`: subtraction stops at 0, as the `max` does
unfoldable pub sleep_for : Clock → (due t : ℕ) → Option ℕ → ℕ
sleep_for clock due t none = due - t
sleep_for clock due t (some previous) = max (due - t) (previous + clock.interval - t)

unfoldable pub step : Clock → (origin : ℕ) → Row → Wake → Replay → Replay
unfolding sleep_for
step clock origin row wake s =
    let due = origin + clock.ticks row.offset in
    let now = wake.asleep_at + sleep_for clock due wake.asleep_at s.previous + wake.oversleep in
    let lag = now - due in
    let pending = s.pending - wake.finished in
    if ltb clock.tolerance lag || leb max_pending pending
    then record {
      previous = s.previous;
      drops = s.drops + 1;
      pending = pending;
      log = s.log ++ dropped row lag ∷ [];
    }
    else record {
      previous = some now;
      drops = s.drops;
      pending = pending + 1;
      log = s.log ++ sent row now ∷ [];
    }

-- the loop; the wakes are as many as the events
unfoldable pub replay_from : Clock → ℕ → List Row → List Wake → Replay → Replay
replay_from clock origin [] wakes s = s
replay_from clock origin (row ∷ rows) [] s = s
replay_from clock origin (row ∷ rows) (wake ∷ wakes) s =
    replay_from clock origin rows wakes (step clock origin row wake s)

-- what is written to replay.json
pub record Report : Type 0 where
  pub offered : ℕ
  pub dropped_count : ℕ
  pub generator_valid : Bool

-- `join(timeout=10, raise_error=True)` waits for the pending requests: so many of them end in that time,
-- or one of them has ended in an exception, which it raises, and no report is written
unfoldable pub report : List Row → (joined : Result ℕ) → Replay → Result Report
report trace (raised e) s = raised e
report trace (ok finished) s = ok (record {
  offered = length trace;
  dropped_count = s.drops;
  generator_valid = eqb s.drops 0 && eqb (s.pending - finished) 0;
})

unfoldable pub replay : Clock → ℕ → List Row → List Wake → Result ℕ → Replay × Result Report
unfolding replay_from report
replay clock origin trace wakes joined =
    let s = replay_from clock origin trace wakes initial in (s, report trace joined s)
