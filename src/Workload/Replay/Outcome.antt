-- ===== src/Workload/Replay/Outcome.antt =====
-- What the loop of `TraceReplay.replay` accounts for.
use kavach_ai.Common.{
  ℕ, ◌+◌, ◌-◌, ltb, leb, eqb, true, ◌&&◌, ◌||◌, ◌≡◌, refl, ◌↔◌, inl, inr, Bool-cases, List, [], ◌∷◌,
  ◌++◌, map, map-append, append_assoc, append-nil, length, arith, suc,
}
use kavach_ai.Py.{Error, Result, ok, raised}
use kavach_ai.Workload.Trace.{Row}
use kavach_ai.Workload.Replay.{
  Clock, Wake, Entry, sent, dropped, Replay, initial, step, sleep_for, replay_from, replay, Report,
  report,
}

abbrev pub row_of : Entry → Row
row_of (sent row at) = row
row_of (dropped row lag) = row

abbrev pub drops_in : List Entry → ℕ
drops_in [] = 0
drops_in (sent row at ∷ log) = drops_in log
drops_in (dropped row lag ∷ log) = suc (drops_in log)

drops_in-append : (log more : List Entry) → drops_in (log ++ more) ≡ drops_in log + drops_in more
drops_in-append [] more = omega arith
drops_in-append (sent row at ∷ log) more = drops_in-append log more
drops_in-append (dropped row lag ∷ log) more = omega (arith, drops_in-append log more)

-- the log holds the events so far, in order, and the drops are counted
pub record Accounts (done : List Row) (s : Replay) : Type 0 where
  pub rows : map row_of s.log ≡ done
  pub drops : s.drops ≡ drops_in s.log

module _ (clock : Clock) (origin : ℕ) where
  step-Accounts :
      (done : List Row) (row : Row) (wake : Wake) (s : Replay)
      → Accounts done s
      → Accounts (done ++ row ∷ []) (step clock origin row wake s)
  unfolding step
  step-Accounts done row wake s h =
      let due = origin + clock.ticks row.offset in
      let now = wake.asleep_at + sleep_for clock due wake.asleep_at s.previous + wake.oversleep in
      elim (Bool-cases (ltb clock.tolerance (now - due) || leb 200 (s.pending - wake.finished))) [
        | inl drop ↦ rw drop (record {
          rows = rw (map-append, h.rows) refl;
          drops = omega (arith, h.drops, drops_in-append s.log (dropped row (now - due) ∷ []));
        })
        | inr keep ↦ rw keep (record {
          rows = rw (map-append, h.rows) refl;
          drops = omega (arith, h.drops, drops_in-append s.log (sent row now ∷ []));
        })
      ]

  replay_from-Accounts :
      (done rows : List Row) (wakes : List Wake) (s : Replay)
      → length wakes ≡ length rows
      → Accounts done s
      → Accounts (done ++ rows) (replay_from clock origin rows wakes s)
  unfolding replay_from
  replay_from-Accounts done [] wakes s e h = rw append-nil h
  replay_from-Accounts done (row ∷ rows) [] s e h = absurd (omega arith)
  replay_from-Accounts done (row ∷ rows) (wake ∷ wakes) s e h = rw append_assoc at (
      replay_from-Accounts (done ++ row ∷ []) rows wakes (step clock origin row wake s)
        (omega arith) (step-Accounts done row wake s h))

-- how the report follows from the log and the wait for the pending requests
pub data IsReported (trace : List Row) (s : Replay) : Result ℕ → Result Report → Type 0 where
  unwritten : (e : Error) → IsReported trace s (raised e) (raised e)
  written :
      (finished : ℕ) (r : Report)
      → r.offered ≡ length trace
      → r.dropped_count ≡ drops_in s.log
      → (r.generator_valid ≡ true) ↔ ((drops_in s.log ≡ 0) × (s.pending - finished ≡ 0))
      → IsReported trace s (ok finished) (ok r)

report-IsReported :
    (trace : List Row) (s : Replay) (joined : Result ℕ)
    → s.drops ≡ drops_in s.log
    → IsReported trace s joined (report trace joined s)
unfolding report
report-IsReported trace s (raised e) h = unwritten e
report-IsReported trace s (ok finished) h =
    written finished _ refl h (rw (← h) (valid_iff s.drops (s.pending - finished)))
  where
    valid_iff : (a b : ℕ) → ((eqb a 0 && eqb b 0) ≡ true) ↔ ((a ≡ 0) × (b ≡ 0))
    valid_iff a b = ground arith

-- If the loop wakes once for each event of the trace, every event is sent or dropped, once and in
-- order. If the final wait raises the exception of a request, there is no report; and else the report
-- counts the events and the drops, and calls the generator valid exactly when nothing was dropped and
-- no request was still pending after the wait.
pub replay_accounts :
    (clock : Clock) (origin : ℕ) (trace : List Row) (wakes : List Wake) (joined : Result ℕ)
    → length wakes ≡ length trace
    → let (s, r) = replay clock origin trace wakes joined in
      (map row_of s.log ≡ trace) × IsReported trace s joined r
unfolding replay
replay_accounts clock origin trace wakes joined e =
    let h =
      replay_from-Accounts clock origin [] trace wakes initial e
        (record { rows = refl; drops = refl }) in
    (h.rows, report-IsReported trace (replay_from clock origin trace wakes initial) joined h.drops)
