-- ===== src/Workload/Replay/Pacing.antt =====
-- When the loop of `TraceReplay.replay` sends.
use kavach_ai.Common.{
  ℕ, ◌+◌, ◌-◌, ◌≤◌, ltb, leb, ◌||◌, ◌≡◌, refl, ◌∙◌, inl, inr, or_false, Bool-cases, Option, none,
  some, List, [], ◌∷◌, ◌++◌, All, All-append, arith,
}
use kavach_ai.Py.{Result}
use kavach_ai.Workload.Trace.{Row}
use kavach_ai.Workload.Replay.{
  Clock, Wake, Entry, sent, dropped, Replay, initial, max_pending, sleep_for, step, replay_from,
  replay,
}

module _ (clock : Clock) (origin : ℕ) where
  -- an event that is sent goes out at its due time or at most the tolerance after it; one that is
  -- dropped was not early either
  abbrev pub OnTime : Entry → Type 0
  OnTime (sent row at) =
      (origin + clock.ticks row.offset ≤ at)
      × (at ≤ origin + clock.ticks row.offset + clock.tolerance)
  OnTime (dropped row lag) = Unit

  -- two events sent are at least an interval apart, whatever was dropped between them; `last` is the
  -- time of the one sent before the list
  abbrev pub Paced : Option ℕ → List Entry → Type 0
  Paced last [] = Unit
  Paced none (sent row at ∷ log) = Paced (some at) log
  Paced (some t) (sent row at ∷ log) = (t + clock.interval ≤ at) × Paced (some at) log
  Paced last (dropped row lag ∷ log) = Paced last log

  -- the time of the last event sent
  abbrev last_sent : Option ℕ → List Entry → Option ℕ
  last_sent last [] = last
  last_sent last (sent row at ∷ log) = last_sent (some at) log
  last_sent last (dropped row lag ∷ log) = last_sent last log

  -- the entry may follow an event sent at `last`
  abbrev Follows : Option ℕ → Entry → Type 0
  Follows none e = Unit
  Follows (some t) (sent row at) = t + clock.interval ≤ at
  Follows (some t) (dropped row lag) = Unit

  Paced-append :
      (last : Option ℕ) (log : List Entry) (e : Entry)
      → Paced last log
      → Follows (last_sent last log) e
      → Paced last (log ++ e ∷ [])
  Paced-append none [] (sent row at) h f = tt
  Paced-append none [] (dropped row lag) h f = tt
  Paced-append (some t) [] (sent row at) h f = (f, tt)
  Paced-append (some t) [] (dropped row lag) h f = tt
  Paced-append none (sent row at ∷ log) e h f = Paced-append (some at) log e h f
  Paced-append (some t) (sent row at ∷ log) e (g, h) f = (g, Paced-append (some at) log e h f)
  Paced-append none (dropped row lag ∷ log) e h f = Paced-append none log e h f
  Paced-append (some t) (dropped row lag ∷ log) e h f = Paced-append (some t) log e h f

  last_sent-append :
      (last : Option ℕ) (log : List Entry) (e : Entry)
      → last_sent last (log ++ e ∷ []) ≡ last_sent (last_sent last log) (e ∷ [])
  last_sent-append last [] e = refl
  last_sent-append last (sent row at ∷ log) e = last_sent-append (some at) log e
  last_sent-append last (dropped row lag ∷ log) e = last_sent-append last log e

  pub record IsPaced (s : Replay) : Type 0 where
    pub on_time : All OnTime s.log
    pub paced : Paced none s.log
    pub last : last_sent none s.log ≡ s.previous
    pub bounded : s.pending ≤ max_pending

  sleep_reaches_due : (due t : ℕ) (previous : Option ℕ) → due ≤ t + sleep_for clock due t previous
  unfolding sleep_for
  sleep_reaches_due due t none = omega arith
  sleep_reaches_due due t (some p) = omega arith

  Follows-sleep :
      (row : Row) (due t over : ℕ) (previous : Option ℕ)
      → Follows previous (sent row (t + sleep_for clock due t previous + over))
  unfolding sleep_for
  Follows-sleep row due t over none = tt
  Follows-sleep row due t over (some p) = omega arith

  Follows-dropped : (row : Row) (lag : ℕ) (previous : Option ℕ) → Follows previous (dropped row lag)
  Follows-dropped row lag none = tt
  Follows-dropped row lag (some p) = tt

  -- one more entry in the log
  logged-IsPaced :
      (s : Replay) (e : Entry) (previous : Option ℕ) (drops pending : ℕ)
      → IsPaced s
      → OnTime e
      → Follows s.previous e
      → last_sent s.previous (e ∷ []) ≡ previous
      → pending ≤ max_pending
      → IsPaced
          (record { previous = previous; drops = drops; pending = pending; log = s.log ++ e ∷ [] })
  logged-IsPaced s e previous drops pending h on f l b = record {
    on_time = All-append OnTime s.log (e ∷ []) h.on_time (on, tt);
    paced = Paced-append none s.log e h.paced (rw h.last f);
    last = last_sent-append none s.log e ∙ rw h.last l;
    bounded = b;
  }

  step-IsPaced :
      (row : Row) (wake : Wake) (s : Replay) → IsPaced s → IsPaced (step clock origin row wake s)
  unfolding step
  step-IsPaced row wake s h =
      let due = origin + clock.ticks row.offset in
      let now = wake.asleep_at + sleep_for clock due wake.asleep_at s.previous + wake.oversleep in
      let pending = s.pending - wake.finished in
      let reached = sleep_reaches_due due wake.asleep_at s.previous in
      elim (Bool-cases (ltb clock.tolerance (now - due) || leb max_pending pending)) [
        | inl drop ↦ rw drop (
            logged-IsPaced s (dropped row (now - due)) s.previous (s.drops + 1) pending h tt
              (Follows-dropped row (now - due) s.previous) refl (omega (arith, h.bounded)))
        | inr keep ↦
            let (late, full) =
              or_false (ltb clock.tolerance (now - due)) (leb max_pending pending) keep in
            rw keep (
              logged-IsPaced s (sent row now) (some now) s.drops (pending + 1) h
                (omega (arith, reached), ground (arith, reached))
                (Follows-sleep row due wake.asleep_at wake.oversleep s.previous) refl
                (ground arith))
      ]

  replay_from-IsPaced :
      (rows : List Row) (wakes : List Wake) (s : Replay)
      → IsPaced s
      → IsPaced (replay_from clock origin rows wakes s)
  unfolding replay_from
  replay_from-IsPaced [] wakes s h = h
  replay_from-IsPaced (row ∷ rows) [] s h = h
  replay_from-IsPaced (row ∷ rows) (wake ∷ wakes) s h =
      replay_from-IsPaced rows wakes (step clock origin row wake s) (step-IsPaced row wake s h)

  initial-IsPaced : IsPaced initial
  initial-IsPaced = record { on_time = tt; paced = tt; last = refl; bounded = omega arith }

-- Whatever the scheduler does: every event that replay sends goes out at its due time or at most the
-- tolerance later, two events sent in a row are at least 1 / max_rps apart, and never more than 200
-- requests are pending.
pub replay-IsPaced :
    (clock : Clock) (origin : ℕ) (trace : List Row) (wakes : List Wake) (joined : Result ℕ)
    → let s = (replay clock origin trace wakes joined).0 in
      All (OnTime clock origin) s.log × Paced clock origin none s.log × (s.pending ≤ max_pending)
unfolding replay
replay-IsPaced clock origin trace wakes joined =
    let h = replay_from-IsPaced clock origin trace wakes initial (initial-IsPaced clock origin) in
    (h.on_time, h.paced, h.bounded)
