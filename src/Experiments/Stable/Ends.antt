-- ===== src/Experiments/Stable/Ends.antt =====
-- When the wait for stable replicas ends, and when it succeeds.
use native.Mathlib.Nat.{mul-suc}
use kavach_ai.Common.{
  ℕ, zero, suc, ◌+◌, ◌*◌, ◌≤◌, ◌<◌, ltb, leb, Bool, true, false, ltb→lt, ◌≡◌, ◌≢◌, refl, ◌⊎◌, inl,
  inr, lt→ltb, Option, none, some, List, [], ◌∷◌, ◌++◌, length, All, arith, if◌then◌else◌,
}
use kavach_ai.Experiments.Stable.{
  Wait, Poll, stable, timed_out, unfinished, at_target, since, wait_stable,
}
use kavach_ai.Experiments.Stable.Held.{Held, long_enough, still, IsStable}

-- the first reading of the clock is `time` or later, and every other one a sleep after the one before
abbrev pub Sleeps : (sleep time : ℕ) → List Poll → Type 0
Sleeps sleep time [] = Unit
Sleeps sleep time (p ∷ polls) = (time ≤ p.entered) × Sleeps sleep (p.entered + sleep) polls

-- where a round may lead if the wait does not end in it
choose :
    (inside on_target long : Bool) (held again : Wait)
    → (if inside then (if on_target then (if long then stable else held) else again) else timed_out)
      ≡ unfinished
    → (inside ≡ true) × ((held ≡ unfinished) ⊎ (again ≡ unfinished))
choose true true true held again h = cc h
choose true true false held again h = (refl, inl h)
choose true false long held again h = (refl, inr h)
choose false on_target long held again h = cc h

unfinished_late :
    (target deadline hold sleep time : ℕ) (start : Option ℕ) (polls : List Poll)
    → Sleeps sleep time polls
    → deadline + sleep ≤ time + sleep * length polls
    → time < deadline + sleep
    → wait_stable target deadline hold start polls ≢ unfinished
unfolding wait_stable
unfinished_late target deadline hold sleep time start [] s enough early h =
    omega (arith, enough, early)
unfinished_late target deadline hold sleep time start (p ∷ polls) (now, s) enough early h =
    let (inside, later) =
      choose (ltb p.entered deadline) (at_target target p) (leb (since start p + hold) p.checked) _
        _ h in
    let before = ltb→lt p.entered deadline inside in
    let size = mul-suc sleep (length polls) in
    let rest : (start : Option ℕ) → wait_stable target deadline hold start polls ≢ unfinished =
      λ start.
        unfinished_late target deadline hold sleep (p.entered + sleep) start polls s
          (omega (arith, enough, now, size)) (omega (arith, before)) in
    elim later [ inl e ↦ rest _ e | inr e ↦ rest none e ]

-- If the clock advances by the sleep in each round, which is more than nothing, the wait ends, stable or
-- timed out, as soon as the sleeps of all rounds but one add up to the time until the deadline.
pub wait_stable-ends :
    (target limit hold sleep now : ℕ) (polls : List Poll)
    → 1 ≤ sleep
    → Sleeps sleep now polls
    → limit + sleep ≤ sleep * length polls
    → wait_stable target (now + limit) hold none polls ≢ unfinished
wait_stable-ends target limit hold sleep now polls some_sleep s enough =
    unfinished_late target (now + limit) hold sleep now none polls s (omega (arith, enough))
      (omega (arith, some_sleep))

either : (b : Bool) {rest : Wait} → rest ≡ stable → (if b then stable else rest) ≡ stable
either true h = refl
either false h = h

either_target :
    (on_target long : Bool) {held again : Wait}
    → held ≡ stable
    → again ≡ stable
    → (if on_target then (if long then stable else held) else again) ≡ stable
either_target true long h k = either long h
either_target false long h k = k

-- the clock is read in order, from `time` on
abbrev pub InOrder : (time : ℕ) → List Poll → Type 0
InOrder time [] = Unit
InOrder time (p ∷ polls) = (time ≤ p.started) × InOrder p.started polls

le→leb : (a b : ℕ) → a ≤ b → leb a b ≡ true
le→leb a b h = ground arith

-- a wait that has been on target since `suc start` goes on until it is long enough
wait_on :
    (target deadline hold start time : ℕ) (polls : List Poll)
    → suc start ≤ time
    → Held target deadline hold time polls
    → wait_stable target deadline hold (some (suc start)) polls ≡ stable
unfolding wait_stable
wait_on target deadline hold start time [] early h = elim h [ ]
wait_on target deadline hold start time (p ∷ polls) early (long_enough inside on_target long) =
    rw
      (
        lt→ltb _ _ inside,
        on_target,
        le→leb (suc start + hold) p.checked (omega (arith, early, long)),
      )
      refl
wait_on target deadline hold start time (p ∷ polls) early (still inside on_target h) =
    rw (lt→ltb _ _ inside, on_target)
      (either (leb (suc start + hold) p.checked)
        (wait_on target deadline hold start time polls early h))

-- the first round that sees the target
wait_from :
    (target deadline hold : ℕ) (p : Poll) (polls : List Poll)
    → 1 ≤ p.started
    → Held target deadline hold p.started (p ∷ polls)
    → wait_stable target deadline hold none (p ∷ polls) ≡ stable
unfolding wait_stable
wait_from target deadline hold p polls set (long_enough inside on_target long) =
    rw (lt→ltb _ _ inside, on_target, le→leb _ _ long) refl
wait_from target deadline hold p polls set (still inside on_target h) = by_start p.started set h
  where
    by_start :
        (t : ℕ)
        → 1 ≤ t
        → Held target deadline hold t polls
        → (if ltb p.entered deadline
            then (if at_target target p
                then (if leb (t + hold) p.checked
                    then stable
                    else wait_stable target deadline hold (some t) polls)
                else wait_stable target deadline hold none polls)
            else timed_out)
          ≡ stable
    by_start zero set h = absurd (omega (arith, set))
    by_start (suc t) set h =
        rw (lt→ltb _ _ inside, on_target)
          (either (leb (suc t + hold) p.checked)
            (wait_on target deadline hold t (suc t) polls (omega arith) h))

-- a start that was set, and not later than `time`
abbrev HasStarted : Option ℕ → ℕ → Type 0
HasStarted none time = Unit
HasStarted (some t) time = (1 ≤ t) × (t ≤ time)

since-HasStarted :
    (start : Option ℕ) (time : ℕ) (q : Poll)
    → 1 ≤ time
    → time ≤ q.started
    → HasStarted start time
    → HasStarted (some (since start q)) q.started
since-HasStarted none time q positive now set = (omega (arith, positive, now), omega arith)
since-HasStarted (some zero) time q positive now set = (omega (arith, positive, now), omega arith)
since-HasStarted (some (suc t)) time q positive now (set, early) = (set, omega (arith, early, now))

wait_after :
    (target deadline hold time : ℕ) (start : Option ℕ) (before : List Poll) (p : Poll)
    (polls : List Poll)
    → 1 ≤ time
    → HasStarted start time
    → InOrder time (before ++ p ∷ polls)
    → All (λ q. q.entered < deadline) before
    → Held target deadline hold p.started (p ∷ polls)
    → wait_stable target deadline hold start (before ++ p ∷ polls) ≡ stable
unfolding wait_stable
wait_after target deadline hold time none [] p polls positive set (now, _) inside h =
    wait_from target deadline hold p polls (omega (arith, positive, now)) h
wait_after target deadline hold time (some zero) [] p polls positive (set, _) order inside h =
    absurd (omega (arith, set))
wait_after target deadline hold time (some (suc t)) [] p polls positive (_, early) (now, _) inside
      h =
    wait_on target deadline hold t p.started (p ∷ polls) (omega (arith, early, now)) h
wait_after target deadline hold time start (q ∷ before) p polls positive set (now, order)
      (inside, rest) h =
    let next : (start : Option ℕ)
        → HasStarted start q.started
        → wait_stable target deadline hold start (before ++ p ∷ polls) ≡ stable =
      λ start set.
        wait_after target deadline hold q.started start before p polls
          (omega (arith, positive, now)) set order rest h in
    rw (lt→ltb _ _ inside) (
      either_target (at_target target q) (leb (since start q + hold) q.checked)
        (next (some (since start q)) (since-HasStarted start time q positive now set))
        (next none tt))

-- The wait succeeds if the clock is read in order, is never 0, no round before the target is held comes
-- at the deadline or after it, and from some round on the target is held for long enough before the
-- deadline.
pub held-wait_stable :
    (target deadline hold : ℕ) (polls : List Poll)
    → InOrder 1 polls
    → (h : IsStable target deadline hold polls) → All (λ p. p.entered < deadline) h.before
    → wait_stable target deadline hold none polls ≡ stable
held-wait_stable target deadline hold polls order h inside = rw h.splits (
    wait_after target deadline hold 1 none h.before h.first h.after (omega arith) tt
      (rw h.splits at order) inside h.held)
