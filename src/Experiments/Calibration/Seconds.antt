-- ===== src/Experiments/Calibration/Seconds.antt =====
-- How many requests of a schedule fall into a window of whole seconds.
use native.Mathlib.Nat.{div-lt_iff_lt-mul}
use kavach_ai.Common.{
  ℕ, zero, suc, ◌+◌, ◌-◌, ◌*◌, ◌/◌, ◌≤◌, ◌<◌, leb, ltb, Bool, Bool-cases, inl, inr, true, false,
  ◌&&◌, ◌≡◌, refl, ap, ◌∙◌, List, [], ◌∷◌, All, arith, if◌then◌else◌,
}
use kavach_ai.Py.{Value, str}
use kavach_ai.Workload.Config.Valid.{Stage, total_duration}
use kavach_ai.Workload.Trace.{Offset}
use kavach_ai.Workload.Trace.Schedule.{Tick, second_ticks, stage_ticks, schedule}
use kavach_ai.Workload.Trace.Spacing.{
  Within, RatesBelow, second_ticks-Within, stage_ticks-Within, schedule-Within,
}
use kavach_ai.Experiments.Calibration.Keep.{count, count-cons, count-append, count-none}
use kavach_ai.Experiments.Calibration.Lines.{ticks_of}

module _ (second : ℕ) (positive : 0 < second) where
  -- `left <= offset_s < right`
  abbrev pub falls_in : (left right : ℕ) → Offset → Bool
  falls_in left right o =
      leb (left * second) (ticks_of second o) && ltb (ticks_of second o) (right * second)

  below_second : (slot rps : ℕ) → slot < rps → slot * second / rps < second
  below_second slot rps h =
      (div-lt_iff_lt-mul {k = rps} {x = slot * second} {y = second} (omega arith)).1 (grind arith)

  mul_mono : (a b : ℕ) → a ≤ b → a * second ≤ b * second
  mul_mono a b h = grind arith

  leb_seconds :
      (left whole part : ℕ)
      → part < second
      → leb (left * second) (whole * second + part) ≡ leb left whole
  leb_seconds left whole part h = elim (Bool-cases (leb left whole)) [
    | inl le ↦
        let inside : left ≤ whole = ground arith in ground (arith, mul_mono left whole inside)
    | inr gt ↦
        let outside : suc whole ≤ left = ground arith in
        ground (arith, mul_mono (suc whole) left outside)
  ]

  ltb_seconds :
      (whole part right : ℕ)
      → part < second
      → ltb (whole * second + part) (right * second) ≡ ltb whole right
  ltb_seconds whole part right h = elim (Bool-cases (ltb whole right)) [
    | inl lt ↦
        let inside : suc whole ≤ right = ground arith in
        ground (arith, mul_mono (suc whole) right inside)
    | inr ge ↦
        let outside : right ≤ whole = ground arith in ground (arith, mul_mono right whole outside)
  ]

  -- Only the second of an offset decides whether it falls into the window.
  falls_in_lem :
      (left right : ℕ) (o : Offset)
      → o.slot < o.rps
      → falls_in left right o ≡ (leb left o.whole && ltb o.whole right)
  falls_in_lem left right o h =
      let part = o.slot * second / o.rps in
      let below = below_second o.slot o.rps h in
      rw (leb_seconds left o.whole part below, ltb_seconds o.whole part right below) refl

  -- the requests of a list that fall into the window
  abbrev pub ticks_in : (left right : ℕ) → List Tick → ℕ
  ticks_in left right = count (λ t. falls_in left right t.offset)

  ticks_in-none :
      (left right cap from to : ℕ) (ts : List Tick)
      → ((w : ℕ) → from ≤ w → w < to → (leb left w && ltb w right) ≡ false)
      → All (λ t. Within cap from to t.offset) ts
      → ticks_in left right ts ≡ 0
  ticks_in-none left right cap from to ts outside h = count-none _ ts (each ts h)
    where
      each :
          (ts : List Tick)
          → All (λ t. Within cap from to t.offset) ts
          → All (λ t. falls_in left right t.offset ≡ false) ts
      each [] k = tt
      each (t ∷ ts) (k, ks) = (
        falls_in_lem left right t.offset k.slot_lt ∙ outside t.offset.whole k.from_le k.lt_to,
        each ts ks,
      )

  second_ticks-inside :
      (left right n slot whole rps : ℕ) (label : Value)
      → left ≤ whole
      → whole < right
      → slot + n ≤ rps
      → ticks_in left right (second_ticks n slot whole rps label) ≡ n
  second_ticks-inside left right zero slot whole rps label a b h = count-none _ [] tt
  second_ticks-inside left right (suc n) slot whole rps label a b h =
      let o : Offset = record { whole = whole; slot = slot; rps = rps } in
      let here : falls_in left right o ≡ true =
        falls_in_lem left right o (omega arith) ∙ ground arith in
      omega (
        arith,
        count-cons (λ t. falls_in left right t.offset) (record { offset = o; label = label })
            (second_ticks n (suc slot) whole rps label),
        ap {B = ℕ} (λ b. if b then 1 else 0) here,
        second_ticks-inside left right n (suc slot) whole rps label a b (omega arith),
      )

  stage_ticks-inside :
      (left right n whole rps : ℕ) (label : Value)
      → left ≤ whole
      → right ≡ whole + n
      → ticks_in left right (stage_ticks n whole rps label) ≡ n * rps
  stage_ticks-inside left right zero whole rps label a e =
      omega (arith, count-none {A = Tick} (λ t. falls_in left right t.offset) [] tt)
  stage_ticks-inside left right (suc n) whole rps label a e = omega (
    arith,
    count-append (λ t. falls_in left right t.offset) (second_ticks rps 0 whole rps label)
        (stage_ticks n (suc whole) rps label),
    second_ticks-inside left right rps 0 whole rps label a (omega arith) (omega arith),
    stage_ticks-inside left right n (suc whole) rps label (omega arith) (omega arith),
  )

  -- A window from within a stage to its end counts the stage's rate for each of its seconds.
  stage_ticks-window :
      (left right n whole rps : ℕ) (label : Value)
      → whole ≤ left
      → right ≡ whole + n
      → ticks_in left right (stage_ticks n whole rps label) ≡ (right - left) * rps
  stage_ticks-window left right zero whole rps label a e =
      let no_seconds : right - left ≡ 0 = omega arith in
      rw no_seconds (omega (arith, count-none {A = Tick} (λ t. falls_in left right t.offset) [] tt))
  stage_ticks-window left right (suc n) whole rps label a e = elim (Bool-cases (leb left whole)) [
    | inl le ↦
        let at_start : left ≤ whole = ground arith in
        let seconds : right - left ≡ suc n = omega arith in
        rw seconds (stage_ticks-inside left right (suc n) whole rps label at_start e)
    | inr gt ↦
        let after : suc whole ≤ left = ground arith in
        omega (
          arith,
          count-append (λ t. falls_in left right t.offset) (second_ticks rps 0 whole rps label)
              (stage_ticks n (suc whole) rps label),
          ticks_in-none left right rps whole (suc whole) (second_ticks rps 0 whole rps label)
              (λ w from to. ground arith)
              (second_ticks-Within rps rps 0 whole rps whole (suc whole) label (omega arith)
                (omega arith) (omega arith) (omega arith)),
          stage_ticks-window left right n (suc whole) rps label after (omega arith),
        )
  ]

  -- The window of a stage without its first ten seconds.
  pub schedule-window :
      (cap elapsed : ℕ) (s : Stage) (stages : List Stage)
      → RatesBelow cap (s ∷ stages)
      → ticks_in (elapsed + 10) (elapsed + s.duration) (schedule elapsed (s ∷ stages))
        ≡ (s.duration - 10) * s.rps
  schedule-window cap elapsed s stages (h, hs) =
      let next = elapsed + s.duration in
      let left = elapsed + 10 in
      let seconds : next - left ≡ s.duration - 10 = omega arith in
      let here =
        stage_ticks-window left next s.duration elapsed s.rps (str s.label) (omega arith) refl in
      let others =
        ticks_in-none left next cap next (next + total_duration stages) (schedule next stages)
          (λ w from to. ground arith) (schedule-Within cap next stages hs) in
      count-append (λ t. falls_in left next t.offset)
        (stage_ticks s.duration elapsed s.rps (str s.label)) (schedule next stages)
      ∙ ap (λ n. n + ticks_in left next (schedule next stages)) here
      ∙ ap (λ n. (next - left) * s.rps + n) others
      ∙ ap (λ n. n * s.rps + 0) seconds
      ∙ omega arith

  -- The windows of later stages count nothing of an earlier one.
  pub schedule-later :
      (cap elapsed left right : ℕ) (s : Stage) (stages : List Stage)
      → RatesBelow cap (s ∷ stages)
      → elapsed + s.duration ≤ left
      → ticks_in left right (schedule elapsed (s ∷ stages))
        ≡ ticks_in left right (schedule (elapsed + s.duration) stages)
  schedule-later cap elapsed left right s stages (h, hs) before =
      let next = elapsed + s.duration in
      let here =
        ticks_in-none left right cap elapsed next
          (stage_ticks s.duration elapsed s.rps (str s.label)) (λ w from to. ground arith)
          (stage_ticks-Within cap s.duration elapsed s.rps (str s.label) h) in
      count-append (λ t. falls_in left right t.offset)
        (stage_ticks s.duration elapsed s.rps (str s.label)) (schedule next stages)
      ∙ ap (λ n. n + ticks_in left right (schedule next stages)) here
      ∙ omega arith
