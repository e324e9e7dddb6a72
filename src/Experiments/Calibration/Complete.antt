-- ===== src/Experiments/Calibration/Complete.antt =====
-- What `summarize` reports on the lines of a run in which every request was answered.
use mathlib.Core.List.{Perm}
use kavach_ai.Common.{
  ℕ, suc, ◌+◌, ◌-◌, ◌*◌, ◌≤◌, ◌<◌, Float, Bool, Bool-cases, inl, inr, true, ◌≡◌, refl, sym, ap, ◌∙◌,
  some, List, [], ◌∷◌, map, length, All, arith,
}
use kavach_ai.Py.{Fields, HasUniqueKeys, items, ok}
use kavach_ai.Workload.Config.Valid.{Stage, Config, IsConfig}
use kavach_ai.Workload.Rng.{Rng, IsRng}
use kavach_ai.Workload.Trace.{Row, compile_trace}
use kavach_ai.Workload.Trace.Schedule.{Tick, schedule}
use kavach_ai.Workload.Trace.Spacing.{RatesBelow}
use kavach_ai.Workload.Trace.Extends.{tick}
use kavach_ai.Workload.Trace.Offered.{is_trace, AreStages-RatesBelow}
use kavach_ai.Workload.Output.{
  Line, answered, unsent, event_of, Output, Reach, generator_valid, has_all_lines,
}
use kavach_ai.Workload.Output.Complete.{IsAnswered, Reach-IsComplete}
use kavach_ai.Experiments.Calibration.{
  Request, Response, StageReport, within, keep, dispatched, summarize,
}
use kavach_ai.Experiments.Calibration.Keep.{count, count-map, Perm-count}
use kavach_ai.Experiments.Calibration.Lines.{request_of, stage_of}
use kavach_ai.Experiments.Calibration.Seconds.{falls_in, ticks_in, schedule-window, schedule-later}

-- The report is of the stage: it has its rate, a request was offered at that rate for each of its
-- seconds but the first ten, and none was dropped.
pub record IsCalibrated (s : Stage) (r : StageReport) : Type 0 where
  pub rps : r.rps ≡ s.rps
  pub offered : r.offered ≡ (s.duration - 10) * s.rps
  pub none_dropped : r.dropped ≡ 0

-- there is such a report of each stage
abbrev pub AreCalibrated : List Stage → List StageReport → Type 0
AreCalibrated [] [] = Unit
AreCalibrated (s ∷ stages) (r ∷ reports) = IsCalibrated s r × AreCalibrated stages reports
AreCalibrated _ _ = ⊥

abbrev HasResponse : Request → Type 0
HasResponse r = (x : Response) × (r.response ≡ some x)

length-dispatched :
    (test : Request → Bool) (requests : List Request)
    → All HasResponse requests
    → length (dispatched (keep test requests)) ≡ length (keep test requests)
unfolding keep dispatched
length-dispatched test [] h = refl
length-dispatched test (r ∷ requests) ((x, e), h) = elim (Bool-cases (test r)) [
  | inl kept ↦ rw (kept, e) (ap suc (length-dispatched test requests h))
  | inr left_out ↦ rw left_out (length-dispatched test requests h)
]

module _ (second : ℕ) (positive : 0 < second) (cap : ℕ) (requests : List Request)
    (responses : All HasResponse requests) where
  -- from `elapsed` on the requests are those of the stages
  abbrev Offers : ℕ → List Stage → Type 0
  Offers elapsed stages =
      (left right : ℕ)
      → elapsed ≤ left
      → count (within (left * second) (right * second)) requests
        ≡ ticks_in second positive left right (schedule elapsed stages)

  summarize_sound :
      (elapsed : ℕ) (stages : List Stage)
      → RatesBelow cap stages
      → Offers elapsed stages
      → AreCalibrated stages (summarize second elapsed (map stage_of stages) requests)
  unfolding summarize kavach_ai.Experiments.Calibration.stage_report
  summarize_sound elapsed [] rates offers = tt
  summarize_sound elapsed (s ∷ stages) (h, hs) offers =
      let left = elapsed + 10 in
      let next = elapsed + s.duration in
      let here =
        offers left next (omega arith)
        ∙ schedule-window second positive cap elapsed s stages (h, hs) in
      let answered =
        length-dispatched (within (left * second) (next * second)) requests responses in
      (
        record { rps = refl; offered = here; none_dropped = omega (arith, answered) },
        summarize_sound next stages hs (λ from to after.
            offers from to (omega arith)
            ∙ schedule-later second positive cap elapsed from to s stages (h, hs) after),
      )

module _ (second : ℕ) (ticks : Float → ℕ) where
  All-HasResponse :
      (file : List Line)
      → All IsAnswered file
      → All HasResponse (map (request_of second ticks) file)
  All-HasResponse [] h = tt
  All-HasResponse (answered job a ∷ file) (h, hs) = ((_, refl), All-HasResponse file hs)
  All-HasResponse (unsent job ∷ file) (h, hs) = absurd h

  count-file :
      (positive : 0 < second) (left right : ℕ) (file : List Line) (trace : List Row)
      (ts : List Tick)
      → Perm (map event_of file) trace
      → map tick trace ≡ ts
      → count (within (left * second) (right * second)) (map (request_of second ticks) file)
        ≡ ticks_in second positive left right ts
  count-file positive left right file trace ts p e =
      let test = falls_in second positive left right in
      count-map (within (left * second) (right * second)) (request_of second ticks) file
      ∙ sym (count-map (λ row. test row.offset) event_of file)
      ∙ Perm-count (λ row. test row.offset) p
      ∙ sym (count-map (λ t. test t.offset) tick trace)
      ∙ ap (ticks_in second positive left right) e

-- The calibration of a run of a compiled trace whose generator is valid and whose file is complete, in
-- whatever order its requests were answered: it reports each stage of the configuration, with its
-- rate, as many offered requests as the rate makes in the seconds of the stage but the first ten, and
-- none dropped.
pub summarize-AreCalibrated :
    (second : ℕ) (ticks : Float → ℕ) (r : Rng) (config : Fields) (c : Config) (trace : List Row)
    (tolerance : ℕ) (s : Output)
    → 0 < second
    → IsRng r
    → IsConfig config c
    → HasUniqueKeys c.mix
    → compile_trace r config ≡ ok trace
    → Reach tolerance trace s
    → s.left ≡ []
    → generator_valid s ≡ true
    → has_all_lines s trace ≡ true
    → AreCalibrated c.stages
        (summarize second 0 (map stage_of c.stages) (map (request_of second ticks) s.file))
summarize-AreCalibrated second ticks r config c trace tolerance s positive laws valid unique
      compiled reached over is_valid complete =
    let (same_events, all_answered) = Reach-IsComplete reached over is_valid complete in
    let scheduled = is_trace r laws config c trace valid unique compiled in
    summarize_sound second positive c.max_rps (map (request_of second ticks) s.file)
      (All-HasResponse second ticks s.file all_answered) 0 c.stages
      (AreStages-RatesBelow c.max_rps (items valid.listed) c.stages valid.are_stages)
      (λ left right from.
        count-file second ticks positive left right s.file trace (schedule 0 c.stages) same_events
          scheduled.ticks_are)
