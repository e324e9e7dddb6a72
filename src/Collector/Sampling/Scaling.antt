-- ===== src/Collector/Sampling/Scaling.antt =====
-- The scaling events that `collect` reports.
use native.Mathlib.Nat.{mul-div_cancel}
use kavach_ai.Common.{
  ◌/◌, ◌≤◌, eqb_iff, float_unit, ℕ, ◌*◌, eqb, Bool, true, false, not, ◌≡◌, refl, sym, ap, ◌∙◌, some,
  List, [], ◌∷◌, ◌++◌, arith,
}
use kavach_ai.Py.{Error, Result, ok, raised, eq_float}
use kavach_ai.Collector.Rows.{eq_reading}
use kavach_ai.Collector.Sampling.{
  Tick, Doubles, Sample, Progress, Measured, whole, find, measure, is_scaling, good_sample,
  failed_sample, sample,
}

-- only the last row counts
is_scaling-append :
    (samples : List Sample) (x : Sample) (desired : ℕ)
    → is_scaling (samples ++ x ∷ []) desired ≡ is_scaling (x ∷ []) desired
is_scaling-append [] x desired = refl
is_scaling-append (s ∷ []) x desired = refl
is_scaling-append (s ∷ s' ∷ rest) x desired = is_scaling-append (s' ∷ rest) x desired

same_truth : (x y : Bool) → (x ≡ true → y ≡ true) → (y ≡ true → x ≡ true) → x ≡ y
same_truth true y h k = sym (h refl)
same_truth false true h k = k refl
same_truth false false h k = refl

times_cancel : (a b u : ℕ) → 1 ≤ u → a * u ≡ b * u → a ≡ b
times_cancel a b u positive e =
    sym (mul-div_cancel a positive) ∙ ap (λ n. n / u) e ∙ mul-div_cancel b positive

float_unit-pos : 1 ≤ float_unit
unfolding float_unit
float_unit-pos = omega arith

-- two ints are the same double only if they are the same
eq_float-whole : (a b : ℕ) → eq_float (whole a) (whole b) ≡ eqb a b
unfolding eq_float
eq_float-whole a b =
    same_truth _ _
      (λ h.
        let same : a * float_unit ≡ b * float_unit = omega (arith, (eqb_iff _ _).0 h) in
        (eqb_iff a b).1 (times_cancel a b float_unit float_unit-pos same))
      (λ h. let same : a ≡ b = (eqb_iff a b).0 h in rw same ((eqb_iff _ _).1 refl))

desired-good_sample :
    (d : Doubles) (t : Tick) (m : Measured) (s : Progress)
    → find "desired_replicas" (good_sample d t m s).readings ≡ some (whole m.desired)
unfolding good_sample
desired-good_sample d t m s = refl

samples-sample :
    (d : Doubles) (t : Tick) (m : Measured) (s : Progress)
    → measure d t ≡ ok m
    → (sample d t s).samples ≡ s.samples ++ good_sample d t m s ∷ []
unfolding sample
samples-sample d t m s h = rw (sample, h) refl

samples-sample_raised :
    (d : Doubles) (t : Tick) (s : Progress) (e : Error)
    → measure d t ≡ raised e
    → (sample d t s).samples ≡ s.samples ++ failed_sample t e ∷ []
unfolding sample
samples-sample_raised d t s e h = rw (sample, h) refl

-- what a round that asks for `desired` replicas reports after one that has measured `before`
abbrev pub moved : (before : Result Measured) → (desired : ℕ) → Bool
moved (ok m) desired = not (eqb m.desired desired)
moved (raised e) desired = true

is_scaling-sample :
    (d : Doubles) (t : Tick) (s : Progress) (desired : ℕ)
    → is_scaling (sample d t s).samples desired ≡ moved (measure d t) desired
is_scaling-sample d t s desired = by_case (measure d t) refl
  where
    by_case :
        (r : Result Measured)
        → measure d t ≡ r
        → is_scaling (sample d t s).samples desired ≡ moved r desired
    by_case (ok m) h =
        ap (λ xs. is_scaling xs desired) (samples-sample d t m s h)
        ∙ is_scaling-append s.samples (good_sample d t m s) desired
        ∙ ap (λ x. not (eq_reading x (some (whole desired)))) (desired-good_sample d t m s)
        ∙ ap not (eq_float-whole m.desired desired)
    by_case (raised e) h =
        ap (λ xs. is_scaling xs desired) (samples-sample_raised d t s e h)
        ∙ is_scaling-append s.samples (failed_sample t e) desired

-- An answered round that comes after another adds one row, whose scaling event says whether the
-- deployment asks for another number of replicas than in the round before, if that was answered; if it
-- was not, the event is true whatever the numbers are.
pub scaling_event_lem :
    (d : Doubles) (t t' : Tick) (s : Progress) (m' : Measured)
    → measure d t' ≡ ok m'
    → (x : Sample) × ((sample d t' (sample d t s)).samples ≡ (sample d t s).samples ++ x ∷ [])
      × (x.scaling_event ≡ some (moved (measure d t) m'.desired))
unfolding good_sample
scaling_event_lem d t t' s m' answered = (
  good_sample d t' m' (sample d t s),
  samples-sample d t' m' (sample d t s) answered,
  ap some (is_scaling-sample d t s m'.desired),
)
