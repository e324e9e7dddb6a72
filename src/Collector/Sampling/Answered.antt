-- ===== src/Collector/Sampling/Answered.antt =====
-- What a passing run of `collect` has been answered.
use Prim.Native.String
use kavach_ai.Common.{ltb, pos, Bool-cases, inl, inr}
use kavach_ai.Common.{
  chars, chars-cat, ◌<◌, ℕ, zero, suc, ◌-◌, ◌/◌, String, true, ◌≡◌, ◌≢◌, refl, sym, ap, ◌∙◌, Option,
  none, List, [], ◌∷◌, ◌++◌, map, append_assoc, append-nil, length, All, arith,
}
use kavach_ai.Py.{
  Error, value_error, runtime_error, type_error, attribute_error, key_error, other_error, Result,
  ok, raised, describe, >>=-eq-ok,
}
use kavach_ai.Collector.Query.{Response, queries, prom_query}
use kavach_ai.Collector.Rows.{Row}
use kavach_ai.Collector.Rows.Readings.{AreGood, done, good}
use kavach_ai.Collector.Rows.Good.{no_reasons, validate_rows_faultless}
use kavach_ai.Collector.Sampling.{
  difference, Pod, Event, Tick, Doubles, Readings, Sample, Progress, Measured, row_of, ask, measure,
  good_sample, failed_sample, sample, sample_all, drop, begun, collect,
}

-- every query and every call of the round has succeeded
pub record IsAnswered (d : Doubles) (t : Tick) : Type 0 where
  pub pods : (pods : List Pod) × (t.pods ≡ ok pods)
  pub deployment : (desired : ℕ) × (t.deployment ≡ ok desired)
  pub events : (events : List Event) × (t.events ≡ ok events)
  pub numbers :
      All (λ q. (answer : _) × (prom_query d.to_float (t.responses q.0) ≡ ok answer)) queries

ask_sound :
    (d : Doubles) (qs : List (String × String)) (responses : String → Response) {answers : Readings}
    → ask d qs responses ≡ ok answers
    → All (λ q. (answer : _) × (prom_query d.to_float (responses q.0) ≡ ok answer)) qs
unfolding ask
ask_sound d [] responses h = tt
ask_sound d ((key, query) ∷ rest) responses h =
    let (answer, e, h1) = >>=-eq-ok (prom_query d.to_float (responses key)) _ h in
    let (answers, e', h2) = >>=-eq-ok (ask d rest responses) _ h1 in
    ((answer, e), ask_sound d rest responses e')

measure_sound : (d : Doubles) (t : Tick) (m : Measured) → measure d t ≡ ok m → IsAnswered d t
unfolding measure
measure_sound d t m h =
    let (pods, p, h1) = >>=-eq-ok t.pods _ h in
    let (desired, q, h2) = >>=-eq-ok t.deployment _ h1 in
    let (events, r, h3) = >>=-eq-ok t.events _ h2 in
    let (answers, a, h4) = >>=-eq-ok (ask d queries t.responses) _ h3 in
    record {
      pods = (pods, p);
      deployment = (desired, q);
      events = (events, r);
      numbers = ask_sound d queries t.responses a;
    }

chars-describe : (e : Error) → 0 < chars (describe e)
chars-describe (value_error m) = omega (arith, chars-cat "ValueError: " m)
chars-describe (runtime_error m) = omega (arith, chars-cat "RuntimeError: " m)
chars-describe type_error = omega arith
chars-describe attribute_error = omega arith
chars-describe key_error = omega arith
chars-describe (other_error name m) =
    omega (arith, chars-cat name (String.◌++◌ ": " m), chars-cat ": " m)

describe-ne-nil : (e : Error) → describe e ≢ ""
describe-ne-nil e h =
    let empty : chars (describe e) ≡ 0 = ap chars h in omega (arith, chars-describe e)

-- one sample for each tick, and no error only where the tick was answered
abbrev Sampled : Doubles → List Tick → List Sample → Type 0
Sampled d [] [] = Unit
Sampled d (t ∷ ticks) (x ∷ samples) = (x.error ≡ "" → IsAnswered d t) × Sampled d ticks samples
Sampled d _ _ = ⊥

sample_lem :
    (d : Doubles) (t : Tick) (s : Progress)
    → (x : Sample) × ((sample d t s).samples ≡ s.samples ++ x ∷ [])
      × (x.error ≡ "" → IsAnswered d t)
unfolding sample
sample_lem d t s = by_case (measure d t) refl
  where
    by_case :
        (r : Result Measured)
        → measure d t ≡ r
        → (x : Sample) × ((sample d t s).samples ≡ s.samples ++ x ∷ [])
          × (x.error ≡ "" → IsAnswered d t)
    by_case (ok m) e = (good_sample d t m s, rw (e, sample) refl, λ h. measure_sound d t m e)
    by_case (raised e) h =
        (failed_sample t e, rw (h, sample) refl, λ empty. absurd (describe-ne-nil e empty))

sample_all_lem :
    (d : Doubles) (ticks : List Tick) (s : Progress)
    → (new : List Sample) × ((sample_all d ticks s).samples ≡ s.samples ++ new)
      × Sampled d ticks new
unfolding sample_all
sample_all_lem d [] s = ([], sym (append-nil s.samples), tt)
sample_all_lem d (t ∷ ticks) s =
    let (x, one, answered) = sample_lem d t s in
    let (new, rest, sampled) = sample_all_lem d ticks (sample d t s) in
    (
      x ∷ new,
      rest ∙ ap (λ xs. xs ++ new) one ∙ append_assoc s.samples (x ∷ []) new,
      (answered, sampled),
    )

Sampled-drop :
    (d : Doubles) (n : ℕ) (ticks : List Tick) (samples : List Sample)
    → Sampled d ticks samples
    → Sampled d (drop n ticks) (drop n samples)
Sampled-drop d zero ticks samples h = h
Sampled-drop d (suc n) [] [] h = tt
Sampled-drop d (suc n) (t ∷ ticks) (x ∷ samples) (p, h) = Sampled-drop d n ticks samples h
Sampled-drop d (suc n) [] (x ∷ samples) h = absurd h
Sampled-drop d (suc n) (t ∷ ticks) [] h = absurd h

length-Sampled :
    (d : Doubles) (ticks : List Tick) (samples : List Sample)
    → Sampled d ticks samples
    → length ticks ≡ length (map row_of samples)
length-Sampled d [] [] h = refl
length-Sampled d (t ∷ ticks) (x ∷ samples) (p, h) = ap suc (length-Sampled d ticks samples h)
length-Sampled d [] (x ∷ samples) h = absurd h
length-Sampled d (t ∷ ticks) [] h = absurd h

error_free :
    {interval : ℕ} {previous : Option ℕ} {rows : List Row}
    → AreGood interval previous rows
    → All (λ r. r.error ≡ "") rows
error_free done = tt
error_free (good time g rest) = (g.error_free, error_free rest)

All-IsAnswered :
    (d : Doubles) (ticks : List Tick) (samples : List Sample)
    → Sampled d ticks samples
    → All (λ r. r.error ≡ "") (map row_of samples)
    → All (IsAnswered d) ticks
All-IsAnswered d [] [] h e = tt
All-IsAnswered d (t ∷ ticks) (x ∷ samples) (p, h) (e, es) =
    (p e, All-IsAnswered d ticks samples h es)
All-IsAnswered d [] (x ∷ samples) h e = absurd h
All-IsAnswered d (t ∷ ticks) [] h e = absurd h

difference_sound : (a b n : ℕ) → pos n ≡ difference a b → n ≡ a - b
difference_sound a b n h = elim (Bool-cases (ltb a b)) [
  | inl short ↦ absurd (cc (rw short at h))
  | inr long ↦ cc (rw long at h)
]

-- a collection without a reason against it
abbrev pub IsFaultless : Doubles → (duration interval warmup : ℕ) → List Pod → List Tick → Type 0
IsFaultless d duration interval warmup pods ticks =
    (length (drop (warmup / interval) ticks) ≡ duration / interval - warmup / interval)
    × All (IsAnswered d) (drop (warmup / interval) ticks)
    × AreGood interval none (
        map row_of
          (drop (warmup / interval) (collect d duration interval warmup pods ticks).0.samples))

pub collect-IsFaultless :
    (d : Doubles) (duration interval warmup : ℕ) (pods : List Pod) (ticks : List Tick)
    → (collect d duration interval warmup pods ticks).1.reasons ≡ []
    → IsFaultless d duration interval warmup pods ticks
unfolding collect
collect-IsFaultless d duration interval warmup pods ticks h =
    let n = warmup / interval in
    let s = sample_all d ticks (begun pods) in
    let (count, rows) =
      no_reasons (map row_of (drop n s.samples)) (difference (duration / interval) n) interval h in
    let counted = difference_sound (duration / interval) n _ count in
    let (new, same, sampled) = sample_all_lem d ticks (begun pods) in
    let kept : Sampled d (drop n ticks) (drop n s.samples) =
      rw same (Sampled-drop d n ticks new sampled) in
    (
      length-Sampled d (drop n ticks) (drop n s.samples) kept ∙ counted,
      All-IsAnswered d (drop n ticks) (drop n s.samples) kept (error_free rows),
      rows,
    )

-- A collection that passes has had, after the warmup, as many rounds as the duration has intervals,
-- and in each of them the pods, the deployment, the events and all queries were answered; its rows
-- after the warmup are good.
pub collect_passes :
    (d : Doubles) (duration interval warmup : ℕ) (pods : List Pod) (ticks : List Tick)
    → (collect d duration interval warmup pods ticks).1.passed ≡ true
    → IsFaultless d duration interval warmup pods ticks
unfolding collect
collect_passes d duration interval warmup pods ticks h =
    let (_, validation) = collect d duration interval warmup pods ticks in
    collect-IsFaultless d duration interval warmup pods ticks
      (validate_rows_faultless _ _ interval h)
