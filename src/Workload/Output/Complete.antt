-- ===== src/Workload/Output/Complete.antt =====
-- What has become of the trace's events in requests.jsonl.
use mathlib.Core.List.{Perm, perm_middle}
use mathlib.Core.List.Perm
use kavach_ai.Common.{
  ℕ, suc, ◌+◌, ◌≤◌, true, ◌≡◌, refl, and_true, eqb, eqb_iff, ap, ◌∙◌, List, [], ◌∷◌, ◌++◌, map,
  map-append, append-nil, length, length-append, All, arith,
}
use kavach_ai.Workload.Trace.{Row}
use kavach_ai.Workload.Output.{
  Job, Line, answered, unsent, Output, Step, drop, send, answer, lose, Reach, initially, next,
  event_of, generator_valid, has_all_lines,
}

abbrev pub IsAnswered : Line → Type 0
IsAnswered (answered job status) = Unit
IsAnswered (unsent job) = ⊥

abbrev pub events : List Job → List Row
events jobs = map (λ j. j.event) jobs

-- how many lines are of dropped events
abbrev pub unsent_in : List Line → ℕ
unsent_in [] = 0
unsent_in (answered job status ∷ file) = unsent_in file
unsent_in (unsent job ∷ file) = suc (unsent_in file)

unsent_in-append :
    (file more : List Line) → unsent_in (file ++ more) ≡ unsent_in file + unsent_in more
unsent_in-append [] more = omega arith
unsent_in-append (answered job status ∷ file) more = unsent_in-append file more
unsent_in-append (unsent job ∷ file) more = omega (arith, unsent_in-append file more)

All-IsAnswered : (file : List Line) → unsent_in file ≡ 0 → All IsAnswered file
All-IsAnswered [] h = tt
All-IsAnswered (answered job status ∷ file) h = (tt, All-IsAnswered file h)
All-IsAnswered (unsent job ∷ file) h = absurd (omega (arith, h))

no_elements : {A : Type 0} (l : List A) → length l ≡ 0 → l ≡ []
no_elements [] h = refl
no_elements (x ∷ l) h = absurd (omega (arith, h))

-- every event of the trace, wherever it is now
abbrev pub whereabouts : Output → List Row
whereabouts s = map event_of s.file ++ (events s.lost ++ (events s.pending ++ s.left))

pub record Accounts (trace : List Row) (s : Output) : Type 0 where
  pub events : Perm (whereabouts s) trace
  pub count : length s.file + length s.lost + length s.pending + length s.left ≡ length trace
  pub drops : s.drops ≡ unsent_in s.file
  pub bounded : length s.pending ≤ 200

-- The second list is a permutation of the first with one element more.
record Adds {A : Type 0} (x : A) (l l' : List A) : Type 0 where
  perm : Perm l' (x ∷ l)

module _ {A : Type 0} {x : A} where
  later : (m : List A) {l l' : List A} → Adds x l l' → Adds x (m ++ l) (m ++ l')
  later m h = record { perm = Perm.trans (Perm.append_left m h.perm) (perm_middle m _) }

  earlier : {l l' : List A} (m : List A) → Adds x l l' → Adds x (l ++ m) (l' ++ m)
  earlier m h = record { perm = Perm.append_right m h.perm }

  added-Perm : {l l₁ l₂ : List A} → Adds x l l₁ → Adds x l l₂ → Perm l₁ l₂
  added-Perm h k = Perm.trans h.perm (Perm.symm k.perm)

  first : (l : List A) → Adds x l (x ∷ l)
  first l = record { perm = Perm.refl _ }

events-end :
    (file : List Line) (l : Line)
    → Adds (event_of l) (map event_of file) (map event_of (file ++ l ∷ []))
events-end [] l = first []
events-end (m ∷ file) l = record {
  perm =
      Perm.trans (Perm.cons (event_of m) (events-end file l).perm)
        (Perm.swap (event_of l) (event_of m) (map event_of file));
}

events-middle :
    (before : List Job) (j : Job) (after : List Job)
    → Adds j.event (events (before ++ after)) (events (before ++ j ∷ after))
events-middle before j after = record { perm = rw (map-append, map-append) (perm_middle _ _) }

Step-whereabouts :
    {tolerance : ℕ} {s t : Output} → Step tolerance s t → Perm (whereabouts t) (whereabouts s)
Step-whereabouts (drop s row rest lag e late) = rw e (
    added-Perm (earlier _ (events-end s.file (unsent (record { event = row; lag = lag }))))
      (later (map event_of s.file) (later (events s.lost) (later (events s.pending) (first rest)))))
Step-whereabouts (send s row rest lag e late) =
    let job : Job = record { event = row; lag = lag } in
    rw e (
      let all_pending : Adds row (events s.pending) (events (s.pending ++ job ∷ [])) =
        rw append-nil at (events-middle s.pending job []) in
      added-Perm (later (map event_of s.file) (later (events s.lost) (earlier rest all_pending))) (
        later (map event_of s.file)
          (later (events s.lost) (later (events s.pending) (first rest)))))
Step-whereabouts (answer s before job after status e) = rw e (
    added-Perm (earlier _ (events-end s.file (answered job status))) (
      later (map event_of s.file)
        (later (events s.lost) (earlier s.left (events-middle before job after)))))
Step-whereabouts (lose s before job after e) = rw e (
    added-Perm (later (map event_of s.file) (earlier _ (first (events s.lost)))) (
      later (map event_of s.file)
        (later (events s.lost) (earlier s.left (events-middle before job after)))))

lines_in : Output → ℕ
lines_in s = length s.file + length s.lost + length s.pending + length s.left

Step-lines_in : {tolerance : ℕ} {s t : Output} → Step tolerance s t → lines_in t ≡ lines_in s
unfolding lines_in
Step-lines_in (drop s row rest lag e late) =
    rw e (omega (arith, length-append s.file (unsent (record { event = row; lag = lag }) ∷ [])))
Step-lines_in (send s row rest lag e late) =
    rw e (omega (arith, length-append s.pending (record { event = row; lag = lag } ∷ [])))
Step-lines_in (answer s before job after status e) = rw e (
    omega (
      arith,
      length-append s.file (answered job status ∷ []),
      length-append before after,
      length-append before (job ∷ after),
    ))
Step-lines_in (lose s before job after e) =
    rw e (omega (arith, length-append before after, length-append before (job ∷ after)))

Step-drops :
    {tolerance : ℕ} {s t : Output}
    → Step tolerance s t
    → s.drops ≡ unsent_in s.file
    → t.drops ≡ unsent_in t.file
Step-drops (drop s row rest lag e late) h =
    omega (arith, h, unsent_in-append s.file (unsent (record { event = row; lag = lag }) ∷ []))
Step-drops (send s row rest lag e late) h = h
Step-drops (answer s before job after status e) h =
    omega (arith, h, unsent_in-append s.file (answered job status ∷ []))
Step-drops (lose s before job after e) h = h

Step-bounded :
    {tolerance : ℕ} {s t : Output}
    → Step tolerance s t
    → length s.pending ≤ 200
    → length t.pending ≤ 200
Step-bounded (drop s row rest lag e late) h = h
Step-bounded {tolerance} (send s row rest lag e late) h =
    ground (arith, late, length-append s.pending (record { event = row; lag = lag } ∷ []))
Step-bounded (answer s before job after status e) h =
    omega (arith, h, ap length e, length-append before after, length-append before (job ∷ after))
Step-bounded (lose s before job after e) h =
    omega (arith, h, ap length e, length-append before after, length-append before (job ∷ after))

-- However the loop and the greenlets interleave, each event of the trace is in one place, in a line of
-- the file, lost with its greenlet, pending or still to come; the count of drops is that of the file's
-- lines that say so, and no more than 200 requests are ever pending.
pub Reach-Accounts :
    {tolerance : ℕ} {trace : List Row} {s : Output} → Reach tolerance trace s → Accounts trace s
unfolding lines_in
Reach-Accounts initially = record {
  events = Perm.refl _;
  count = omega arith;
  drops = refl;
  bounded = omega arith;
}
Reach-Accounts (next reached step) =
    let h = Reach-Accounts reached in
    record {
      events = Perm.trans (Step-whereabouts step) h.events;
      count = Step-lines_in step ∙ h.count;
      drops = Step-drops step h.drops;
      bounded = Step-bounded step h.bounded;
    }

-- When the loop is over, if the generator calls itself valid and the file has as many lines as the
-- trace, then the file's events are those of the trace, each once, in some order, and each line is an
-- answer.
pub Reach-IsComplete :
    {tolerance : ℕ} {trace : List Row} {s : Output}
    → Reach tolerance trace s
    → s.left ≡ []
    → generator_valid s ≡ true
    → has_all_lines s trace ≡ true
    → Perm (map event_of s.file) trace × All IsAnswered s.file
unfolding generator_valid has_all_lines
Reach-IsComplete {tolerance} {trace} {s} reached over valid complete =
    let h = Reach-Accounts reached in
    let (no_drops, no_pending) = and_true (eqb s.drops 0) _ valid in
    let e0 : s.drops ≡ 0 = (eqb_iff _ _).0 no_drops in
    let e1 : length s.pending ≡ 0 = (eqb_iff _ _).0 no_pending in
    let e2 : length s.file ≡ length trace = (eqb_iff _ _).0 complete in
    let none_pending = no_elements s.pending e1 in
    let none_lost = no_elements s.lost (omega (arith, h.count, e2)) in
    let whole : whereabouts s ≡ map event_of s.file =
      rw (over, none_pending, none_lost) (append-nil (map event_of s.file)) in
    (rw whole at h.events, All-IsAnswered s.file (omega (arith, h.drops, e0)))
