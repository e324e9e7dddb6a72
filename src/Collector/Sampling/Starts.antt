-- ===== src/Collector/Sampling/Starts.antt =====
-- The pods that `collect` counts as started.
use kavach_ai.Common.{
  ℕ, ◌+◌, String, false, ◌||◌, ◌≡◌, refl, sym, ap, ◌∙◌, ◌⊎◌, inl, inr, none, some, List, [], ◌∷◌,
  ◌++◌, append_assoc, append-nil, All, arith, if◌then◌else◌,
}
use kavach_ai.Py.{Result, ok, raised, >>=-eq-ok}
use kavach_ai.Collector.Query.{queries}
use kavach_ai.Collector.Sampling.{
  Pod, Tick, Doubles, Sample, Progress, Measured, find, whole, contains, count_pods, is_new, uids,
  ask, measure, good_sample, failed_sample, sample, sample_all, begun,
}

-- how many different texts the list holds
abbrev pub distinct : List String → ℕ
distinct [] = 0
distinct (u ∷ us) = (if contains u us then 0 else 1) + distinct us

abbrev pub HasUniqueUids : List Pod → Type 0
HasUniqueUids [] = Unit
HasUniqueUids (p ∷ pods) = (contains p.uid (uids pods) ≡ false) × HasUniqueUids pods

-- the samples report n started pods in all, where one that failed reports none
abbrev pub TotalStarts : List Sample → ℕ → Type 0
TotalStarts [] n = n ≡ 0
TotalStarts (x ∷ samples) n =
    (k m : ℕ) × ((find "pod_start_events" x.readings ≡ some (whole k))
      ⊎ ((find "pod_start_events" x.readings ≡ none) × (k ≡ 0)))
    × TotalStarts samples m
    × (n ≡ k + m)

contains-append :
    (u : String) (xs ys : List String) → contains u (xs ++ ys) ≡ contains u xs || contains u ys
contains-append u [] ys = refl
contains-append u (x ∷ xs) ys = ground (arith, contains-append u xs ys)

distinct-uids :
    (seen : List String) (pods : List Pod)
    → HasUniqueUids pods
    → distinct (uids pods ++ seen) ≡ count_pods (is_new seen) pods + distinct seen
distinct-uids seen [] h = omega arith
distinct-uids seen (p ∷ pods) (new, h) =
    let e = contains-append p.uid (uids pods) seen in
    ground (arith, distinct-uids seen pods h, rw new at e)

measure-pods : (d : Doubles) (t : Tick) (m : Measured) → measure d t ≡ ok m → t.pods ≡ ok m.pods
unfolding measure
measure-pods d t m h =
    let (pods, p, h1) = >>=-eq-ok t.pods _ h in
    let (desired, _, h2) = >>=-eq-ok t.deployment _ h1 in
    let (events, _, h3) = >>=-eq-ok t.events _ h2 in
    let (answers, _, h4) = >>=-eq-ok (ask d queries t.responses) _ h3 in
    let same : pods ≡ m.pods = cc h4 in rw (← same) p

-- the tick's pods, if it has them, have different uids
abbrev pub HasUniquePods : Tick → Type 0
HasUniquePods t = (pods : List Pod) → t.pods ≡ ok pods → HasUniqueUids pods

sample-starts :
    (d : Doubles) (t : Tick) (s : Progress)
    → HasUniquePods t
    → (x : Sample) × (k : ℕ) × ((sample d t s).samples ≡ s.samples ++ x ∷ [])
      × ((find "pod_start_events" x.readings ≡ some (whole k))
          ⊎ ((find "pod_start_events" x.readings ≡ none) × (k ≡ 0)))
      × (distinct (sample d t s).seen_pods ≡ k + distinct s.seen_pods)
unfolding sample good_sample
sample-starts d t s unique = by_case (measure d t) refl
  where
    by_case :
        (r : Result Measured)
        → measure d t ≡ r
        → (x : Sample) × (k : ℕ) × ((sample d t s).samples ≡ s.samples ++ x ∷ [])
          × ((find "pod_start_events" x.readings ≡ some (whole k))
              ⊎ ((find "pod_start_events" x.readings ≡ none) × (k ≡ 0)))
          × (distinct (sample d t s).seen_pods ≡ k + distinct s.seen_pods)
    by_case (ok m) e = (
      good_sample d t m s,
      count_pods (is_new s.seen_pods) m.pods,
      rw (e, sample) refl,
      inl refl,
      rw (e, sample) (distinct-uids s.seen_pods m.pods (unique m.pods (measure-pods d t m e))),
    )
    by_case (raised e) h =
        (failed_sample t e, 0, rw (h, sample) refl, inr (refl, refl), rw (h, sample) (omega arith))

sample_all-starts :
    (d : Doubles) (ticks : List Tick) (s : Progress)
    → All HasUniquePods ticks
    → (new : List Sample) × (n : ℕ) × ((sample_all d ticks s).samples ≡ s.samples ++ new)
      × TotalStarts new n
      × (distinct (sample_all d ticks s).seen_pods ≡ n + distinct s.seen_pods)
unfolding sample_all
sample_all-starts d [] s h = ([], 0, sym (append-nil s.samples), refl, omega arith)
sample_all-starts d (t ∷ ticks) s (u, h) =
    let (x, k, one, reads, more) = sample-starts d t s u in
    let (new, n, rest, total, most) = sample_all-starts d ticks (sample d t s) h in
    (
      x ∷ new,
      k + n,
      rest ∙ ap (λ xs. xs ++ new) one ∙ append_assoc s.samples (x ∷ []) new,
      (k, n, reads, total, refl),
      omega (arith, more, most),
    )

-- If the pods of each round have different uids, the started pods that the samples report add up to
-- the number of pods that were seen and were not there before the first round: each is counted once,
-- whatever comes, goes and comes back.
pub starts_counted_once :
    (d : Doubles) (pods : List Pod) (ticks : List Tick)
    → All HasUniquePods ticks
    → let s = sample_all d ticks (begun pods) in
      (n : ℕ) × TotalStarts s.samples n × (distinct s.seen_pods ≡ n + distinct (uids pods))
starts_counted_once d pods ticks h =
    let (new, n, same, total, most) = sample_all-starts d ticks (begun pods) h in
    (n, rw same total, most)
