-- ===== src/Api/Metrics/Overlap.antt =====
-- Overlapping requests: any number of calls of the middleware, begun and finished in any order.
use kavach_ai.Common.{ℕ, ◌+◌, false, ◌≡◌, refl, List, [], ◌∷◌, ◌++◌, length, length-append, arith}
use kavach_ai.Api.Metrics.{Label, Metrics, Request, Outcome, count_one, is_exempt, begin, finish}

pub record System : Type 0 where
  pub metrics : Metrics
  -- the requests that wait in `call_next`, and those that have finished, by how `call_next` ended, the
  -- last one first
  pub active : List Request
  pub completed : List (Request × Outcome)

abbrev pub start : System
start = record {
  metrics = record { in_flight = 0; requests = []; durations = [] };
  active = [];
  completed = [];
}

pub data Step : System → System → Type 0 where
  arrive :
      (s : System) (r : Request)
      → is_exempt r ≡ false
      → Step s
          (record { metrics = begin s.metrics; active = r ∷ s.active; completed = s.completed })
  leave :
      (s : System) (before after : List Request) (r : Request) (o : Outcome)
      → s.active ≡ before ++ r ∷ after
      → Step s (record {
        metrics = finish r o s.metrics;
        active = before ++ after;
        completed = (r, o) ∷ s.completed;
      })

pub data Reach : System → Type 0 where
  initially : Reach start
  next : {s t : System} → Reach s → Step s t → Reach t

-- the sum of a counter over its labels
unfoldable pub total_count : List (Label × ℕ) → ℕ
total_count [] = 0
total_count ((l, n) ∷ counts) = n + total_count counts

total_count-count_one :
    (l : Label) (counts : List (Label × ℕ))
    → total_count (count_one l counts) ≡ total_count counts + 1
unfolding total_count count_one
total_count-count_one l [] = omega arith
total_count-count_one l ((j, n) ∷ counts) = ground (arith, total_count-count_one l counts)

pub record IsConsistent (s : System) : Type 0 where
  pub gauge : s.metrics.in_flight ≡ length s.active
  pub counted : total_count s.metrics.requests ≡ length s.completed
  pub observed : total_count s.metrics.durations ≡ length s.completed

Step-IsConsistent : {s t : System} → Step s t → IsConsistent s → IsConsistent t
unfolding begin finish
Step-IsConsistent (arrive s r h) c = record {
  gauge = omega arith;
  counted = c.counted;
  observed = c.observed;
}
Step-IsConsistent (leave s before after r o e) c = record {
  gauge =
      let size = length-append before (r ∷ after) in
      let here : s.metrics.in_flight ≡ length (before ++ r ∷ after) = rw (← e) c.gauge in
      omega (arith, size, here, length-append before after);
  counted = omega (arith, total_count-count_one _ s.metrics.requests, c.counted);
  observed = omega (arith, total_count-count_one _ s.metrics.durations, c.observed);
}

-- Whatever the order in which requests come and go: the gauge is the number of requests in progress,
-- and the request counter and the duration histogram have each counted every finished request once.
pub Reach-IsConsistent : {s : System} → Reach s → IsConsistent s
unfolding total_count
Reach-IsConsistent initially = record { gauge = refl; counted = refl; observed = refl }
Reach-IsConsistent (next r st) = Step-IsConsistent st (Reach-IsConsistent r)
