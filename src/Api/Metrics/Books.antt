-- ===== src/Api/Metrics/Books.antt =====
-- What the metrics stand for: the requests that have finished, each by its method, route and status.
use kavach_ai.Common.{
  ℕ, ◌+◌, length, String, Bool, ◌≡◌, refl, ap, ◌∙◌, Option, none, some, List, [], ◌∷◌, map,
  if◌then◌else◌,
}
use kavach_ai.Api.Metrics.Counts.{count_of, count_of-count_one}
use kavach_ai.Api.Metrics.{
  Label, Request, Outcome, responded, raised, same_label, label_of, begin, finish,
}
use kavach_ai.Api.Metrics.Overlap.{
  System, arrive, leave, Reach, initially, next, Reach-IsConsistent,
}

-- how many of the labels pass the test
unfoldable pub occurrences : (Label → Bool) → List Label → ℕ
occurrences test [] = 0
occurrences test (l ∷ labels) = occurrences test labels + (if test l then 1 else 0)

-- without the status
abbrev pub on_route : Label → Label
on_route l = record l { status = 0 }

-- what the counters are to tell a request by, said apart from the middleware: the path of the route, or
-- else "unmatched", and the status of the response, or 500 where there is none
abbrev pub route_due : Option String → String
route_due (some path) = path
route_due none = "unmatched"

abbrev pub status_due : Outcome → ℕ
status_due (responded status) = status
status_due raised = 500

abbrev pub label_due : Request × Outcome → Label
label_due (r, o) = record { verb = r.verb; route = route_due r.route; status = status_due o }

label_of-due : (r : Request) (o : Outcome) → label_of r o ≡ label_due (r, o)
label_of-due r o = by_cases r.route o refl
  where
    by_cases :
        (route : Option String) (o : Outcome) → r.route ≡ route → label_of r o ≡ label_due (r, o)
    by_cases none (responded status) e = rw e refl
    by_cases none raised e = rw e refl
    by_cases (some path) (responded status) e = rw e refl
    by_cases (some path) raised e = rw e refl

-- the gauge shows the requests in progress, and each counter how many requests of its label have
-- finished
pub record Represents (s : System) : Type 0 where
  pub active : s.metrics.in_flight ≡ length s.active
  pub requests :
      (l : Label)
      → count_of l s.metrics.requests
        ≡ occurrences (λ j. same_label j l) (map label_due s.completed)
  pub durations :
      (l : Label)
      → count_of l s.metrics.durations
        ≡ occurrences (λ j. same_label (on_route j) l) (map label_due s.completed)

-- Whatever the order in which requests come and go: the gauge is the number of requests in progress;
-- each request counter is the number of finished requests with its method, its route and the status
-- of their response, which is 500 where an exception came in its place; and each histogram's count is
-- the number of those with its method and route.
pub Reach-Represents : {s : System} → Reach s → Represents s
unfolding count_of occurrences finish begin
Reach-Represents initially = record { active = refl; requests = λ l. refl; durations = λ l. refl }
Reach-Represents (next reached (arrive s r h)) =
    let before = Reach-Represents reached in
    record {
      active = (Reach-IsConsistent (next reached (arrive s r h))).gauge;
      requests = before.requests;
      durations = before.durations;
    }
Reach-Represents (next reached (leave s before after r o e)) =
    let earlier = Reach-Represents reached in
    let l = label_of r o in
    let due : l ≡ label_due (r, o) = label_of-due r o in
    record {
      active = (Reach-IsConsistent (next reached (leave s before after r o e))).gauge;
      requests = λ k.
          count_of-count_one k l s.metrics.requests
          ∙ ap (λ n. n + (if same_label l k then 1 else 0)) (earlier.requests k)
          ∙ ap
              (λ j.
                occurrences (λ j. same_label j k) (map label_due s.completed)
                + (if same_label j k then 1 else 0))
              due;
      durations = λ k.
          count_of-count_one k (on_route l) s.metrics.durations
          ∙ ap (λ n. n + (if same_label (on_route l) k then 1 else 0)) (earlier.durations k)
          ∙ ap
              (λ j.
                occurrences (λ j. same_label (on_route j) k) (map label_due s.completed)
                + (if same_label (on_route j) k then 1 else 0))
              due;
    }
