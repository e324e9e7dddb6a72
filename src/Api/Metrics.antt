-- ===== src/Api/Metrics.antt =====
-- The middleware `instrument` of main.py and the metrics that it keeps. Requests overlap: one call
-- of the middleware is `begin`, whatever the rest of the program does, and `finish`.
pub mod Counts
pub mod Overlap
pub mod Books
use text.Mathlib.Text.{◌==◌}
use kavach_ai.Common.{
  ℕ, ◌+◌, ◌-◌, String, eqb, Bool, true, false, ◌&&◌, ◌||◌, Option, none, some, List, [], ◌∷◌,
  if◌then◌else◌,
}

-- the label values of `kavach_requests_total`
pub record Label : Type 0 where
  pub verb : String
  pub route : String
  pub status : ℕ

pub record Metrics : Type 0 where
  pub in_flight : ℕ
  -- `kavach_requests_total`, by label
  pub requests : List (Label × ℕ)
  -- the number of observations of `kavach_request_duration_seconds`, by method and route (status 0)
  pub durations : List (Label × ℕ)

pub record Request : Type 0 where
  pub verb : String
  pub path : String
  -- the path of the route that matched, if one did
  pub route : Option String

-- `call_next` returns a response with a status, or lets an exception out
pub data Outcome : Type 0 where
  responded : ℕ → Outcome
  raised : Outcome

unfoldable pub same_label : Label → Label → Bool
same_label a b = a.verb == b.verb && a.route == b.route && eqb a.status b.status

-- `.labels(...).inc()`: a label that is new starts at 0
unfoldable pub count_one : Label → List (Label × ℕ) → List (Label × ℕ)
unfolding same_label
count_one l [] = (l, 1) ∷ []
count_one l ((j, n) ∷ counts) =
    if same_label j l then (j, n + 1) ∷ counts else (j, n) ∷ count_one l counts

-- `request.url.path in {"/health", "/metrics"}`
unfoldable pub is_exempt : Request → Bool
is_exempt r = r.path == "/health" || r.path == "/metrics"

-- `getattr(request.scope.get("route"), "path", "unmatched")`
abbrev pub route_of : Request → String
route_of r = elim r.route [ none ↦ "unmatched" | some path ↦ path ]

-- `status` at the end: 500 unless `call_next` has returned
abbrev pub status_of : Outcome → ℕ
status_of (responded status) = status
status_of raised = 500

abbrev pub label_of : Request → Outcome → Label
label_of r o = record { verb = r.verb; route = route_of r; status = status_of o }

-- the code before `call_next`
unfoldable pub begin : Metrics → Metrics
begin m = record m { in_flight = m.in_flight + 1 }

-- the `finally` block. The gauge is at least 1 here (`Overlap`), so `-` takes exactly one off.
unfoldable pub finish : Request → Outcome → Metrics → Metrics
finish r o m = record {
  in_flight = m.in_flight - 1;
  requests = count_one (label_of r o) m.requests;
  durations = count_one (record { verb = r.verb; route = route_of r; status = 0 }) m.durations;
}

-- the whole middleware, around whatever `call_next` does to the metrics meanwhile
unfoldable pub instrument : Request → (Metrics → Outcome × Metrics) → Metrics → Outcome × Metrics
unfolding is_exempt begin finish
instrument r call_next m =
    if is_exempt r then call_next m else (let (o, m') = call_next (begin m) in (o, finish r o m'))
