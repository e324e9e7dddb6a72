-- ===== src/Api/App/Tallies.antt =====
-- What an application shows after the requests that it has answered.
use text.Mathlib.Text.{◌==◌}
use kavach_ai.Common.{
  ◌+◌, true, false, Bool-cases, inl, inr, ◌≡◌, refl, sym, ap, ◌∙◌, List, [], ◌∷◌, Option, none,
  some, String, ℕ, ◌||◌, if◌then◌else◌, arith,
}
use kavach_ai.Py.{Value, ok, >>=-eq-ok}
use kavach_ai.Api.Reply.{Reply, returned, http_error, crashed}
use kavach_ai.Api.Settings.{Settings, Environment}
use kavach_ai.Api.Serve.{Incoming, serve}
use kavach_ai.Api.Metrics.{
  Label, Metrics, same_label, is_exempt, label_of, instrument, begin, finish,
}
use kavach_ai.Api.Metrics.Counts.{count_of, count_of-count_one, instrument_exempt}
use kavach_ai.Api.Metrics.Books.{occurrences, on_route, route_due}
use kavach_ai.Api.App.{
  Host, App, no_metrics, create_app, settings_or, outcome_of, answer, request_of, handle,
  handle_all, reply,
}

-- the status that the client sees, which is 500 after an exception
abbrev pub status_shown : Reply Value → ℕ
status_shown (returned v) = 200
status_shown (http_error status detail) = status
status_shown (crashed e) = 500

module _ (host : Host) (settings : Settings) where
  -- the labels that the business requests are due, the first one first
  unfoldable pub labels : List Incoming → List Label
  labels [] = []
  labels (r ∷ rs) =
      let rest = labels rs in
      if r.path == "/health" || r.path == "/metrics"
      then rest
      else record {
        verb = r.verb;
        route = route_due (host.route r);
        status = status_shown (serve host.runtime settings r);
      }
        ∷ rest

-- how much the metrics have grown
pub record Grown (before after : Metrics) (ls : List Label) : Type 0 where
  pub gauge : after.in_flight ≡ before.in_flight
  pub requests :
      (l : Label)
      → count_of l after.requests
        ≡ count_of l before.requests + occurrences (λ j. same_label j l) ls
  pub durations :
      (l : Label)
      → count_of l after.durations
        ≡ count_of l before.durations + occurrences (λ j. same_label (on_route j) l) ls

empty-Grown : (m : Metrics) → Grown m m []
unfolding occurrences
empty-Grown m = record { gauge = refl; requests = λ l. omega arith; durations = λ l. omega arith }

same-Grown :
    {before between after : Metrics} {ls : List Label}
    → between ≡ before
    → Grown between after ls
    → Grown before after ls
same-Grown e h = rw e at h

-- one label more, and then the others
cons-Grown :
    {before between after : Metrics} (l : Label) (ls : List Label)
    → Grown before between (l ∷ [])
    → Grown between after ls
    → Grown before after (l ∷ ls)
unfolding occurrences
cons-Grown l ls h k = record {
  gauge = k.gauge ∙ h.gauge;
  requests = λ j. omega (arith, h.requests j, k.requests j);
  durations = λ j. omega (arith, h.durations j, k.durations j);
}

module _ (host : Host) where
  handled-exempt :
      (app : App) (r : Incoming)
      → is_exempt (request_of host r) ≡ true
      → (handle host app r).1.metrics ≡ app.metrics
  unfolding handle
  handled-exempt app r h =
      ap (λ p. p.1)
        (instrument_exempt (request_of host r)
          (λ m. (outcome_of (answer host app.settings r app.metrics), m)) app.metrics h)

  is_business :
      (settings : Settings) (r : Incoming) (m : Metrics)
      → is_exempt (request_of host r) ≡ false
      → answer host settings r m ≡ reply (serve host.runtime settings r)
  unfolding is_exempt answer
  is_business settings r m h = elim (Bool-cases (r.path == "/metrics")) [
    | inl there ↦ absurd (ground arith)
    | inr elsewhere ↦ rw elsewhere refl
  ]

  handled-Grown :
      (app : App) (r : Incoming)
      → is_exempt (request_of host r) ≡ false
      → Grown app.metrics (handle host app r).1.metrics (
          label_of (request_of host r) (outcome_of (reply (serve host.runtime app.settings r)))
          ∷ [])
  unfolding handle instrument begin finish occurrences
  handled-Grown app r h =
      rw (h, is_business app.settings r app.metrics h)
        (record {
          gauge = omega arith;
          requests = λ l. omega (
            arith,
            count_of-count_one l
                (label_of (request_of host r)
                  (outcome_of (reply (serve host.runtime app.settings r))))
                app.metrics.requests,
          );
          durations = λ l. omega (
            arith,
            count_of-count_one l
                (on_route (
                  label_of (request_of host r)
                    (outcome_of (reply (serve host.runtime app.settings r)))))
                app.metrics.durations,
          );
        })

  label_shown :
      (r : Incoming) (given : Reply Value)
      → label_of (request_of host r) (outcome_of (reply given))
        ≡ record { verb = r.verb; route = route_due (host.route r); status = status_shown given }
  label_shown r given = by_cases (host.route r) given refl
    where
      by_cases :
          (route : Option String) (given : Reply Value)
          → host.route r ≡ route
          → label_of (request_of host r) (outcome_of (reply given)) ≡ record {
            verb = r.verb;
            route = route_due (host.route r);
            status = status_shown given;
          }
      by_cases none (returned v) e = rw e refl
      by_cases none (http_error status detail) e = rw e refl
      by_cases none (crashed x) e = rw e refl
      by_cases (some path) (returned v) e = rw e refl
      by_cases (some path) (http_error status detail) e = rw e refl
      by_cases (some path) (crashed x) e = rw e refl

  handle_all-Grown :
      (app : App) (rs : List Incoming)
      → Grown app.metrics (handle_all host app rs).1.metrics (labels host app.settings rs)
  unfolding handle_all labels handle is_exempt
  handle_all-Grown app [] = empty-Grown app.metrics
  handle_all-Grown app (r ∷ rs) =
      let rest = handle_all-Grown (handle host app r).1 rs in
      elim (Bool-cases (r.path == "/health" || r.path == "/metrics")) [
        | inl exempt ↦ rw exempt (same-Grown (handled-exempt app r exempt) rest)
        | inr business ↦ rw business (
            cons-Grown _ _
              (rw (label_shown r (serve host.runtime app.settings r)) at
                (handled-Grown app r business))
              rest)
      ]

-- An application that create_app has returned, and that has then answered requests one after the other,
-- has no request in progress; its counter for a method, route and status is the number of requests
-- among them, but for those to /health and /metrics, that have this method and route and were answered
-- with this status, which is 500 after an exception; and the count of its histogram for a method and
-- route is the number of those with this method and route.
pub create_app-Grown :
    (host : Host) (env : Environment) (given : Option Settings) (app : App) (rs : List Incoming)
    → create_app env given ≡ ok app
    → let last = (handle_all host app rs).1.metrics in
      (last.in_flight ≡ 0)
      × ((l : Label)
          → count_of l last.requests
            ≡ occurrences (λ j. same_label j l) (labels host app.settings rs))
      × ((l : Label)
          → count_of l last.durations
            ≡ occurrences (λ j. same_label (on_route j) l) (labels host app.settings rs))
unfolding create_app count_of
create_app-Grown host env given app rs created =
    let (settings, _, made) = >>=-eq-ok (settings_or env given) _ created in
    let fresh : App = record { settings = settings; metrics = no_metrics } in
    let same : fresh ≡ app = cc made in
    let h = same-Grown (ap (λ a. a.metrics) (sym same)) (handle_all-Grown host app rs) in
    (h.gauge, λ l. omega (arith, h.requests l), λ l. omega (arith, h.durations l))
