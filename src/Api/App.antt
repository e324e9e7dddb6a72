-- ===== src/Api/App.antt =====
-- `create_app` of main.py: the application it returns, which answers one request after the other, each
-- through the middleware. FastAPI and prometheus_client are parameters: the route that a request
-- matches, and the text of the metrics page.
pub mod Tallies
mod Tests
use text.Mathlib.Text.{◌==◌}
use kavach_ai.Common.{ℕ, String, Bool, ◌&&◌, Option, none, some, List, [], ◌∷◌, if◌then◌else◌}
use kavach_ai.Py.{Value, Result, ok, ◌>>=◌}
use kavach_ai.Api.Reply.{Reply, returned, http_error, crashed}
use kavach_ai.Api.Runtime.{Runtime}
use kavach_ai.Api.Settings.{Settings, Environment, from_env}
use kavach_ai.Api.Serve.{Incoming, serve}
use kavach_ai.Api.Metrics.{Metrics, Request, Outcome, responded, raised, instrument}

-- what the service runs in
pub record Host : Type 0 where
  pub runtime : Runtime
  -- the path of the route that the request matches, if it matches one
  pub route : Incoming → Option String
  -- `generate_latest(registry)`
  pub exposition : Metrics → String

pub record App : Type 0 where
  pub settings : Settings
  pub metrics : Metrics

abbrev pub no_metrics : Metrics
no_metrics = record { in_flight = 0; requests = []; durations = [] }

-- `settings or Settings.from_env()`
abbrev pub settings_or : Environment → Option Settings → Result Settings
settings_or env none = from_env env
settings_or env (some settings) = ok settings

unfoldable pub create_app : Environment → Option Settings → Result App
create_app env given = do
  settings ← settings_or env given
  ok (record { settings = settings; metrics = no_metrics })

-- what the client gets: the end of a handler, or the metrics page
pub data Answer : Type 0 where
  reply : Reply Value → Answer
  page : String → Answer

-- the response that `call_next` returns, or that an exception leaves it
abbrev pub outcome_of : Answer → Outcome
outcome_of (reply (returned v)) = responded 200
outcome_of (reply (http_error status detail)) = responded status
outcome_of (reply (crashed e)) = raised
outcome_of (page text) = responded 200

module _ (host : Host) where
  -- the routes with the one of the metrics, which has a single method
  unfoldable pub answer : Settings → Incoming → Metrics → Answer
  answer settings r m =
      if r.path == "/metrics"
      then (if r.verb == "GET"
          then page (host.exposition m)
          else reply (http_error 405 "Method Not Allowed"))
      else reply (serve host.runtime settings r)

  abbrev pub request_of : Incoming → Request
  request_of r = record { verb = r.verb; path = r.path; route = host.route r }

  -- one request through the middleware, which gives the answer on as it is
  unfoldable pub handle : App → Incoming → Answer × App
  unfolding answer
  handle app r =
      let given = answer app.settings r app.metrics in
      let (o, after) = instrument (request_of r) (λ m. (outcome_of given, m)) app.metrics in
      (given, record app { metrics = after })

  unfoldable pub handle_all : App → List Incoming → List Answer × App
  unfolding handle
  handle_all app [] = ([], app)
  handle_all app (r ∷ rs) =
      let (a, next) = handle app r in
      let (answers, last) = handle_all next rs in (a ∷ answers, last)
