-- ===== src/Api/App/Tests.antt =====
-- The application after a probe, a login with a wrong password and a path that is no route.
use kavach_ai.Common.{ℕ, String, pos, finite, ◌≡◌, refl, List, [], ◌∷◌, Option, none, some}
use kavach_ai.Py.{Value, str, field, end, ok}
use kavach_ai.Example.Runtime.{small_runtime}
use kavach_ai.Api.Settings.{Settings, Environment, default_signing_key}
use kavach_ai.Api.Serve.{Incoming}
use kavach_ai.Api.Metrics.{Label, same_label}
use kavach_ai.Api.Metrics.Counts.{count_of}
use kavach_ai.Api.Metrics.Books.{occurrences, on_route}
use kavach_ai.Api.App.{Host, App, no_metrics, create_app, handle_all}
use kavach_ai.Api.App.Tallies.{labels, create_app-Grown}

abbrev settings : Settings
settings = record {
  cpu_work_factor = pos 10;
  io_delay_ms = finite (pos 0);
  error_injection_rate = finite (pos 0);
  seed = pos 240005;
  signing_key = default_signing_key;
}

abbrev environment : Environment
environment = record {
  getenv = λ name. none;
  lower = λ s. s;
  parse_int = λ s. ok (pos 10);
  parse_float = λ s. ok (finite (pos 0));
}

abbrev host : Host
host = record { runtime = small_runtime; route = λ r. none; exposition = λ m. "" }

abbrev app : App
app = record { settings = settings; metrics = no_metrics }

abbrev get : String → Incoming
get path = record { verb = "GET"; path = path; authorization = none; json = none }

abbrev wrong_login : Incoming
wrong_login = record {
  verb = "POST";
  path = "/auth/login";
  authorization = none;
  json = some (field "username" (str "synthetic-user-1") (field "password" (str "guessed") end));
}

abbrev visits : List Incoming
visits = get "/health" ∷ wrong_login ∷ get "/nowhere" ∷ get "/metrics" ∷ []

create_app-Grown_example :
    let last = (handle_all host app visits).1.metrics in
    (last.in_flight ≡ 0)
    × ((l : Label)
        → count_of l last.requests
          ≡ occurrences (λ j. same_label j l) (labels host settings visits))
    × ((l : Label)
        → count_of l last.durations
          ≡ occurrences (λ j. same_label (on_route j) l) (labels host settings visits))
unfolding create_app
create_app-Grown_example = create_app-Grown host environment (some settings) app visits refl

-- the wrong password and the path that is no route are counted, the probe and the page are not
visited-labels :
    labels host settings visits
    ≡ record { verb = "POST"; route = "unmatched"; status = 401 }
      ∷ record { verb = "GET"; route = "unmatched"; status = 404 }
      ∷ []
unfolding labels kavach_ai.Api.Serve.serve kavach_ai.Py.lookup kavach_ai.Common.starts_with
    kavach_ai.Api.Requests.login kavach_ai.Api.Bodies.login_valid kavach_ai.Common.drop_chars
visited-labels = refl
