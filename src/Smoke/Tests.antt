-- ===== src/Smoke/Tests.antt =====
-- The theorems on the smoke check, applied to a check of one second of two requests.
use kavach_ai.Common.{pos, finite, inf, ◌≤◌, ◌≡◌, refl, true, List, [], ◌∷◌, length}
use kavach_ai.Py.{str, dict, field, end, Result, ok}
use kavach_ai.Smoke.Target.{Net}
use kavach_ai.Smoke.{Site, Plan, Beat, fixture, send_all, smoke, exit_code}
use kavach_ai.Smoke.Pacing.{IsPaced, send_all-IsPaced}
use kavach_ai.Smoke.Files.{Host, command}
use kavach_ai.Smoke.Files.Succeeded.{Succeeded, command-Succeeded}

-- every text is a URL of the loopback address
abbrev net : Net
net = record {
  urlsplit = λ url. ok (record {
    scheme = "http";
    username = "";
    password = "";
    path = "";
    query = "";
    fragment = "";
    hostname = "127.0.0.1";
  });
  is_loopback = λ host. ok true;
}

abbrev site : Site
site = record {
  health = ok fixture;
  login = ok (dict (field "access_token" (str "a.b") end));
  receipt = ok (dict (field "transaction_id" (str "c.d") end));
  metrics = ok tt;
}

abbrev plan : Plan
plan = record { started = 100; period = 10; rps = 2; duration = 1 }

-- the second round sleeps a tick longer than it asks for
abbrev beats : List Beat
beats =
    record { before = 100; late = 0; delay = 1; took = 4; answer = ok 200 }
    ∷ record { before = 105; late = 1; delay = 1; took = 2; answer = ok 200 }
    ∷ []

send_all-IsPaced_example :
    let rows = (send_all plan 2 0 100 beats).0 in IsPaced plan 0 100 rows × (length rows ≤ 2)
send_all-IsPaced_example = send_all-IsPaced plan 2 0 100 beats

abbrev host : Host
host = record {
  run_id = "20260101T000000Z-01234567";
  dumps = λ v. "{}";
  sha256_hex = λ s. "44136f";
  commit = ok "0a1b2c";
  is_clean = ok true;
  platform = "Linux";
  start_utc = "2026-01-01T00:00:00+00:00";
  end_utc = "2026-01-01T00:00:02+00:00";
  elapsed = inf;
  timestamp = λ row. "2026-01-01T00:00:01+00:00";
  millis = λ n. finite (pos n);
  mean_millis = λ m. finite (pos m.0);
}

command-code : command host net site plan beats "http://127.0.0.1:8000" ≡ 0
unfolding command kavach_ai.Py.eq_value kavach_ai.Py.lookup kavach_ai.Py.subscript
    kavach_ai.Smoke.Target.validate_target kavach_ai.Smoke.measure
command-code = refl

command-Succeeded_example : Succeeded host net site plan beats "http://127.0.0.1:8000"
command-Succeeded_example =
    command-Succeeded host net site plan beats "http://127.0.0.1:8000" command-code
