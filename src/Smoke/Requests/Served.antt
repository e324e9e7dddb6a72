-- ===== src/Smoke/Requests/Served.antt =====
-- The smoke check against the service of payment-api/app/main.py.
use kavach_ai.Common.{
  ℕ, ◌<◌, String, cat, starts_with, drop_chars, pos, finite, true, ◌≡◌, refl, some, arith,
}
use kavach_ai.Py.{
  Value, bool, str, dict, field, end, lookup, eq_value, subscript, other_error, Result, ok, raised,
}
use kavach_ai.Api.Reply.{Reply, returned, http_error, crashed}
use kavach_ai.Api.Runtime.{Runtime, IsRuntime}
use kavach_ai.Api.Settings.{Settings}
use kavach_ai.Api.Bodies.{
  Payment, every, is_word, payment_valid, login_valid, confirmation_valid, dump_payment,
}
use kavach_ai.Api.Token.{sign}
use kavach_ai.Api.Requests.{login, health}
use kavach_ai.Api.Requests.Flow.{session_payload, receipt_of, initiated, identity-session}
use kavach_ai.Api.Requests.Receipts.{work_without_injection}
use kavach_ai.Api.Serve.{serve}
use kavach_ai.Api.Serve.Session.{
  Succeeds, balance_served, initiate_served, confirm_served, transaction_served,
}
use kavach_ai.Workload.Issue.Words.{numbered_payment_valid}
use kavach_ai.Smoke.{Kind, balance, initiate, confirm, transaction, kind_of, Site, fixture, prepare}
use kavach_ai.Smoke.Requests.{probe, login_request, initiate_request, of_kind, request_for}

abbrev pub user : String
user = "synthetic-user-1"

abbrev pub payment : (request_id : String) → Payment
payment request_id = record {
  amount_minor = pos 1200;
  recipient = "synthetic-merchant-1";
  request_id = request_id;
}

user_valid : login_valid (record { username = user; password = "synthetic-only" }) ≡ true
unfolding login_valid starts_with drop_chars
user_valid = refl

smoke_valid : payment_valid (payment "smoke") ≡ true
unfolding payment_valid starts_with drop_chars
smoke_valid = refl

stem_word : every is_word "smoke-" ≡ true
unfolding every is_word
stem_word = refl

-- the answer to the login
abbrev pub granted : (token : String) → Value
granted token = dict (
    field "access_token" (str token)
      (field "token_type" (str "bearer") (field "synthetic" (bool true) end)))

-- `response.json()` past `raise_for_status`
abbrev pub json_of : Reply Value → Result Value
json_of (returned v) = ok v
json_of (http_error status detail) = raised (other_error "HTTPStatusError" detail)
json_of (crashed e) = raised (other_error "HTTPStatusError" "Internal Server Error")

module _ (rt : Runtime) (settings : Settings) where
  abbrev pub token : String
  token = sign rt settings.signing_key (session_payload user) "session"

  abbrev pub receipt : String
  receipt = receipt_of rt settings user (payment "smoke")

  -- the setup's requests, answered by the service
  abbrev pub service_site : Result (Unit {0}) → Site
  service_site metrics = record {
    health = json_of (serve rt settings probe);
    login = json_of (serve rt settings login_request);
    receipt = json_of (serve rt settings (initiate_request token "smoke"));
    metrics = metrics;
  }

module _ (rt : Runtime) (laws : IsRuntime rt) (settings : Settings)
    (no_errors : settings.error_injection_rate ≡ finite (pos 0)) where
  login_served : serve rt settings login_request ≡ returned (granted (token rt settings))
  unfolding serve lookup login
  login_served = rw (work_without_injection rt laws settings _ no_errors, user_valid) refl

  setup_served :
      serve rt settings (initiate_request (token rt settings) "smoke")
      ≡ returned (initiated (receipt rt settings))
  unfolding dump_payment
  setup_served =
      initiate_served rt laws settings no_errors user (some (cat "Bearer " (token rt settings)))
        (identity-session rt laws settings user) (payment "smoke") smoke_valid

  probe_served : serve rt settings probe ≡ returned fixture
  unfolding serve health
  probe_served = refl

  -- The setup before the loop ends without an exception.
  setup-prepared :
      (metrics : Result (Unit {0})) → prepare (service_site rt settings metrics) ≡ ok tt
  unfolding prepare subscript lookup eq_value
  setup-prepared metrics = rw (probe_served, login_served, setup_served) refl

  kind_served :
      (i : ℕ) (kind : Kind)
      → i < 10000000
      → confirmation_valid (record { transaction_id = (receipt rt settings) }) ≡ true
      → Succeeds
          (serve rt settings (of_kind rt.decimal (token rt settings) (receipt rt settings) i kind))
  unfolding dump_payment
  kind_served i Kind.login small valid = rw login_served tt
  kind_served i balance small valid =
      balance_served rt laws settings no_errors user (some (cat "Bearer " (token rt settings)))
        (identity-session rt laws settings user) (payment "smoke")
  kind_served i initiate small valid =
      rw
        (initiate_served rt laws settings no_errors user (some (cat "Bearer " (token rt settings)))
          (identity-session rt laws settings user) (payment (cat "smoke-" (rt.decimal i)))
          (numbered_payment_valid rt laws "smoke-" 1200 i stem_word (omega arith) (omega arith)
            (omega arith) small))
        tt
  kind_served i confirm small valid =
      confirm_served rt laws settings no_errors user (some (cat "Bearer " (token rt settings)))
        (identity-session rt laws settings user) (payment "smoke") (receipt rt settings) refl valid
  kind_served i transaction small valid =
      transaction_served rt laws settings no_errors user (some (cat "Bearer " (token rt settings)))
        (identity-session rt laws settings user) (payment "smoke") (receipt rt settings) refl valid

  -- A service without injected errors passes the setup of the check, with the session and the receipt
  -- that the check then uses, and answers the request of each of its first ten million rounds with
  -- success, if the receipt has 10 to 2048 characters.
  pub smoke-Succeeds :
      (metrics : Result (Unit {0})) (i : ℕ)
      → i < 10000000
      → confirmation_valid (record { transaction_id = (receipt rt settings) }) ≡ true
      → (prepare (service_site rt settings metrics) ≡ ok tt)
        × (serve rt settings login_request ≡ returned (granted (token rt settings)))
        × (serve rt settings (initiate_request (token rt settings) "smoke")
            ≡ returned (initiated (receipt rt settings)))
        × Succeeds
            (serve rt settings (request_for rt.decimal (token rt settings) (receipt rt settings) i))
  unfolding request_for
  smoke-Succeeds metrics i small valid =
      (setup-prepared metrics, login_served, setup_served, kind_served i (kind_of i) small valid)
