-- ===== src/Workload/Issue/Accepted.antt =====
-- The requests of workload/locustfile.py against the handlers of payment-api/app/main.py, one
-- endpoint at a time.
use kavach_ai.Common.{
  ◌≤◌, ◌<◌, String, cat, true, ◌≡◌, refl, Option, none, some, pos, finite, arith,
}
use kavach_ai.Py.{str, Fields, end, field, lookup}
use kavach_ai.Api.Reply.{returned}
use kavach_ai.Api.Runtime.{Runtime, IsRuntime}
use kavach_ai.Api.Settings.{Settings, default_signing_key}
use kavach_ai.Api.Token.{sign, identity}
use kavach_ai.Api.Bodies.{Payment, payment_valid, confirmation_valid, dump_payment}
use kavach_ai.Api.Requests.{login}
use kavach_ai.Api.Requests.Flow.{session_payload, receipt_of, identity-session}
use kavach_ai.Api.Requests.Receipts.{work_without_injection}
use kavach_ai.Api.Serve.Session.{
  Succeeds, balance_served, initiate_served, confirm_served, transaction_served,
}
use kavach_ai.Api.Serve.{Incoming, serve}
use kavach_ai.Workload.Trace.{Row}
use kavach_ai.Workload.Issue.{signed, user_of, payload_of, receipt_for}
use kavach_ai.Workload.Issue.Words.{login_valid_user, payment_valid_row}

-- the generator's function is the service's, at the key that it has written into it
signed-eq-sign :
    (rt : Runtime) (payload : Fields) (kind : String)
    → signed rt payload kind ≡ sign rt default_signing_key payload kind
unfolding signed sign
signed-eq-sign rt payload kind = refl

module _ (rt : Runtime) (laws : IsRuntime rt) (settings : Settings)
    (default_key : settings.signing_key ≡ default_signing_key)
    (no_errors : settings.error_injection_rate ≡ finite (pos 0)) (row : Row) where
  abbrev pub payment_of : Payment
  payment_of = record {
    amount_minor = pos row.amount_minor;
    recipient = "synthetic-merchant-1";
    request_id = cat "trace-" (rt.decimal row.sequence);
  }

  abbrev pub header_of : Option String
  header_of = some (cat "Bearer " (signed rt (session_payload (user_of rt row)) "session"))

  session : identity rt settings.signing_key header_of ≡ returned (str (user_of rt row))
  session =
      rw (signed-eq-sign rt (session_payload (user_of rt row)) "session", ← default_key)
        (identity-session rt laws settings (user_of rt row))

  receipt_for-eq-receipt_of :
      receipt_for rt row ≡ receipt_of rt settings (user_of rt row) payment_of
  unfolding receipt_for payload_of dump_payment
  receipt_for-eq-receipt_of = rw default_key (signed-eq-sign rt _ "transaction")

  -- the request for each endpoint
  abbrev pub at_endpoint : String → String → Option Fields → Incoming
  at_endpoint verb path json = record {
    verb = verb;
    path = path;
    authorization = header_of;
    json = json;
  }

  abbrev pub login_request : Incoming
  login_request =
      at_endpoint "POST" "/auth/login" (
        some
          (field "username" (str (user_of rt row)) (field "password" (str "synthetic-only") end)))

  abbrev pub balance_request : Incoming
  balance_request = at_endpoint "GET" "/wallet/balance" none

  abbrev pub initiate_request : Incoming
  initiate_request = at_endpoint "POST" "/payments/initiate" (some (payload_of rt row))

  abbrev pub confirm_request : Incoming
  confirm_request =
      at_endpoint "POST" "/payments/confirm"
        (some (field "transaction_id" (str (receipt_for rt row)) end))

  abbrev pub transaction_request : Incoming
  transaction_request = at_endpoint "GET" (cat "/transactions/" (receipt_for rt row)) none

  pub login_accepted : row.user < 10000 → Succeeds (serve rt settings login_request)
  unfolding serve lookup login
  login_accepted small =
      rw
        (
          login_valid_user rt laws row.user small,
          work_without_injection rt laws settings _ no_errors,
        )
        tt

  pub balance_accepted : Succeeds (serve rt settings balance_request)
  balance_accepted =
      balance_served rt laws settings no_errors (user_of rt row) header_of session payment_of

  pub paid :
      1 ≤ row.amount_minor
      → row.amount_minor ≤ 10000
      → row.sequence < 10000000
      → payment_valid payment_of ≡ true
  paid low high n = payment_valid_row rt laws row.amount_minor row.sequence low (omega arith) n

  pub initiate_accepted :
      payment_valid payment_of ≡ true → Succeeds (serve rt settings initiate_request)
  unfolding payload_of dump_payment
  initiate_accepted valid =
      rw
        (initiate_served rt laws settings no_errors (user_of rt row) header_of session payment_of
          valid)
        tt

  pub confirm_accepted :
      confirmation_valid (record { transaction_id = receipt_for rt row }) ≡ true
      → Succeeds (serve rt settings confirm_request)
  confirm_accepted valid =
      confirm_served rt laws settings no_errors (user_of rt row) header_of session payment_of
        (receipt_for rt row) receipt_for-eq-receipt_of valid

  pub transaction_accepted :
      confirmation_valid (record { transaction_id = receipt_for rt row }) ≡ true
      → Succeeds (serve rt settings transaction_request)
  transaction_accepted valid =
      transaction_served rt laws settings no_errors (user_of rt row) header_of session payment_of
        (receipt_for rt row) receipt_for-eq-receipt_of valid
