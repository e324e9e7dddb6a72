-- ===== src/Smoke/Requests.antt =====
-- The requests that scripts/smoke.py sends, with the header of the session that its login has given it.
pub mod Served
mod Tests
use kavach_ai.Common.{ℕ, String, cat, pos, Option, none, some}
use kavach_ai.Py.{Value, str, int, Fields, end, field}
use kavach_ai.Api.Serve.{Incoming}
use kavach_ai.Smoke.{Kind, login, balance, initiate, confirm, transaction, kind_of}

abbrev pub probe : Incoming
probe = record { verb = "GET"; path = "/health"; authorization = none; json = none }

abbrev pub login_request : Incoming
login_request = record {
  verb = "POST";
  path = "/auth/login";
  authorization = none;
  json =
      some
        (field "username" (str "synthetic-user-1") (field "password" (str "synthetic-only") end));
}

abbrev pub payment_fields : (request_id : String) → Fields
payment_fields request_id =
    field "amount_minor" (int (pos 1200))
      (field "recipient" (str "synthetic-merchant-1") (field "request_id" (str request_id) end))

-- a request with the headers
abbrev pub with_token : (token verb path : String) → Option Fields → Incoming
with_token token verb path json = record {
  verb = verb;
  path = path;
  authorization = some (cat "Bearer " token);
  json = json;
}

abbrev pub initiate_request : (token request_id : String) → Incoming
initiate_request token request_id =
    with_token token "POST" "/payments/initiate" (some (payment_fields request_id))

-- the request of a round, by its kind
abbrev pub of_kind : (decimal : ℕ → String) → (token receipt : String) → ℕ → Kind → Incoming
of_kind decimal token receipt i login = login_request
of_kind decimal token receipt i balance = with_token token "GET" "/wallet/balance" none
of_kind decimal token receipt i initiate = initiate_request token (cat "smoke-" (decimal i))
of_kind decimal token receipt i confirm =
    with_token token "POST" "/payments/confirm" (some (field "transaction_id" (str receipt) end))
of_kind decimal token receipt i transaction =
    with_token token "GET" (cat "/transactions/" receipt) none

unfoldable pub request_for : (decimal : ℕ → String) → (token receipt : String) → ℕ → Incoming
request_for decimal token receipt i = of_kind decimal token receipt i (kind_of i)
