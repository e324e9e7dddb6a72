-- ===== src/Workload/Issue.antt =====
-- `signed` and `TraceReplay.issue` of workload/locustfile.py: the request that a row of the trace
-- becomes. The service's own `sign` is another function with the same text; `signed` here has the
-- key written into it.
pub mod Words
pub mod Accepted
pub mod Served
use text.Mathlib.Text.{◌==◌}
use Prim.Native.String
use kavach_ai.Common.{ℕ, String, cat, pos, Option, none, some, if◌then◌else◌}
use kavach_ai.Py.{Value, str, int, Fields, end, field, merge}
use kavach_ai.Api.Runtime.{Runtime}
use kavach_ai.Api.Settings.{default_signing_key}
use kavach_ai.Api.Token.{rstrip_equals}
use kavach_ai.Api.Serve.{Incoming}
use kavach_ai.Workload.Trace.{Row}

module _ (rt : Runtime) where
  unfoldable pub signed : Fields → String → String
  unfolding rstrip_equals
  signed payload kind =
      let raw = rt.dumps (merge (field "kind" (str kind) end) payload) in
      let encoded = rstrip_equals (rt.b64encode raw) in
      cat encoded (String.◌∷◌ "." (rt.hmac_hex default_signing_key encoded))

  -- the user, the payload and the receipt that a row stands for
  abbrev pub user_of : Row → String
  user_of row = cat "synthetic-user-" (rt.decimal row.user)

  unfoldable pub payload_of : Row → Fields
  payload_of row = field "amount_minor" (int (pos row.amount_minor)) (
      field "recipient" (str "synthetic-merchant-1")
        (field "request_id" (str (cat "trace-" (rt.decimal row.sequence))) end))

  unfoldable pub receipt_for : Row → String
  receipt_for row =
      signed (merge (field "user" (str (user_of row)) end) (payload_of row)) "transaction"

  -- the method, the path and the body for the row's endpoint, with the bearer header
  unfoldable pub issue : Row → Incoming
  issue row =
      let header = some (cat "Bearer " (signed (field "user" (str (user_of row)) end) "session")) in
      if row.endpoint == "login"
      then record {
        verb = "POST";
        path = "/auth/login";
        authorization = header;
        json =
            some
              (field "username" (str (user_of row)) (field "password" (str "synthetic-only") end));
      }
      else if row.endpoint == "balance"
      then record { verb = "GET"; path = "/wallet/balance"; authorization = header; json = none }
      else if row.endpoint == "initiate"
      then record {
        verb = "POST";
        path = "/payments/initiate";
        authorization = header;
        json = some (payload_of row);
      }
      else if row.endpoint == "confirm"
      then record {
        verb = "POST";
        path = "/payments/confirm";
        authorization = header;
        json = some (field "transaction_id" (str (receipt_for row)) end);
      }
      else record {
        verb = "GET";
        path = cat "/transactions/" (receipt_for row);
        authorization = header;
        json = none;
      }
