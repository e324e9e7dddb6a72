-- ===== src/Api/Tests.antt =====
-- The theorems on the service, applied to concrete requests.
use mathlib.Core.Bool.{false≢true}
use kavach_ai.Common.{
  ℕ, ◌+◌, ◌-◌, String, cat, pos, finite, Bool, true, false, ◌≡◌, ◌≢◌, refl, ◌≤◌, arith, List, [],
  ◌∷◌, Option, none, some, chars, not, starts_with, eq_iff, if◌then◌else◌, length,
}
use text.Mathlib.Text.{◌==◌}
use kavach_ai.Py.{
  ok, Value, str, int, bool, dict, Fields, end, field, lookup, Error, other_error, raised,
  first_some,
}
use kavach_ai.Example.Runtime.{small_runtime, small_runtime-IsRuntime}
use kavach_ai.Api.Settings.{Settings, default_signing_key, Environment, from_env}
use kavach_ai.Api.Settings.Bounds.{IsBounded, from_env-IsBounded}
use kavach_ai.Api.Reply.{returned, http_error, crashed, ◌>>◌}
use kavach_ai.Api.Runtime.{Runtime, SameDict}
use kavach_ai.Api.Token.{sign, verify, identity}
use kavach_ai.Api.Token.Laws.{IsPayload, stamped, verify-sign, verify-sign_other}
use kavach_ai.Api.Token.Genuine.{IsGenuine, verify-IsGenuine, IsUnreadable, verify-IsUnreadable}
use kavach_ai.Api.Bodies.{Login, Payment, Confirmation, confirmation_valid, payment_valid}
use kavach_ai.Api.Requests.{work, login, balance, initiate, confirm, transaction, invalid_body}
use kavach_ai.Api.Requests.Flow.{
  initiate-confirm, initiated, confirmed, identity-session, session_payload, receipt_of,
  own_receipt-receipt,
}
use kavach_ai.Api.Requests.Receipts.{
  IsOwnReceipt, initiate-transaction, confirm-IsOwnReceipt, work_without_injection,
}
use kavach_ai.Api.Metrics.{Request, responded, begin, finish, is_exempt}
use kavach_ai.Api.Metrics.Books.{Represents, Reach-Represents}
use kavach_ai.Api.Metrics.Overlap.{System, start, Reach, initially, next, arrive, leave}

abbrev settings : Settings
settings = record {
  cpu_work_factor = pos 2000;
  io_delay_ms = finite (pos 0);
  error_injection_rate = finite (pos 0);
  seed = pos 240005;
  signing_key = default_signing_key;
}

abbrev user_1 : Fields
user_1 = field "user" (str "synthetic-user-1") end

user_1-IsPayload : IsPayload user_1
unfolding lookup
user_1-IsPayload = record { unique = (refl, tt); scalars = (tt, tt); kindless = refl }

verify-sign_example :
    (d : Fields) × (verify small_runtime default_signing_key
        (sign small_runtime default_signing_key user_1 "session")
        "session"
      ≡ returned (dict d))
    × SameDict d (stamped user_1 "session")
verify-sign_example =
    verify-sign small_runtime small_runtime-IsRuntime default_signing_key user_1 "session"
      user_1-IsPayload

session-ne-transaction : ◌≢◌ {A = String} "session" "transaction"
session-ne-transaction e = false≢true ((eq_iff "session" "transaction").1 e)

verify-sign_other_example :
    verify small_runtime default_signing_key
      (sign small_runtime default_signing_key user_1 "session")
      "transaction"
    ≡ http_error 401 "Invalid synthetic fixture token"
verify-sign_other_example =
    verify-sign_other small_runtime small_runtime-IsRuntime default_signing_key user_1 "session"
      "transaction" user_1-IsPayload session-ne-transaction

-- a token of a session, and what it verifies to
abbrev token : String
token = sign small_runtime default_signing_key user_1 "session"

token_verified :
    verify small_runtime default_signing_key token "session"
    ≡ returned (dict (stamped user_1 "session"))
unfolding verify sign kavach_ai.Api.Token.verify_token kavach_ai.Common.split
    kavach_ai.Example.Codec.escape kavach_ai.Example.Codec.dump_fields kavach_ai.Py.merge
    kavach_ai.Py.put kavach_ai.Example.Codec.put_text kavach_ai.Api.Runtime.equal_signs
    kavach_ai.Py.subscript lookup kavach_ai.Example.Codec.read_fields kavach_ai.Example.Codec.texts
    kavach_ai.Example.Codec.unescape
token_verified = refl

verify-IsGenuine_example :
    (d : Fields) × (dict (stamped user_1 "session") ≡ dict d)
    × IsGenuine small_runtime default_signing_key token "session" d
verify-IsGenuine_example =
    verify-IsGenuine small_runtime default_signing_key token "session"
      (dict (stamped user_1 "session")) token_verified

-- json.loads raises, as it does for a text that is nested too deeply
abbrev nested : Error
nested = other_error "RecursionError" "maximum recursion depth exceeded"

abbrev nested_runtime : Runtime
nested_runtime = record small_runtime { loads = λ s. raised nested }

nested-crashes : verify nested_runtime default_signing_key "x.0f" "session" ≡ crashed nested
unfolding verify kavach_ai.Api.Token.verify_token kavach_ai.Common.split
nested-crashes = refl

verify-IsUnreadable_example : IsUnreadable nested_runtime default_signing_key "x.0f" nested
verify-IsUnreadable_example =
    verify-IsUnreadable nested_runtime default_signing_key "x.0f" "session" nested nested-crashes

abbrev login_1 : Login
login_1 = record { username = "synthetic-user-1"; password = "synthetic-only" }

abbrev login_answer : Value
login_answer = dict (
    field "access_token" (str token)
      (field "token_type" (str "bearer") (field "synthetic" (bool true) end)))

login_answered : login small_runtime settings login_1 ≡ returned login_answer
unfolding login kavach_ai.Api.Bodies.login_valid starts_with kavach_ai.Common.drop_chars work
    kavach_ai.Api.Requests.failure_draw
login_answered = refl

abbrev payment : Payment
payment = record {
  amount_minor = pos 5;
  recipient = "synthetic-merchant-1";
  request_id = "trace-3";
}

-- the header of a session of the user with this number
abbrev header_of : String → Option String
header_of user =
    some (cat "Bearer " (sign small_runtime default_signing_key (session_payload user) "session"))

abbrev receipt : String
receipt = receipt_of small_runtime settings "synthetic-user-1" payment

session_1 :
    identity small_runtime default_signing_key (header_of "synthetic-user-1")
    ≡ returned (str "synthetic-user-1")
session_1 = identity-session small_runtime small_runtime-IsRuntime settings "synthetic-user-1"

session_2 :
    identity small_runtime default_signing_key (header_of "synthetic-user-2")
    ≡ returned (str "synthetic-user-2")
session_2 = identity-session small_runtime small_runtime-IsRuntime settings "synthetic-user-2"

payment-initiated :
    initiate small_runtime settings payment (header_of "synthetic-user-1")
    ≡ returned (initiated receipt)
unfolding initiate payment_valid starts_with kavach_ai.Common.drop_chars work
    kavach_ai.Api.Requests.failure_draw
payment-initiated = rw session_1 refl

initiate-confirm_example :
    (id : String) × (initiated receipt ≡ initiated id)
    × (confirm small_runtime settings
          (record { transaction_id = id })
          (header_of "synthetic-user-2")
        ≡ (if not (confirmation_valid (record { transaction_id = id }))
            then http_error 422 invalid_body
            else if "synthetic-user-1" == "synthetic-user-2"
            then (work small_runtime settings (cat "confirm:" id) >> returned (confirmed id))
            else http_error 403 "Receipt belongs to another synthetic user"))
initiate-confirm_example =
    initiate-confirm small_runtime small_runtime-IsRuntime settings payment
      (header_of "synthetic-user-1") (header_of "synthetic-user-2") "synthetic-user-1"
      "synthetic-user-2" (initiated receipt) session_1 session_2 payment-initiated

receipt_short : chars receipt ≤ 2048
unfolding sign kavach_ai.Example.Codec.escape kavach_ai.Example.Codec.dump_fields kavach_ai.Py.merge
    kavach_ai.Api.Bodies.dump_payment kavach_ai.Py.put kavach_ai.Example.Codec.put_text
    kavach_ai.Example.Codec.strokes kavach_ai.Example.Codec.numeral
    kavach_ai.Api.Runtime.equal_signs
receipt_short = omega arith

transaction_works : work small_runtime settings (cat "transaction:" receipt) ≡ returned tt
unfolding work kavach_ai.Api.Requests.failure_draw
transaction_works = refl

initiate-transaction_example :
    (out : Fields) × (transaction small_runtime settings receipt (header_of "synthetic-user-1")
      ≡ returned (dict out))
    × (lookup "amount_minor" out ≡ some (int (pos 5)))
    × (lookup "recipient" out ≡ some (str "synthetic-merchant-1"))
    × (lookup "request_id" out ≡ some (str "trace-3"))
    × (lookup "status" out ≡ some (str "synthetic_receipt"))
initiate-transaction_example =
    initiate-transaction small_runtime small_runtime-IsRuntime settings payment
      (header_of "synthetic-user-1") "synthetic-user-1" receipt session_1 payment-initiated
      receipt_short transaction_works

receipt-IsValid : confirmation_valid (record { transaction_id = receipt }) ≡ true
unfolding confirmation_valid sign kavach_ai.Example.Codec.escape kavach_ai.Example.Codec.dump_fields
    kavach_ai.Py.merge kavach_ai.Api.Bodies.dump_payment kavach_ai.Py.put
    kavach_ai.Example.Codec.put_text kavach_ai.Example.Codec.strokes kavach_ai.Example.Codec.numeral
    kavach_ai.Api.Runtime.equal_signs
receipt-IsValid = refl

confirmation_answered :
    confirm small_runtime settings
      (record { transaction_id = receipt })
      (header_of "synthetic-user-1")
    ≡ returned (confirmed receipt)
unfolding confirm
confirmation_answered =
    let (d, same, owned) =
      own_receipt-receipt small_runtime small_runtime-IsRuntime settings "synthetic-user-1"
        "synthetic-user-1" payment in
    rw
      (
        receipt-IsValid,
        session_1,
        owned,
        work_without_injection small_runtime small_runtime-IsRuntime settings
            (cat "confirm:" receipt) refl,
      )
      refl

confirm-IsOwnReceipt_example :
    (user r : Value) × (identity small_runtime default_signing_key (header_of "synthetic-user-1")
      ≡ returned user)
    × IsOwnReceipt small_runtime settings receipt user r
confirm-IsOwnReceipt_example =
    confirm-IsOwnReceipt small_runtime settings (record { transaction_id = receipt })
      (header_of "synthetic-user-1") (confirmed receipt) confirmation_answered

payment-IsValid : payment_valid payment ≡ true
unfolding payment_valid starts_with kavach_ai.Common.drop_chars
payment-IsValid = refl

basic_denied : starts_with "Bearer " "Basic 0" ≡ false
unfolding starts_with
basic_denied = refl

abbrev request : Request
request = record { verb = "GET"; path = "/wallet/balance"; route = some "/wallet/balance" }

request_counted : is_exempt request ≡ false
unfolding is_exempt
request_counted = refl

abbrev two_requests : System
two_requests = record {
  metrics = begin (begin start.metrics);
  active = request ∷ request ∷ [];
  completed = [];
}

Reach-two_requests : Reach two_requests
Reach-two_requests = next (next initially (arrive start request request_counted)) (
    arrive (record { metrics = begin start.metrics; active = request ∷ []; completed = [] }) request
      request_counted)

-- one of them has finished
abbrev one_left : System
one_left = record {
  metrics = finish request (responded 503) two_requests.metrics;
  active = request ∷ [];
  completed = (request, responded 503) ∷ [];
}

Reach-Represents_example : Represents one_left
Reach-Represents_example =
    Reach-Represents
      (next Reach-two_requests (leave two_requests [] (request ∷ []) request (responded 503) refl))

-- no variable is set
abbrev empty_environment : Environment
empty_environment = record {
  getenv = λ name. none;
  lower = λ s. s;
  parse_int = λ s. if s == "2000" then ok (pos 2000) else ok (pos 240005);
  parse_float = λ s. ok (finite (pos 0));
}

defaults-read : from_env empty_environment ≡ ok settings
unfolding from_env kavach_ai.Api.Settings.check_settings kavach_ai.Common.float_unit
defaults-read = refl

from_env-IsBounded_example : IsBounded settings
from_env-IsBounded_example = from_env-IsBounded empty_environment settings defaults-read
