-- ===== src/Api/Requests.antt =====
-- The handlers of main.py, with the validation of their bodies (the pydantic models) and the
-- deterministic work that each of them does.
pub mod Flow
pub mod Receipts
use kavach_ai.Common.{
  ℕ, zero, suc, ◌+◌, ◌*◌, ◌^◌, String, cat, chars, ℤ, pos, negsuc, Float, lt_float, ltb, Bool, true,
  false, not, Option, none, some, List, [], ◌∷◌, if◌then◌else◌,
}
use text.Mathlib.Text.{◌==◌}
use kavach_ai.Py.{Value, bool, int, str, dict, Fields, end, field, eq_value, subscript, merge}
use kavach_ai.Api.Reply.{Reply, returned, http_error, deny_if, escaping, ◌>>=◌, ◌>>◌}
use kavach_ai.Api.Runtime.{Runtime}
use kavach_ai.Api.Settings.{Settings}
use kavach_ai.Api.Token.{sign, verify, identity}
use kavach_ai.Api.Bodies.{
  Login, Payment, Confirmation, login_valid, payment_valid, confirmation_valid, dump_payment,
}

-- `int.from_bytes(bytes, "big")`, from the number read so far
unfoldable pub from_bytes : ℕ → List ℕ → ℕ
from_bytes acc [] = acc
from_bytes acc (b ∷ bs) = from_bytes (acc * 256 + b) bs

-- `digest[:n]`
unfoldable pub first_bytes : ℕ → List ℕ → List ℕ
first_bytes zero bs = []
first_bytes (suc n) [] = []
first_bytes (suc n) (b ∷ bs) = b ∷ first_bytes n bs

-- `f"{v}"`: a text stands for itself
unfoldable pub show : Runtime → Value → String
show rt (str s) = s
show rt v = rt.format v

-- a body that FastAPI refuses before the handler runs
abbrev pub invalid_body : String
invalid_body = "body does not match its model"

module _ (rt : Runtime) (settings : Settings) where
  -- the draw of `work`, in [0, 1]
  unfoldable pub failure_draw : String → Float
  unfolding from_bytes first_bytes show
  failure_draw key =
      let seeded = cat (show rt (int settings.seed)) (cat ":" key) in
      rt.divide (from_bytes 0 (first_bytes 8 (rt.sha256 seeded))) (2 ^ 64)

  -- `work`: the fixed number of hash rounds and the sleep take time and change nothing else, so the
  -- call is its injected error
  unfoldable pub work : String → Reply (Unit {0})
  work key =
      deny_if (lt_float (failure_draw key) settings.error_injection_rate) 503
        "Deterministic synthetic injected error"

  unfoldable pub login : Login → Reply Value
  login body = do
    deny_if (not (login_valid body)) 422 invalid_body
    deny_if (not (body.password == "synthetic-only")) 401
        "Use the documented synthetic fixture password"
    work (cat "login:" body.username)
    returned (
        dict (
          field "access_token"
            (str (sign rt settings.signing_key (field "user" (str body.username) end) "session"))
            (field "token_type" (str "bearer") (field "synthetic" (bool true) end))))

  unfoldable pub balance : Option String → Reply Value
  balance authorization = do
    user ← identity rt settings.signing_key authorization
    work (cat "balance:" (show rt user))
    returned (
        dict (
          field "user" user (
            field "balance_minor" (int (pos 1_000_000))
              (field "currency" (str "TEST") (field "synthetic" (bool true) end)))))

  unfoldable pub initiate : Payment → Option String → Reply Value
  unfolding dump_payment
  initiate body authorization = do
    deny_if (not (payment_valid body)) 422 invalid_body
    user ← identity rt settings.signing_key authorization
    work (cat "initiate:" (cat (show rt user) (cat ":" body.request_id)))
    returned (
        dict (
          field "transaction_id"
            (str (
              sign rt settings.signing_key (merge (field "user" user end) (dump_payment body))
                "transaction"))
            (field "status" (str "initiated") (field "synthetic" (bool true) end))))

  -- the receipt of a user, or the 401 or 403 that both handlers below answer
  unfoldable pub own_receipt : String → Value → Reply Value
  own_receipt id user = do
    receipt ← verify rt settings.signing_key id "transaction"
    owner ← escaping (subscript receipt "user")
    deny_if (not (eq_value owner user)) 403 "Receipt belongs to another synthetic user"
    returned receipt

  unfoldable pub confirm : Confirmation → Option String → Reply Value
  unfolding own_receipt
  confirm body authorization = do
    deny_if (not (confirmation_valid body)) 422 invalid_body
    user ← identity rt settings.signing_key authorization
    own_receipt body.transaction_id user
    work (cat "confirm:" body.transaction_id)
    returned (
        dict (
          field "transaction_id" (str body.transaction_id) (
            field "status" (str "confirmed")
              (field "synthetic" (bool true) (field "state_persisted" (bool false) end)))))

  -- what `{**receipt, ...}` takes from the receipt
  abbrev pub fields_of : Value → Fields
  fields_of (dict d) = d
  fields_of _ = end

  unfoldable pub transaction : String → Option String → Reply Value
  unfolding own_receipt
  transaction id authorization = do
    user ← identity rt settings.signing_key authorization
    deny_if (ltb 2048 (chars id)) 422 "Receipt too long"
    receipt ← own_receipt id user
    work (cat "transaction:" id)
    returned (
        dict (
          merge (fields_of receipt) (
            field "transaction_id" (str id) (
              field "status" (str "synthetic_receipt")
                (field "synthetic" (bool true) (field "state_persisted" (bool false) end))))))

unfoldable pub health : Reply Value
health = returned (
    dict (
      field "status" (str "ok")
        (field "service" (str "kavach-synthetic-payment") (field "synthetic" (bool true) end))))
