-- ===== src/Api/Requests/Flow.antt =====
-- How the handlers work together: the tokens of login and the receipts of initiate.
use text.Mathlib.Text.{◌==◌}
use kavach_ai.Common.{
  String, cat, starts_with, starts_with-cat, drop_chars-cat, true, false, not, ◌≡◌, refl, ◌∙◌,
  Option, some, eq_iff, arith, if◌then◌else◌, Bool-cases, inl, inr,
}
use kavach_ai.Py.{
  Value, bool, str, dict, Fields, end, field, lookup, eq_value, subscript, subscript_found, merge,
  put,
}
use kavach_ai.Api.Reply.{returned, http_error, escaping, ◌>>=◌, ◌>>◌}
use kavach_ai.Api.Runtime.{Runtime, IsRuntime, SameDict}
use kavach_ai.Api.Settings.{Settings}
use kavach_ai.Api.Token.{sign, verify, identity}
use kavach_ai.Api.Token.Laws.{IsPayload, stamped, verify-sign}
use kavach_ai.Api.Requests.{work, login, initiate, own_receipt, confirm, invalid_body}
use kavach_ai.Api.Bodies.{Login, Payment, confirmation_valid, dump_payment}

-- the payloads of the two kinds of token
abbrev pub session_payload : String → Fields
session_payload user = field "user" (str user) end

abbrev pub receipt_payload : String → Payment → Fields
receipt_payload user body = merge (session_payload user) (dump_payment body)

session-IsPayload : (user : String) → IsPayload (session_payload user)
unfolding lookup
session-IsPayload user = record { unique = (refl, tt); scalars = (tt, tt); kindless = refl }

receipt-IsPayload : (user : String) (body : Payment) → IsPayload (receipt_payload user body)
unfolding lookup merge put dump_payment
receipt-IsPayload user body = record {
  unique = (refl, (refl, (refl, (refl, tt))));
  scalars = (tt, (tt, (tt, (tt, tt))));
  kindless = refl;
}

lookup-user-session :
    (user : String) → lookup "user" (stamped (session_payload user) "session") ≡ some (str user)
unfolding lookup merge put
lookup-user-session user = refl

lookup-user-receipt :
    (user : String) (body : Payment)
    → lookup "user" (stamped (receipt_payload user body) "transaction") ≡ some (str user)
unfolding lookup merge put dump_payment
lookup-user-receipt user body = refl

bearer-ne-empty : (token : String) → (cat "Bearer " token == "") ≡ false
unfolding starts_with
bearer-ne-empty token = elim (Bool-cases (cat "Bearer " token == "")) [
  | inl same ↦
      absurd
        (cc (rw ((eq_iff (cat "Bearer " token) "").0 same) at (starts_with-cat "Bearer " token)))
  | inr other ↦ other
]

-- the receipt that `initiate` signs for a user's payment
abbrev pub receipt_of : Runtime → Settings → String → Payment → String
receipt_of rt settings user body =
    sign rt settings.signing_key (receipt_payload user body) "transaction"

-- the answers that carry a receipt
abbrev pub initiated : String → Value
initiated id = dict (
    field "transaction_id" (str id)
      (field "status" (str "initiated") (field "synthetic" (bool true) end)))

abbrev pub confirmed : String → Value
confirmed id = dict (
    field "transaction_id" (str id) (
      field "status" (str "confirmed")
        (field "synthetic" (bool true) (field "state_persisted" (bool false) end))))

module _ (rt : Runtime) (laws : IsRuntime rt) (settings : Settings) where
  -- the session of a header with a token
  identity_bearer :
      (token : String)
      → identity rt settings.signing_key (some (cat "Bearer " token))
        ≡ (verify rt settings.signing_key token "session" >>= λ p. escaping (subscript p "user"))
  unfolding identity
  identity_bearer token =
      rw (bearer-ne-empty token, starts_with-cat "Bearer " token, drop_chars-cat "Bearer " token)
        refl

  -- The header made of a session token of a user gives that user.
  pub identity-session :
      (user : String)
      → identity rt settings.signing_key
          (some (cat "Bearer " (sign rt settings.signing_key (session_payload user) "session")))
        ≡ returned (str user)
  identity-session user =
      let key = settings.signing_key in
      let (d, verified, same) =
        verify-sign rt laws key (session_payload user) "session" (session-IsPayload user) in
      let owner : lookup "user" d ≡ some (str user) = same "user" ∙ lookup-user-session user in
      rw (identity_bearer _, verified, subscript_found d "user" owner) refl

  -- The receipt that initiate signs for a user, and what it holds.
  pub own_receipt-receipt :
      (user user' : String) (body : Payment)
      → (d : Fields) × SameDict d (stamped (receipt_payload user body) "transaction")
        × (own_receipt rt settings
              (sign rt settings.signing_key (receipt_payload user body) "transaction")
              (str user')
            ≡ (if user == user'
                then returned (dict d)
                else http_error 403 "Receipt belongs to another synthetic user"))
  unfolding own_receipt eq_value
  own_receipt-receipt user user' body =
      let key = settings.signing_key in
      let (d, verified, same) =
        verify-sign rt laws key (receipt_payload user body) "transaction"
          (receipt-IsPayload user body) in
      let owner : lookup "user" d ≡ some (str user) = same "user" ∙ lookup-user-receipt user body in
      (d, same, rw (verified, subscript_found d "user" owner) (ground arith))

  -- A successful login hands out a token of type bearer, and a request with that token is the
  -- session of the name that logged in.
  pub login-session :
      (body : Login) (v : Value)
      → login rt settings body ≡ returned v
      → (token : String) × (v
          ≡ dict (
              field "access_token"
                (str token)
                (field "token_type" (str "bearer") (field "synthetic" (bool true) end))))
        × (identity rt settings.signing_key (some (cat "Bearer " token))
            ≡ returned (str body.username))
  unfolding login
  login-session body v h = (
    sign rt settings.signing_key (session_payload body.username) "session",
    ground arith,
    identity-session body.username,
  )

  pub initiate-receipt :
      (body : Payment) (header : Option String) (user : String) (v : Value)
      → identity rt settings.signing_key header ≡ returned (str user)
      → initiate rt settings body header ≡ returned v
      → v ≡ initiated (receipt_of rt settings user body)
  unfolding initiate
  initiate-receipt body header user v session h = ground arith

  -- What initiate returns carries a receipt. A confirmation of that receipt is answered, under the
  -- session of any user: 422 if its length is out of bounds, 403 if the user is not the one that
  -- initiated the payment, the injected error if the work raises it, and else a confirmed status.
  pub initiate-confirm :
      (body : Payment) (header header' : Option String) (user user' : String) (v : Value)
      → identity rt settings.signing_key header ≡ returned (str user)
      → identity rt settings.signing_key header' ≡ returned (str user')
      → initiate rt settings body header ≡ returned v
      → (id : String) × (v ≡ initiated id)
        × (confirm rt settings (record { transaction_id = id }) header' ≡ (
            if not (confirmation_valid (record { transaction_id = id }))
            then http_error 422 invalid_body
            else if user == user'
            then (work rt settings (cat "confirm:" id) >> returned (confirmed id))
            else http_error 403 "Receipt belongs to another synthetic user"))
  unfolding confirm
  initiate-confirm body header header' user user' v session session' h =
      let id = receipt_of rt settings user body in
      let (d, same, owned) = own_receipt-receipt user user' body in
      (id, initiate-receipt body header user v session h, rw (session', owned) (ground arith))
