-- ===== src/Api/Serve.antt =====
-- The routes that main.py declares, and how a request finds its handler: FastAPI reads the body into
-- its model and answers 422 where a field is missing or of another type; where no route matches it
-- answers 405 if the path has one for another method. What it answers to any other path is a parameter;
-- /metrics is in `App`.
pub mod Session
use text.Mathlib.Text.{◌==◌}
use kavach_ai.Common.{
  String, starts_with, drop_chars, split, Bool, true, false, not, ◌&&◌, ◌||◌, Option, none, some,
  [], ◌∷◌, if◌then◌else◌,
}
use kavach_ai.Py.{Value, str, int, Fields, lookup}
use kavach_ai.Api.Reply.{Reply, http_error}
use kavach_ai.Api.Runtime.{Runtime}
use kavach_ai.Api.Settings.{Settings}
use kavach_ai.Api.Bodies.{Login, Payment, Confirmation}
use kavach_ai.Api.Requests.{login, balance, initiate, confirm, transaction, health, invalid_body}

-- a request on the wire
pub record Incoming : Type 0 where
  pub verb : String
  pub path : String
  pub authorization : Option String
  pub json : Option Fields

unfoldable pub parse_login : Fields → Option Login
parse_login d = elim (lookup "username" d) [
  | some (str u) ↦ elim (lookup "password" d) [
    | some (str p) ↦ some (record { username = u; password = p })
    | _ ↦ none
  ]
  | _ ↦ none
]

unfoldable pub parse_payment : Fields → Option Payment
parse_payment d = elim (lookup "amount_minor" d) [
  | some (int a) ↦ elim (lookup "recipient" d) [
    | some (str r) ↦ elim (lookup "request_id" d) [
      | some (str i) ↦ some (record { amount_minor = a; recipient = r; request_id = i })
      | _ ↦ none
    ]
    | _ ↦ none
  ]
  | _ ↦ none
]

unfoldable pub parse_confirmation : Fields → Option Confirmation
parse_confirmation d = elim (lookup "transaction_id" d) [
  | some (str t) ↦ some (record { transaction_id = t })
  | _ ↦ none
]

-- the handler behind a body that has to be there and to be read
abbrev pub with_body {ℓ} :
    {A : Type ℓ} → (Fields → Option A) → Option Fields → (A → Reply Value) → Reply Value
with_body parse none handler = http_error 422 invalid_body
with_body parse (some d) handler = elim (parse d) [
  | none ↦ http_error 422 invalid_body
  | some body ↦ handler body
]

-- `/transactions/{id}`: the rest of the path, if it is not empty and has no further slash
unfoldable pub transaction_id : String → Option String
transaction_id path =
    let id = drop_chars 14 path in
    if starts_with "/transactions/" path && not (id == "")
    then elim (split b'/' id) [ only ∷ [] ↦ some id | _ ↦ none ]
    else none

-- some route has this path
unfoldable pub is_route : String → Bool
unfolding transaction_id
is_route path =
    path == "/health"
    || path == "/wallet/balance"
    || path == "/auth/login"
    || path == "/payments/initiate"
    || path == "/payments/confirm"
    || elim (transaction_id path) [ none ↦ false | some _ ↦ true ]

unfoldable pub unmatched : Runtime → (verb path : String) → Reply Value
unfolding is_route
unmatched rt verb path =
    if is_route path then http_error 405 "Method Not Allowed" else rt.elsewhere verb path

module _ (rt : Runtime) (settings : Settings) where
  unfoldable pub get_routes : Incoming → Reply Value
  unfolding transaction_id unmatched
  get_routes r =
      if r.path == "/health"
      then health
      else if r.path == "/wallet/balance"
      then balance rt settings r.authorization
      else elim (transaction_id r.path) [
        | none ↦ unmatched rt r.verb r.path
        | some id ↦ transaction rt settings id r.authorization
      ]

  unfoldable pub post_routes : Incoming → Reply Value
  unfolding parse_login parse_payment parse_confirmation unmatched
  post_routes r =
      if r.path == "/auth/login"
      then with_body parse_login r.json (λ body. login rt settings body)
      else if r.path == "/payments/initiate"
      then with_body parse_payment r.json (λ body. initiate rt settings body r.authorization)
      else if r.path == "/payments/confirm"
      then with_body parse_confirmation r.json (λ body. confirm rt settings body r.authorization)
      else unmatched rt r.verb r.path

  unfoldable pub serve : Incoming → Reply Value
  unfolding get_routes post_routes unmatched
  serve r =
      if r.verb == "GET"
      then get_routes r
      else if r.verb == "POST"
      then post_routes r
      else unmatched rt r.verb r.path
