-- ===== src/Api/Requests/Receipts.antt =====
-- What the handlers that read a receipt show and demand.
use kavach_ai.Common.{
  ◌≤◌, String, cat, chars, starts_with, ltb, pos, finite, true, false, not, not-false, ◌≡◌, refl,
  ◌∙◌, Option, none, some, eq_refl, arith,
}
use kavach_ai.Py.{
  Value, bool, int, str, dict, Fields, end, field, lookup, lookup-put, eq_value, subscript,
  subscript_sound, merge, put,
}
use kavach_ai.Api.Reply.{
  returned, http_error, escaping, >>=-eq-returned, deny_if-eq-returned, escaping_sound,
}
use kavach_ai.Api.Runtime.{Runtime, IsRuntime}
use kavach_ai.Api.Settings.{Settings}
use kavach_ai.Api.Token.{verify, identity}
use kavach_ai.Api.Token.Laws.{stamped}
use kavach_ai.Api.Token.Genuine.{IsGenuine, verify-IsGenuine}
use kavach_ai.Api.Requests.{
  failure_draw, work, balance, initiate, own_receipt, confirm, transaction,
}
use kavach_ai.Api.Bodies.{Payment, Confirmation, payment_valid, confirmation_valid, dump_payment}
use kavach_ai.Api.Requests.Flow.{
  receipt_payload, receipt_of, initiated, own_receipt-receipt, initiate-receipt,
}

lookup-amount-receipt :
    (user : String) (body : Payment)
    → let d = stamped (receipt_payload user body) "transaction" in
      (lookup "amount_minor" d ≡ some (int body.amount_minor))
      × (lookup "recipient" d ≡ some (str body.recipient))
      × (lookup "request_id" d ≡ some (str body.request_id))
unfolding lookup merge put dump_payment
lookup-amount-receipt user body = (refl, refl, refl)

-- the fields that `transaction` adds to the receipt
abbrev shown : String → Fields
shown id = field "transaction_id" (str id) (
    field "status" (str "synthetic_receipt")
      (field "synthetic" (bool true) (field "state_persisted" (bool false) end)))

lookup-merge-shown :
    (id : String) (d : Fields)
    → let out = merge d (shown id) in
      (lookup "amount_minor" out ≡ lookup "amount_minor" d)
      × (lookup "recipient" out ≡ lookup "recipient" d)
      × (lookup "request_id" out ≡ lookup "request_id" d)
      × (lookup "status" out ≡ some (str "synthetic_receipt"))
unfolding merge
lookup-merge-shown id d = (simp lookup-put, simp lookup-put, simp lookup-put, simp lookup-put)

module _ (rt : Runtime) (laws : IsRuntime rt) (settings : Settings) where
  -- A user who shows the receipt of a payment, if it is at most 2048 characters long and the work
  -- injects no error, gets back the amount, the recipient and the request id of the payment.
  pub initiate-transaction :
      (body : Payment) (header : Option String) (user id : String)
      → identity rt settings.signing_key header ≡ returned (str user)
      → initiate rt settings body header ≡ returned (initiated id)
      → chars id ≤ 2048
      → work rt settings (cat "transaction:" id) ≡ returned tt
      → (out : Fields) × (transaction rt settings id header ≡ returned (dict out))
        × (lookup "amount_minor" out ≡ some (int body.amount_minor))
        × (lookup "recipient" out ≡ some (str body.recipient))
        × (lookup "request_id" out ≡ some (str body.request_id))
        × (lookup "status" out ≡ some (str "synthetic_receipt"))
  unfolding transaction
  initiate-transaction body header user id session h fits worked =
      let (d, same, owned) = own_receipt-receipt rt laws settings user user body in
      let is_receipt : id ≡ receipt_of rt settings user body =
        ground
          (arith, initiate-receipt rt laws settings body header user (initiated id) session h) in
      let here : own_receipt rt settings id (str user) ≡ returned (dict d) =
        rw (is_receipt, owned, eq_refl user) refl in
      let long : ltb 2048 (chars id) ≡ false = ground arith in
      let (a1, a2, a3) = lookup-amount-receipt user body in
      let (b1, b2, b3, b4) = lookup-merge-shown id d in
      (
        merge d (shown id),
        rw (session, long, here, worked) refl,
        b1 ∙ same "amount_minor" ∙ a1,
        b2 ∙ same "recipient" ∙ a2,
        b3 ∙ same "request_id" ∙ a3,
        b4,
      )

-- The text is a receipt that the service has signed, and names the user as its owner.
pub record IsOwnReceipt (rt : Runtime) (settings : Settings) (id : String) (user v : Value)
    : Type 0 where
  pub fields : Fields
  pub is_dict : v ≡ dict fields
  pub genuine : IsGenuine rt settings.signing_key id "transaction" fields
  pub owner : Value
  pub owned : lookup "user" fields ≡ some owner
  pub same_user : eq_value owner user ≡ true

-- the header is missing, or is no bearer token
abbrev pub LacksBearer : Option String → Type 0
LacksBearer none = Unit
LacksBearer (some header) = starts_with "Bearer " header ≡ false

module _ (rt : Runtime) (settings : Settings) where
  own_receipt_sound :
      (id : String) (user v : Value)
      → own_receipt rt settings id user ≡ returned v
      → IsOwnReceipt rt settings id user v
  unfolding own_receipt
  own_receipt_sound id user v h =
      let (receipt, verified, h1) =
        >>=-eq-returned (verify rt settings.signing_key id "transaction") _ h in
      let (owner, found, h2) = >>=-eq-returned (escaping (subscript receipt "user")) _ h1 in
      let (same, h3) = deny_if-eq-returned (not (eq_value owner user)) _ _ _ h2 in
      let (d, is_dict, genuine) =
        verify-IsGenuine rt settings.signing_key id "transaction" receipt verified in
      let (d', is_dict', owned) = subscript_sound receipt "user" (escaping_sound _ found) in
      let one_dict : d' ≡ d = cc (is_dict, is_dict') in
      record {
        fields = d;
        is_dict = cc (h3, is_dict);
        genuine = genuine;
        owner = owner;
        owned = rw one_dict at owned;
        same_user = not-false _ same;
      }

  -- A confirmation is answered with success only for a receipt that the service's key has signed,
  -- and only under the session of the user that the receipt names.
  pub confirm-IsOwnReceipt :
      (body : Confirmation) (header : Option String) (v : Value)
      → confirm rt settings body header ≡ returned v
      → (user receipt : Value) × (identity rt settings.signing_key header ≡ returned user)
        × IsOwnReceipt rt settings body.transaction_id user receipt
  unfolding confirm
  confirm-IsOwnReceipt body header v h =
      let (_, h1) = deny_if-eq-returned (not (confirmation_valid body)) _ _ _ h in
      let (user, session, h2) = >>=-eq-returned (identity rt settings.signing_key header) _ h1 in
      let (receipt, owned, _) =
        >>=-eq-returned (own_receipt rt settings body.transaction_id user) _ h2 in
      (user, receipt, session, own_receipt_sound body.transaction_id user receipt owned)

  identity_denied :
      (header : Option String)
      → LacksBearer header
      → identity rt settings.signing_key header ≡ http_error 401 "Synthetic bearer token required"
  unfolding identity
  identity_denied none h = refl
  identity_denied (some text) h = rw h (ground arith)

  -- A request whose header is missing or does not start with "Bearer " is answered 401 by balance and
  -- transaction, and by initiate and confirm if the body is valid.
  pub no_session :
      (header : Option String) (id : String) (payment : Payment) (confirmation : Confirmation)
      → LacksBearer header
      → payment_valid payment ≡ true
      → confirmation_valid confirmation ≡ true
      → let denied = http_error 401 "Synthetic bearer token required" in
        (balance rt settings header ≡ denied)
        × (transaction rt settings id header ≡ denied)
        × (initiate rt settings payment header ≡ denied)
        × (confirm rt settings confirmation header ≡ denied)
  unfolding balance transaction initiate confirm
  no_session header id payment confirmation lacks p c =
      let h = identity_denied header lacks in (rw h refl, rw h refl, rw (p, h) refl, rw (c, h) refl)

-- With an error injection rate of 0 the work of a request never fails.
pub work_without_injection :
    (rt : Runtime) (laws : IsRuntime rt) (settings : Settings) (key : String)
    → settings.error_injection_rate ≡ finite (pos 0)
    → work rt settings key ≡ returned tt
unfolding work failure_draw
work_without_injection rt laws settings key h = rw (h, laws.divide_nonneg) refl
