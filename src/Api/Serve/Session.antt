-- ===== src/Api/Serve/Session.antt =====
-- The requests of a client that has a session, against the service of main.py, one route at a time.
use mathlib.Core.Bool.{false≢true}
use text.Mathlib.Text.{◌==◌}
use kavach_ai.Common.{
  String, cat, chars, starts_with, starts_with-cat, drop_chars-cat, split, split-Lacks, true, false,
  ltb, ◌≡◌, refl, sym, ap, ◌∙◌, [], ◌∷◌, ◌⊎◌, inl, inr, Option, none, some, pos, finite, eq_iff,
  eq_refl, arith, Bool-cases,
}
use kavach_ai.Py.{Value, str, dict, Fields, end, field, lookup}
use kavach_ai.Api.Reply.{Reply, returned}
use kavach_ai.Api.Runtime.{Runtime, IsRuntime}
use kavach_ai.Api.Settings.{Settings}
use kavach_ai.Api.Token.{identity}
use kavach_ai.Api.Token.Laws.{sign-Lacks_slash}
use kavach_ai.Api.Bodies.{Payment, payment_valid, confirmation_valid, dump_payment}
use kavach_ai.Api.Requests.{work, balance, initiate, confirm, transaction, own_receipt}
use kavach_ai.Api.Requests.Flow.{receipt_of, initiated, own_receipt-receipt}
use kavach_ai.Api.Requests.Receipts.{work_without_injection}
use kavach_ai.Api.Serve.{Incoming, transaction_id, serve}

within_length :
    (id : String)
    → confirmation_valid (record { transaction_id = id }) ≡ true
    → ((id == "") ≡ false) × (ltb 2048 (chars id) ≡ false)
unfolding confirmation_valid
within_length id h = (nonempty (Bool-cases (id == "")), ground arith)
  where
    nonempty : ((id == "") ≡ true) ⊎ ((id == "") ≡ false) → (id == "") ≡ false
    nonempty (inl empty) = absurd (false≢true (rw ((eq_iff id "").0 empty) at h))
    nonempty (inr other) = other

-- a path below /transactions/ is none of the other paths
transactions-ne :
    (id other : String)
    → starts_with "/transactions/" other ≡ false
    → (cat "/transactions/" id == other) ≡ false
transactions-ne id other h = elim (Bool-cases (cat "/transactions/" id == other)) [
  | inl same ↦ absurd (
      false≢true (
        sym h
        ∙ (rw ((eq_iff (cat "/transactions/" id) other).0 same) at
            (starts_with-cat "/transactions/" id))))
  | inr differs ↦ differs
]

transaction_id_lem :
    (id : String)
    → (id == "") ≡ false
    → split b'/' id ≡ id ∷ []
    → transaction_id (cat "/transactions/" id) ≡ some id
unfolding transaction_id
transaction_id_lem id nonempty one_part =
    rw (starts_with-cat "/transactions/" id, drop_chars-cat "/transactions/" id, nonempty, one_part)
      (ap some (drop_chars-cat "/transactions/" id))

-- the call returns a value, which the service answers with status 200
abbrev pub Succeeds : Reply Value → Type 0
Succeeds (returned v) = Unit
Succeeds _ = ⊥

-- a client whose header is the session of a user, and a payment of this user
module _ (rt : Runtime) (laws : IsRuntime rt) (settings : Settings)
    (no_errors : settings.error_injection_rate ≡ finite (pos 0)) (user : String)
    (header : Option String)
    (session : identity rt settings.signing_key header ≡ returned (str user)) (body : Payment) where
  abbrev pub at_endpoint : String → String → Option Fields → Incoming
  at_endpoint verb path json = record {
    verb = verb;
    path = path;
    authorization = header;
    json = json;
  }

  working : (key : String) → work rt settings key ≡ returned tt
  working key = work_without_injection rt laws settings key no_errors

  pub balance_served : Succeeds (serve rt settings (at_endpoint "GET" "/wallet/balance" none))
  unfolding serve balance
  balance_served = rw (session, working _) tt

  pub initiate_served :
      payment_valid body ≡ true
      → serve rt settings (at_endpoint "POST" "/payments/initiate" (some (dump_payment body)))
        ≡ returned (initiated (receipt_of rt settings user body))
  unfolding serve initiate lookup dump_payment
  initiate_served valid = rw (valid, session, working _) refl

  own :
      (id : String)
      → id ≡ receipt_of rt settings user body
      → (d : Fields) × (own_receipt rt settings id (str user) ≡ returned (dict d))
  own id e =
      let (d, _, owned) = own_receipt-receipt rt laws settings user user body in
      (d, rw e (rw (eq_refl user) at owned))

  pub confirm_served :
      (id : String)
      → id ≡ receipt_of rt settings user body
      → confirmation_valid (record { transaction_id = id }) ≡ true
      → Succeeds (
          serve rt settings
            (at_endpoint "POST" "/payments/confirm" (some (field "transaction_id" (str id) end))))
  unfolding serve confirm lookup
  confirm_served id e valid = rw (valid, session, (own id e).1, working _) tt

  pub transaction_served :
      (id : String)
      → id ≡ receipt_of rt settings user body
      → confirmation_valid (record { transaction_id = id }) ≡ true
      → Succeeds (serve rt settings (at_endpoint "GET" (cat "/transactions/" id) none))
  unfolding serve transaction
  transaction_served id e valid =
      let slashless : split b'/' id ≡ id ∷ [] =
        split-Lacks b'/' id (rw e (sign-Lacks_slash rt laws _ _ _)) in
      let long_enough = within_length id valid in
      rw
        (
          transactions-ne id "/health" (unfold starts_with in refl),
          transactions-ne id "/wallet/balance" (unfold starts_with in refl),
          transaction_id_lem id long_enough.0 slashless,
          session,
          long_enough.1,
          (own id e).1,
          working _,
        )
        tt
