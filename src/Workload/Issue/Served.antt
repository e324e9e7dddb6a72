-- ===== src/Workload/Issue/Served.antt =====
-- The request of a row of the trace against the service.
use kavach_ai.Common.{
  ℕ, ◌<◌, String, true, ◌≡◌, inl, inr, List, [], ◌∷◌, Listed, pos, finite, arith,
}
use kavach_ai.Api.Runtime.{Runtime, IsRuntime}
use kavach_ai.Api.Settings.{Settings, default_signing_key}
use kavach_ai.Api.Bodies.{confirmation_valid}
use kavach_ai.Api.Serve.{serve}
use kavach_ai.Api.Serve.Session.{Succeeds}
use kavach_ai.Workload.Config.{endpoints}
use kavach_ai.Workload.Rng.{Picks}
use kavach_ai.Workload.Trace.{Row}
use kavach_ai.Workload.Trace.Extends.{IsDrawn}
use kavach_ai.Workload.Issue.{receipt_for, issue}
use kavach_ai.Workload.Issue.Accepted.{
  login_accepted, balance_accepted, initiate_accepted, confirm_accepted, transaction_accepted, paid,
}

Picks-Listed :
    (names : List String) (weights : List ℕ) (name : String)
    → Picks names weights name
    → Listed name names
Picks-Listed (n ∷ names) (w ∷ weights) name (inl (e, _)) = inl e
Picks-Listed (n ∷ names) (w ∷ weights) name (inr h) = inr (Picks-Listed names weights name h)
Picks-Listed (n ∷ names) [] name h = absurd h
Picks-Listed [] weights name h = absurd h

module _ (rt : Runtime) (laws : IsRuntime rt) (settings : Settings)
    (default_key : settings.signing_key ≡ default_signing_key)
    (no_errors : settings.error_injection_rate ≡ finite (pos 0)) (row : Row) where
  -- A service with the default key and no injected errors answers each request of a drawn row with
  -- success, if the row's number is below ten million and its receipt has 10 to 2048 characters.
  pub issue-Succeeds :
      (weights : List ℕ)
      → IsDrawn weights row
      → row.sequence < 10000000
      → confirmation_valid (record { transaction_id = receipt_for rt row }) ≡ true
      → Succeeds (serve rt settings (issue rt row))
  unfolding issue
  issue-Succeeds weights drawn n valid =
      by_endpoint (Picks-Listed endpoints weights row.endpoint drawn.endpoint)
    where
      by_endpoint : Listed row.endpoint endpoints → Succeeds (serve rt settings (issue rt row))
      by_endpoint (inl e) =
          simp e (
            login_accepted rt laws settings default_key no_errors row
              (omega (arith, drawn.user_le)))
      by_endpoint (inr (inl e)) =
          simp e (balance_accepted rt laws settings default_key no_errors row)
      by_endpoint (inr (inr (inl e))) = simp e (
          initiate_accepted rt laws settings default_key no_errors row (
            paid rt laws settings default_key no_errors row (omega (arith, drawn.amount_ge))
              drawn.amount_le n))
      by_endpoint (inr (inr (inr (inl e)))) =
          simp e (confirm_accepted rt laws settings default_key no_errors row valid)
      by_endpoint (inr (inr (inr (inr (inl e))))) =
          simp e (transaction_accepted rt laws settings default_key no_errors row valid)
      by_endpoint (inr (inr (inr (inr (inr e))))) = absurd e
