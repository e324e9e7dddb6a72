-- ===== src/Smoke/Files/Succeeded.antt =====
-- What the command has seen and written if it ends with exit code 0.
use kavach_ai.Common.{
  ℕ, suc, ◌*◌, String, Bool, true, false, ◌≡◌, refl, sym, ap, ◌∙◌, none, some, List, [], ◌∷◌,
  length, pos, arith, if◌then◌else◌,
}
use text.Mathlib.Text.{◌==◌}
use kavach_ai.Py.{
  Value, str, int, Fields, lookup, merge, lookup-put, lookup-merge, first_some, HasUniqueKeys,
  Result, ok, raised, >>=-eq-ok, ok_injective,
}
use kavach_ai.Smoke.Target.{Net, validate_target}
use kavach_ai.Smoke.{
  Row, Beat, Plan, Site, Report, send_all, prepare, summarize, conclude, begin, measure, smoke,
  exit_code,
}
use kavach_ai.Smoke.Passed.{IsPassed, smoke-IsPassed}
use kavach_ai.Smoke.Files.{
  Host, valid_arguments, opening, outcome, summary, lines, Written, main, code_of, command,
}

-- the arguments are valid, the check has passed, and the files say so
pub record Succeeded (h : Host) (net : Net) (site : Site) (plan : Plan) (beats : List Beat)
    (url : String) : Type 0 where
  pub arguments : valid_arguments plan ≡ true
  pub passed : IsPassed net site plan beats url
  pub written : Written h
  pub is_written : main h net site plan beats url ≡ ok written
  pub status : lookup "status" written.summary ≡ some (str "PASS")
  pub requests : lookup "requests" written.summary ≡ some (int (pos (length written.requests)))

-- a report that has passed holds no failure
abbrev IsSettled : Report → Type 0
IsSettled r = r.passed ≡ true → r.failure ≡ none

conclude-IsSettled :
    (metrics : Result (Unit {0})) (plan : Plan) (sent : List Row × Result (Unit {0}))
    → IsSettled (conclude metrics plan sent)
unfolding summarize
conclude-IsSettled metrics plan (rows, raised e) = λ h. absurd (cc h)
conclude-IsSettled (raised e) plan (rows, ok _) = λ h. absurd (cc h)
conclude-IsSettled (ok _) plan ([], ok _) = λ h. absurd (cc h)
conclude-IsSettled (ok _) plan (r ∷ rows, ok _) = λ h. refl

begin-IsSettled :
    (setup : Result (Unit {0})) (report : Report)
    → IsSettled report
    → IsSettled (begin setup report)
begin-IsSettled (raised e) report h = λ k. absurd (cc k)
begin-IsSettled (ok _) report h = h

measure-IsSettled :
    (site : Site) (plan : Plan) (beats : List Beat) → IsSettled (measure site plan beats)
unfolding measure
measure-IsSettled site plan beats = begin-IsSettled (prepare site) _ (
    conclude-IsSettled site.metrics plan
      (send_all plan (plan.duration * plan.rps) 0 plan.started beats))

module _ (h : Host) where
  length-lines : (rows : List Row) → length (lines h rows) ≡ length rows
  unfolding lines
  length-lines [] = refl
  length-lines (row ∷ rows) = ap suc (length-lines rows)

  outcome-HasUniqueKeys : (r : Report) → r.failure ≡ none → HasUniqueKeys (outcome h r)
  unfolding outcome lookup
  outcome-HasUniqueKeys r settled = rw settled (refl, (refl, (refl, (refl, (refl, (refl, tt))))))

  -- The summary holds what a report without failure has put into it.
  lookup-summary :
      (k : String) (opened : Fields) (r : Report) {v : Value}
      → r.failure ≡ none
      → ("end_utc" == k) ≡ false
      → lookup k (outcome h r) ≡ some v
      → lookup k (summary h opened r) ≡ some v
  unfolding summary
  lookup-summary k opened r {v} settled other e =
      lookup-put k "end_utc" (str h.end_utc) (merge opened (outcome h r))
      ∙ ap (λ b. if b then some (str h.end_utc) else lookup k (merge opened (outcome h r))) other
      ∙ lookup-merge k opened (outcome h r) (outcome-HasUniqueKeys r settled)
      ∙ ap (λ o. first_some o (lookup k opened)) e

  outcome-status :
      (r : Report)
      → r.failure ≡ none
      → r.passed ≡ true
      → lookup "status" (outcome h r) ≡ some (str "PASS")
  unfolding outcome lookup
  outcome-status r settled passed = rw (settled, passed) refl

  outcome-requests :
      (r : Report)
      → r.failure ≡ none
      → lookup "requests" (outcome h r) ≡ some (int (pos (length r.rows)))
  unfolding outcome lookup
  outcome-requests r settled = rw settled refl

  code_of_zero :
      (r : Result (Written h))
      → code_of h r ≡ 0
      → (w : Written h) × (r ≡ ok w) × (w.report.passed ≡ true)
  code_of_zero (raised e) k = absurd (cc k)
  code_of_zero (ok w) k = (w, refl, by_test w.report.passed k)
    where
      by_test : (b : Bool) → ◌≡◌ {A = ℕ} (if b then 0 else 1) 0 → b ≡ true
      by_test true k = refl
      by_test false k = absurd (omega (arith, k))

command_zero : (b : Bool) (code : ℕ) → (if b then code else 2) ≡ 0 → (b ≡ true) × (code ≡ 0)
command_zero true code h = (refl, h)
command_zero false code h = absurd (omega (arith, h))

smoke_zero :
    (net : Net) (site : Site) (plan : Plan) (beats : List Beat) (url : String) {target : String}
    → validate_target net url ≡ ok target
    → (measure site plan beats).passed ≡ true
    → exit_code (smoke net site plan beats url) ≡ 0
unfolding smoke
smoke_zero net site plan beats url valid passed = rw (valid, passed) refl

-- If the command ends with exit code 0, then its arguments are valid, its target is a plain HTTP origin
-- at a loopback address which has identified itself as the fixture, the setup's requests and the one for
-- the metrics have succeeded, no request of the loop has raised or was answered with a status of 400
-- or more, and at least 95 of 100 of the planned requests were sent; and the summary that it has written says PASS, and counts the lines of requests.jsonl.
pub command-Succeeded :
    (h : Host) (net : Net) (site : Site) (plan : Plan) (beats : List Beat) (url : String)
    → command h net site plan beats url ≡ 0
    → Succeeded h net site plan beats url
unfolding command main
command-Succeeded h net site plan beats url e =
    let (arguments, code) = command_zero (valid_arguments plan) _ e in
    let (w, is_written, passed) = code_of_zero h (main h net site plan beats url) code in
    let (target, valid, e1) = >>=-eq-ok (validate_target net url) _ is_written in
    let (opened, is_opened, e2) = >>=-eq-ok (opening h target plan) _ e1 in
    let report = measure site plan beats in
    let has_passed : report.passed ≡ true = ap (λ w. w.report.passed) (ok_injective e2) ∙ passed in
    let settled = measure-IsSettled site plan beats has_passed in
    record {
      arguments = arguments;
      passed =
          smoke-IsPassed net site plan beats url
            (smoke_zero net site plan beats url valid has_passed);
      written = record {
        report = report;
        summary = summary h opened report;
        requests = lines h report.rows;
      };
      is_written = rw (valid, is_opened) refl;
      status =
          lookup-summary h "status" opened report settled refl
            (outcome-status h report settled has_passed);
      requests = lookup-summary h "requests" opened report settled refl (
          outcome-requests h report settled
          ∙ ap (λ n. some (int (pos n))) (sym (length-lines h report.rows)));
    }
