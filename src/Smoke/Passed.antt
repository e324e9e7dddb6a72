-- ===== src/Smoke/Passed.antt =====
-- What a check that ends with exit code 0 has seen.
use kavach_ai.Common.{
  ℕ, ◌*◌, ◌≤◌, ◌<◌, String, leb, leb→le, eqb, Bool, true, false, not, and_true, not-false, eqb_iff,
  ◌≡◌, refl, ap, ◌∙◌, List, [], ◌∷◌, length, All, arith, if◌then◌else◌,
}
use kavach_ai.Py.{Value, eq_value, Result, ok, raised, raise_if-eq-ok, >>=-eq-ok}
use kavach_ai.Experiments.Calibration.{keep}
use kavach_ai.Smoke.Target.{Net, validate_target, IsTarget, validate_target-IsTarget}
use kavach_ai.Smoke.{
  Row, Beat, Plan, send_all, Site, fixture, prepare, Report, is_error, summarize, conclude, begin,
  measure, smoke, exit_code,
}

prepare_sound :
    (site : Site) {x : Unit {0}}
    → prepare site ≡ ok x
    → (health : Value) × (site.health ≡ ok health) × (eq_value health fixture ≡ true)
unfolding prepare
prepare_sound site h =
    let (health, is_health, h1) = >>=-eq-ok site.health _ h in
    let (same, h2) = raise_if-eq-ok (not (eq_value health fixture)) _ _ h1 in
    (health, is_health, not-false _ same)

no_errors : (rows : List Row) → length (keep is_error rows) ≡ 0 → All (λ r. r.status < 400) rows
unfolding keep
no_errors [] h = tt
no_errors (r ∷ rows) h = by_test (leb 400 r.status) refl h (no_errors rows)
  where
    by_test :
        (b : Bool)
        → leb 400 r.status ≡ b
        → length (if b then r ∷ keep is_error rows else keep is_error rows) ≡ 0
        → (length (keep is_error rows) ≡ 0 → All (λ r. r.status < 400) rows)
        → (r.status < 400) × All (λ r. r.status < 400) rows
    by_test true e h rest = absurd (omega (arith, h))
    by_test false e h rest = (ground (arith, e), rest h)

-- what a check with exit code 0 has seen
pub record IsPassed (net : Net) (site : Site) (plan : Plan) (beats : List Beat) (url : String)
    : Type 0 where
  pub target : IsTarget net url
  pub health : Value
  pub is_health : site.health ≡ ok health
  pub is_fixture : eq_value health fixture ≡ true
  -- the setup, all requests of the loop and the last one have returned
  pub prepared : prepare site ≡ ok tt
  pub metrics : site.metrics ≡ ok tt
  pub complete : (send_all plan (plan.duration * plan.rps) 0 plan.started beats).1 ≡ ok tt
  pub all_served :
      All (λ r. r.status < 400) (send_all plan (plan.duration * plan.rps) 0 plan.started beats).0
  pub enough :
      95 * plan.rps * plan.duration
      ≤ 100 * length (send_all plan (plan.duration * plan.rps) 0 plan.started beats).0

summarize_sound :
    (plan : Plan) (rows : List Row)
    → (summarize plan rows).passed ≡ true
    → All (λ r. r.status < 400) rows × (95 * plan.rps * plan.duration ≤ 100 * length rows)
unfolding summarize
summarize_sound plan [] h = absurd (cc h)
summarize_sound plan (r ∷ rows) h =
    let (none_failed, many) = and_true (eqb (length (keep is_error (r ∷ rows))) 0) _ h in
    (no_errors (r ∷ rows) ((eqb_iff _ 0).0 none_failed), leb→le _ _ many)

conclude_sound :
    (metrics : Result (Unit {0})) (plan : Plan) (sent : List Row × Result (Unit {0}))
    → (conclude metrics plan sent).passed ≡ true
    → (metrics ≡ ok tt)
      × (sent.1 ≡ ok tt)
      × All (λ r. r.status < 400) sent.0
      × (95 * plan.rps * plan.duration ≤ 100 * length sent.0)
conclude_sound metrics plan (rows, raised e) h = absurd (cc h)
conclude_sound (raised e) plan (rows, ok _) h = absurd (cc h)
conclude_sound (ok _) plan (rows, ok _) h =
    let (served, enough) = summarize_sound plan rows h in (refl, refl, served, enough)

begin_sound :
    (setup : Result (Unit {0})) (report : Report)
    → (begin setup report).passed ≡ true
    → (setup ≡ ok tt) × (report.passed ≡ true)
begin_sound (raised e) report h = absurd (cc h)
begin_sound (ok _) report h = (refl, h)

abbrev passes : Result Report → Bool
passes (raised e) = false
passes (ok report) = report.passed

exit_zero :
    (r : Result Report)
    → exit_code r ≡ 0
    → (report : Report) × (r ≡ ok report) × (report.passed ≡ true)
exit_zero (raised e) h = absurd (cc h)
exit_zero (ok report) h = (report, refl, by_test report.passed h)
  where
    by_test : (b : Bool) → ◌≡◌ {A = ℕ} (if b then 0 else 1) 0 → b ≡ true
    by_test true h = refl
    by_test false h = absurd (omega (arith, h))

-- If the check ends with exit code 0, its target is a plain HTTP origin at a loopback address which has
-- identified itself as the fixture, the setup has succeeded, no request of the loop has raised or was
-- answered with a status of 400 or more, the last request, for the metrics, has succeeded, and at least 95 of 100 of the planned requests were sent.
pub smoke-IsPassed :
    (net : Net) (site : Site) (plan : Plan) (beats : List Beat) (url : String)
    → exit_code (smoke net site plan beats url) ≡ 0
    → IsPassed net site plan beats url
unfolding smoke measure
smoke-IsPassed net site plan beats url h =
    let (report, e, passed) = exit_zero (smoke net site plan beats url) h in
    let (target, valid, h1) = >>=-eq-ok (validate_target net url) _ e in
    let measured : (measure site plan beats).passed ≡ true = ap passes h1 ∙ passed in
    let (ready, concluded) = begin_sound (prepare site) _ measured in
    let (last, complete, served, enough) = conclude_sound site.metrics plan _ concluded in
    let (health, is_health, is_fixture) = prepare_sound site ready in
    record {
      target = validate_target-IsTarget net url valid;
      health = health;
      is_health = is_health;
      is_fixture = is_fixture;
      prepared = ready;
      metrics = last;
      complete = complete;
      all_served = served;
      enough = enough;
    }
