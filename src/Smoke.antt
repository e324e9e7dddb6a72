-- ===== src/Smoke.antt =====
-- scripts/smoke.py: the requests and the verdict of `main`. Times are whole ticks, of which `period`
-- make `1 / rps` seconds; 0.95 is exact. The fields of the report are in `Files`.
pub mod Target
pub mod Passed
pub mod Pacing
pub mod Requests
pub mod Files
mod Tests
use text.Mathlib.Text.{◌==◌}
use kavach_ai.Common.{
  ℕ, zero, suc, ◌+◌, ◌-◌, ◌*◌, ◌/◌, ◌%◌, String, leb, ltb, eqb, Bool, true, false, not, ◌&&◌, ◌||◌,
  Option, none, some, List, [], ◌∷◌, length, if◌then◌else◌,
}
use kavach_ai.Py.{
  Value, bool, str, dict, Fields, end, field, subscript, eq_value, Error, value_error,
  runtime_error, type_error, other_error, Result, ok, raised, raise_if, ◌>>=◌, ◌>>◌,
}
use kavach_ai.Smoke.Target.{Net, validate_target}
use kavach_ai.Experiments.Calibration.{insert, at, sum, keep}

pub data Kind : Type 0 where
  login balance initiate confirm transaction : Kind

-- `i % 5`, and the request for it
abbrev pub kind_of : ℕ → Kind
kind_of i =
    if eqb (i % 5) 0
    then login
    else (if eqb (i % 5) 1
        then balance
        else (if eqb (i % 5) 2 then initiate else (if eqb (i % 5) 3 then confirm else transaction)))

pub record Row : Type 0 where
  pub sequence : ℕ
  pub kind : Kind
  -- `previous`: the clock when the request was sent
  pub sent : ℕ
  pub status : ℕ
  pub latency : ℕ

-- what a round meets
pub record Beat : Type 0 where
  -- the clock before the sleep
  pub before : ℕ
  -- how much longer than asked the sleep was, and the time until the request is sent
  pub late : ℕ
  pub delay : ℕ
  pub took : ℕ
  -- the status of the response, or what the request raised
  pub answer : Result ℕ

pub record Plan : Type 0 where
  pub started : ℕ
  pub period : ℕ
  pub rps : ℕ
  pub duration : ℕ

abbrev pub maximum : ℕ → ℕ → ℕ
maximum a b = if leb a b then b else a

-- the clock after `sleep(max(0, due - now))`
abbrev pub woken : (due : ℕ) → Beat → ℕ
woken due b = b.before + (due - b.before) + b.late

-- the end of the measurement
abbrev pub over : Plan → ℕ
over plan = plan.started + plan.duration * (plan.rps * plan.period)

-- the end of a round, before the rows of those after it: the break, an exception, or one more row
abbrev pub record_answer :
    (stop : Bool)
    → Result ℕ
    → (ℕ → Row)
    → List Row × Result (Unit {0})
    → List Row × Result (Unit {0})
record_answer true answer row rest = ([], ok tt)
record_answer false (raised e) row rest = ([], raised e)
record_answer false (ok status) row (rows, outcome) = (row status ∷ rows, outcome)

-- the loop, with the rounds left in front; `earliest` is `previous + 1 / rps`. Where the list of beats
-- ends, the next reading of the clock is past the end.
unfoldable pub send_all : Plan → (left i earliest : ℕ) → List Beat → List Row × Result (Unit {0})
send_all plan zero i earliest beats = ([], ok tt)
send_all plan (suc left) i earliest [] = ([], ok tt)
send_all plan (suc left) i earliest (b ∷ beats) =
    let due = maximum (plan.started + i * plan.period) earliest in
    let sent = woken due b + b.delay in
    let rest = send_all plan left (suc i) (sent + plan.period) beats in
    record_answer (leb (over plan) (woken due b)) b.answer
      (λ status. record {
        sequence = i;
        kind = kind_of i;
        sent = sent;
        status = status;
        latency = b.took;
      })
      rest

-- what the requests around the loop give, past `raise_for_status`
pub record Site : Type 0 where
  pub health : Result Value
  pub login : Result Value
  pub receipt : Result Value
  pub metrics : Result (Unit {0})

abbrev pub fixture : Value
fixture = dict (
    field "status" (str "ok")
      (field "service" (str "kavach-synthetic-payment") (field "synthetic" (bool true) end)))

-- `"Bearer " + token`
abbrev pub concatenate : Value → Result (Unit {0})
concatenate (str s) = ok tt
concatenate _ = raised type_error

-- the setup before the loop
unfoldable pub prepare : Site → Result (Unit {0})
prepare site = do
  health ← site.health
  raise_if (not (eq_value health fixture))
      (runtime_error "Destination did not identify as the Kavach synthetic fixture")
  session ← site.login
  token ← subscript session "access_token"
  concatenate token
  receipt ← site.receipt
  subscript receipt "transaction_id" >> ok tt

pub record Report : Type 0 where
  pub rows : List Row
  -- `summary.json`: nothing of it if an exception came first
  pub errors : Option ℕ
  pub mean_latency : Option (ℕ × ℕ)
  pub p95_latency : Option ℕ
  pub passed : Bool
  pub failure : Option Error

abbrev pub latencies : List Row → List ℕ
latencies [] = []
latencies (r ∷ rows) = insert r.latency (latencies rows)

abbrev pub is_error : Row → Bool
is_error r = leb 400 r.status

abbrev pub failed : List Row → Error → Report
failed rows e = record {
  rows = rows;
  errors = none;
  mean_latency = none;
  p95_latency = none;
  passed = false;
  failure = some e;
}

-- `report.update`; the mean of no latency is an error
unfoldable pub summarize : Plan → List Row → Report
unfolding keep insert
summarize plan [] =
    failed [] (other_error "StatisticsError" "mean requires at least one data point")
summarize plan (r ∷ rows) =
    let all = r ∷ rows in
    let sorted = latencies all in
    let errors = length (keep is_error all) in
    record {
      rows = all;
      errors = some errors;
      mean_latency = some (sum sorted, length all);
      p95_latency = at (length sorted * 95 / 100 - 1) sorted;
      passed = eqb errors 0 && leb (95 * plan.rps * plan.duration) (100 * length all);
      failure = none;
    }

-- after the loop: the metrics, and the report
abbrev pub conclude : (metrics : Result (Unit {0})) → Plan → List Row × Result (Unit {0}) → Report
conclude metrics plan (rows, raised e) = failed rows e
conclude (raised e) plan (rows, ok _) = failed rows e
conclude (ok _) plan (rows, ok _) = summarize plan rows

-- after the setup
abbrev pub begin : Result (Unit {0}) → Report → Report
begin (raised e) report = failed [] e
begin (ok _) report = report

-- the `try`
unfoldable pub measure : Site → Plan → List Beat → Report
unfolding prepare send_all summarize
measure site plan beats =
    begin (prepare site)
      (conclude site.metrics plan (send_all plan (plan.duration * plan.rps) 0 plan.started beats))

unfoldable pub smoke : Net → Site → Plan → List Beat → String → Result Report
unfolding validate_target measure
smoke net site plan beats url = do validate_target net url; ok (measure site plan beats)

abbrev pub exit_code : Result Report → ℕ
exit_code (raised e) = 1
exit_code (ok report) = if report.passed then 0 else 1
