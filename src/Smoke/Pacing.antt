-- ===== src/Smoke/Pacing.antt =====
-- The times at which scripts/smoke.py sends its requests.
use kavach_ai.Common.{
  ℕ, zero, suc, ◌+◌, ◌*◌, ◌≤◌, leb, Bool, true, false, ◌≡◌, refl, List, [], ◌∷◌, length, arith,
}
use kavach_ai.Py.{Result, ok, raised}
use kavach_ai.Smoke.{kind_of, Row, Beat, Plan, maximum, woken, over, record_answer, send_all}

-- rows from number `i` on, none of them sent before `earliest` or before its place in the plan, none
-- less than a period after the one before it, and with the requests of the plan
abbrev pub IsPaced : Plan → (i earliest : ℕ) → List Row → Type 0
IsPaced plan i earliest [] = Unit
IsPaced plan i earliest (r ∷ rows) =
    (r.sequence ≡ i)
    × (r.kind ≡ kind_of i)
    × (earliest ≤ r.sent)
    × (plan.started + i * plan.period ≤ r.sent)
    × IsPaced plan (suc i) (r.sent + plan.period) rows

woken-le : (a b : ℕ) (beat : Beat) → (a ≤ woken (maximum a b) beat) × (b ≤ woken (maximum a b) beat)
woken-le a b beat = (ground arith, ground arith)

-- one round, before the rows of the rounds after it
record_answer-IsPaced :
    (plan : Plan) (left i earliest sent took : ℕ) (stop : Bool) (answer : Result ℕ)
    (rest : List Row × Result (Unit {0}))
    → earliest ≤ sent
    → plan.started + i * plan.period ≤ sent
    → IsPaced plan (suc i) (sent + plan.period) rest.0 × (length rest.0 ≤ left)
    → let row : ℕ → Row = λ status. record {
      sequence = i;
      kind = kind_of i;
      sent = sent;
      status = status;
      latency = took;
    } in
      let (rows, _) = record_answer stop answer row rest in
      IsPaced plan i earliest rows × (length rows ≤ suc left)
record_answer-IsPaced plan left i earliest sent took true answer rest after planned h =
    (tt, omega arith)
record_answer-IsPaced plan left i earliest sent took false (raised e) rest after planned h =
    (tt, omega arith)
record_answer-IsPaced plan left i earliest sent took false (ok status) rest after planned (h, few) =
    ((refl, refl, after, planned, h), omega (arith, few))

-- The rows of the loop are numbered in order; each request is the one whose turn it is, is sent no
-- earlier than planned, and at least a period after the request before, however late that was; and
-- there are at most as many as there are rounds.
pub send_all-IsPaced :
    (plan : Plan) (left i earliest : ℕ) (beats : List Beat)
    → let rows = (send_all plan left i earliest beats).0 in
      IsPaced plan i earliest rows × (length rows ≤ left)
unfolding send_all
send_all-IsPaced plan zero i earliest beats = (tt, omega arith)
send_all-IsPaced plan (suc left) i earliest [] = (tt, omega arith)
send_all-IsPaced plan (suc left) i earliest (b ∷ beats) =
    let planned = plan.started + i * plan.period in
    let due = maximum planned earliest in
    let sent = woken due b + b.delay in
    let (in_plan, spaced) = woken-le planned earliest b in
    record_answer-IsPaced plan left i earliest sent b.took (leb (over plan) (woken due b)) b.answer
      (send_all plan left (suc i) (sent + plan.period) beats) (omega (arith, spaced))
      (omega (arith, in_plan)) (send_all-IsPaced plan left (suc i) (sent + plan.period) beats)
