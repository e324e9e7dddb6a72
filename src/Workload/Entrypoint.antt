-- ===== src/Workload/Entrypoint.antt =====
-- workload/entrypoint.py: the wait for go.json, and the file that tells the runner how locust has ended.
-- A list holds what the rounds of the wait read; where it ends, the clock has passed the deadline. The
-- duration is an int that is not negative, as in a
-- configuration that the runner has validated and collected for.
use text.Mathlib.Text.{◌==◌}
use kavach_ai.Common.{
  ℕ, String, cat, Option, none, some, ◌+◌, ℤ, ltb, Bool, ◌≡◌, refl, sym, ap, ◌∙◌, List, [], ◌∷◌,
  if◌then◌else◌,
}
use kavach_ai.Py.{
  Value, int, float, dict, field, end, Fields, subscript, other_error, Error, Result, ok, raised,
  >>=-eq-ok, ◌>>=◌, ◌>>◌,
}
use kavach_ai.Workload.Start.{origin_of}
use kavach_ai.Workload.Trace.{rounds}

pub record Peek : Type 0 where
  -- `(folder / "go.json").exists()`, and the clock if it does not
  pub exists : Bool
  pub now : ℕ

unfoldable pub wait_go : (deadline : ℕ) → List Peek → Result (Unit {0})
wait_go deadline [] =
    raised (other_error "SystemExit" "Runner did not authorize a workload start within 300 seconds")
wait_go deadline (p ∷ peeks) =
    let again = wait_go deadline peeks in
    if p.exists
    then ok tt
    else (if ltb deadline p.now
        then raised (
            other_error "SystemExit" "Runner did not authorize a workload start within 300 seconds")
        else again)

pub record Pod : Type 0 where
  pub deadline : ℕ
  pub peeks : List Peek
  -- go.json and scenario.json
  pub go : Result Value
  pub scenario : Result Value
  -- `os.environ["KAVACH_SERVICE_IP"]`, and `str` of a number
  pub address : String
  pub decimal : ℕ → String
  -- the return code of a command with its arguments, or a timeout, under a time limit
  pub run : (arguments : List String) (limit : ℕ) → Result ℤ
  pub utc : Value

-- the command line of locust
unfoldable pub command : Pod → (duration : ℕ) → List String
command pod duration =
    "locust"
    ∷ "-f"
    ∷ "/srv/workload/locustfile.py"
    ∷ "--headless"
    ∷ "--users"
    ∷ "1"
    ∷ "--spawn-rate"
    ∷ "1"
    ∷ "--host"
    ∷ cat "http://" (cat pod.address ":8000")
    ∷ "--csv"
    ∷ "/data/locust"
    ∷ "--csv-full-history"
    ∷ "--exit-code-on-error"
    ∷ "0"
    ∷ "--run-time"
    ∷ cat (pod.decimal (duration + 20)) "s"
    ∷ "--stop-timeout"
    ∷ "10"
    ∷ []

-- exit.json
unfoldable pub entrypoint : Pod → Result Value
unfolding wait_go command
entrypoint pod = do
  wait_go pod.deadline pod.peeks
  go ← pod.go
  subscript go "start_utc"
  scenario ← pod.scenario
  seconds ← subscript scenario "duration_s"
  duration ← rounds seconds
  code ← pod.run (command pod duration) (duration + 60)
  ok (dict (field "exit_code" (int code) (field "utc" pod.utc end)))

subscript-exit_code :
    (code : ℤ) (rest : Fields)
    → subscript (dict (field "exit_code" (int code) rest)) "exit_code" ≡ ok (int code)
unfolding subscript kavach_ai.Py.lookup
subscript-exit_code code rest = refl

-- the value after an option
unfoldable pub option : String → List String → Option String
option name [] = none
option name (a ∷ []) = none
option name (a ∷ b ∷ rest) =
    let later = option name (b ∷ rest) in if a == name then some b else later

-- The exit file that the load pod writes holds the return code of the one run of locust, whose host is the
-- origin of the address that the runner has given it, and which is killed a minute after the end of
-- the workload.
pub entrypoint-exit_code :
    (pod : Pod) (finished : Value)
    → entrypoint pod ≡ ok finished
    → (duration : ℕ) × (code : ℤ) × (pod.run (command pod duration) (duration + 60) ≡ ok code)
      × (subscript finished "exit_code" ≡ ok (int code))
      × (option "--host" (command pod duration) ≡ some (origin_of pod.address))
unfolding entrypoint option
entrypoint-exit_code pod finished h =
    let (_, _, h1) = >>=-eq-ok (wait_go pod.deadline pod.peeks) _ h in
    let (go, _, h2) = >>=-eq-ok pod.go _ h1 in
    let (_, _, h3) = >>=-eq-ok (subscript go "start_utc") _ h2 in
    let (scenario, _, h4) = >>=-eq-ok pod.scenario _ h3 in
    let (seconds, _, h5) = >>=-eq-ok (subscript scenario "duration_s") _ h4 in
    let (duration, _, h6) = >>=-eq-ok (rounds seconds) _ h5 in
    let (code, ended, h7) = >>=-eq-ok (pod.run (command pod duration) (duration + 60)) _ h6 in
    let same : dict (field "exit_code" (int code) (field "utc" pod.utc end)) ≡ finished = cc h7 in
    (
      duration,
      code,
      ended,
      ap (λ v. subscript v "exit_code") (sym same)
          ∙ subscript-exit_code code (field "utc" pod.utc end),
      refl,
    )
