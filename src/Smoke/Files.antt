-- ===== src/Smoke/Files.antt =====
-- The command of scripts/smoke.py around its requests: its arguments, the report's fields and the
-- lines of requests.jsonl. `Plan` holds the two numbers of the command line, of which a negative one is
-- refused as 0 is.
pub mod Succeeded
use kavach_ai.Common.{
  ℕ, ◌*◌, ◌≡◌, refl, sym, ap, ◌∙◌, String, Float, pos, leb, Bool, true, false, not, ◌&&◌, and_true,
  Option, none, some, List, [], ◌∷◌, length, if◌then◌else◌,
}
use kavach_ai.Py.{
  Value, null, bool, int, float, str, dict, Fields, end, field, lookup, put, merge, describe, Error,
  Result, ok, raised, ◌>>=◌, ◌>>◌, >>=-eq-ok,
}
use kavach_ai.Smoke.Target.{Net, validate_target}
use kavach_ai.Smoke.{Row, Beat, Plan, Site, Report, measure, smoke, exit_code}

-- what the command reads besides, and the doubles of the report
pub record Host : Type 0 where
  pub run_id : String
  -- `json.dumps(config, sort_keys=True)`, and `hashlib.sha256(...).hexdigest()`
  pub dumps : Value → String
  pub sha256_hex : String → String
  pub commit : Result String
  -- `git status --porcelain` prints nothing
  pub is_clean : Result Bool
  pub platform : String
  pub start_utc : String
  pub end_utc : String
  pub elapsed : Float
  -- the time that a row's request was answered
  pub timestamp : Row → String
  -- ticks as milliseconds, and the mean of so many of them
  pub millis : ℕ → Float
  pub mean_millis : ℕ × ℕ → Float

-- `choices` of `--rps` and `--duration`
abbrev pub valid_arguments : Plan → Bool
valid_arguments plan =
    leb 1 plan.rps && leb plan.rps 20 && leb 1 plan.duration && leb plan.duration 120

unfoldable pub config_fields : (target : String) → Plan → Fields
config_fields target plan = field "target" (str target) (
    field "rps_ceiling" (int (pos plan.rps)) (
      field "duration_s" (int (pos plan.duration)) (
        field "seed" (int (pos 240005))
          (field "purpose" (str "engineering-smoke-not-research") end))))

abbrev pub float_or_null : Option Float → Value
float_or_null none = null
float_or_null (some x) = float x

abbrev pub status_of : Bool → Value
status_of true = str "PASS"
status_of false = str "INVALID"

module _ (h : Host) where
  -- the report before the `try`
  unfoldable pub opening : (target : String) → Plan → Result Fields
  unfolding config_fields
  opening target plan = do
    commit ← h.commit
    clean ← h.is_clean
    let config = dict (config_fields target plan)
    ok (
        field "run_id" (str h.run_id) (
          field "config" config (
            field "status" (str "INVALID") (
              field "config_hash" (str (h.sha256_hex (h.dumps config))) (
                field "git_commit" (str commit) (
                  field "working_tree_dirty" (bool (not clean))
                    (field "host" (str h.platform) (field "start_utc" (str h.start_utc) end))))))))

  -- what `report.update`, or else the `except`, puts into it
  unfoldable pub outcome : Report → Fields
  outcome r = elim r.failure [
    | some e ↦ field "failure" (str (describe e)) end
    | none ↦ field "requests" (int (pos (length r.rows))) (
        field "errors" (elim r.errors [ none ↦ null | some n ↦ int (pos n) ])
          (field "mean_latency_ms"
            (elim r.mean_latency [ none ↦ null | some m ↦ float (h.mean_millis m) ])
            (field "p95_latency_ms"
              (elim r.p95_latency [ none ↦ null | some n ↦ float (h.millis n) ])
              (field "elapsed_s" (float h.elapsed) (field "status" (status_of r.passed) end)))))
  ]

  -- summary.json
  unfoldable pub summary : (opening : Fields) → Report → Fields
  unfolding outcome
  summary opened r = put "end_utc" (str h.end_utc) (merge opened (outcome r))

  -- a line of requests.jsonl
  unfoldable pub line_fields : Row → Fields
  line_fields row = field "sequence" (int (pos row.sequence)) (
      field "timestamp" (str (h.timestamp row)) (
        field "status" (int (pos row.status))
          (field "latency_ms" (float (h.millis row.latency)) end)))

  unfoldable pub lines : List Row → List Fields
  unfolding line_fields
  lines [] = []
  lines (row ∷ rows) = line_fields row ∷ lines rows

  -- the files that a check leaves
  pub record Written : Type 0 where
    pub report : Report
    pub summary : Fields
    pub requests : List Fields

  unfoldable pub main : Net → Site → Plan → List Beat → String → Result Written
  unfolding opening summary lines
  main net site plan beats url = do
    target ← validate_target net url
    opened ← opening target plan
    let report = measure site plan beats
    ok (record { report = report; summary = summary opened report; requests = lines report.rows })

  abbrev pub code_of : Result Written → ℕ
  code_of (raised e) = 1
  code_of (ok w) = if w.report.passed then 0 else 1

  -- the exit code, where argparse refuses the arguments with 2
  unfoldable pub command : Net → Site → Plan → List Beat → String → ℕ
  unfolding main
  command net site plan beats url =
      if valid_arguments plan then code_of (main net site plan beats url) else 2
