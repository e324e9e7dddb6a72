-- ===== src/Collector/Command.antt =====
-- `collect` of collector/collect.py around its sampling loop: the clients, the configuration and the
-- metadata that it writes; and `main`. The files are taken to be writable; the time stamps, the host's
-- and the cluster's description, the git commit and the hash are what the `Site` gives.
pub mod Passed
pub mod Metadata
mod Tests
use Prim.Native.Nat.{lt, eq, gt}
use Prim.Native.String.{compare}
use text.Mathlib.Text.{◌==◌}
use kavach_ai.Common.{
  ℕ, zero, suc, ◌/◌, String, ℤ, pos, pos_part, Bool, true, false, Option, none, some, List, [], ◌∷◌,
  ◌++◌, if◌then◌else◌,
}
use kavach_ai.Py.{
  Value, null, bool, int, float, str, list, dict, Items, nil, cons, Fields, end, field, get_or,
  subscript, merge, Error, describe, Result, ok, raised, ◌>>=◌, ◌>>◌,
}
use kavach_ai.Workload.Trace.{rounds}
use kavach_ai.Smoke.Target.{Net, validate_target}
use kavach_ai.Collector.Query.{queries}
use kavach_ai.Collector.Rows.{Reason, Validation}
use kavach_ai.Collector.Sampling.{
  Pod, Tick, Doubles, Progress, one_percent, collect, valid_arguments,
}
use kavach_ai.Collector.Clients.{Cluster, make_clients}

pub record Site : Type 0 where
  pub net : Net
  pub cluster : Cluster
  -- the version of Kubernetes, the pods that are there already, and `git rev-parse HEAD`
  pub version : Result Value
  pub pods : Result (List Pod)
  pub commit : Result String
  -- the hash of the configuration, and the name and path of the folder
  pub config_hash : Fields → String
  pub run_id : String
  pub metric_path : String
  pub platform : String
  pub start_utc : String
  pub end_utc : String
  pub ticks : List Tick

-- `QUERIES` as a dict
unfoldable pub query_fields : List (String × String) → Fields
query_fields [] = end
query_fields ((key, query) ∷ rest) = field key (str query) (query_fields rest)

-- the configuration without the caller's
unfoldable pub base_config : (duration interval : ℕ) → (prometheus : String) → Fields
unfolding query_fields
base_config duration interval prometheus = field "duration_s" (int (pos duration)) (
    field "interval_s" (int (pos interval)) (
      field "prometheus" (str prometheus) (
        field "strategy" (str "STATIC") (
          field "scenario" (str "observability-smoke") (
            field "seed" (int (pos 240005)) (
              field "queries" (dict (query_fields queries)) (
                field "slo_p95_ms" (int (pos 300)) (
                  field "slo_error_fraction" (float one_percent)
                    (field "research_eligible" (bool false) end)))))))))

-- `if run_config: conf.update(run_config)`; `end` stands for None too
unfoldable pub config_of : (duration interval : ℕ) → (prometheus : String) → Fields → Fields
unfolding base_config
config_of duration interval prometheus run_config =
    merge (base_config duration interval prometheus) run_config

-- a text into a sorted list without it
unfoldable pub insert_text : String → List String → List String
insert_text s [] = s ∷ []
insert_text s (t ∷ ts) =
    let rest = insert_text s ts in
    elim (compare s t) [ lt ↦ s ∷ t ∷ ts | eq ↦ t ∷ ts | gt ↦ t ∷ rest ]

-- `sorted({...})`
unfoldable pub sorted_set : List String → List String
unfolding insert_text
sorted_set [] = []
sorted_set (s ∷ ss) = insert_text s (sorted_set ss)

abbrev pub image_ids : List Pod → List String
image_ids [] = []
image_ids (p ∷ pods) = p.images ++ image_ids pods

abbrev pub text_items : List String → Items
text_items [] = nil
text_items (s ∷ ss) = cons (str s) (text_items ss)

-- metadata.json before the first round
unfoldable pub metadata_of :
    Site → (conf : Fields) → (version : Value) → List Pod → (commit : String) → Result Fields
unfolding sorted_set
metadata_of site conf version pods commit = do
  let base = field "run_id" (str site.run_id) (
      field "git_commit" (str commit) (
        field "config_hash" (str (site.config_hash conf)) (
          field "strategy" (str "STATIC") (
            field "scenario" (str "observability-smoke") (
              field "seed" (int (pos 240005)) (
                field "start_utc" (str site.start_utc) (
                  field "image_digest" (list (text_items (sorted_set (image_ids pods)))) (
                    field "kubernetes_version" version (
                      field "host" (str site.platform) (
                        field "raw_metric_path" (str site.metric_path) (
                          field "validity_status" (str "IN_PROGRESS") (
                            field "research_eligible" (bool false) (
                              field "reason"
                                (str "engineering observation; no Locust workload artifact yet")
                                end)))))))))))))
  strategy ← subscript (dict conf) "strategy"
  scenario ← subscript (dict conf) "scenario"
  seed ← subscript (dict conf) "seed"
  ok (merge base (field "strategy" strategy (field "scenario" scenario (field "seed" seed end))))

-- `validation["status"]`
abbrev pub status_of : Bool → String
status_of true = "PASS"
status_of false = "INVALID"

-- what a collection leaves: its validation and metadata.json
pub record Collected : Type 0 where
  pub validation : Validation
  pub excluded_warmup_rows : ℕ
  pub metadata : Fields

-- the warmup is an int that is not negative
unfoldable pub collect_all :
    Doubles → Site → (duration interval : ℕ) → (prometheus : String) → Fields → Result Collected
unfolding config_of metadata_of
collect_all d site duration interval prometheus run_config = do
  make_clients site.net site.cluster
  version ← site.version
  pods ← site.pods
  let conf = config_of duration interval prometheus run_config
  commit ← site.commit
  metadata ← metadata_of site conf version pods commit
  warmup ← rounds (get_or "warmup_s" (int (pos 0)) conf)
  let validation = (collect d duration interval warmup pods site.ticks).1
  ok (record {
    validation = validation;
    excluded_warmup_rows = warmup / interval;
    metadata = merge metadata (
        field "end_utc" (str site.end_utc)
          (field "validity_status" (str (status_of validation.passed)) end));
  })

-- the arguments of the command line
pub record Arguments : Type 0 where
  pub duration : ℤ
  pub interval : ℤ
  pub prometheus : String

-- the end of the command: `parser.error`, or the reasons with which it has ended, which may be those of a
-- validation or an exception
pub data Ending : Type 0 where
  usage_error : Ending
  validated : Validation → Ending
  failed : String → Ending

abbrev pub ending_of : Result Collected → Ending
ending_of (ok c) = validated c.validation
ending_of (raised e) = failed (describe e)

unfoldable pub main : Doubles → Site → Arguments → Ending
unfolding collect_all
main d site a =
    if valid_arguments a.duration a.interval
    then ending_of (do
      target ← validate_target site.net a.prometheus
      collect_all d site (pos_part a.duration) (pos_part a.interval) target end)
    else usage_error

abbrev pub exit_code : Ending → ℕ
exit_code usage_error = 2
exit_code (validated v) = if v.passed then 0 else 1
exit_code (failed message) = 1
