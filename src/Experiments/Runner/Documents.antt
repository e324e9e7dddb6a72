-- ===== src/Experiments/Runner/Documents.antt =====
-- What `run` of experiments/run.py hands to the collector and to the cluster: the collector's
-- configuration, and the manifest of the load pod.
use kavach_ai.Common.{Option, none, some, Bool, ℕ, String, pos, true, false, ◌≡◌, refl}
use kavach_ai.Py.{
  element, lookup-merge, Value, bool, int, str, list, dict, nil, cons, Fields, field, end, lookup,
  merge, put, get_or, subscript, Result, ok, >>=-eq-ok, ok_injective, ◌>>=◌,
}
use kavach_ai.Collector.Command.{status_of, base_config, config_of}
use kavach_ai.Experiments.Runner.{Strategy, static, hpa_candidate}

abbrev pub strategy_name : Strategy → String
strategy_name static = "STATIC"
strategy_name hpa_candidate = "HPA_CANDIDATE"

unfoldable pub run_config : Strategy → (cfg : Fields) → (hash image : String) → Result Fields
run_config strategy cfg hash image = do
  scenario ← subscript (dict cfg) "name"
  seed ← subscript (dict cfg) "seed"
  warmup ← subscript (dict cfg) "warmup_s"
  ok (
      field "scenario" scenario (
        field "seed" seed (
          field "strategy" (str (strategy_name strategy)) (
            field "warmup_s" warmup (
              field "workload" (dict cfg) (
                field "trace_hash" (str hash) (
                  field "load_image_digest" (str image) (
                    field "purpose" (str "calibration")
                      (field "research_eligible" (bool false) end)))))))))

-- The collector leaves the warmup of the run's own configuration out.
pub run_config-warmup :
    (strategy : Strategy) (cfg : Fields) (hash image : String) (config : Fields)
    (duration interval : ℕ) (prometheus : String)
    → run_config strategy cfg hash image ≡ ok config
    → subscript (dict cfg) "warmup_s"
      ≡ ok (get_or "warmup_s" (int (pos 0)) (config_of duration interval prometheus config))
unfolding run_config config_of base_config merge put get_or lookup
run_config-warmup strategy cfg hash image config duration interval prometheus h =
    let (scenario, _, h1) = >>=-eq-ok (subscript (dict cfg) "name") _ h in
    let (seed, _, h2) = >>=-eq-ok (subscript (dict cfg) "seed") _ h1 in
    let (warmup, is_warmup, h3) = >>=-eq-ok (subscript (dict cfg) "warmup_s") _ h2 in
    rw (← ok_injective h3) is_warmup

-- the container of the load pod; `address` is the cluster IP of the payment service
unfoldable pub container : (address : String) → Fields
container address = field "name" (str "locust") (
    field "image" (str "kavach-workload:dev") (
      field "imagePullPolicy" (str "Never") (
        field "env"
          (list (
            cons (dict (field "name" (str "KAVACH_SERVICE_IP") (field "value" (str address) end)))
              nil))
          (field "resources"
            (dict (
              field "requests" (dict (field "cpu" (str "100m") (field "memory" (str "128Mi") end)))
                (field "limits"
                  (dict (field "cpu" (str "1500m") (field "memory" (str "384Mi") end))) end)))
            (field "volumeMounts"
              (list (
                cons
                  (dict (
                    field "name" (str "config")
                      (field "mountPath" (str "/config") (field "readOnly" (bool true) end))))
                  (cons (dict (field "name" (str "output") (field "mountPath" (str "/data") end)))
                    nil)))
              end)))))

-- `manifest`
unfoldable pub load_pod : (pod_name run_id address : String) → Fields
unfolding container
load_pod pod_name run_id address = field "apiVersion" (str "v1") (
    field "kind" (str "Pod") (
      field "metadata"
        (dict (
          field "name" (str pod_name) (
            field "namespace" (str "kavach-lab") (
              field "labels"
                (dict (field "app" (str "kavach-load") (field "run-id" (str run_id) end))) end))))
        (field "spec"
          (dict (
            field "restartPolicy" (str "Never") (
              field "automountServiceAccountToken" (bool false) (
                field "securityContext"
                  (dict (
                    field "runAsUser" (int (pos 10001)) (
                      field "runAsGroup" (int (pos 10001)) (
                        field "fsGroup" (int (pos 10001)) (field "runAsNonRoot" (bool true) end)))))
                  (field "containers" (list (cons (dict (container address)) nil)) (
                    field "volumes"
                      (list (
                        cons
                          (dict (
                            field "name" (str "config")
                              (field "configMap" (dict (field "name" (str pod_name) end)) end)))
                          (cons
                            (dict (
                              field "name" (str "output") (
                                field "emptyDir" (dict (field "sizeLimit" (str "256Mi") end)) end)))
                            nil)))
                      end))))))
          end)))

-- metadata.json at the end: what the collector has written, if it has, and the status
unfoldable pub closing_metadata :
    Option Fields → (run_id : String) → (passed : Bool) → (end_utc : String) → Fields
closing_metadata written run_id passed end_utc =
    merge (elim written [ none ↦ field "run_id" (str run_id) end | some metadata ↦ metadata ])
      (field "validity_status" (str (status_of passed)) (field "end_utc" (str end_utc) end))

-- the value of the first variable in the environment of the first container
abbrev pub first_variable : Value → Result Value
first_variable manifest = do
  spec ← subscript manifest "spec"
  containers ← subscript spec "containers"
  first ← element containers 0
  env ← subscript first "env"
  variable ← element env 0
  subscript variable "value"

-- The load pod is given the address of the service, and no token of a service account.
pub load_pod-address :
    (pod_name run_id address : String)
    → let manifest = dict (load_pod pod_name run_id address) in
      (first_variable manifest ≡ ok (str address))
      × ((subscript manifest "spec" >>= λ spec. subscript spec "automountServiceAccountToken")
          ≡ ok (bool false))
unfolding load_pod subscript lookup element
load_pod-address pod_name run_id address = (refl, refl)

-- A run's verdict takes the place of the collector's in the metadata.
pub closing_metadata-status :
    (written : Option Fields) (run_id : String) (passed : Bool) (end_utc : String)
    → lookup "validity_status" (closing_metadata written run_id passed end_utc)
      ≡ some (str (status_of passed))
unfolding closing_metadata lookup
closing_metadata-status written run_id passed end_utc =
    lookup-merge "validity_status"
      (elim written [ none ↦ field "run_id" (str run_id) end | some metadata ↦ metadata ])
      (field "validity_status" (str (status_of passed)) (field "end_utc" (str end_utc) end))
      (refl, (refl, tt))
