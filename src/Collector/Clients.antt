-- ===== src/Collector/Clients.antt =====
-- `make_clients` of collector/collect.py: the clients of the cluster, which it refuses to make for any
-- control plane but the local one, and for a namespace that is not the testbed's.
use kavach_ai.Common.{
  String, cat, chars, starts_with, drop_chars, Bool, true, not, not-false, ◌≡◌, refl, ap, ◌∙◌,
  Option, none, some, if◌then◌else◌,
}
use kavach_ai.Py.{
  str, Fields, get, eq_text, eq_text_sound, attribute_error, value_error, Result, ok, raised,
  raise_if, raise_if-ok, >>=-eq-ok, ◌>>=◌, ◌>>◌,
}
use kavach_ai.Smoke.Target.{Net, validate_target, IsTarget, validate_target-IsTarget}

-- what the cluster's client library gives
pub record Cluster : Type 0 where
  -- `cfg.host` after `load_kube_config`, which raises where the context is missing
  pub host : Result String
  -- `namespace.metadata.labels`, where `none` is Python's None
  pub labels : Result (Option Fields)

-- `s.replace(old, new, 1)` for an `old` that is not empty
unfoldable pub replace_first : (old new s : String) → String
unfolding starts_with drop_chars
replace_first old new String.[] = ""
replace_first old new (String.◌∷◌ c s) =
    let rest = replace_first old new s in
    if starts_with old (String.◌∷◌ c s)
    then cat new (drop_chars (chars old) (String.◌∷◌ c s))
    else String.◌∷◌ c rest

-- `labels.get("app.kubernetes.io/part-of") != "kavach-ai"`
unfoldable pub part_of : Option Fields → Result Bool
part_of none = raised attribute_error
part_of (some labels) = ok (eq_text "kavach-ai" (get "app.kubernetes.io/part-of" labels))

unfoldable pub make_clients : Net → Cluster → Result (Unit {0})
unfolding replace_first part_of
make_clients net cluster = do
  host ← cluster.host
  validate_target net (replace_first "https://" "http://" host)
  labels ← cluster.labels
  known ← part_of labels
  raise_if (not known) (value_error "Namespace lacks Kavach testbed identity")

-- the control plane is at a loopback address, and the namespace carries the testbed's label
pub record IsTestbed (net : Net) (cluster : Cluster) : Type 0 where
  pub host : String
  pub is_host : cluster.host ≡ ok host
  pub target : IsTarget net (replace_first "https://" "http://" host)
  pub labels : Fields
  pub are_labels : cluster.labels ≡ ok (some labels)
  pub label : get "app.kubernetes.io/part-of" labels ≡ str "kavach-ai"

part_of_sound :
    (o : Option Fields)
    → part_of o ≡ ok true
    → (labels : Fields) × (o ≡ some labels)
      × (get "app.kubernetes.io/part-of" labels ≡ str "kavach-ai")
unfolding part_of
part_of_sound none h = absurd (cc h)
part_of_sound (some labels) h = (labels, refl, eq_text_sound "kavach-ai" _ (cc h))

pub make_clients-IsTestbed :
    (net : Net) (cluster : Cluster) {x : Unit {0}}
    → make_clients net cluster ≡ ok x
    → IsTestbed net cluster
unfolding make_clients
make_clients-IsTestbed net cluster h =
    let (host, is_host, h1) = >>=-eq-ok cluster.host _ h in
    let (url, target, h2) =
      >>=-eq-ok (validate_target net (replace_first "https://" "http://" host)) _ h1 in
    let (o, are_labels, h3) = >>=-eq-ok cluster.labels _ h2 in
    let (known, is_known, h4) = >>=-eq-ok (part_of o) _ h3 in
    let (labels, some_labels, label) =
      part_of_sound o (is_known ∙ ap ok (not-false known (raise_if-ok (not known) _ h4))) in
    record {
      host = host;
      is_host = is_host;
      target = validate_target-IsTarget net (replace_first "https://" "http://" host) target;
      labels = labels;
      are_labels = are_labels ∙ ap ok some_labels;
      label = label;
    }
