-- ===== src/Collector/Command/Metadata.antt =====
-- metadata.json of a collection against its configuration and its validation.
use kavach_ai.Common.{ℕ, String, pos, ◌≡◌, refl, arith, sym, List, some}
use kavach_ai.Py.{
  Value, int, str, dict, Fields, field, end, lookup, merge, put, get_or, subscript, ok, >>=-eq-ok,
  ok_injective,
}
use kavach_ai.Workload.Trace.{rounds}
use kavach_ai.Collector.Sampling.{Pod, Doubles, collect}
use kavach_ai.Collector.Clients.{make_clients}
use kavach_ai.Collector.Command.{Site, config_of, metadata_of, status_of, Collected, collect_all}

-- what the metadata says
pub record Describes (site : Site) (conf metadata : Fields) (commit status : String) : Type 0 where
  pub strategy : lookup "strategy" metadata ≡ lookup "strategy" conf
  pub scenario : lookup "scenario" metadata ≡ lookup "scenario" conf
  pub seed : lookup "seed" metadata ≡ lookup "seed" conf
  pub config_hash : lookup "config_hash" metadata ≡ some (str (site.config_hash conf))
  pub git_commit : lookup "git_commit" metadata ≡ some (str commit)
  pub validity_status : lookup "validity_status" metadata ≡ some (str status)

found :
    (conf : Fields) (k : String) {v : Value}
    → subscript (dict conf) k ≡ ok v
    → lookup k conf ≡ some v
unfolding subscript
found conf k h = ground arith

metadata_of-Describes :
    (site : Site) (conf : Fields) (version : Value) (pods : List Pod) (commit : String)
    (metadata : Fields) (ended : Value) (status : String)
    → metadata_of site conf version pods commit ≡ ok metadata
    → Describes site conf
        (merge metadata (field "end_utc" ended (field "validity_status" (str status) end)))
        commit
        status
unfolding metadata_of merge put lookup
metadata_of-Describes site conf version pods commit metadata ended status h =
    let (strategy, has_strategy, h1) = >>=-eq-ok (subscript (dict conf) "strategy") _ h in
    let (scenario, has_scenario, h2) = >>=-eq-ok (subscript (dict conf) "scenario") _ h1 in
    let (seed, has_seed, h3) = >>=-eq-ok (subscript (dict conf) "seed") _ h2 in
    rw (← ok_injective h3) (record {
      strategy = sym (found conf "strategy" has_strategy);
      scenario = sym (found conf "scenario" has_scenario);
      seed = sym (found conf "seed" has_seed);
      config_hash = refl;
      git_commit = refl;
      validity_status = refl;
    })

-- A collection writes metadata whose strategy, scenario and seed are those of its configuration, the
-- caller's included, whose hash is that of the configuration, and whose status is the validation's.
pub collect_all-Describes :
    (d : Doubles) (site : Site) (duration interval : ℕ) (prometheus : String) (run_config : Fields)
    (c : Collected)
    → collect_all d site duration interval prometheus run_config ≡ ok c
    → (commit : String) × Describes site
        (config_of duration interval prometheus run_config)
        c.metadata
        commit
        (status_of c.validation.passed)
unfolding collect_all
collect_all-Describes d site duration interval prometheus run_config c h =
    let conf = config_of duration interval prometheus run_config in
    let (_, clients, h1) = >>=-eq-ok (make_clients site.net site.cluster) _ h in
    let (version, is_version, h2) = >>=-eq-ok site.version _ h1 in
    let (pods, are_pods, h3) = >>=-eq-ok site.pods _ h2 in
    let (commit, is_commit, h4) = >>=-eq-ok site.commit _ h3 in
    let (metadata, is_metadata, h5) = >>=-eq-ok (metadata_of site conf version pods commit) _ h4 in
    let (warmup, is_warmup, h6) = >>=-eq-ok (rounds (get_or "warmup_s" (int (pos 0)) conf)) _ h5 in
    let status = (collect d duration interval warmup pods site.ticks).1.passed in
    let described =
      metadata_of-Describes site conf version pods commit metadata (str site.end_utc)
        (status_of status) is_metadata in
    rw (← ok_injective h6) (commit, described)
