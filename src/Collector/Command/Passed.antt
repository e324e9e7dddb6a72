-- ===== src/Collector/Command/Passed.antt =====
-- What a collection has seen, and what it has written about itself.
use kavach_ai.Common.{
  ℕ, suc, String, pos, pos_part, true, Bool-cases, inl, inr, ◌≡◌, refl, sym, ap, ◌∙◌, List, [],
  arith,
}
use kavach_ai.Py.{
  Value, int, Fields, end, lookup, merge, get_or, Result, ok, raised, >>=-eq-ok, ok_injective,
}
use kavach_ai.Workload.Trace.{rounds}
use kavach_ai.Smoke.Target.{validate_target, IsTarget, validate_target-IsTarget}
use kavach_ai.Collector.Rows.{Validation}
use kavach_ai.Collector.Rows.Good.{validate_rows_faultless}
use kavach_ai.Collector.Sampling.{Pod, Tick, Doubles, collect, valid_arguments}
use kavach_ai.Collector.Sampling.Answered.{IsFaultless, collect-IsFaultless}
use kavach_ai.Collector.Clients.{make_clients, IsTestbed, make_clients-IsTestbed}
use kavach_ai.Collector.Command.{
  Site, base_config, config_of, metadata_of, Collected, collect_all, Arguments, Ending, usage_error,
  validated, failed, ending_of, main, exit_code,
}

-- the loop has run at the testbed, and gave the validation
pub record IsCollected (d : Doubles) (site : Site) (duration interval : ℕ) (warmup : Value)
    (c : Collected) : Type 0 where
  pub testbed : IsTestbed site.net site.cluster
  pub version : Value
  pub are_version : site.version ≡ ok version
  pub pods : List Pod
  pub are_pods : site.pods ≡ ok pods
  pub commit : String
  pub is_commit : site.commit ≡ ok commit
  pub rounds_of_warmup : ℕ
  pub is_warmup : rounds warmup ≡ ok rounds_of_warmup
  pub validated : c.validation ≡ (collect d duration interval rounds_of_warmup pods site.ticks).1

pub collect_all-IsCollected :
    (d : Doubles) (site : Site) (duration interval : ℕ) (prometheus : String) (run_config : Fields)
    (c : Collected)
    → collect_all d site duration interval prometheus run_config ≡ ok c
    → IsCollected d site duration interval
        (get_or "warmup_s" (int (pos 0)) (config_of duration interval prometheus run_config))
        c
unfolding collect_all
collect_all-IsCollected d site duration interval prometheus run_config c h =
    let conf = config_of duration interval prometheus run_config in
    let (_, clients, h1) = >>=-eq-ok (make_clients site.net site.cluster) _ h in
    let (version, is_version, h2) = >>=-eq-ok site.version _ h1 in
    let (pods, are_pods, h3) = >>=-eq-ok site.pods _ h2 in
    let (commit, is_commit, h4) = >>=-eq-ok site.commit _ h3 in
    let (metadata, is_metadata, h5) = >>=-eq-ok (metadata_of site conf version pods commit) _ h4 in
    let (warmup, is_warmup, h6) = >>=-eq-ok (rounds (get_or "warmup_s" (int (pos 0)) conf)) _ h5 in
    record {
      testbed = make_clients-IsTestbed site.net site.cluster clients;
      version = version;
      are_version = is_version;
      pods = pods;
      are_pods = are_pods;
      commit = commit;
      is_commit = is_commit;
      rounds_of_warmup = warmup;
      is_warmup = is_warmup;
      validated = sym (ap (λ x. x.validation) (ok_injective h6));
    }

exit_zero :
    (end : Ending) → exit_code end ≡ 0 → (v : Validation) × (end ≡ validated v) × (v.passed ≡ true)
exit_zero usage_error h = absurd (omega (arith, h))
exit_zero (validated v) h = (v, refl, ground arith)
exit_zero (failed message) h = absurd (omega (arith, h))

ending_of_sound :
    (r : Result Collected) (v : Validation)
    → ending_of r ≡ validated v
    → (c : Collected) × (r ≡ ok c) × (c.validation ≡ v)
ending_of_sound (ok c) v h = (c, refl, cc h)
ending_of_sound (raised e) v h = absurd (cc h)

pub collected-IsFaultless :
    {d : Doubles} {site : Site} {duration interval : ℕ} {warmup : Value} {c : Collected}
    (seen : IsCollected d site duration interval warmup c)
    → c.validation.reasons ≡ []
    → IsFaultless d duration interval seen.rounds_of_warmup seen.pods site.ticks
collected-IsFaultless seen faultless =
    collect-IsFaultless _ _ _ _ seen.pods _ (ap (λ v. v.reasons) (sym seen.validated) ∙ faultless)

collected-reasons :
    {d : Doubles} {site : Site} {duration interval : ℕ} {warmup : Value} {c : Collected}
    (seen : IsCollected d site duration interval warmup c)
    → c.validation.passed ≡ true
    → c.validation.reasons ≡ []
unfolding collect
collected-reasons {interval = interval} seen passed =
    let now = ap (λ v. v.passed) (sym seen.validated) ∙ passed in
    ap (λ v. v.reasons) seen.validated ∙ validate_rows_faultless _ _ interval now

at_warmup :
    (d : Doubles) (duration interval : ℕ) {m n : ℕ} (pods : List Pod) (ticks : List Tick)
    → m ≡ n
    → IsFaultless d duration interval m pods ticks
    → IsFaultless d duration interval n pods ticks
at_warmup d duration interval pods ticks e h = rw e at h

refused_code : (n : ℕ) → suc n ≡ 0 → ⊥
refused_code n h = omega (arith, h)

-- what a command with exit code 0 has seen
pub record IsPassed (d : Doubles) (site : Site) (a : Arguments) : Type 0 where
  pub arguments : valid_arguments a.duration a.interval ≡ true
  pub target : IsTarget site.net a.prometheus
  pub testbed : IsTestbed site.net site.cluster
  pub pods : List Pod
  pub are_pods : site.pods ≡ ok pods
  pub faultless : IsFaultless d (pos_part a.duration) (pos_part a.interval) 0 pods site.ticks

no_warmup :
    (duration interval n : ℕ) (prometheus : String)
    → rounds (get_or "warmup_s" (int (pos 0)) (config_of duration interval prometheus end)) ≡ ok n
    → n ≡ 0
unfolding config_of base_config rounds get_or lookup merge
no_warmup duration interval n prometheus h = sym (ok_injective h)

-- If the command ends with exit code 0, its arguments are valid, both Prometheus and the control plane
-- are at a loopback address, the namespace carries the testbed's label, and each of its rounds was
-- answered in full and gave a good row, as many as the duration has intervals.
pub main-IsPassed :
    (d : Doubles) (site : Site) (a : Arguments) → exit_code (main d site a) ≡ 0 → IsPassed d site a
unfolding main
main-IsPassed d site a h = elim (Bool-cases (valid_arguments a.duration a.interval)) [
  | inl valid ↦
      let duration = pos_part a.duration in
      let interval = pos_part a.interval in
      let (v, ending, passed) = exit_zero _ (rw valid at h) in
      let (c, collected, same) = ending_of_sound _ v ending in
      let (target, is_target, all_done) =
        >>=-eq-ok (validate_target site.net a.prometheus) _ collected in
      let seen = collect_all-IsCollected d site duration interval target end c all_done in
      let none = no_warmup duration interval seen.rounds_of_warmup target seen.is_warmup in
      record {
        arguments = valid;
        target = validate_target-IsTarget site.net a.prometheus is_target;
        testbed = seen.testbed;
        pods = seen.pods;
        are_pods = seen.are_pods;
        faultless = at_warmup d duration interval seen.pods site.ticks none (
            collected-IsFaultless seen (collected-reasons seen (ap (λ x. x.passed) same ∙ passed)));
      }
  | inr refused ↦ absurd (refused_code _ (rw refused at h))
]
