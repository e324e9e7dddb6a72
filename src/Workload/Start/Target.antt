-- ===== src/Workload/Start/Target.antt =====
-- What `TraceReplay.on_start` has checked, and the service's own answer to its probe.
use text.Mathlib.Text.{◌==◌}
use kavach_ai.Common.{
  String, true, not, ◌||◌, ◌≡◌, ◌≢◌, refl, List, [], ◌∷◌, all, All, eqb, eqb_iff, eq_iff, and_true,
  or_false, not-false,
}
use kavach_ai.Py.{
  Value, str, bool, end, field, dict, Fields, get, get_or, lookup, eq_text, eq_text_sound,
  HasUniqueKeys, ok, raise_if-eq-ok, >>=-eq-ok,
}
use kavach_ai.Api.Reply.{returned}
use kavach_ai.Api.Requests.{health}
use kavach_ai.Workload.Config.{validate_config}
use kavach_ai.Workload.Config.Valid.{Config, IsConfig}
use kavach_ai.Workload.Config.Laws.{validate_config_iff}
use kavach_ai.Workload.Rng.{Rng, IsRng}
use kavach_ai.Workload.Trace.{Row, compile_trace}
use kavach_ai.Workload.Trace.Compiled.{IsTrace, compile_trace-IsTrace}
use kavach_ai.Workload.Start.{Site, is_only, service_of, origin_of, on_start}

-- the address is private, the service's name and the host lead to it alone, and the fixture answers
pub record IsTarget (site : Site) : Type 0 where
  pub private : site.is_private site.expected ≡ ok true
  pub only : All (λ a. a ≡ site.expected) site.resolved
  pub found : site.resolved ≢ []
  pub host : site.host ≡ origin_of site.expected
  pub status : site.status ≡ 200
  pub service : service_of site.body ≡ ok (str "kavach-synthetic-payment")

all_equal :
    (address : String) (rest : List String)
    → all (λ b. b == address) rest ≡ true
    → All (λ a. a ≡ address) rest
all_equal address [] h = tt
all_equal address (a ∷ rest) h =
    let (same, others) = and_true (a == address) (all (λ b. b == address) rest) h in
    ((eq_iff a address).0 same, all_equal address rest others)

is_only_sound :
    (address : String) (found : List String)
    → is_only address found ≡ true
    → All (λ a. a ≡ address) found × (found ≢ [])
unfolding is_only
is_only_sound address [] h = absurd (cc h)
is_only_sound address (a ∷ rest) h =
    let (same, others) = and_true (a == address) (all (λ b. b == address) rest) h in
    (((eq_iff a address).0 same, all_equal address rest others), λ e. cc e)

kept :
    (r : Rng) (scenario config' config : Fields) (trace' trace : List Row)
    → scenario ≡ config'
    → config' ≡ config
    → trace' ≡ trace
    → validate_config scenario ≡ ok config'
    → compile_trace r config' ≡ ok trace'
    → (config ≡ scenario)
      × (validate_config config ≡ ok config)
      × (compile_trace r config ≡ ok trace)
kept r scenario config' config trace' trace a b t v c = (cc, cc, cc)

health_service :
    (v : Value) → health ≡ returned v → service_of v ≡ ok (str "kavach-synthetic-payment")
unfolding health service_of get get_or lookup
health_service v answer =
    let body : dict (
          field "status" (str "ok")
            (field "service" (str "kavach-synthetic-payment") (field "synthetic" (bool true) end)))
        ≡ v =
      cc answer in
    rw (← body) refl

-- A start that succeeds goes to a private address, to which alone the service's name and the host
-- lead, and where the synthetic fixture answers; its configuration is valid, and its trace is the
-- compiled one.
pub on_start-IsTarget :
    (r : Rng) (site : Site) (config : Fields) (trace : List Row)
    → on_start r site ≡ ok (config, trace)
    → IsTarget site
      × (config ≡ site.scenario)
      × (validate_config config ≡ ok config)
      × (compile_trace r config ≡ ok trace)
unfolding on_start
on_start-IsTarget r site config trace h =
    let (private, p, h1) = >>=-eq-ok (site.is_private site.expected) _ h in
    let (is_private, h2) = raise_if-eq-ok (not private) _ _ h1 in
    let (agree, h3) =
      raise_if-eq-ok
        (not (is_only site.expected site.resolved) || not (site.host == origin_of site.expected)) _
        _ h2 in
    let (answered, h4) = raise_if-eq-ok (not (eqb site.status 200)) _ _ h3 in
    let (service, s, h5) = >>=-eq-ok (service_of site.body) _ h4 in
    let (fixture, h6) = raise_if-eq-ok (not (eq_text "kavach-synthetic-payment" service)) _ _ h5 in
    let (config', v, h7) = >>=-eq-ok (validate_config site.scenario) _ h6 in
    let (trace', c, h8) = >>=-eq-ok (compile_trace r config') _ h7 in
    let (lists, hosts) =
      or_false (not (is_only site.expected site.resolved))
        (not (site.host == origin_of site.expected)) agree in
    let (only, found) =
      is_only_sound site.expected site.resolved
        (not-false (is_only site.expected site.resolved) lists) in
    let (is_same, checked, compiled) =
      kept r site.scenario config' config trace' trace
        ((validate_config_iff site.scenario config').0 v).0 (cc h8) (cc h8) v c in
    (
      record {
        private = rw (not-false private is_private) at p;
        only = only;
        found = found;
        host = (eq_iff site.host (origin_of site.expected)).0 (not-false _ hosts);
        status = (eqb_iff site.status 200).0 (not-false (eqb site.status 200) answered);
        service = rw (eq_text_sound "kavach-synthetic-payment" service (not-false _ fixture)) at s;
      },
      is_same,
      checked,
      compiled,
    )

-- Where the service answers the probe with its own health and the checks of the addresses hold, a
-- valid configuration whose mix holds each key once is started, with a trace of the configuration.
pub on_start-health :
    (r : Rng) (laws : IsRng r) (site : Site) (c : Config)
    → site.is_private site.expected ≡ ok true
    → is_only site.expected site.resolved ≡ true
    → site.host ≡ origin_of site.expected
    → site.status ≡ 200
    → health ≡ returned site.body
    → IsConfig site.scenario c
    → HasUniqueKeys c.mix
    → (trace : List Row) × (on_start r site ≡ ok (site.scenario, trace)) × IsTrace c trace
unfolding on_start
on_start-health r laws site c private only host status answer valid unique =
    let (trace, compiled, is_trace) = compile_trace-IsTrace r laws site.scenario c valid unique in
    let accepted : validate_config site.scenario ≡ ok site.scenario =
      (validate_config_iff site.scenario site.scenario).1 (refl, c, valid) in
    let same_host : (site.host == origin_of site.expected) ≡ true =
      (eq_iff site.host (origin_of site.expected)).1 host in
    (
      trace,
      rw (private, only, same_host, status, health_service site.body answer, accepted, compiled)
          refl,
      is_trace,
    )
