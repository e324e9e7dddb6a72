-- ===== src/Workload/Start.antt =====
-- `TraceReplay.on_start` of workload/locustfile.py: the checks that the load goes to the synthetic
-- service and nowhere else, and the trace that is then compiled.
pub mod Target
use text.Mathlib.Text.{◌==◌}
use kavach_ai.Common.{ℕ, String, cat, eqb, Bool, not, ◌&&◌, ◌||◌, List, [], ◌∷◌, all}
use kavach_ai.Py.{
  Value, dict, Fields, get, eq_text, runtime_error, attribute_error, Result, ok, raised, raise_if,
  ◌>>=◌, ◌>>◌,
}
use kavach_ai.Workload.Config.{validate_config}
use kavach_ai.Workload.Rng.{Rng}
use kavach_ai.Workload.Trace.{Row, compile_trace}

-- what `on_start` finds around it
pub record Site : Type 0 where
  -- `os.environ["KAVACH_SERVICE_IP"]`
  pub expected : String
  -- whether `ipaddress` places an address in one of the three RFC1918 networks, or its ValueError
  pub is_private : String → Result Bool
  -- the addresses that `socket.getaddrinfo` gives for the service's name
  pub resolved : List String
  pub host : String
  -- the answer to the probe of /health: its status and its JSON
  pub status : ℕ
  pub body : Value
  -- the content of /config/scenario.json
  pub scenario : Fields

-- `{...} == {address}`
unfoldable pub is_only : String → List String → Bool
is_only address [] = Bool.false
is_only address (a ∷ rest) = a == address && all (λ b. b == address) rest

-- `response.json().get("service")`
unfoldable pub service_of : Value → Result Value
service_of (dict d) = ok (get "service" d)
service_of _ = raised attribute_error

abbrev pub not_fixture : String
not_fixture = "Destination is not the synthetic fixture"

-- the host of the verified address
abbrev pub origin_of : String → String
origin_of address = cat "http://" (cat address ":8000")

-- the configuration and the trace that the replay then uses
unfoldable pub on_start : Rng → Site → Result (Fields × List Row)
unfolding is_only service_of
on_start r site = do
  private ← site.is_private site.expected
  raise_if (not private) (runtime_error "Target is not an RFC1918 test Service")
  raise_if (not (is_only site.expected site.resolved) || not (site.host == origin_of site.expected))
      (runtime_error "Service DNS and verified cluster Service IP disagree")
  raise_if (not (eqb site.status 200)) (runtime_error not_fixture)
  service ← service_of site.body
  raise_if (not (eq_text "kavach-synthetic-payment" service)) (runtime_error not_fixture)
  config ← validate_config site.scenario
  trace ← compile_trace r config
  ok (config, trace)
