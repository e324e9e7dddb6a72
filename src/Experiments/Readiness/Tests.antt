-- ===== src/Experiments/Readiness/Tests.antt =====
-- The measurement of readiness where the second request for two replicas fails.
use kavach_ai.Common.{ℕ, false, ◌≡◌, refl, some, List, [], ◌∷◌, eqb, if◌then◌else◌}
use kavach_ai.Py.{Result, ok, raised, runtime_error}
use kavach_ai.Example.Collection.{net, cluster}
use kavach_ai.Experiments.Readiness.{Check, Round, Site, main}
use kavach_ai.Experiments.Readiness.Restored.{Handled, main-Handled}

abbrev done : Result (Unit {0})
done = ok tt

-- so many replicas are ready at once
abbrev ready : ℕ → List Check
ready n =
    record { entered = 1; status = ok (record { ready_replicas = some n; replicas = some n }) } ∷ []

abbrev round : ℕ → Round
round i = record {
  scaled_down = done;
  down_deadline = 90;
  down = ready 1;
  asked = 4;
  scaled_up = if eqb i 1 then raised (runtime_error "gone") else done;
  up_deadline = 90;
  up = ready 2;
  reached = 9;
  pods = done;
}

abbrev site : Site
site = record {
  net = net;
  clients = cluster;
  load_pods = ok false;
  autoscalers = ok false;
  rounds = round;
  restored = done;
}

site-calls : (main site).0 ≡ 1 ∷ 2 ∷ 1 ∷ 2 ∷ 1 ∷ []
unfolding main kavach_ai.Collector.Clients.make_clients kavach_ai.Smoke.Target.validate_target
    kavach_ai.Py.get
site-calls = refl

main-Handled_example : Handled site (main site).0
main-Handled_example = main-Handled site
