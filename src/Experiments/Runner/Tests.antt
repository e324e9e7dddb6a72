-- ===== src/Experiments/Runner/Tests.antt =====
-- The theorems on a run, applied to one that passes and to one whose load pod could not be created.
use kavach_ai.Common.{
  inf, ℕ, String, pos, true, ◌≡◌, refl, none, some, inl, inr, Option, List, [], ◌∷◌, ◌++◌, Listed,
}
use kavach_ai.Py.{Value, int, str, dict, end, field, Error, runtime_error, Result, ok, raised}
use kavach_ai.Example.Configuration.{experiment}
use kavach_ai.Example.Generator.{first_rng}
use kavach_ai.Example.Samples.{doubles, old, tick, cold}
use kavach_ai.Example.Collection.{cluster, site_of}
use kavach_ai.Collector.Sampling.{Tick}
use kavach_ai.Experiments.Stable.{Poll}
use kavach_ai.Experiments.Polling.{Look}
use kavach_ai.Experiments.Calibration.{Request}
use kavach_ai.Experiments.Runner.{
  Call, delete_config_map, create_config_map, create_pod, hpa_candidate, Autoscaler, World,
}
use kavach_ai.Experiments.Runner.Life.{run, exit_code}
use kavach_ai.Experiments.Runner.Reached.{IsHistory}
use kavach_ai.Experiments.Runner.Order.{run-IsHistory, config_map_left}
use kavach_ai.Workload.Config.{validate_config}
use kavach_ai.Experiments.Runner.Parts.{IsPrepared}
use kavach_ai.Experiments.Runner.Safe.{create_pod-IsPrepared}
use kavach_ai.Experiments.Runner.Passed.{IsPassed, run-IsPassed}

abbrev done : Result (Unit {0})
done = ok tt

-- ten rounds of the warmup, and one after it
abbrev rounds : List Tick
rounds =
    cold ∷ cold ∷ cold ∷ cold ∷ cold ∷ cold ∷ cold ∷ cold ∷ cold ∷ cold ∷ tick 3 (old ∷ []) ∷ []

abbrev poll : ℕ → Poll
poll now = record {
  entered = now;
  ready_replicas = some 2;
  replicas = some 2;
  started = now;
  checked = now;
}

-- the file is there at the second look
abbrev looks : List Look
looks =
    record {
      entered = 1;
      output = ok (record { returncode = pos 1; json = raised (runtime_error "no file") });
    }
    ∷ record {
      entered = 2;
      output =
          ok
            (record { returncode = pos 0; json = ok (dict (field "exit_code" (int (pos 0)) end)) });
    }
    ∷ []

abbrev request : ℕ → Request
request offset = record { offset = offset; response = some (record { status = 200; latency = 9 }) }

abbrev pub world : World
world = record {
  tracked_changes = ok "";
  clients = cluster;
  autoscalers = ok (record { name = "old"; target = "payment-api" } ∷ []);
  autoscaler_deleted = λ name. done;
  scaled = done;
  now = 0;
  second = 1;
  polls = ok (poll 3 ∷ poll 14 ∷ []);
  applied = done;
  deployment = done;
  listed = done;
  service = ok (record { kind = "ClusterIP"; selector = ("app", "payment-api") ∷ [] });
  config_map_created = done;
  pod_created = done;
  ready_deadline = 120;
  ready = looks;
  image_id = ok "sha256:0";
  authorized = done;
  collector = site_of rounds;
  exit_deadline = 45;
  exit = looks;
  copied = done;
  replay = ok (record { generator_valid = true; trace_hash = "h" });
  requests = ok (request 20 ∷ request 21 ∷ []);
  exceptions = ok 0;
  copied_again = done;
  pod_deleted = done;
  config_map_deleted = done;
  format = record { offset = λ o. inf; dumps = λ v. ""; sha256_hex = λ s. "h" };
}

-- the same, but the load pod cannot be created
abbrev refused : World
refused = record world { pod_created = raised (runtime_error "no quota") }

run-IsHistory_example :
    IsHistory refused (run first_rng doubles refused hpa_candidate 2 experiment).0.calls
run-IsHistory_example = run-IsHistory first_rng doubles refused hpa_candidate 2 experiment

refused-calls :
    Listed create_config_map (run first_rng doubles refused hpa_candidate 2 experiment).0.calls
unfolding run kavach_ai.Experiments.Runner.◌>>=◌ kavach_ai.Experiments.Runner.give
    kavach_ai.Workload.Config.validate_config kavach_ai.Workload.Config.is_plain_int
    kavach_ai.Py.get kavach_ai.Workload.Config.int_within kavach_ai.Workload.Config.check_mix
    kavach_ai.Workload.Config.is_nonempty_list kavach_ai.Workload.Config.check_stages
    kavach_ai.Workload.Config.check_stage kavach_ai.Workload.Config.warmup_within
    kavach_ai.Py.subscript kavach_ai.Experiments.Runner.change kavach_ai.Experiments.Runner.call
    kavach_ai.Experiments.Stable.wait_stable kavach_ai.Workload.Trace.compile_trace
    kavach_ai.Workload.Trace.weights_from kavach_ai.Collector.Query.prom_query
    kavach_ai.Collector.Query.single kavach_ai.Collector.Rows.row_reasons
    kavach_ai.Collector.Rows.rows_reasons kavach_ai.Collector.Rows.validate_rows
    kavach_ai.Collector.Sampling.ask kavach_ai.Collector.Sampling.collect
    kavach_ai.Collector.Sampling.good_sample kavach_ai.Collector.Sampling.measure
    kavach_ai.Collector.Sampling.sample kavach_ai.Collector.Sampling.sample_all
    kavach_ai.Collector.Sampling.write_events kavach_ai.Common.float_unit
    kavach_ai.Experiments.Calibration.at kavach_ai.Experiments.Calibration.dispatched
    kavach_ai.Experiments.Calibration.insert kavach_ai.Experiments.Calibration.keep
    kavach_ai.Experiments.Calibration.percentile kavach_ai.Experiments.Calibration.sorted_latencies
    kavach_ai.Experiments.Polling.wait_file kavach_ai.Experiments.Runner.Life.attempt
    kavach_ai.Experiments.Runner.Life.body kavach_ai.Experiments.Runner.Life.clean
    kavach_ai.Experiments.Runner.Life.delete_autoscalers kavach_ai.Experiments.Runner.Life.finish
    kavach_ai.Experiments.Runner.Life.is_odd kavach_ai.Experiments.Runner.Life.judge
    kavach_ai.Experiments.Runner.Life.offer kavach_ai.Experiments.Runner.Life.operate
    kavach_ai.Experiments.Runner.Life.prepare kavach_ai.Experiments.Runner.Life.refuse
    kavach_ai.Experiments.Runner.Life.summarize kavach_ai.Experiments.Runner.complain_if
    kavach_ai.Py.element kavach_ai.Py.get_of kavach_ai.Py.len kavach_ai.Py.truthy
    kavach_ai.Py.eq_float kavach_ai.Py.eq_value kavach_ai.Py.get_or kavach_ai.Py.lookup
    kavach_ai.Workload.Config.bad_weight kavach_ai.Workload.Config.is_one_of
    kavach_ai.Workload.Config.same_set kavach_ai.Workload.Config.set_of
    kavach_ai.Workload.Config.sum_weights kavach_ai.Workload.Config.unhashable
    kavach_ai.Workload.Config.values_of kavach_ai.Workload.Trace.append_row
    kavach_ai.Workload.Trace.iterate kavach_ai.Workload.Trace.rounds
    kavach_ai.Workload.Trace.run_seconds kavach_ai.Workload.Trace.run_slots
    kavach_ai.Workload.Trace.run_stages kavach_ai.Collector.Clients.make_clients
    kavach_ai.Collector.Clients.part_of kavach_ai.Collector.Clients.replace_first
    kavach_ai.Collector.Command.base_config kavach_ai.Collector.Command.collect_all
    kavach_ai.Collector.Command.config_of kavach_ai.Collector.Command.insert_text
    kavach_ai.Collector.Command.metadata_of kavach_ai.Collector.Command.query_fields
    kavach_ai.Collector.Command.sorted_set kavach_ai.Common.drop_chars kavach_ai.Common.starts_with
    kavach_ai.Py.put kavach_ai.Py.merge kavach_ai.Smoke.Target.rstrip_slash
    kavach_ai.Smoke.Target.validate_target kavach_ai.Experiments.Runner.Documents.run_config
refused-calls = inr (inl refl)

config_map_left_example :
    ¬ Listed delete_config_map (run first_rng doubles refused hpa_candidate 2 experiment).0.calls
config_map_left_example =
    config_map_left first_rng doubles refused hpa_candidate 2 experiment _ refl

world-run :
    (exit_code (run first_rng doubles world hpa_candidate 2 experiment) ≡ 0)
    × Listed create_pod (run first_rng doubles world hpa_candidate 2 experiment).0.calls
unfolding run kavach_ai.Experiments.Runner.◌>>=◌ kavach_ai.Experiments.Runner.give
    kavach_ai.Workload.Config.validate_config kavach_ai.Workload.Config.is_plain_int
    kavach_ai.Py.get kavach_ai.Workload.Config.int_within kavach_ai.Workload.Config.check_mix
    kavach_ai.Workload.Config.is_nonempty_list kavach_ai.Workload.Config.check_stages
    kavach_ai.Workload.Config.check_stage kavach_ai.Workload.Config.warmup_within
    kavach_ai.Py.subscript kavach_ai.Experiments.Runner.change kavach_ai.Experiments.Runner.call
    kavach_ai.Experiments.Stable.wait_stable kavach_ai.Workload.Trace.compile_trace
    kavach_ai.Workload.Trace.weights_from kavach_ai.Collector.Query.prom_query
    kavach_ai.Collector.Query.single kavach_ai.Collector.Rows.row_reasons
    kavach_ai.Collector.Rows.rows_reasons kavach_ai.Collector.Rows.validate_rows
    kavach_ai.Collector.Sampling.ask kavach_ai.Collector.Sampling.collect
    kavach_ai.Collector.Sampling.good_sample kavach_ai.Collector.Sampling.measure
    kavach_ai.Collector.Sampling.sample kavach_ai.Collector.Sampling.sample_all
    kavach_ai.Collector.Sampling.write_events kavach_ai.Common.float_unit
    kavach_ai.Experiments.Calibration.at kavach_ai.Experiments.Calibration.dispatched
    kavach_ai.Experiments.Calibration.insert kavach_ai.Experiments.Calibration.keep
    kavach_ai.Experiments.Calibration.percentile kavach_ai.Experiments.Calibration.sorted_latencies
    kavach_ai.Experiments.Polling.wait_file kavach_ai.Experiments.Runner.Life.attempt
    kavach_ai.Experiments.Runner.Life.body kavach_ai.Experiments.Runner.Life.clean
    kavach_ai.Experiments.Runner.Life.delete_autoscalers kavach_ai.Experiments.Runner.Life.finish
    kavach_ai.Experiments.Runner.Life.is_odd kavach_ai.Experiments.Runner.Life.judge
    kavach_ai.Experiments.Runner.Life.offer kavach_ai.Experiments.Runner.Life.operate
    kavach_ai.Experiments.Runner.Life.prepare kavach_ai.Experiments.Runner.Life.refuse
    kavach_ai.Experiments.Runner.Life.summarize kavach_ai.Experiments.Runner.complain_if
    kavach_ai.Py.element kavach_ai.Py.get_of kavach_ai.Py.len kavach_ai.Py.truthy
    kavach_ai.Py.eq_float kavach_ai.Py.eq_value kavach_ai.Py.get_or kavach_ai.Py.lookup
    kavach_ai.Workload.Config.bad_weight kavach_ai.Workload.Config.is_one_of
    kavach_ai.Workload.Config.same_set kavach_ai.Workload.Config.set_of
    kavach_ai.Workload.Config.sum_weights kavach_ai.Workload.Config.unhashable
    kavach_ai.Workload.Config.values_of kavach_ai.Workload.Trace.append_row
    kavach_ai.Workload.Trace.iterate kavach_ai.Workload.Trace.rounds
    kavach_ai.Workload.Trace.run_seconds kavach_ai.Workload.Trace.run_slots
    kavach_ai.Workload.Trace.run_stages kavach_ai.Workload.Trace.Rows.trace_hash
    kavach_ai.Collector.Clients.make_clients kavach_ai.Collector.Clients.part_of
    kavach_ai.Collector.Clients.replace_first kavach_ai.Collector.Command.base_config
    kavach_ai.Collector.Command.collect_all kavach_ai.Collector.Command.config_of
    kavach_ai.Collector.Command.insert_text kavach_ai.Collector.Command.metadata_of
    kavach_ai.Collector.Command.query_fields kavach_ai.Collector.Command.sorted_set
    kavach_ai.Common.drop_chars kavach_ai.Common.starts_with kavach_ai.Py.put kavach_ai.Py.merge
    kavach_ai.Smoke.Target.rstrip_slash kavach_ai.Smoke.Target.validate_target
    kavach_ai.Experiments.Runner.Documents.run_config
world-run = (refl, inr (inr (inr (inr (inl refl)))))

run-IsPassed_example : IsPassed first_rng doubles world 2 experiment
run-IsPassed_example = run-IsPassed first_rng doubles world hpa_candidate 2 experiment world-run.0

create_pod-IsPrepared_example :
    (validate_config experiment ≡ ok experiment)
    × (world.tracked_changes ≡ ok "")
    × IsPrepared world 2
create_pod-IsPrepared_example =
    create_pod-IsPrepared first_rng doubles world hpa_candidate 2 experiment world-run.1
