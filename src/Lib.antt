-- ===== src/Lib.antt =====
-- Kavach AI: a verification library for the programs of this repository, a testbed that offers a
-- fixed load to a synthetic payment service and measures what happens.
--
-- The parts and how they interact. `workload/trace.py` turns a configuration into a trace of requests,
-- `workload/locustfile.py` sends the trace to the service `payment-api/app/main.py`, and
-- `collector/collect.py` samples the testbed and judges the samples. `scripts/create-scenarios.py`
-- writes the configurations, `experiments/run.py` prepares the cluster, starts the load and the
-- collector and judges the run, and `experiments/calibration.py` summarizes the answers by stage.
-- `scripts/smoke.py` is a short check of the service by itself.
--
-- Files:
--   Common, Py           helpers: Boolean tests, lists, texts, ints and doubles; the values of Python
--                        as JSON and YAML give them, exceptions, subscripts, merging of dicts
--   Workload/Config      workload/trace.py, validate_config (Config/Valid says what a valid
--                        configuration is, apart from the guards)
--   Workload/Trace       workload/trace.py, compile_trace; Workload/Rng is random.Random; Trace/Rows
--                        is trace_hash
--   Workload/Scenarios   scripts/create-scenarios.py, MIX, SHAPES and write
--   Workload/Start       workload/locustfile.py, TraceReplay.on_start
--   Workload/Issue       workload/locustfile.py, signed and TraceReplay.issue
--   Workload/Replay      workload/locustfile.py, TraceReplay.replay
--   Workload/Output      workload/locustfile.py, replay with the greenlets of issue, and the files
--   Workload/Entrypoint  workload/entrypoint.py
--   Api/Settings         payment-api/app/main.py, Settings
--   Api/Bodies           payment-api/app/main.py, Login, Payment and Confirmation
--   Api/Reply            how a handler ends: a value, an HTTPException or another exception
--   Api/Runtime          what the service calls: HMAC, SHA-256, JSON, base64
--   Api/Token            payment-api/app/main.py, sign, verify and identity
--   Api/Requests         payment-api/app/main.py, work and the handlers
--   Api/Serve            payment-api/app/main.py, the routes
--   Api/Metrics          payment-api/app/main.py, instrument
--   Api/App              payment-api/app/main.py, create_app
--   Api/Resources        payment-api/app/resources.py, CgroupCollector.collect
--   Collector/Query      collector/collect.py, QUERIES and prom_query
--   Collector/Sampling   collector/collect.py, the sampling loop of collect
--   Collector/Rows       collector/collect.py, REQUIRED and validate_rows
--   Collector/Clients    collector/collect.py, make_clients
--   Collector/Command    collector/collect.py, collect around its loop, and main
--   Experiments/Calibration  experiments/calibration.py, summarize; Calibration/Lines is what it reads
--   Experiments/Stable   experiments/run.py, the wait for stable replicas in run
--   Experiments/Polling  experiments/run.py, wait_file
--   Experiments/Runner   experiments/run.py, the state of run; Runner/Life is its code, and
--                        Runner/Documents what it hands to the collector and the cluster;
--                        Runner/Checksums is the last file of a run
--   Experiments/Readiness  experiments/readiness.py, wait_replicas and main
--   Smoke                scripts/smoke.py, the requests of main; Smoke/Target is validate_target,
--                        Smoke/Requests the requests that it sends, Smoke/Files main around them
--   Example, */Tests     concrete instances of the parameters, and the theorems applied to them
--
-- State. The service keeps no state but its metrics, so a handler is a function of the settings
-- and the request into a `Reply`; the metrics are a record that the middleware changes before and
-- after the call, and `Api/Metrics/Overlap` runs any number of such calls in any order. The replay
-- loop is a fold of `step` over the trace; the clock's readings and the requests that finish
-- meanwhile are read from a list of `Wake`, so a theorem over all such lists holds for every
-- schedule. The loop and the greenlets that write requests.jsonl with it are a step relation,
-- `Workload/Output`. The collector is a fold of `sample` over its rounds, each with what
-- Prometheus and the cluster answer. A run of an experiment is an `Action`: a function of the
-- state that returns or raises, whose calls to the cluster are logged when they are made, whether
-- they return or raise; what each call outside gives is a field of `World`.
--
-- Parameters. Code outside the repository is an argument with its documented laws: `Rng` with
-- `IsRng` (random.Random: choices returns a name of positive weight, randrange stays in its
-- range), `Runtime` with `IsRuntime` (hexdigest and base64 alphabets, base64 and JSON round trips,
-- decimal digits), and `Environment` (os.getenv and the number parsers). That HMAC cannot be
-- forged is no law here. What FastAPI answers to a path that is of no route is a field of
-- `Runtime` without a law, and json.loads may raise anything there. `Doubles` (products and
-- quotients of doubles, float of a text), `Format` (the doubles of a trace, and its JSON and
-- hash), `World`, `Site` and `Cluster` (what the calls of a run, of the collector and of the
-- cluster's client give), `Host` (of the service: the route of a request, and the text of the
-- metrics page; of the smoke check: git, times, JSON and its hash), `Net` (urlsplit and ipaddress)
-- and `Texts` (str methods and int) have no laws.
--
-- Numbers. Ints are exact. A finite double is an exact multiple of 2^-1074; the rounding of sums and
-- quotients of doubles is not modelled: an offset of the trace is kept by its operands, times of the
-- replay loop are whole ticks of a clock. No definition runs on fuel: every loop is a recursion on the
-- list or the number that it runs over.
--
-- Not modelled: the writing of files; threads and the greenlets' timing beyond their order; what
-- argparse and the print calls do, except for the arguments that are refused; the manifests of the
-- cluster. The key of a dict is a text and stands in it once.
pub mod Common
pub mod Py
pub mod Workload
pub mod Api
pub mod Collector
pub mod Experiments
pub mod Smoke
pub mod Example
