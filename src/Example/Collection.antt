-- ===== src/Example/Collection.antt =====
-- A site of the collector: the local control plane, with the labels of the testbed.
use kavach_ai.Common.{true, some, List, [], ◌∷◌}
use kavach_ai.Py.{str, field, end, ok}
use kavach_ai.Smoke.Target.{Net}
use kavach_ai.Collector.Sampling.{Tick}
use kavach_ai.Collector.Clients.{Cluster}
use kavach_ai.Collector.Command.{Site}
use kavach_ai.Example.Samples.{old}

-- every text is a URL of the loopback address
abbrev pub net : Net
net = record {
  urlsplit = λ url. ok (record {
    scheme = "http";
    username = "";
    password = "";
    path = "";
    query = "";
    fragment = "";
    hostname = "127.0.0.1";
  });
  is_loopback = λ host. ok true;
}

abbrev pub cluster : Cluster
cluster = record {
  host = ok "https://127.0.0.1:6443";
  labels = ok (some (field "app.kubernetes.io/part-of" (str "kavach-ai") end));
}

abbrev pub site_of : List Tick → Site
site_of ticks = record {
  net = net;
  cluster = cluster;
  version = ok (str "v1.31");
  pods = ok (old ∷ []);
  commit = ok "d9f86b1";
  config_hash = λ conf. "c0ffee";
  run_id = "run";
  metric_path = "run/metrics.parquet";
  platform = "Linux";
  start_utc = "2026-01-01T00:00:00+00:00";
  end_utc = "2026-01-01T00:01:00+00:00";
  ticks = ticks;
}
