-- ===== src/Collector/Command/Tests.antt =====
-- The theorems on the collector's command, applied to a collection of two rounds.
use kavach_ai.Common.{ℕ, pos, true, ◌≡◌, refl, List, [], ◌∷◌, String}
use kavach_ai.Py.{str, end, field, Result, ok, Fields}
use kavach_ai.Example.Samples.{doubles, old, tick}
use kavach_ai.Example.Collection.{site_of}
use kavach_ai.Collector.Command.{
  Site, Arguments, Collected, config_of, status_of, collect_all, main, exit_code,
}
use kavach_ai.Collector.Command.Passed.{IsPassed, main-IsPassed}

abbrev site : Site
site = site_of (tick 1 (old ∷ []) ∷ tick 3 (old ∷ []) ∷ [])

abbrev arguments : Arguments
arguments = record { duration = pos 4; interval = pos 2; prometheus = "http://127.0.0.1:9090" }

command-exit_code : exit_code (main doubles site arguments) ≡ 0
unfolding main kavach_ai.Collector.Sampling.valid_arguments kavach_ai.Smoke.Target.validate_target
    kavach_ai.Collector.Clients.make_clients kavach_ai.Py.get kavach_ai.Py.subscript
    kavach_ai.Py.merge kavach_ai.Workload.Trace.rounds kavach_ai.Collector.Sampling.collect
    kavach_ai.Collector.Rows.validate_rows kavach_ai.Collector.Sampling.sample
    kavach_ai.Collector.Query.prom_query kavach_ai.Py.get_of kavach_ai.Py.truthy
    kavach_ai.Collector.Query.single kavach_ai.Py.len kavach_ai.Py.element
    kavach_ai.Collector.Clients.part_of kavach_ai.Collector.Clients.replace_first
    kavach_ai.Collector.Command.base_config collect_all config_of
    kavach_ai.Collector.Command.insert_text kavach_ai.Collector.Command.metadata_of
    kavach_ai.Collector.Command.query_fields kavach_ai.Collector.Command.sorted_set
    kavach_ai.Collector.Rows.row_reasons kavach_ai.Collector.Rows.rows_reasons
    kavach_ai.Collector.Sampling.ask kavach_ai.Collector.Sampling.good_sample
    kavach_ai.Collector.Sampling.measure kavach_ai.Collector.Sampling.sample_all
    kavach_ai.Collector.Sampling.write_events kavach_ai.Common.float_unit
    kavach_ai.Common.drop_chars kavach_ai.Common.starts_with kavach_ai.Py.eq_float kavach_ai.Py.put
    kavach_ai.Py.get_or kavach_ai.Py.lookup kavach_ai.Smoke.Target.rstrip_slash
command-exit_code = refl

main-IsPassed_example : IsPassed doubles site arguments
main-IsPassed_example = main-IsPassed doubles site arguments command-exit_code
