-- ===== src/Runtime/Examples.antt =====
-- rust/crates/pg-runtime/src/lib.rs: the theorems at a concrete environment and checklist.
use pg_tsy_core_bootstrap.Prelude.{
  String, true, false, Option, some, none, ◌≡◌, ◌↔◌, [], ◌==◌, string_eq, if◌then◌else◌, All,
  is_some,
}
use pg_tsy_core_bootstrap.Runtime.Config.{RunMode, ShutdownPolicy, RunConfig}
use pg_tsy_core_bootstrap.Runtime.Gates.{new, ready_for, required_gates, blocking_gates}
use pg_tsy_core_bootstrap.Runtime.GateLaws.{replay, HasPassed, ready_for_iff}

abbrev sample_env : String → Option String
sample_env key = if key == "PG_INSTANCE_ID" then some "node-1" else none

abbrev sample_config : RunConfig
sample_config = record {
  environment = "dev";
  instance_id = "node-1";
  mode = RunMode.shadow;
  live_trading_enabled = false;
  shutdown_policy = ShutdownPolicy.cancel_resting;
  max_market_staleness_ms = 3000;
  lease_ttl_seconds = 15;
}

ready_for_iff_example :
    (is_some (ready_for (replay new []) RunMode.shadow) ≡ true)
    × ((ready_for (replay new []) RunMode.shadow ≡ some true)
        ↔ All (HasPassed []) (required_gates RunMode.shadow))
    × ((blocking_gates (replay new []) RunMode.shadow ≡ some [])
        ↔ All (HasPassed []) (required_gates RunMode.shadow))
ready_for_iff_example = ready_for_iff [] RunMode.shadow
