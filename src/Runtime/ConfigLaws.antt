-- ===== src/Runtime/ConfigLaws.antt =====
-- What a configuration that was read from the environment guarantees.
use pg_tsy_core_bootstrap.Prelude.{
  ◌≤◌, ◌<◌, String, true, false, Option, some, ok, ◌≡◌, ◌↔◌, arith, is_blank,
}
use pg_tsy_core_bootstrap.Runtime.Config.{RunMode, RunConfig, from_env, routes_to_real_venue}

pub record IsSafe (env : String → Option String) (c : RunConfig) : Type 0 where
  pub named : env "PG_INSTANCE_ID" ≡ some c.instance_id
  pub not_blank : is_blank c.instance_id ≡ false
  pub live_enabled : c.mode ≡ RunMode.live → c.live_trading_enabled ≡ true
  pub fresh : 0 < c.max_market_staleness_ms
  pub leased : 5 ≤ c.lease_ttl_seconds

pub from_env-IsSafe :
    (env : String → Option String) (c : RunConfig) → from_env env ≡ ok c → IsSafe env c
unfolding from_env
from_env-IsSafe env c h = ground arith

-- A configuration that `from_env` accepts routes orders to a real venue exactly in the live mode.
pub routes_iff :
    (env : String → Option String) (c : RunConfig)
    → from_env env ≡ ok c
    → (routes_to_real_venue c ≡ true) ↔ (c.mode ≡ RunMode.live)
unfolding routes_to_real_venue
routes_iff env c h = ground (arith, from_env-IsSafe env c h)
