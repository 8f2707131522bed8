-- ===== src/Runtime/Config.antt =====
-- `RunConfig::from_env`. The process environment is an argument: a function from names to values.
use Prim.Native.Char.{Char, code}
use Prim.Native.String.{char_at}
use pg_tsy_core_bootstrap.Prelude.{
  ℕ, ◌+◌, ◌*◌, ◌-◌, String, Bool, true, false, not, ◌&&◌, ◌||◌, Option, none, some, Result, ok, err,
  ◌>>=◌, ◌>>◌, bail_if, ok_or, unwrap_or, leb, ltb, ◌==◌, nat_eq, string_eq, is_blank, u64_mod,
  if◌then◌else◌,
}

pub data RunMode : Type 0 where
  shadow paper live : RunMode

pub data ShutdownPolicy : Type 0 where
  preserve cancel_resting flatten_owned : ShutdownPolicy

pub data ConfigError : Type 0 where
  missing : String → ConfigError
  -- The key, and the text that was refused.
  invalid_value : String → String → ConfigError
  -- The check of the two bounds, whose text is the two numbers.
  invalid_bounds : ℕ → ℕ → ConfigError
  live_trading_not_enabled : ConfigError

pub record RunConfig : Type 0 where
  pub environment : String
  pub instance_id : String
  pub mode : RunMode
  pub live_trading_enabled : Bool
  pub shutdown_policy : ShutdownPolicy
  pub max_market_staleness_ms : ℕ
  pub lease_ttl_seconds : ℕ

-- `str::to_ascii_lowercase`.
abbrev pub lower : Char → Char
lower c =
    if leb 65 (code c) && leb (code c) 90
    then char_at "abcdefghijklmnopqrstuvwxyz" (code c - 65)
    else c

unfoldable pub to_ascii_lowercase : String → String
to_ascii_lowercase String.[] = String.[]
to_ascii_lowercase (String.◌∷◌ c s) = String.◌∷◌ (lower c) (to_ascii_lowercase s)

-- `RunMode::from_str` and `ShutdownPolicy::from_str`.
unfoldable pub parse_mode : String → Result RunMode ConfigError
unfolding to_ascii_lowercase
parse_mode value =
    let other = to_ascii_lowercase value in
    if other == "shadow"
    then ok RunMode.shadow
    else if other == "paper"
    then ok RunMode.paper
    else if other == "live"
    then ok RunMode.live
    else err (ConfigError.invalid_value "PG_RUN_MODE" other)

unfoldable pub parse_policy : String → Result ShutdownPolicy ConfigError
unfolding to_ascii_lowercase
parse_policy value =
    let other = to_ascii_lowercase value in
    if other == "preserve"
    then ok ShutdownPolicy.preserve
    else if other == "cancel_resting"
    then ok ShutdownPolicy.cancel_resting
    else if other == "flatten_owned"
    then ok ShutdownPolicy.flatten_owned
    else err (ConfigError.invalid_value "PG_SHUTDOWN_POLICY" other)

-- The match of `parse_bool` on a value that is set.
unfoldable pub bool_value : String → String → Result Bool ConfigError
unfolding to_ascii_lowercase
bool_value key value =
    let text = to_ascii_lowercase value in
    if text == "1" || text == "true" || text == "yes" || text == "on"
    then ok true
    else if text == "0" || text == "false" || text == "no" || text == "off"
    then ok false
    else err (ConfigError.invalid_value key value)

abbrev pub or_default {ℓ} :
    {A : Type ℓ} → Option String → A → (String → Result A ConfigError) → Result A ConfigError
or_default none default parse = ok default
or_default (some value) default parse = parse value

unfoldable pub parse_bool : (String → Option String) → String → Bool → Result Bool ConfigError
unfolding bool_value
parse_bool env key default = or_default (env key) default (bool_value key)

-- `str::parse::<u64>`: decimal digits, at least one, behind an optional `+`, within 64 bits.
unfoldable pub u64_digits : String → ℕ → Option ℕ
u64_digits String.[] n = some n
u64_digits (String.◌∷◌ c s) n =
    let value = n * 10 + (code c - 48) in
    let rest = u64_digits s value in
    if (leb 48 (code c) && leb (code c) 57) && ltb value u64_mod then rest else none

abbrev pub u64_unsigned : String → Option ℕ
u64_unsigned String.[] = none
u64_unsigned (String.◌∷◌ c s) = u64_digits (String.◌∷◌ c s) 0

unfoldable pub u64_text : String → Option ℕ
unfolding u64_digits
u64_text String.[] = none
u64_text (String.◌∷◌ c s) = if code c == 43 then u64_unsigned s else u64_digits (String.◌∷◌ c s) 0

unfoldable pub parse_u64 : (String → Option String) → String → ℕ → Result ℕ ConfigError
unfolding u64_text
parse_u64 env key default =
    or_default (env key) default
      λ value. ok_or (u64_text value) (ConfigError.invalid_value key value)

abbrev pub is_live : RunMode → Bool
is_live RunMode.live = true
is_live _ = false

unfoldable pub from_env : (String → Option String) → Result RunConfig ConfigError
from_env env = do
  let environment = unwrap_or (env "PG_ENV") "dev"
  instance_id ← ok_or (env "PG_INSTANCE_ID") (ConfigError.missing "PG_INSTANCE_ID")
  bail_if (is_blank instance_id) (ConfigError.invalid_value "PG_INSTANCE_ID" instance_id)
  mode ← parse_mode (unwrap_or (env "PG_RUN_MODE") "shadow")
  live_trading_enabled ← parse_bool env "PG_LIVE_TRADING" false
  bail_if (is_live mode && not live_trading_enabled) ConfigError.live_trading_not_enabled
  shutdown_policy ← parse_policy (unwrap_or (env "PG_SHUTDOWN_POLICY") "cancel_resting")
  max_market_staleness_ms ← parse_u64 env "PG_MAX_MARKET_STALENESS_MS" 3000
  lease_ttl_seconds ← parse_u64 env "PG_LEASE_TTL_SECONDS" 15
  bail_if (max_market_staleness_ms == 0 || ltb lease_ttl_seconds 5)
      (ConfigError.invalid_bounds max_market_staleness_ms lease_ttl_seconds)
  ok (record {
    environment = environment;
    instance_id = instance_id;
    mode = mode;
    live_trading_enabled = live_trading_enabled;
    shutdown_policy = shutdown_policy;
    max_market_staleness_ms = max_market_staleness_ms;
    lease_ttl_seconds = lease_ttl_seconds;
  })

unfoldable pub routes_to_real_venue : RunConfig → Bool
routes_to_real_venue self = is_live self.mode && self.live_trading_enabled
