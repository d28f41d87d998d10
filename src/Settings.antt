-- ===== src/Settings.antt =====
-- app/config/settings.py: the settings that the modelled code reads, with their defaults, and the
-- validators. An `int` of the source is ℤ, so a negative setting is a value like any other.
use arbitrage_bot.Base.{
  Bool, List, String, [], contains, false, if◌then◌else◌, nat_eq, string_eq, true, ◌==◌, ◌∷◌,
}
use arbitrage_bot.Base.Int.{pos, ℤ}
use arbitrage_bot.Base.Text.{lower, split_comma, strip}
use arbitrage_bot.Decimal.{Decimal, dec}

pub data RunMode : Type 0 where
  stopped paper live : RunMode

pub record Settings : Type 0 where
  pub mode : RunMode
  pub live_enable_flag : Bool
  pub live_execution_enabled : Bool
  pub live_confirmation_token : String
  pub allow_live_without_token : Bool
  pub control_api_token : String
  pub global_kill_switch : Bool
  pub hyperevm_chain_id : ℤ
  pub allowlisted_tokens : String
  pub allowlisted_routers : String
  pub live_min_net_edge_bps : ℤ
  pub live_min_edge_persist_seconds : ℤ
  pub live_max_slippage_bps : ℤ
  pub live_min_profit_absolute_usdc : Decimal
  pub live_max_notional_usdc : Decimal
  pub live_max_notional_pct_of_smaller_pool : Decimal
  pub live_max_trades_per_route_per_10m : ℤ
  pub live_max_consecutive_failures_per_route : ℤ
  pub live_max_consecutive_losses_per_route : ℤ
  pub route_failure_cooldown_seconds : ℤ
  pub route_fatal_failure_cooldown_seconds : ℤ
  pub global_daily_dd_stop_pct : Decimal
  pub global_stale_quote_stop_seconds : ℤ
  pub health_snapshot_stale_seconds : ℤ
  pub live_min_fee_confidence_status : String
  pub live_min_balance_confidence_status : String
  pub live_min_quote_match_status : String
  pub balance_verify_tolerance_abs : Decimal
  pub balance_verify_tolerance_ratio : Decimal
  pub hyperevm_wallet_address : String
  pub depeg_threshold_bps : ℤ
  pub rpc_error_rate_stop_pct_5m : Decimal
  pub gas_spike_multiplier : Decimal
  pub liquidity_drop_stop_pct : Decimal
  pub shadow_min_net_edge_bps : ℤ
  pub shadow_min_edge_persist_seconds : ℤ
  pub shadow_max_slippage_bps : ℤ
  pub shadow_notional_usdc : Decimal
  pub shadow_stale_quote_seconds : ℤ
  pub shadow_min_fee_confidence_for_readiness : String
  pub shadow_min_balance_confidence_for_readiness : String
  pub shadow_min_quote_match_for_readiness : String
  pub commissioning_live_min_observation_days : ℤ
  pub commissioning_live_min_market_snapshots : ℤ
  pub commissioning_live_min_opportunities : ℤ
  pub commissioning_live_min_backtest_runs_market_snapshots : ℤ
  pub commissioning_live_min_backtest_runs_opportunities : ℤ
  pub commissioning_live_max_quote_unavailable_rate : Decimal
  pub commissioning_shadow_min_observation_days : ℤ
  pub commissioning_shadow_min_market_snapshots : ℤ
  pub commissioning_shadow_min_opportunities : ℤ
  pub commissioning_shadow_min_backtest_runs_total : ℤ
  pub commissioning_shadow_max_quote_unavailable_rate : Decimal
  pub commissioning_warn_health_unknown_rate : Decimal
  pub commissioning_fail_health_unknown_rate : Decimal
  pub commissioning_warn_fee_unverified_rate : Decimal
  pub commissioning_fail_fee_unverified_rate : Decimal
  pub commissioning_warn_balance_unverified_rate : Decimal
  pub commissioning_fail_balance_unverified_rate : Decimal
  pub commissioning_warn_quote_mismatch_rate : Decimal
  pub commissioning_fail_quote_mismatch_rate : Decimal
  pub cost_quote_drift_buffer_bps : ℤ
  pub cost_slippage_buffer_bps : ℤ
  pub cost_router_overhead_bps : ℤ
  pub cost_failed_tx_allowance_bps : ℤ
  pub cost_safety_margin_bps : ℤ
  pub alert_failure_stop_threshold : ℤ
  pub use_mock_market_data : Bool
  pub gas_price_gwei_default : Decimal
  pub gas_token_price_usdc : Decimal

abbrev pub default_settings : Settings
default_settings = record {
  mode = paper;
  live_enable_flag = false;
  live_execution_enabled = false;
  live_confirmation_token = "DISABLED";
  allow_live_without_token = false;
  control_api_token = "change-me";
  global_kill_switch = false;
  hyperevm_chain_id = pos 999;
  allowlisted_tokens =
      "0x0000000000000000000000000000000000000001,0x0000000000000000000000000000000000000002";
  allowlisted_routers = "0x0000000000000000000000000000000000000010";
  live_min_net_edge_bps = (pos 30);
  live_min_edge_persist_seconds = (pos 8);
  live_max_slippage_bps = (pos 2);
  live_min_profit_absolute_usdc = (dec 50 2);
  live_max_notional_usdc = (dec 100 0);
  live_max_notional_pct_of_smaller_pool = (dec 2 4);
  live_max_trades_per_route_per_10m = (pos 3);
  live_max_consecutive_failures_per_route = (pos 1);
  live_max_consecutive_losses_per_route = (pos 2);
  route_failure_cooldown_seconds = (pos 300);
  route_fatal_failure_cooldown_seconds = (pos 900);
  global_daily_dd_stop_pct = (dec 5 3);
  global_stale_quote_stop_seconds = (pos 3);
  health_snapshot_stale_seconds = (pos 30);
  live_min_fee_confidence_status = "chain_verified";
  live_min_balance_confidence_status = "wallet_verified";
  live_min_quote_match_status = "matched";
  balance_verify_tolerance_abs = (dec 1 2);
  balance_verify_tolerance_ratio = (dec 1 2);
  hyperevm_wallet_address = "";
  depeg_threshold_bps = (pos 50);
  rpc_error_rate_stop_pct_5m = (dec 5 2);
  gas_spike_multiplier = (dec 15 1);
  liquidity_drop_stop_pct = (dec 30 2);
  shadow_min_net_edge_bps = (pos 125);
  shadow_min_edge_persist_seconds = (pos 20);
  shadow_max_slippage_bps = (pos 10);
  shadow_notional_usdc = (dec 100 0);
  shadow_stale_quote_seconds = (pos 5);
  shadow_min_fee_confidence_for_readiness = "fallback_only";
  shadow_min_balance_confidence_for_readiness = "internal_ok";
  shadow_min_quote_match_for_readiness = "matched";
  commissioning_live_min_observation_days = (pos 14);
  commissioning_live_min_market_snapshots = (pos 5000);
  commissioning_live_min_opportunities = (pos 300);
  commissioning_live_min_backtest_runs_market_snapshots = (pos 3);
  commissioning_live_min_backtest_runs_opportunities = (pos 3);
  commissioning_live_max_quote_unavailable_rate = (dec 5 2);
  commissioning_shadow_min_observation_days = (pos 7);
  commissioning_shadow_min_market_snapshots = (pos 3000);
  commissioning_shadow_min_opportunities = (pos 200);
  commissioning_shadow_min_backtest_runs_total = (pos 2);
  commissioning_shadow_max_quote_unavailable_rate = (dec 10 2);
  commissioning_warn_health_unknown_rate = (dec 10 2);
  commissioning_fail_health_unknown_rate = (dec 20 2);
  commissioning_warn_fee_unverified_rate = (dec 20 2);
  commissioning_fail_fee_unverified_rate = (dec 40 2);
  commissioning_warn_balance_unverified_rate = (dec 20 2);
  commissioning_fail_balance_unverified_rate = (dec 40 2);
  commissioning_warn_quote_mismatch_rate = (dec 10 2);
  commissioning_fail_quote_mismatch_rate = (dec 20 2);
  cost_quote_drift_buffer_bps = (pos 3);
  cost_slippage_buffer_bps = (pos 2);
  cost_router_overhead_bps = (pos 1);
  cost_failed_tx_allowance_bps = (pos 2);
  cost_safety_margin_bps = (pos 2);
  alert_failure_stop_threshold = (pos 10);
  use_mock_market_data = true;
  gas_price_gwei_default = (dec 5 2);
  gas_token_price_usdc = (dec 2500 0);
}

-- `RunMode.LIVE == mode`
abbrev pub is_live : RunMode → Bool
is_live live = true
is_live _ = false

-- `_normalize_mode` on a text
unfoldable pub normalize_mode : String → RunMode
normalize_mode value =
    let normalized = lower (strip value) in
    if normalized == "stopped" then stopped else if normalized == "live" then live else paper

-- a validator: the text in the allowed set, or the fallback
unfoldable pub allowed_or : List String → String → String → String
unfolding contains
allowed_or allowed fallback value =
    let normalized = lower (strip value) in
    if contains normalized allowed then normalized else fallback

-- `_normalize_fee_confidence_status` and the four validators like it
unfoldable pub valid_live_fee : String → String
unfolding allowed_or
valid_live_fee =
    allowed_or
      ("unknown" ∷ "fallback_only" ∷ "config_only" ∷ "venue_declared" ∷ "acct_verified"
        ∷ "chain_verified" ∷ [])
      "chain_verified"

unfoldable pub valid_live_balance : String → String
unfolding allowed_or
valid_live_balance =
    allowed_or
      ("unknown" ∷ "internal_ok" ∷ "db_inventory_ok" ∷ "wallet_verified" ∷ "venue_verified" ∷ [])
      "wallet_verified"

unfoldable pub valid_live_quote_match : String → String
unfolding allowed_or
valid_live_quote_match = allowed_or ("unknown" ∷ "mismatch" ∷ "matched" ∷ []) "matched"

unfoldable pub valid_shadow_fee : String → String
unfolding allowed_or
valid_shadow_fee =
    allowed_or
      ("unknown" ∷ "fallback_only" ∷ "config_only" ∷ "venue_declared" ∷ "acct_verified"
        ∷ "chain_verified" ∷ [])
      "fallback_only"

unfoldable pub valid_shadow_balance : String → String
unfolding allowed_or
valid_shadow_balance =
    allowed_or
      ("unknown" ∷ "mismatch" ∷ "internal_ok" ∷ "db_inventory_ok" ∷ "wallet_verified"
        ∷ "venue_verified" ∷ [])
      "internal_ok"

unfoldable pub valid_shadow_quote_match : String → String
unfolding allowed_or
valid_shadow_quote_match = allowed_or ("unknown" ∷ "mismatch" ∷ "matched" ∷ []) "matched"

-- the sets behind `allowlisted_tokens_set` and `allowlisted_routers_set`
unfoldable pub allowlist_items : List String → List String
allowlist_items [] = []
allowlist_items (x ∷ xs) =
    let rest = allowlist_items xs in if strip x == "" then rest else lower (strip x) ∷ rest

unfoldable pub allowlisted_tokens_set : Settings → List String
unfolding allowlist_items
allowlisted_tokens_set s = allowlist_items (split_comma s.allowlisted_tokens)

unfoldable pub allowlisted_routers_set : Settings → List String
unfolding allowlist_items
allowlisted_routers_set s = allowlist_items (split_comma s.allowlisted_routers)
