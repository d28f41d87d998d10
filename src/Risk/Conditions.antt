-- ===== src/Risk/Conditions.antt =====
-- What `evaluate` asks, in the order of app/risk/manager.py, with the reason that it gives where a
-- condition is not met.
use arbitrage_bot.Base.{
  All, List, String, [], contains, false, if◌then◌else◌, length, nat_eq, string_eq, suc, true, ℕ,
  ◌++◌, ◌-◌, ◌==◌, ◌∷◌, ◌≡◌, ◌≢◌, ◌⊎◌,
}
use arbitrage_bot.Base.Dict.{get_or, lookup}
use arbitrage_bot.Base.Int.{pos, ◌≤ℤ◌}
use arbitrage_bot.Base.Result.{ok}
use arbitrage_bot.Base.Text.{lower, strip}
use arbitrage_bot.Confidence.{
  balance_confidence_at_least, fee_confidence_at_least, quote_match_status_at_least,
}
use arbitrage_bot.Decimal.{Decimal, abs, dec, div, le, lt, mul, of_ℤ}
use arbitrage_bot.Risk.{Manager, stats_of, ten_minutes, trim}
use arbitrage_bot.Risk.Guards.{
  Request, balance_status, cooldown_over, fee_status, gas_baseline, quote_match_status,
  required_balance_status, required_fee_status, required_quote_status, venue_tokens,
}
use arbitrage_bot.Settings.{is_live}

-- the conditions, each with its reason
abbrev pub Conditions : Type 1
Conditions = List (String × Type 0)

-- the reason is that of the first condition that is not met: all before it are
abbrev pub FirstUnmet : String → Conditions → Type 0
FirstUnmet reason [] = ⊥
FirstUnmet reason ((name, C) ∷ cs) = ((reason ≡ name) × (¬ C)) ⊎ (C × FirstUnmet reason cs)

abbrev pub pause_conditions : Manager → Request → Conditions
pause_conditions m r =
    ("global_pause", m.global_kill_switch ≡ false)
    ∷ ("strategy_paused", contains r.quote.strategy m.strategy_paused ≡ false)
    ∷ ("route_disabled", contains r.quote.route_id m.route_paused ≡ false)
    ∷ ("pair_disabled", contains r.quote.pair m.pair_paused ≡ false)
    ∷ ("venue_disabled", All (λ v. contains v m.venue_paused ≡ false) (venue_tokens r.quote))
    ∷ []

abbrev pub health_conditions : Manager → Request → Conditions
health_conditions m r =
    ("quote_unavailable", get_or "quote_unavailable" "false" r.quote.metadata ≢ "true")
    ∷ (
      "stale_health",
      le r.health.health_age_seconds (of_ℤ m.settings.health_snapshot_stale_seconds) ≡ true,
    )
    ∷ ("health_unknown", r.health.db_known ≡ true)
    ∷ ("db_unreachable", r.health.db_reachable ≡ true)
    ∷ ("health_unknown", r.health.rpc_known ≡ true)
    ∷ ("rpc_unreachable", r.health.rpc_reachable ≡ true)
    ∷ ("health_unknown", r.health.signing_known ≡ true)
    ∷ ("signing_error", r.health.signing_ok ≡ true)
    ∷ []

-- the reason where the balance does not match
abbrev pub mismatch_name : Request → String
mismatch_name r =
    if lower (strip r.health.balance_failure_reason) == "wallet_balance_mismatch"
    then "wallet_balance_mismatch"
    else if lower (strip r.health.balance_failure_reason) == "inventory_drift"
    then "inventory_drift"
    else "balance_mismatch"

abbrev pub confidence_conditions : Manager → Request → Conditions
confidence_conditions m r =
    ("fee_unknown", r.health.fee_known ≡ true)
    ∷ ("fee_unknown", fee_status r ≢ "unknown")
    ∷ ("fee_unverified", fee_confidence_at_least (fee_status r) (required_fee_status m r) ≡ ok true)
    ∷ ("health_unknown", (r.health.quote_match_known ≡ true) × (quote_match_status r ≢ "unknown"))
    ∷ (
      "quote_mismatch",
      quote_match_status_at_least (quote_match_status r) (required_quote_status m r) ≡ ok true,
    )
    ∷ ("quote_mismatch", required_quote_status m r ≡ "matched" → r.health.quote_match ≡ true)
    ∷ ("balance_unverified", (r.health.balance_match_known ≡ true) × (balance_status r ≢ "unknown"))
    ∷ (mismatch_name r, (r.health.balance_match ≡ true) × (balance_status r ≢ "mismatch"))
    ∷ (
      "balance_unverified",
      balance_confidence_at_least (balance_status r) (required_balance_status m r) ≡ ok true,
    )
    ∷ []

abbrev pub market_conditions : Manager → Request → Conditions
market_conditions m r =
    ("clock_skew", r.health.clock_skew_ok ≡ true)
    ∷ ("contract_revert_rate_high", le r.health.contract_revert_rate (dec 2 1) ≡ true)
    ∷ (
      "alert_subsystem_failure",
      pos (suc r.health.alert_failures) ≤ℤ m.settings.alert_failure_stop_threshold,
    )
    ∷ ("stale_quote", le r.quote.quote_age_seconds (of_ℤ r.quote_freshness_limit) ≡ true)
    ∷ ("pool_unhealthy", get_or "pool_health" "false" r.quote.metadata ≡ "true")
    ∷ (
      "rpc_error_spike",
      le r.health.rpc_error_rate_5m m.settings.rpc_error_rate_stop_pct_5m ≡ true,
    )
    ∷ (
      "gas_spike",
      le r.health.gas_now (mul (gas_baseline r) m.settings.gas_spike_multiplier) ≡ true,
    )
    ∷ (
      "liquidity_too_low",
      le (abs r.health.liquidity_change_pct) m.settings.liquidity_drop_stop_pct ≡ true,
    )
    ∷ (
      "depeg_guard",
      (r.depeg_detected ≡ false)
          × (le (abs r.reference_deviation_bps) (of_ℤ m.settings.depeg_threshold_bps) ≡ true),
    )
    ∷ []

abbrev pub size_conditions : Manager → Request → Conditions
size_conditions m r =
    ("notional_too_large", le r.quote.initial_amount m.settings.live_max_notional_usdc ≡ true)
    ∷ ("liquidity_unavailable", lt (dec 0 0) r.smaller_pool_liquidity_usdc ≡ true)
    ∷ (
      "pool_share_too_large",
      (q : Decimal) × (div r.quote.initial_amount r.smaller_pool_liquidity_usdc ≡ ok q)
          × (le q m.settings.live_max_notional_pct_of_smaller_pool ≡ true),
    )
    ∷ ("insufficient_balance", le r.quote.initial_amount r.wallet_balance_usdc ≡ true)
    ∷ []

abbrev pub route_conditions : ℕ → Manager → Request → Conditions
route_conditions now m r =
    (
      "cooldown",
      pos (suc (length (trim (now - ten_minutes) (stats_of r.quote.route_id m).executions)))
          ≤ℤ m.settings.live_max_trades_per_route_per_10m,
    )
    ∷ (
      "too_many_failures",
      pos (suc (stats_of r.quote.route_id m).consecutive_failures)
          ≤ℤ m.settings.live_max_consecutive_failures_per_route,
    )
    ∷ (
      "too_many_losses",
      pos (suc (stats_of r.quote.route_id m).consecutive_losses)
          ≤ℤ m.settings.live_max_consecutive_losses_per_route,
    )
    ∷ ("cooldown", cooldown_over now (lookup r.quote.route_id m.cooldown_until) ≡ true)
    ∷ []

abbrev pub live_conditions : Manager → Request → Conditions
live_conditions m r =
    ("live_disabled", m.settings.live_enable_flag ≡ true)
    ∷ (
      "below_threshold",
      le (of_ℤ m.settings.live_min_net_edge_bps) r.quote.modeled_net_edge_bps ≡ true,
    )
    ∷ (
      "edge_not_persistent",
      le (of_ℤ m.settings.live_min_edge_persist_seconds) r.quote.persisted_seconds ≡ true,
    )
    ∷ (
      "slippage_too_high",
      le r.quote.expected_slippage_bps (of_ℤ m.settings.live_max_slippage_bps) ≡ true,
    )
    ∷ (
      "below_min_profit",
      le m.settings.live_min_profit_absolute_usdc r.quote.modeled_net_edge_amount ≡ true,
    )
    ∷ []

abbrev pub shadow_conditions : Manager → Request → Conditions
shadow_conditions m r =
    (
      "below_threshold",
      le (of_ℤ m.settings.shadow_min_net_edge_bps) r.quote.modeled_net_edge_bps ≡ true,
    )
    ∷ (
      "edge_not_persistent",
      le (of_ℤ m.settings.shadow_min_edge_persist_seconds) r.quote.persisted_seconds ≡ true,
    )
    ∷ (
      "slippage_too_high",
      le r.quote.expected_slippage_bps (of_ℤ m.settings.shadow_max_slippage_bps) ≡ true,
    )
    ∷ []

abbrev pub conditions : ℕ → Manager → Request → Conditions
conditions now m r =
    (pause_conditions m r
      ++ (health_conditions m r
          ++ (confidence_conditions m r ++ (market_conditions m r ++ size_conditions m r))))
    ++ (route_conditions now m r
        ++ (if is_live r.mode then live_conditions m r else shadow_conditions m r))
