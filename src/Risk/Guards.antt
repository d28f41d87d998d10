-- ===== src/Risk/Guards.antt =====
-- app/risk/manager.py: `HealthSnapshot`, the arguments of `evaluate`, and its guards.
-- Each guard stands for three lines of the method: `checks[name] = …` and, where that is false, the
-- early return with the blocking reason. A guard's test may raise.
use arbitrage_bot.Base.{
  Bool, List, Option, String, [], contains, if◌then◌else◌, leb, length, nat_eq, none, not, some,
  string_eq, true, ℕ, ◌&&◌, ◌==◌, ◌∷◌,
}
use arbitrage_bot.Base.Dict.{get_or, lookup}
use arbitrage_bot.Base.Int.{ltb_ℤ, pos, ℤ}
use arbitrage_bot.Base.Result.{Result, ok, ◌>>=◌}
use arbitrage_bot.Base.Text.{lower, split_arrow, strip}
use arbitrage_bot.Confidence.{
  balance_confidence_at_least, fee_confidence_at_least, normalize_balance_confidence,
  normalize_fee_confidence, normalize_quote_match_status, quote_match_status_at_least,
}
use arbitrage_bot.Decimal.{Decimal, abs, dec, div, le, lt, mul, of_ℤ}
use arbitrage_bot.Quote.{RouteQuote}
use arbitrage_bot.Risk.{Manager, stats_of}
use arbitrage_bot.Settings.{RunMode, is_live}

-- `HealthSnapshot`
pub record HealthSnapshot : Type 0 where
  pub rpc_error_rate_5m : Decimal
  pub gas_now : Decimal
  pub gas_p90 : Decimal
  pub liquidity_change_pct : Decimal
  pub quote_stale_seconds : Decimal
  pub health_age_seconds : Decimal
  pub alert_failures : ℕ
  pub db_reachable : Bool
  pub db_known : Bool
  pub rpc_reachable : Bool
  pub rpc_known : Bool
  pub signing_ok : Bool
  pub signing_known : Bool
  pub fee_known : Bool
  pub fee_known_status : String
  pub fee_provenance : String
  pub quote_match : Bool
  pub quote_match_known : Bool
  pub quote_match_status : String
  pub balance_match : Bool
  pub balance_match_known : Bool
  pub balance_match_status : String
  pub balance_failure_reason : String
  pub clock_skew_ok : Bool
  pub contract_revert_rate : Decimal

-- the arguments of `evaluate`
pub record Request : Type 0 where
  pub quote : RouteQuote
  pub mode : RunMode
  pub quote_freshness_limit : ℤ
  pub health : HealthSnapshot
  pub wallet_balance_usdc : Decimal
  pub reference_deviation_bps : Decimal
  pub depeg_detected : Bool
  pub smaller_pool_liquidity_usdc : Decimal

pub record Guard : Type 0 where
  pub name : String
  pub passed : Result Bool
  pub reason : String

-- a guard whose test cannot raise
abbrev pub check : String → Bool → String → Guard
check name passed reason = record { name = name; passed = ok passed; reason = reason }

-- a guard whose test is a call that may raise
abbrev pub check_call : String → Result Bool → String → Guard
check_call name passed reason = record { name = name; passed = passed; reason = reason }

-- `[v.strip() for v in venues.split("->") if v.strip()]`
unfoldable pub venue_tokens_of : List String → List String
venue_tokens_of [] = []
venue_tokens_of (v ∷ vs) =
    let rest = venue_tokens_of vs in if strip v == "" then rest else strip v ∷ rest

unfoldable pub venue_tokens : RouteQuote → List String
unfolding venue_tokens_of
venue_tokens q = venue_tokens_of (split_arrow (get_or "venues" "" q.metadata))

unfoldable pub no_venue_paused : Manager → List String → Bool
no_venue_paused m [] = true
no_venue_paused m (v ∷ vs) = not (contains v m.venue_paused) && no_venue_paused m vs

unfoldable pub pause_guards : Manager → Request → List Guard
pause_guards m r =
    check "global_pause" (not m.global_kill_switch) "global_pause"
    ∷ check "strategy_pause" (not (contains r.quote.strategy m.strategy_paused)) "strategy_paused"
    ∷ check "route_pause" (not (contains r.quote.route_id m.route_paused)) "route_disabled"
    ∷ check "pair_pause" (not (contains r.quote.pair m.pair_paused)) "pair_disabled"
    ∷ check "venue_pause" (no_venue_paused m (venue_tokens r.quote)) "venue_disabled"
    ∷ []

unfoldable pub health_guards : Manager → Request → List Guard
health_guards m r =
    check "quote_unavailable" (not (get_or "quote_unavailable" "false" r.quote.metadata == "true"))
      "quote_unavailable"
    ∷ check "health_fresh"
        (le r.health.health_age_seconds (of_ℤ m.settings.health_snapshot_stale_seconds))
        "stale_health"
    ∷ check "db_known" r.health.db_known "health_unknown"
    ∷ check "db_reachable" r.health.db_reachable "db_unreachable"
    ∷ check "rpc_known" r.health.rpc_known "health_unknown"
    ∷ check "rpc_reachable" r.health.rpc_reachable "rpc_unreachable"
    ∷ check "signing_known" r.health.signing_known "health_unknown"
    ∷ check "signing_ok" r.health.signing_ok "signing_error"
    ∷ []

unfoldable pub fee_status : Request → String
fee_status r = normalize_fee_confidence (some r.health.fee_known_status) none

unfoldable pub required_fee_status : Manager → Request → String
required_fee_status m r =
    if is_live r.mode then m.settings.live_min_fee_confidence_status else "fallback_only"

unfoldable pub quote_match_status : Request → String
quote_match_status r = normalize_quote_match_status (some r.health.quote_match_status)

unfoldable pub required_quote_status : Manager → Request → String
required_quote_status m r =
    if is_live r.mode then m.settings.live_min_quote_match_status else "matched"

unfoldable pub balance_status : Request → String
balance_status r = normalize_balance_confidence (some r.health.balance_match_status) none

unfoldable pub required_balance_status : Manager → Request → String
required_balance_status m r =
    if is_live r.mode then m.settings.live_min_balance_confidence_status else "internal_ok"

-- the reason when the balance does not match
unfoldable pub balance_reason : Request → String
balance_reason r =
    let failure_reason = lower (strip r.health.balance_failure_reason) in
    if failure_reason == "wallet_balance_mismatch"
    then "wallet_balance_mismatch"
    else if failure_reason == "inventory_drift"
    then "inventory_drift"
    else "balance_mismatch"

unfoldable pub confidence_guards : Manager → Request → List Guard
confidence_guards m r =
    check "fee_known" r.health.fee_known "fee_unknown"
    ∷ check "fee_status_known" (not (fee_status r == "unknown")) "fee_unknown"
    ∷ check_call "fee_status_verified"
        (fee_confidence_at_least (fee_status r) (required_fee_status m r)) "fee_unverified"
    ∷ check "quote_match_known"
        (r.health.quote_match_known && not (quote_match_status r == "unknown")) "health_unknown"
    ∷ check_call "quote_match_status_verified"
        (quote_match_status_at_least (quote_match_status r) (required_quote_status m r))
        "quote_mismatch"
    ∷ check "quote_match"
        (if required_quote_status m r == "matched" then r.health.quote_match else true)
        "quote_mismatch"
    ∷ check "balance_match_known"
        (r.health.balance_match_known && not (balance_status r == "unknown")) "balance_unverified"
    ∷ check "balance_match" (r.health.balance_match && not (balance_status r == "mismatch"))
        (balance_reason r)
    ∷ check_call "balance_status_verified"
        (balance_confidence_at_least (balance_status r) (required_balance_status m r))
        "balance_unverified"
    ∷ []

unfoldable pub gas_baseline : Request → Decimal
gas_baseline r = if lt (dec 0 0) r.health.gas_p90 then r.health.gas_p90 else dec 1 0

unfoldable pub market_guards : Manager → Request → List Guard
market_guards m r =
    check "clock_skew_ok" r.health.clock_skew_ok "clock_skew"
    ∷ check "contract_revert_rate" (le r.health.contract_revert_rate (dec 2 1))
        "contract_revert_rate_high"
    ∷ check "alert_health"
        (ltb_ℤ (pos r.health.alert_failures) m.settings.alert_failure_stop_threshold)
        "alert_subsystem_failure"
    ∷ check "quote_fresh" (le r.quote.quote_age_seconds (of_ℤ r.quote_freshness_limit))
        "stale_quote"
    ∷ check "pool_health" (get_or "pool_health" "false" r.quote.metadata == "true") "pool_unhealthy"
    ∷ check "rpc_error_rate" (le r.health.rpc_error_rate_5m m.settings.rpc_error_rate_stop_pct_5m)
        "rpc_error_spike"
    ∷ check "gas_spike" (le r.health.gas_now (mul (gas_baseline r) m.settings.gas_spike_multiplier))
        "gas_spike"
    ∷ check "liq_drop" (le (abs r.health.liquidity_change_pct) m.settings.liquidity_drop_stop_pct)
        "liquidity_too_low"
    ∷ check "depeg_guard"
        (not r.depeg_detected
          && le (abs r.reference_deviation_bps) (of_ℤ m.settings.depeg_threshold_bps))
        "depeg_guard"
    ∷ []

-- `initial_amount / smaller_pool <= limit`
unfoldable pub pool_share_ok : Manager → Request → Result Bool
pool_share_ok m r = div r.quote.initial_amount r.smaller_pool_liquidity_usdc >>= λ share.
    ok (le share m.settings.live_max_notional_pct_of_smaller_pool)

unfoldable pub size_guards : Manager → Request → List Guard
size_guards m r =
    check "notional_limit" (le r.quote.initial_amount m.settings.live_max_notional_usdc)
      "notional_too_large"
    ∷ check "liquidity_available" (lt (dec 0 0) r.smaller_pool_liquidity_usdc)
        "liquidity_unavailable"
    ∷ check_call "pool_share_limit" (pool_share_ok m r) "pool_share_too_large"
    ∷ check "wallet_balance" (le r.quote.initial_amount r.wallet_balance_usdc)
        "insufficient_balance"
    ∷ []

-- `not route_cooldown or now >= route_cooldown`
unfoldable pub cooldown_over : ℕ → Option ℕ → Bool
cooldown_over now none = true
cooldown_over now (some until) = leb until now

unfoldable pub route_guards : ℕ → Manager → Request → List Guard
route_guards now m r =
    let stats = stats_of r.quote.route_id m in
    check "route_rate_limit"
      (ltb_ℤ (pos (length stats.executions)) m.settings.live_max_trades_per_route_per_10m)
      "cooldown"
    ∷ check "consecutive_failures"
        (ltb_ℤ (pos stats.consecutive_failures) m.settings.live_max_consecutive_failures_per_route)
        "too_many_failures"
    ∷ check "consecutive_losses"
        (ltb_ℤ (pos stats.consecutive_losses) m.settings.live_max_consecutive_losses_per_route)
        "too_many_losses"
    ∷ check "cooldown" (cooldown_over now (lookup r.quote.route_id m.cooldown_until)) "cooldown"
    ∷ []

unfoldable pub live_guards : Manager → Request → List Guard
live_guards m r =
    check "mode_allowed" m.settings.live_enable_flag "live_disabled"
    ∷ check "modeled_edge" (le (of_ℤ m.settings.live_min_net_edge_bps) r.quote.modeled_net_edge_bps)
        "below_threshold"
    ∷ check "persist" (le (of_ℤ m.settings.live_min_edge_persist_seconds) r.quote.persisted_seconds)
        "edge_not_persistent"
    ∷ check "slippage" (le r.quote.expected_slippage_bps (of_ℤ m.settings.live_max_slippage_bps))
        "slippage_too_high"
    ∷ check "profit_abs"
        (le m.settings.live_min_profit_absolute_usdc r.quote.modeled_net_edge_amount)
        "below_min_profit"
    ∷ []

unfoldable pub shadow_guards : Manager → Request → List Guard
shadow_guards m r =
    check "modeled_edge" (le (of_ℤ m.settings.shadow_min_net_edge_bps) r.quote.modeled_net_edge_bps)
      "below_threshold"
    ∷ check "persist"
        (le (of_ℤ m.settings.shadow_min_edge_persist_seconds) r.quote.persisted_seconds)
        "edge_not_persistent"
    ∷ check "slippage" (le r.quote.expected_slippage_bps (of_ℤ m.settings.shadow_max_slippage_bps))
        "slippage_too_high"
    ∷ []

unfoldable pub mode_guards : Manager → Request → List Guard
mode_guards m r = if is_live r.mode then live_guards m r else shadow_guards m r
