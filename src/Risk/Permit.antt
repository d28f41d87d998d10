-- ===== src/Risk/Permit.antt =====
-- What `evaluate` asks of the state and of the request, stated apart from the order of its guards.
pub mod Match
use arbitrage_bot.Base.{
  Bool-cases, inl, inr, ap, nat_eq, string_eq, All, List, String, [], and_intro, and_left,
  and_right, arith, contains, eq_iff, false, length, not-false, not-true, refl, suc, true, ℕ, ◌-◌,
  ◌↔◌, ◌∷◌, ◌≡◌, ◌≢◌,
}
use arbitrage_bot.Base.Dict.{get_or-insert, get_or, lookup}
use arbitrage_bot.Base.Result.{Result, err, ◌>>=◌, ok}
use arbitrage_bot.Risk.{put_stats, Manager, stats_of, ten_minutes, trim}
use arbitrage_bot.Risk.Evaluate.{trim_route}
use arbitrage_bot.Risk.Guards.{
  confidence_guards, live_guards, market_guards, mode_guards, pool_share_ok, route_guards,
  shadow_guards, size_guards, Request, balance_status, cooldown_over, fee_status, gas_baseline,
  health_guards, no_venue_paused, pause_guards, quote_match_status, required_balance_status,
  required_fee_status, required_quote_status, venue_tokens,
}
use text.Mathlib.TextPositions.{eq_refl}
use arbitrage_bot.Base.Int.{pos, ◌≤ℤ◌}
use arbitrage_bot.Confidence.{
  balance_confidence_at_least, fee_confidence_at_least, quote_match_status_at_least,
}
use arbitrage_bot.Decimal.{Decimal, abs, dec, div, le, lt, mul, of_ℤ}
use arbitrage_bot.Risk.Order.{Passes}
use arbitrage_bot.Settings.{is_live}

-- No kill switch or pause applies to the route, its strategy, its pair or a venue on it.
pub record Running (m : Manager) (r : Request) : Type 0 where
  pub switch_off : m.global_kill_switch ≡ false
  pub strategy_on : contains r.quote.strategy m.strategy_paused ≡ false
  pub route_on : contains r.quote.route_id m.route_paused ≡ false
  pub pair_on : contains r.quote.pair m.pair_paused ≡ false
  pub venues_on : All (λ v. contains v m.venue_paused ≡ false) (venue_tokens r.quote)

-- The quote exists, and database, node and signer are known to work, on fresh evidence.
pub record Healthy (m : Manager) (r : Request) : Type 0 where
  pub quoted : get_or "quote_unavailable" "false" r.quote.metadata ≢ "true"
  pub fresh : le r.health.health_age_seconds (of_ℤ m.settings.health_snapshot_stale_seconds) ≡ true
  pub db : (r.health.db_known ≡ true) × (r.health.db_reachable ≡ true)
  pub rpc : (r.health.rpc_known ≡ true) × (r.health.rpc_reachable ≡ true)
  pub signing : (r.health.signing_known ≡ true) × (r.health.signing_ok ≡ true)

-- Fees, quotes and balances are known, and verified as far as the mode requires.
pub record Trusted (m : Manager) (r : Request) : Type 0 where
  pub fee : (r.health.fee_known ≡ true) × (fee_status r ≢ "unknown")
  pub fee_verified : fee_confidence_at_least (fee_status r) (required_fee_status m r) ≡ ok true
  pub quote : (r.health.quote_match_known ≡ true) × (quote_match_status r ≢ "unknown")
  pub quote_verified :
      quote_match_status_at_least (quote_match_status r) (required_quote_status m r) ≡ ok true
  pub quote_matches : required_quote_status m r ≡ "matched" → r.health.quote_match ≡ true
  pub balance : (r.health.balance_match_known ≡ true) × (balance_status r ≢ "unknown")
  pub balance_matches : (r.health.balance_match ≡ true) × (balance_status r ≢ "mismatch")
  pub balance_verified :
      balance_confidence_at_least (balance_status r) (required_balance_status m r) ≡ ok true

-- The market is calm and the quote is fresh.
pub record Calm (m : Manager) (r : Request) : Type 0 where
  pub clock : r.health.clock_skew_ok ≡ true
  pub reverts : le r.health.contract_revert_rate (dec 2 1) ≡ true
  pub alerts : pos (suc r.health.alert_failures) ≤ℤ m.settings.alert_failure_stop_threshold
  pub quote_fresh : le r.quote.quote_age_seconds (of_ℤ r.quote_freshness_limit) ≡ true
  pub pool : get_or "pool_health" "false" r.quote.metadata ≡ "true"
  pub rpc_errors : le r.health.rpc_error_rate_5m m.settings.rpc_error_rate_stop_pct_5m ≡ true
  pub gas : le r.health.gas_now (mul (gas_baseline r) m.settings.gas_spike_multiplier) ≡ true
  pub liquidity : le (abs r.health.liquidity_change_pct) m.settings.liquidity_drop_stop_pct ≡ true
  pub peg :
      (r.depeg_detected ≡ false)
      × (le (abs r.reference_deviation_bps) (of_ℤ m.settings.depeg_threshold_bps) ≡ true)

-- The amount fits the limits, the smaller pool and the wallet.
pub record Sized (m : Manager) (r : Request) : Type 0 where
  pub notional : le r.quote.initial_amount m.settings.live_max_notional_usdc ≡ true
  pub liquid : lt (dec 0 0) r.smaller_pool_liquidity_usdc ≡ true
  pub share :
      (q : Decimal) × (div r.quote.initial_amount r.smaller_pool_liquidity_usdc ≡ ok q)
      × (le q m.settings.live_max_notional_pct_of_smaller_pool ≡ true)
  pub funded : le r.quote.initial_amount r.wallet_balance_usdc ≡ true

-- The route has not traded, failed or lost too often, and no cooldown runs.
pub record Rested (now : ℕ) (m : Manager) (r : Request) : Type 0 where
  pub rate :
      pos (suc (length (trim (now - ten_minutes) (stats_of r.quote.route_id m).executions)))
      ≤ℤ m.settings.live_max_trades_per_route_per_10m
  pub failures :
      pos (suc (stats_of r.quote.route_id m).consecutive_failures)
      ≤ℤ m.settings.live_max_consecutive_failures_per_route
  pub losses :
      pos (suc (stats_of r.quote.route_id m).consecutive_losses)
      ≤ℤ m.settings.live_max_consecutive_losses_per_route
  pub cooled : cooldown_over now (lookup r.quote.route_id m.cooldown_until) ≡ true

-- The edge is large, lasting and cheap enough for the mode; live also needs its flag and a profit.
pub record Worthwhile (m : Manager) (r : Request) : Type 0 where
  pub live_edge :
      is_live r.mode ≡ true
      → (m.settings.live_enable_flag ≡ true)
        × (le (of_ℤ m.settings.live_min_net_edge_bps) r.quote.modeled_net_edge_bps ≡ true)
        × (le (of_ℤ m.settings.live_min_edge_persist_seconds) r.quote.persisted_seconds ≡ true)
        × (le r.quote.expected_slippage_bps (of_ℤ m.settings.live_max_slippage_bps) ≡ true)
        × (le m.settings.live_min_profit_absolute_usdc r.quote.modeled_net_edge_amount ≡ true)
  pub shadow_edge :
      is_live r.mode ≡ false
      → (le (of_ℤ m.settings.shadow_min_net_edge_bps) r.quote.modeled_net_edge_bps ≡ true)
        × (le (of_ℤ m.settings.shadow_min_edge_persist_seconds) r.quote.persisted_seconds ≡ true)
        × (le r.quote.expected_slippage_bps (of_ℤ m.settings.shadow_max_slippage_bps) ≡ true)

pub record Permitted (now : ℕ) (m : Manager) (r : Request) : Type 0 where
  pub running : Running m r
  pub healthy : Healthy m r
  pub trusted : Trusted m r
  pub calm : Calm m r
  pub sized : Sized m r
  pub rested : Rested now m r
  pub worthwhile : Worthwhile m r
