-- ===== src/Edge.antt =====
-- app/utils/decimal_math.py and app/quote_engine/edge.py: basis points and the model of an edge, the
-- pure helpers of app/quote_engine/engine.py, and app/risk/guards.py.
pub mod Persistence
use arbitrage_bot.Base.{
  Bool, String, [], contains, if◌then◌else◌, nat_eq, none, not, some, string_eq, ℕ, ◌&&◌, ◌-◌, ◌==◌,
  ◌∷◌,
}
use arbitrage_bot.Base.Dict.{Dict, erase, insert, lookup}
use arbitrage_bot.Base.Int.{leb_ℤ, ltb_ℤ, pos, ℤ}
use arbitrage_bot.Base.Result.{Result, ok, ◌>>=◌}
use arbitrage_bot.Base.Text.{lower, strip}
use arbitrage_bot.Decimal.{
  Decimal, dec, div, is_zero, le, lt, mul, of_ℤ, quantize, sub, abs, add, down,
}
use arbitrage_bot.Settings.{Settings}

-- `to_bps` and `apply_bps`
unfoldable pub to_bps_down : Decimal → Decimal → Result Decimal
to_bps_down numerator denominator =
    if is_zero denominator
    then ok (dec 0 0)
    else (div numerator denominator >>= λ q. quantize down 5 (mul q (dec 10000 0)))

unfoldable pub apply_bps : Decimal → Decimal → Result Decimal
apply_bps amount bps = div (mul amount bps) (dec 10000 0) >>= λ q. quantize down 8 q

-- `CostBreakdown`
pub record CostBreakdown : Type 0 where
  pub dex_fee_cost : Decimal
  pub gas_cost : Decimal
  pub quote_drift_buffer : Decimal
  pub slippage_buffer : Decimal
  pub router_overhead : Decimal
  pub failed_tx_allowance : Decimal
  pub safety_margin : Decimal

unfoldable pub cost_total : CostBreakdown → Decimal
cost_total c =
    add
      (add
        (add (add (add (add c.dex_fee_cost c.gas_cost) c.quote_drift_buffer) c.slippage_buffer)
          c.router_overhead)
        c.failed_tx_allowance)
      c.safety_margin

-- `EdgeResult`
pub record EdgeResult : Type 0 where
  pub expected_final_amount : Decimal
  pub modeled_net_edge_amount : Decimal
  pub modeled_net_edge_bps : Decimal
  pub cost_breakdown : CostBreakdown

-- `calculate`
unfoldable pub calculate : Settings → Decimal → Decimal → Decimal → Decimal → Result EdgeResult
unfolding to_bps_down apply_bps cost_total
calculate s initial_amount expected_final_amount dex_fee_cost gas_cost =
    apply_bps initial_amount (of_ℤ s.cost_quote_drift_buffer_bps) >>= λ quote_drift_buffer.
    apply_bps initial_amount (of_ℤ s.cost_slippage_buffer_bps) >>= λ slippage_buffer.
    apply_bps initial_amount (of_ℤ s.cost_router_overhead_bps) >>= λ router_overhead.
    apply_bps initial_amount (of_ℤ s.cost_failed_tx_allowance_bps) >>= λ failed_tx_allowance.
    apply_bps initial_amount (of_ℤ s.cost_safety_margin_bps) >>= λ safety_margin.
    let costs : CostBreakdown = record {
      dex_fee_cost = dex_fee_cost;
      gas_cost = gas_cost;
      quote_drift_buffer = quote_drift_buffer;
      slippage_buffer = slippage_buffer;
      router_overhead = router_overhead;
      failed_tx_allowance = failed_tx_allowance;
      safety_margin = safety_margin;
    } in
    let net = sub (sub expected_final_amount initial_amount) (cost_total costs) in
    to_bps_down net initial_amount >>= λ bps. ok (record {
      expected_final_amount = expected_final_amount;
      modeled_net_edge_amount = net;
      modeled_net_edge_bps = bps;
      cost_breakdown = costs;
    })

-- `_cex_fee_status_from_provenance`
unfoldable pub cex_fee_status_from_provenance : String → String
cex_fee_status_from_provenance provenance =
    let normalized = lower (strip provenance) in
    if normalized == "fallback_only"
    then "fallback_only"
    else if contains normalized ("config_only" ∷ [])
    then "config_only"
    else if contains normalized ("venue_declared" ∷ "symbol_override" ∷ "venue_default" ∷ [])
    then "venue_declared"
    else if contains normalized ("acct_verified" ∷ "account_verified" ∷ [])
    then "acct_verified"
    else "unknown"

-- `_dex_fee_status`, on the pool's fee tier, 0 where it is not readable
unfoldable pub dex_fee_status : ℤ → ℤ → String → String × String
dex_fee_status pool_fee configured_pool_fee_tier source_type =
    if source_type == "mock"
    then ("config_only", "mock_config")
    else if leb_ℤ pool_fee (pos 0)
    then ("config_only", "config_only")
    else if ltb_ℤ (pos 0) configured_pool_fee_tier
        && not (leb_ℤ pool_fee configured_pool_fee_tier && leb_ℤ configured_pool_fee_tier pool_fee)
    then ("unknown", "pool_fee_mismatch")
    else ("chain_verified", "chain_pool_fee")

-- `_update_persistence`: the seconds that the edge has lasted, in microseconds here, and the new state
unfoldable pub update_persistence : ℕ → String → Decimal → Decimal → Dict ℕ → ℕ × Dict ℕ
update_persistence now route_id threshold modeled_edge_bps started =
    if le threshold modeled_edge_bps
    then elim (lookup route_id started) [
      | none ↦ (0, insert route_id now started)
      | some first_seen ↦ (now - first_seen, started)
    ]
    else (0, erase route_id started)

-- app/risk/guards.py
unfoldable pub stale_quote_guard : Decimal → ℤ → Bool
stale_quote_guard quote_age_seconds max_age_seconds = le quote_age_seconds (of_ℤ max_age_seconds)

unfoldable pub slippage_guard : Decimal → ℤ → Bool
slippage_guard expected_slippage_bps max_slippage_bps =
    le expected_slippage_bps (of_ℤ max_slippage_bps)

unfoldable pub depeg_guard : Decimal → ℤ → Bool
depeg_guard reference_deviation_bps threshold_bps =
    le (abs reference_deviation_bps) (of_ℤ threshold_bps)

unfoldable pub gas_spike_guard : Decimal → Decimal → Decimal → Bool
gas_spike_guard now p90 multiplier =
    le now (mul (if lt (dec 0 0) p90 then p90 else dec 1 0) multiplier)

unfoldable pub liquidity_deterioration_guard : Decimal → Decimal → Bool
liquidity_deterioration_guard change_pct stop_pct = le (abs change_pct) stop_pct
