-- ===== src/Backtest.antt =====
-- app/backtest/engine.py: the data of `BacktestEngine`, its parameters, and the two helpers that its
-- loops share, `_compute_penalties` and `_finalize_outcome`.
-- `_safe_json` is left out: a row carries its decoded payload, a dict of texts as the bot writes it.
pub mod Tally
pub mod Opportunities
pub mod Snapshots
pub mod Run
pub mod Counts
pub mod Sound
pub mod Totals
pub mod Pointer
pub mod Health
pub mod Reasons
pub mod Accepted
pub mod Returns
pub mod Completes
pub mod Completion
pub mod Ledger
use arbitrage_bot.Base.{
  Bool, List, Option, String, [], contains, if◌then◌else◌, is_empty, nat_eq, none, not, some,
  string_eq, ℕ, ◌&&◌, ◌==◌, ◌∷◌,
}
use arbitrage_bot.Base.Dict.{Dict}
use arbitrage_bot.Base.Int.{pos}
use arbitrage_bot.Base.Result.{Result, ok, ◌>>=◌}
use arbitrage_bot.Base.Text.{lower, strip}
use arbitrage_bot.Decimal.{Decimal, abs, add, dec, div, le, max, mul}
use arbitrage_bot.Json.{Json, get_decimal, int, text}
use arbitrage_bot.Risk.Guards.{balance_status, fee_status}
use arbitrage_bot.Settings.{Settings}

-- `_normalize_replay_mode`
pub data ReplayMode : Type 0 where
  opportunities opportunities_legacy market_snapshots : ReplayMode

unfoldable pub normalize_replay_mode : String → ReplayMode
normalize_replay_mode raw =
    let value = lower (strip raw) in
    if contains value ("market_snapshots" ∷ "market-snapshots" ∷ "snapshot" ∷ "snapshots" ∷ [])
    then market_snapshots
    else if contains value ("opportunities_legacy" ∷ "opportunities-legacy" ∷ "legacy" ∷ [])
    then opportunities_legacy
    else opportunities

-- a row of `parameter_sets`, with `_safe_json(row.params_json)`
pub record ParameterSet : Type 0 where
  pub is_default : Bool
  pub params : Dict Json

-- the first default set with parameters
unfoldable pub first_default : List ParameterSet → Option (Dict Json)
first_default [] = none
first_default (row ∷ rows) =
    let rest = first_default rows in
    if row.is_default && not (is_empty row.params) then some row.params else rest

-- the parameters that the settings give
unfoldable pub settings_params : Settings → String → Dict Json
settings_params s ratio =
    ("min_modeled_edge_bps", int s.live_min_net_edge_bps)
    ∷ ("max_slippage_bps", int s.live_max_slippage_bps)
    ∷ ("max_quote_age_seconds", int s.global_stale_quote_stop_seconds)
    ∷ ("gas_penalty_bps", int s.cost_failed_tx_allowance_bps)
    ∷ ("quote_drift_buffer_bps", int s.cost_quote_drift_buffer_bps)
    ∷ ("latency_penalty_bps", int s.cost_router_overhead_bps)
    ∷ ("liquidity_cap_ratio", text ratio)
    ∷ ("min_fee_confidence_status", text "fallback_only")
    ∷ ("min_balance_confidence_status", text "internal_ok")
    ∷ ("fallback_fee_penalty_bps", int (pos 5))
    ∷ ("unverified_fee_penalty_bps", int (pos 10))
    ∷ ("unverified_balance_penalty_bps", int (pos 10))
    ∷ ("default_gas_cost_usdc", text "0.01")
    ∷ []

-- `_resolve_params`: `row` is the set with the given id, where there are both; `rows` are the
-- strategy's sets, and `ratio` is `str` of the setting `live_max_notional_pct_of_smaller_pool`.
unfoldable pub default_params : Settings → String → List ParameterSet → Dict Json
unfolding first_default settings_params
default_params s ratio rows = elim (first_default rows) [
  | none ↦ settings_params s ratio
  | some params ↦ params
]

unfoldable pub resolve_params :
    Settings → String → Option ParameterSet → List ParameterSet → Dict Json
unfolding default_params
resolve_params s ratio none rows = default_params s ratio rows
resolve_params s ratio (some row) rows =
    if is_empty row.params then default_params s ratio rows else row.params

-- the entries of `_compute_penalties`; the running totals have no `total`
pub record Penalties : Type 0 where
  pub gas : Decimal
  pub quote_drift : Decimal
  pub latency : Decimal
  pub fallback_fee : Decimal
  pub unverified_fee : Decimal
  pub unverified_balance : Decimal

-- `base_amount * Decimal(str(params.get(key, 0))) / Decimal("10000")`
unfoldable pub penalty : Decimal → String → Dict Json → Result Decimal
penalty base_amount key params =
    get_decimal key "0" params >>= λ bps. div (mul base_amount bps) (dec 10000 0)

-- a penalty that applies only where the test holds
unfoldable pub penalty_if : Bool → Decimal → String → Dict Json → Result Decimal
unfolding penalty
penalty_if b base_amount key params = if b then penalty base_amount key params else ok (dec 0 0)

unfoldable pub base_amount_of : Decimal → Decimal → Decimal
base_amount_of initial_amount base_expected =
    max (max (abs initial_amount) (abs base_expected)) (dec 0 0)

unfoldable pub compute_penalties :
    Decimal → Decimal → String → String → Dict Json → Result Penalties
unfolding penalty penalty_if base_amount_of
compute_penalties initial_amount base_expected fee_status balance_status params =
    let base_amount = base_amount_of initial_amount base_expected in
    penalty base_amount "gas_penalty_bps" params >>= λ gas.
    penalty base_amount "quote_drift_buffer_bps" params >>= λ quote_drift.
    penalty base_amount "latency_penalty_bps" params >>= λ latency.
    penalty_if (fee_status == "fallback_only") base_amount "fallback_fee_penalty_bps" params
    >>= λ fallback_fee.
        penalty_if (contains fee_status ("fallback_only" ∷ "config_only" ∷ [])) base_amount
          "unverified_fee_penalty_bps" params
        >>= λ unverified_fee.
            penalty_if
              (contains balance_status ("unknown" ∷ "internal_ok" ∷ "db_inventory_ok" ∷ []))
              base_amount "unverified_balance_penalty_bps" params
            >>= λ unverified_balance. ok (record {
              gas = gas;
              quote_drift = quote_drift;
              latency = latency;
              fallback_fee = fallback_fee;
              unverified_fee = unverified_fee;
              unverified_balance = unverified_balance;
            })

-- `penalties["total"]`
unfoldable pub total : Penalties → Decimal
total p =
    add (add (add (add (add p.gas p.quote_drift) p.latency) p.fallback_fee) p.unverified_fee)
      p.unverified_balance

-- `penalty_totals[k] += penalties[k]` for each key
unfoldable pub add_penalties : Penalties → Penalties → Penalties
add_penalties totals p = record {
  gas = add totals.gas p.gas;
  quote_drift = add totals.quote_drift p.quote_drift;
  latency = add totals.latency p.latency;
  fallback_fee = add totals.fallback_fee p.fallback_fee;
  unverified_fee = add totals.unverified_fee p.unverified_fee;
  unverified_balance = add totals.unverified_balance p.unverified_balance;
}

abbrev pub no_penalties : Penalties
no_penalties = record {
  gas = dec 0 0;
  quote_drift = dec 0 0;
  latency = dec 0 0;
  fallback_fee = dec 0 0;
  unverified_fee = dec 0 0;
  unverified_balance = dec 0 0;
}

-- a row that `insert_backtest_trade` writes; a reason means that the trade is blocked
pub record Trade : Type 0 where
  pub timestamp : ℕ
  pub blocked_reason : String
  pub modeled_edge_bps : Decimal
  pub expected_pnl : Decimal
  pub simulated_pnl : Decimal

-- `_to_bps`
unfoldable pub to_bps : Decimal → Decimal → Result Decimal
to_bps numerator denominator =
    if le denominator (dec 0 0)
    then ok (dec 0 0)
    else div numerator denominator >>= λ q. ok (mul q (dec 10000 0))
