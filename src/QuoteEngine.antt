-- ===== src/QuoteEngine.antt =====
-- app/quote_engine/engine.py: what `quote_route` of the two quote engines have in common. The adapters
-- of the venues are parameters. The float of a difference of instants is taken at its exact value.
pub mod Hyper
pub mod Shadow
use arbitrage_bot.Base.{
  [], nat_eq, string_eq, ℕ, ◌&&◌, ◌-◌, ◌==◌, ◌∷◌, Bool, Option, String, false, if◌then◌else◌, none,
  not, some, true, ◌||◌,
}
use arbitrage_bot.Base.Dict.{Dict, lookup}
use arbitrage_bot.Base.Int.{pos, ℤ, ◌+ℤ◌}
use arbitrage_bot.Base.Result.{key_error, Result, err, ok, quote_unavailable, ◌>>=◌}
use arbitrage_bot.Confidence.{min_fee_confidence}
use arbitrage_bot.Decimal.{min, Decimal, abs, dec, div, half_even, le, mul, of_ℤ, quantize, sub}
use arbitrage_bot.Edge.{
  cost_total, dex_fee_status, update_persistence, EdgeResult, calculate, to_bps_down,
}
use arbitrage_bot.Json.{show_ℤ}
use arbitrage_bot.Json.Show.{decimal_text}
use arbitrage_bot.Quote.{RouteQuote}
use arbitrage_bot.Settings.{RunMode, is_live, Settings}
use arbitrage_bot.Repository.{Route}
use arbitrage_bot.Venues.{DexAdapter}
use Prim.Native.String.{◌++◌ as ◌<>◌}

-- `_estimate_dex_fee_cost` and `_estimate_gas_usdc`
unfoldable pub estimate_dex_fee_cost : Decimal → ℤ → ℤ → Result Decimal
estimate_dex_fee_cost amount_in fee_a_bps fee_b_bps =
    div (mul amount_in (of_ℤ (fee_a_bps +ℤ fee_b_bps))) (dec 10000 0) >>= λ cost.
    quantize half_even 8 cost

unfoldable pub estimate_gas_usdc : Settings → ℤ → Result Decimal
estimate_gas_usdc s gas_units =
    let gas_native = mul (mul (of_ℤ gas_units) s.gas_price_gwei_default) (dec 1 9) in
    quantize half_even 8 (mul gas_native s.gas_token_price_usdc)

-- whether the way back comes to the amount, within the tolerance; an exception is no match
unfoldable pub deviation_within : Decimal → Decimal → Result Decimal → Bool
deviation_within tolerance amount_in (err e) = false
deviation_within tolerance amount_in (ok back) =
    if le amount_in (dec 0 0) then false else elim (div (sub back amount_in) amount_in) [
      | err e ↦ false
      | ok deviation ↦ le (abs deviation) tolerance
    ]

abbrev pub bool_text : Bool → String
bool_text true = "true"
bool_text false = "false"

abbrev pub source_type : Settings → String
source_type s = if s.use_mock_market_data then "mock" else "real"

abbrev pub or_zero : Option Decimal → Decimal
or_zero none = dec 0 0
or_zero (some d) = d

-- the amounts of a quote, up to the update of its persistence
pub record Priced : Type 0 where
  pub leg1 : Decimal
  pub leg2 : Decimal
  pub gas_cost_usdc : Decimal
  pub raw_spread : Decimal
  pub raw_edge_bps : Decimal
  pub edge : EdgeResult

-- the quote of a route with the amounts that both engines compute
unfoldable pub quote_with :
    Route → Decimal → Decimal → Priced → Decimal → ℕ → ℕ → Dict String → RouteQuote
unfolding cost_total
quote_with route amount_in final_amount p slippage_bps age persisted metadata = record {
  route_id = route.id;
  strategy = route.strategy;
  pair = route.pair;
  direction = route.direction;
  initial_amount = amount_in;
  final_amount = final_amount;
  raw_spread_amount = p.raw_spread;
  raw_edge_bps = p.raw_edge_bps;
  modeled_net_edge_amount = p.edge.modeled_net_edge_amount;
  modeled_net_edge_bps = p.edge.modeled_net_edge_bps;
  expected_slippage_bps = slippage_bps;
  gas_cost_usdc = p.gas_cost_usdc;
  quote_age_seconds = record { coef = pos age; scale = 6 };
  all_costs = cost_total p.edge.cost_breakdown;
  persisted_seconds = record { coef = pos persisted; scale = 6 };
  status = "detected";
  blocked_reason = "";
  metadata = metadata;
}
