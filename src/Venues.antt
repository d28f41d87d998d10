-- ===== src/Venues.antt =====
-- app/exchanges/dex/base.py and app/exchanges/cex/base.py: what a venue answers during one quote. The
-- adapters are the interface of the quote engine.
use arbitrage_bot.Base.{Bool, Option, String}
use arbitrage_bot.Base.Int.{ℤ}
use arbitrage_bot.Base.Result.{Result}
use arbitrage_bot.Decimal.{Decimal}

-- `DEXAdapter`; `pool_fee_tier` is the entry of `get_pool_state` as a whole number, 0 where it is not
-- readable as one, and `liquidity_usd` the entry of `get_liquidity_snapshot`, if it has one
pub record DexAdapter : Type 0 where
  pub supported : Bool
  pub support_reason : String
  pub quote_exact_input : String → String → Decimal → Option ℤ → Option String → Result Decimal
  pub quote_exact_output : String → String → Decimal → Option ℤ → Option String → Result Decimal
  pub estimate_gas : String → Result ℤ
  pub pool_fee_tier : String → Result ℤ
  pub liquidity_usd : String → Result (Option Decimal)
  pub is_pool_healthy : String → Result Bool

-- `CEXAdapter`
pub record CexAdapter : Type 0 where
  pub get_market_status : String → Result String
  pub get_best_bid_ask : String → Result (Decimal × Decimal)
  pub get_trading_fee_details : String → String → String → Result (ℤ × String)
