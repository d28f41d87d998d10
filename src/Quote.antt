-- ===== src/Quote.antt =====
-- app/quote_engine/types.py: what a quote and a risk decision carry. `QuoteLeg` is unused.
use arbitrage_bot.Base.{Bool, String}
use arbitrage_bot.Base.Dict.{Dict}
use arbitrage_bot.Decimal.{Decimal}

-- `metadata` is a dict of texts
pub record RouteQuote : Type 0 where
  pub route_id : String
  pub strategy : String
  pub pair : String
  pub direction : String
  pub initial_amount : Decimal
  pub final_amount : Decimal
  pub raw_spread_amount : Decimal
  pub raw_edge_bps : Decimal
  pub modeled_net_edge_amount : Decimal
  pub modeled_net_edge_bps : Decimal
  pub expected_slippage_bps : Decimal
  pub gas_cost_usdc : Decimal
  pub quote_age_seconds : Decimal
  pub all_costs : Decimal
  pub persisted_seconds : Decimal
  pub status : String
  pub blocked_reason : String
  pub metadata : Dict String

-- `checks` holds the named checks in the order in which they were made
pub record OpportunityDecision : Type 0 where
  pub tradable : Bool
  pub blocked_reason : String
  pub checks : Dict Bool
