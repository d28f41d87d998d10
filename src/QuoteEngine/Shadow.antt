-- ===== src/QuoteEngine/Shadow.antt =====
-- app/quote_engine/engine.py: `ShadowCexDexQuoteEngine`.
use arbitrage_bot.Decimal.{add, Decimal, dec, div, mul, of_ℤ, sub}
use arbitrage_bot.Edge.{
  cex_fee_status_from_provenance, dex_fee_status, update_persistence, calculate, to_bps_down,
}
use arbitrage_bot.QuoteEngine.{
  Priced, bool_text, deviation_within, estimate_gas_usdc, or_zero, quote_with, source_type,
}
use arbitrage_bot.Venues.{CexAdapter, DexAdapter}
use arbitrage_bot.Base.{
  [], nat_eq, string_eq, ℕ, ◌-◌, ◌==◌, ◌∷◌, Bool, String, if◌then◌else◌, none, not, some,
}
use arbitrage_bot.Base.Dict.{Dict, lookup}
use arbitrage_bot.Base.Int.{ℤ}
use arbitrage_bot.Base.Result.{key_error, Result, err, ok, quote_unavailable, ◌>>=◌}
use arbitrage_bot.Confidence.{min_fee_confidence}
use arbitrage_bot.Json.{show_ℤ}
use arbitrage_bot.Json.Show.{decimal_text}
use arbitrage_bot.Quote.{RouteQuote}
use arbitrage_bot.Settings.{Settings}
use arbitrage_bot.Repository.{Route}
use Prim.Native.String.{◌++◌ as ◌<>◌}

-- `_quote_match_shadow`
unfoldable pub quote_match_shadow : Route → Decimal → Decimal → DexAdapter → Bool
quote_match_shadow route amount_in virtual_amount dex = deviation_within (dec 2 2) amount_in (
    dex.quote_exact_output "USDC" "VIRTUAL" virtual_amount (some route.quoter_fee_tier_b)
      (some route.pool_b))

-- the amounts of a quote and the fee of the exchange, up to the update of the persistence
pub record ShadowPriced : Type 0 where
  pub priced : Priced
  pub cex_bid : Decimal
  pub cex_fee_bps : ℤ
  pub cex_fee_provenance : String
  pub dex_fee_cost : Decimal

unfoldable pub price_shadow :
    Settings → Route → Decimal → CexAdapter → DexAdapter → Result ShadowPriced
price_shadow s route amount_in cex dex =
    if not dex.supported
    then err (
        quote_unavailable "quote_unavailable"
          ("dex unsupported " <> (route.venue_b <> (": " <> dex.support_reason))))
    else (cex.get_market_status "VIRTUALUSDC" >>= λ market.
        if not (market == "trading")
        then err (
            quote_unavailable "quote_unavailable"
              ("cex market not trading: " <> (route.venue_a <> (" status=" <> market))))
        else (dex.quote_exact_input "USDC" "VIRTUAL" amount_in none none >>= λ virtual_amount.
            cex.get_best_bid_ask "VIRTUALUSDC" >>= λ (cex_bid, cex_ask).
            let expected = mul virtual_amount cex_bid in
            cex.get_trading_fee_details "VIRTUALUSDC" "sell" "taker"
            >>= λ (fee_bps, fee_provenance).
                div (mul expected (of_ℤ fee_bps)) (dec 10000 0) >>= λ cex_fee_cost.
                div (mul amount_in (of_ℤ route.economic_fee_bps_b)) (dec 10000 0)
                >>= λ dex_fee_cost. dex.estimate_gas route.name >>= λ gas_units.
                    estimate_gas_usdc s gas_units >>= λ gas_cost.
                    to_bps_down (sub expected amount_in) amount_in >>= λ raw_edge_bps.
                    calculate s amount_in expected (add cex_fee_cost dex_fee_cost) gas_cost
                    >>= λ edge. ok (record {
                      priced = record {
                        leg1 = virtual_amount;
                        leg2 = expected;
                        gas_cost_usdc = gas_cost;
                        raw_spread = sub expected amount_in;
                        raw_edge_bps = raw_edge_bps;
                        edge = edge;
                      };
                      cex_bid = cex_bid;
                      cex_fee_bps = fee_bps;
                      cex_fee_provenance = fee_provenance;
                      dex_fee_cost = dex_fee_cost;
                    })))

unfoldable pub metadata_shadow :
    Settings
    → Route
    → Decimal
    → ShadowPriced
    → Bool
    → Decimal
    → Bool
    → String
    → String
    → Dict String
unfolding decimal_text show_ℤ
metadata_shadow s route amount_in p pool_health liquidity matches fee_known_status dex_provenance =
    ("pool_health", bool_text pool_health)
    ∷ ("venues", route.venue_a <> ("->" <> route.venue_b))
    ∷ ("smaller_pool_liquidity_usdc", decimal_text liquidity)
    ∷ ("pool_fee_tier_b", show_ℤ route.pool_fee_tier_b)
    ∷ ("quoter_fee_tier_b", show_ℤ route.quoter_fee_tier_b)
    ∷ ("economic_fee_bps_b", show_ℤ route.economic_fee_bps_b)
    ∷ ("fee_known", bool_text (not (fee_known_status == "unknown")))
    ∷ ("fee_known_status", fee_known_status)
    ∷ ("fee_source", p.cex_fee_provenance)
    ∷ ("fee_provenance", "cex:" <> (p.cex_fee_provenance <> ("|dex:" <> dex_provenance)))
    ∷ ("quote_match", bool_text matches)
    ∷ ("quote_match_status", if matches then "matched" else "mismatch")
    ∷ ("quote_source", source_type s)
    ∷ ("cex_bid", decimal_text p.cex_bid)
    ∷ ("cex_fee_bps", show_ℤ p.cex_fee_bps)
    ∷ ("dex_fee_cost_usdc", decimal_text p.dex_fee_cost)
    ∷ ("dex_virtual_amount", decimal_text p.priced.leg1)
    ∷ ("initial_amount", decimal_text amount_in)
    ∷ ("final_amount", decimal_text p.priced.leg2)
    ∷ []

-- what follows the update of the persistence
unfoldable pub finish_shadow :
    Settings → Route → Decimal → ShadowPriced → ℕ → ℕ → DexAdapter → Result RouteQuote
unfolding quote_match_shadow metadata_shadow
finish_shadow s route amount_in p age persisted dex =
    dex.is_pool_healthy route.pool_b >>= λ pool_health.
    dex.liquidity_usd route.pool_b >>= λ pool_liq. dex.pool_fee_tier route.pool_b >>= λ pool_tier.
    let matches = quote_match_shadow route amount_in p.priced.leg1 dex in
    let (dex_status, dex_provenance) =
      dex_fee_status pool_tier route.pool_fee_tier_b (source_type s) in
    min_fee_confidence (cex_fee_status_from_provenance p.cex_fee_provenance ∷ dex_status ∷ [])
    >>= λ fee_known_status. ok (
        quote_with route amount_in p.priced.leg2 p.priced (dec 5 0) age persisted (
          metadata_shadow s route amount_in p pool_health (or_zero pool_liq) matches
            fee_known_status dex_provenance))

-- the quote between an exchange and a pool, and the new state of the persistence
unfoldable pub quote_across :
    Settings
    → ℕ
    → ℕ
    → CexAdapter
    → DexAdapter
    → Route
    → Decimal
    → Dict ℕ
    → Result RouteQuote × Dict ℕ
unfolding price_shadow finish_shadow
quote_across s start end cex dex route amount_in started =
    elim (price_shadow s route amount_in cex dex) [
      | err e ↦ (err e, started)
      | ok p ↦
          let (persisted, started') =
            update_persistence end route.id (of_ℤ s.shadow_min_net_edge_bps)
              p.priced.edge.modeled_net_edge_bps started in
          (finish_shadow s route amount_in p (end - start) persisted dex, started')
    ]

-- `quote_route` of `ShadowCexDexQuoteEngine`
unfoldable pub quote_route_shadow :
    Settings
    → ℕ
    → ℕ
    → Dict CexAdapter
    → Dict DexAdapter
    → Route
    → Decimal
    → Dict ℕ
    → Result RouteQuote × Dict ℕ
unfolding quote_across
quote_route_shadow s start end cex_adapters dex_adapters route amount_in started =
    elim (lookup route.venue_a cex_adapters) [
      | none ↦ (err key_error, started)
      | some cex ↦ elim (lookup route.venue_b dex_adapters) [
        | none ↦ (err key_error, started)
        | some dex ↦ quote_across s start end cex dex route amount_in started
      ]
    ]
