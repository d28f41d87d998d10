-- ===== src/QuoteEngine/Hyper.antt =====
-- app/quote_engine/engine.py: `HyperDexDexQuoteEngine`.
use arbitrage_bot.QuoteEngine.{
  Priced, bool_text, deviation_within, estimate_dex_fee_cost, estimate_gas_usdc, or_zero,
  quote_with, source_type,
}
use arbitrage_bot.Base.{
  [], nat_eq, string_eq, ℕ, ◌&&◌, ◌-◌, ◌==◌, ◌∷◌, Bool, String, if◌then◌else◌, none, not, some,
  ◌||◌,
}
use arbitrage_bot.Base.Dict.{Dict, lookup}
use arbitrage_bot.Base.Int.{ℤ, ◌+ℤ◌}
use arbitrage_bot.Base.Result.{key_error, Result, err, ok, quote_unavailable, ◌>>=◌}
use arbitrage_bot.Confidence.{min_fee_confidence}
use arbitrage_bot.Decimal.{min, Decimal, dec, of_ℤ, sub}
use arbitrage_bot.Edge.{dex_fee_status, update_persistence, calculate, to_bps_down}
use arbitrage_bot.Json.{show_ℤ}
use arbitrage_bot.Json.Show.{decimal_text}
use arbitrage_bot.Quote.{RouteQuote}
use arbitrage_bot.Settings.{RunMode, is_live, Settings}
use arbitrage_bot.Repository.{Route}
use arbitrage_bot.Venues.{DexAdapter}
use Prim.Native.String.{◌++◌ as ◌<>◌}

-- `_quote_match_hyper`
unfoldable pub quote_match_hyper : Route → Decimal → Decimal → DexAdapter → Bool
quote_match_hyper route amount_in out_leg1 adapter_a = deviation_within (dec 1 2) amount_in (
    adapter_a.quote_exact_output "USDC" "USDT0" out_leg1 (some route.quoter_fee_tier_a)
      (some route.pool_a))

-- what the venues say of the pools after it
pub record Pools : Type 0 where
  pub health_a : Bool
  pub health_b : Bool
  pub tier_a : ℤ
  pub tier_b : ℤ
  pub liquidity_a : Decimal
  pub liquidity_b : Decimal

unfoldable pub price_hyper : Settings → Route → Decimal → DexAdapter → DexAdapter → Result Priced
unfolding estimate_dex_fee_cost estimate_gas_usdc
price_hyper s route amount_in a b =
    if not a.supported || not b.supported
    then err (
        quote_unavailable "quote_unavailable" (
          "unsupported adapter route="
          <> (route.name <> (" a=" <> (a.support_reason <> (" b=" <> b.support_reason))))))
    else (a.quote_exact_input "USDC" "USDT0" amount_in (some route.quoter_fee_tier_a)
          (some route.pool_a)
        >>= λ leg1.
            b.quote_exact_input "USDT0" "USDC" leg1 (some route.quoter_fee_tier_b)
              (some route.pool_b)
            >>= λ leg2. a.estimate_gas route.name >>= λ gas_units_a.
                b.estimate_gas route.name >>= λ gas_units_b.
                estimate_gas_usdc s (gas_units_a +ℤ gas_units_b) >>= λ gas_cost.
                to_bps_down (sub leg2 amount_in) amount_in >>= λ raw_edge_bps.
                estimate_dex_fee_cost amount_in route.economic_fee_bps_a route.economic_fee_bps_b
                >>= λ dex_fee_cost. calculate s amount_in leg2 dex_fee_cost gas_cost >>= λ edge.
                    ok (record {
                      leg1 = leg1;
                      leg2 = leg2;
                      gas_cost_usdc = gas_cost;
                      raw_spread = sub leg2 amount_in;
                      raw_edge_bps = raw_edge_bps;
                      edge = edge;
                    }))

unfoldable pub pools_of : Route → DexAdapter → DexAdapter → Result Pools
pools_of route a b = a.is_pool_healthy route.pool_a >>= λ health_a.
    b.is_pool_healthy route.pool_b >>= λ health_b. a.pool_fee_tier route.pool_a >>= λ tier_a.
    b.pool_fee_tier route.pool_b >>= λ tier_b. a.liquidity_usd route.pool_a >>= λ liquidity_a.
    b.liquidity_usd route.pool_b >>= λ liquidity_b. ok (record {
      health_a = health_a;
      health_b = health_b;
      tier_a = tier_a;
      tier_b = tier_b;
      liquidity_a = or_zero liquidity_a;
      liquidity_b = or_zero liquidity_b;
    })

-- `min_fee_confidence` of the statuses of both pools, with their provenances
unfoldable pub fees_of : Settings → Route → Pools → Result (String × String × String)
fees_of s route pools =
    let (status_a, provenance_a) =
      dex_fee_status pools.tier_a route.pool_fee_tier_a (source_type s) in
    let (status_b, provenance_b) =
      dex_fee_status pools.tier_b route.pool_fee_tier_b (source_type s) in
    min_fee_confidence (status_a ∷ status_b ∷ []) >>= λ known.
    ok (known, provenance_a, provenance_b)

-- the metadata of a quote
unfoldable pub metadata_hyper :
    Settings → Route → Decimal → Priced → Pools → Bool → String → String → String → Dict String
unfolding decimal_text show_ℤ
metadata_hyper s route amount_in p pools matches fee_known_status provenance_a provenance_b =
    ("pool_health", bool_text (pools.health_a && pools.health_b))
    ∷ ("venues", route.venue_a <> ("->" <> route.venue_b))
    ∷ ("smaller_pool_liquidity_usdc", decimal_text (min pools.liquidity_a pools.liquidity_b))
    ∷ ("pool_a_liquidity_usdc", decimal_text pools.liquidity_a)
    ∷ ("pool_b_liquidity_usdc", decimal_text pools.liquidity_b)
    ∷ ("pool_fee_tier_a", show_ℤ route.pool_fee_tier_a)
    ∷ ("pool_fee_tier_b", show_ℤ route.pool_fee_tier_b)
    ∷ ("quoter_fee_tier_a", show_ℤ route.quoter_fee_tier_a)
    ∷ ("quoter_fee_tier_b", show_ℤ route.quoter_fee_tier_b)
    ∷ ("economic_fee_bps_a", show_ℤ route.economic_fee_bps_a)
    ∷ ("economic_fee_bps_b", show_ℤ route.economic_fee_bps_b)
    ∷ ("fee_known", bool_text (not (fee_known_status == "unknown")))
    ∷ ("fee_known_status", fee_known_status)
    ∷ ("fee_source", provenance_a)
    ∷ ("fee_provenance", provenance_a <> ("|" <> provenance_b))
    ∷ ("quote_match", bool_text matches)
    ∷ ("quote_match_status", if matches then "matched" else "mismatch")
    ∷ ("quote_source", source_type s)
    ∷ ("leg1_amount_out", decimal_text p.leg1)
    ∷ ("leg2_amount_out", decimal_text p.leg2)
    ∷ ("initial_amount", decimal_text amount_in)
    ∷ ("final_amount", decimal_text p.leg2)
    ∷ []

-- what follows the update of the persistence
unfoldable pub finish_hyper :
    Settings → Route → Decimal → Priced → ℕ → ℕ → DexAdapter → DexAdapter → Result RouteQuote
unfolding pools_of quote_match_hyper fees_of metadata_hyper quote_with
finish_hyper s route amount_in p age persisted a b = pools_of route a b >>= λ pools.
    fees_of s route pools >>= λ (fee_known_status, provenance_a, provenance_b). ok (
      quote_with route amount_in p.leg2 p (dec 1 0) age persisted (
        metadata_hyper s route amount_in p pools (quote_match_hyper route amount_in p.leg1 a)
          fee_known_status provenance_a provenance_b))

-- the quote between two adapters, and the new state of the persistence of edges; once the edge is
-- known, the state changes even where a later call raises
unfoldable pub quote_between :
    Settings
    → ℕ
    → ℕ
    → DexAdapter
    → DexAdapter
    → Route
    → Decimal
    → RunMode
    → Dict ℕ
    → Result RouteQuote × Dict ℕ
unfolding price_hyper finish_hyper
quote_between s start end a b route amount_in mode_profile started =
    elim (price_hyper s route amount_in a b) [
      | err e ↦ (err e, started)
      | ok p ↦
          let threshold =
            if is_live mode_profile then s.live_min_net_edge_bps else s.shadow_min_net_edge_bps in
          let (persisted, started') =
            update_persistence end route.id (of_ℤ threshold) p.edge.modeled_net_edge_bps started in
          (finish_hyper s route amount_in p (end - start) persisted a b, started')
    ]

-- `quote_route` of `HyperDexDexQuoteEngine`, with its start and its end
unfoldable pub quote_route_hyper :
    Settings
    → ℕ
    → ℕ
    → Dict DexAdapter
    → Route
    → Decimal
    → RunMode
    → Dict ℕ
    → Result RouteQuote × Dict ℕ
unfolding quote_between
quote_route_hyper s start end adapters route amount_in mode_profile started =
    elim (lookup route.venue_a adapters) [
      | none ↦ (err key_error, started)
      | some a ↦ elim (lookup route.venue_b adapters) [
        | none ↦ (err key_error, started)
        | some b ↦ quote_between s start end a b route amount_in mode_profile started
      ]
    ]
