-- ===== src/Runner/Made.antt =====
-- What a quote of the hyper engine is made of, and the statuses that the loop reads off it.
use arbitrage_bot.Runner.Statuses.{named-fee, weakest-verified}
use arbitrage_bot.Quote.{RouteQuote}
use arbitrage_bot.QuoteEngine.Hyper.{
  finish_hyper, Pools, fees_of, metadata_hyper, pools_of, price_hyper, quote_between,
  quote_match_hyper,
}
use arbitrage_bot.Runner.Quoting.{quoted_fee_status, quoted_match_status}
use arbitrage_bot.Settings.{is_live, RunMode, Settings}
use arbitrage_bot.Base.{
  Bool-cases, ap, inl, inr, ◌-◌, ◌||◌, ℕ, Bool, String, contains, false, if◌then◌else◌, nat_eq,
  none, not, refl, some, string_eq, sym, true, ◌&&◌, ◌∙◌, ◌≡◌,
}
use arbitrage_bot.Base.Dict.{get_or, Dict, lookup}
use arbitrage_bot.Confidence.{norm, normalize_quote_match_status, normalize_fee_confidence}
use arbitrage_bot.Confidence.Canonical.{normalize_fee-canonical}
use arbitrage_bot.Json.{or_else}
use arbitrage_bot.QuoteEngine.{
  bool_text, estimate_dex_fee_cost, estimate_gas_usdc, quote_with, Priced,
}
use arbitrage_bot.Base.Int.{◌+ℤ◌}
use arbitrage_bot.Decimal.{sub, of_ℤ, Decimal}
use arbitrage_bot.Edge.{calculate, to_bps_down, update_persistence}
use arbitrage_bot.Base.Result.{Result, bind-ok, err, ok-cancel, ok}
use arbitrage_bot.Base.Text.{lower, strip}
use arbitrage_bot.Repository.{Route}
use arbitrage_bot.Venues.{DexAdapter}

-- what a quote is made of
pub record Made (s : Settings) (route : Route) (amount : Decimal) (a b : DexAdapter)
    (q : RouteQuote) : Type 0 where
  pub priced : Priced
  pub first :
      a.quote_exact_input "USDC" "USDT0" amount (some route.quoter_fee_tier_a) (some route.pool_a)
      ≡ ok priced.leg1
  pub pools : Pools
  pub asked : pools_of route a b ≡ ok pools
  pub fees : String × String × String
  pub weakest : fees_of s route pools ≡ ok fees
  pub metadata_same :
      q.metadata
      ≡ metadata_hyper s route amount priced pools
          (quote_match_hyper route amount priced.leg1 a)
          fees.0
          fees.1
          fees.2

priced_first :
    (s : Settings) (route : Route) (amount : Decimal) (a b : DexAdapter) {p : Priced}
    → price_hyper s route amount a b ≡ ok p
    → a.quote_exact_input "USDC" "USDT0" amount (some route.quoter_fee_tier_a) (some route.pool_a)
      ≡ ok p.leg1
unfolding price_hyper
priced_first s route amount a b h = elim (Bool-cases (not a.supported || not b.supported)) [
  | inl off ↦ let never = rw off at h in cc
  | inr on ↦
      let (leg1, e, h₁) =
        bind-ok
          (a.quote_exact_input "USDC" "USDT0" amount (some route.quoter_fee_tier_a)
            (some route.pool_a))
          _ (rw on at h) in
      let (leg2, _, h₂) =
        bind-ok
          (b.quote_exact_input "USDT0" "USDC" leg1 (some route.quoter_fee_tier_b)
            (some route.pool_b))
          _ h₁ in
      let (units_a, _, h₃) = bind-ok (a.estimate_gas route.name) _ h₂ in
      let (units_b, _, h₄) = bind-ok (b.estimate_gas route.name) _ h₃ in
      let (gas, _, h₅) = bind-ok (estimate_gas_usdc s (units_a +ℤ units_b)) _ h₄ in
      let (_, _, h₆) = bind-ok (to_bps_down (sub leg2 amount) amount) _ h₅ in
      let (fee, _, h₇) =
        bind-ok (estimate_dex_fee_cost amount route.economic_fee_bps_a route.economic_fee_bps_b) _
          h₆ in
      let (_, _, h₈) = bind-ok (calculate s amount leg2 fee gas) _ h₇ in
      e ∙ ap (λ x. ok x.leg1) (ok-cancel h₈)
]

pub quote-Made :
    (s : Settings) (start end : ℕ) (a b : DexAdapter) (route : Route) (amount : Decimal)
    (mode : RunMode) (started : Dict ℕ) {q : RouteQuote}
    → (quote_between s start end a b route amount mode started).0 ≡ ok q
    → Made s route amount a b q
unfolding quote_between
quote-Made s start end a b route amount mode started {q} h =
    go (price_hyper s route amount a b) refl h
  where
    go :
        (out : Result Priced)
        → price_hyper s route amount a b ≡ out
        → let answer : Result RouteQuote × Dict ℕ = elim out [
          | err e ↦ (err e, started)
          | ok p ↦
              let threshold =
                if is_live mode then s.live_min_net_edge_bps else s.shadow_min_net_edge_bps in
              let (persisted, started') =
                update_persistence end route.id
                  (of_ℤ threshold)
                  p.edge.modeled_net_edge_bps
                  started in
              (finish_hyper s route amount p (end - start) persisted a b, started')
        ] in
          answer.0 ≡ ok q → Made s route amount a b q
    go (err e) priced h = cc
    go (ok p) priced h =
        unfold finish_hyper quote_with in
        let (pools, asked, h₁) = bind-ok (pools_of route a b) _ h in
        let (fees, weakest, h₂) = bind-ok (fees_of s route pools) _ h₁ in
        record {
          priced = p;
          first = priced_first s route amount a b priced;
          pools = pools;
          asked = asked;
          fees = fees;
          weakest = weakest;
          metadata_same = sym (ap (λ x. x.metadata) (ok-cancel h₂));
        }

-- the statuses that the loop reads off a quote
module _ (s : Settings) (route : Route) (amount : Decimal) (a b : DexAdapter) (q : RouteQuote)
    (made : Made s route amount a b q) where
  pub fee-made : quoted_fee_status q ≡ made.fees.0
  unfolding quoted_fee_status metadata_hyper lookup or_else
  fee-made =
      let c = (weakest-verified s route made.pools made.weakest).0 in
      ap
        (λ d.
          normalize_fee_confidence (or_else (lookup "fee_known_status" d) (lookup "fee_known" d))
            none)
        made.metadata_same
      ∙ rw (or_else, named-fee made.fees.0 c) (normalize_fee-canonical made.fees.0 none c)

  pub match-made :
      quoted_match_status q
      ≡ (if quote_match_hyper route amount made.priced.leg1 a then "matched" else "mismatch")
  unfolding quoted_match_status metadata_hyper lookup
  match-made =
      ap
        (λ d.
          normalize_quote_match_status
            (or_else (lookup "quote_match_status" d) (lookup "quote_match" d)))
        made.metadata_same
      ∙ go (quote_match_hyper route amount made.priced.leg1 a)
    where
      go :
          (t : Bool)
          → let status : String = if t then "matched" else "mismatch" in
            normalize_quote_match_status (or_else (some status) (some (bool_text t))) ≡ status
      go true = unfold or_else normalize_quote_match_status norm strip lower contains in refl
      go false = unfold or_else normalize_quote_match_status norm strip lower contains in refl

  pub health-made :
      get_or "pool_health" "false" q.metadata
      ≡ bool_text (made.pools.health_a && made.pools.health_b)
  unfolding metadata_hyper get_or lookup
  health-made = ap (get_or "pool_health" "false") made.metadata_same
