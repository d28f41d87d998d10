-- ===== src/Runner/Verified.antt =====
-- What a live trade rests on: from the answers of the venues to a tradable decision.
use arbitrage_bot.Runner.WayBack.{WayBack, match-WayBack}
use arbitrage_bot.Base.{
  ap, ℕ, arith, Bool, String, agree, contains, false, if◌then◌else◌, nat_eq, none, refl, some,
  string_eq, sym, true, ◌&&◌, ◌==◌, ◌∙◌, ◌≡◌,
}
use arbitrage_bot.Base.Result.{bind-ok, ok-cancel, ok}
use arbitrage_bot.Decimal.{Decimal}
use arbitrage_bot.QuoteEngine.{bool_text, source_type}
use arbitrage_bot.Runner.Made.{fee-made, health-made, match-made, quote-Made}
use arbitrage_bot.Runner.Statuses.{dex_status-verified, match-verified, same_ℤ, weakest-verified}
use arbitrage_bot.Risk.Guards.{
  fee_status, quote_match_status, Request, required_fee_status, required_quote_status,
}
use arbitrage_bot.Runner.Quoted.{
  metadata-with_statuses, quoted_fee-IsCanonical, quoted_match-IsCanonical, assess_parts,
  fee_status-assessed, quote_match_status-assessed,
}
use arbitrage_bot.Health.{Collector}
use arbitrage_bot.Quote.{OpportunityDecision, RouteQuote}
use arbitrage_bot.QuoteEngine.Hyper.{quote_route_hyper, Pools, pools_of, quote_match_hyper}
use arbitrage_bot.Risk.{Manager}
use arbitrage_bot.Risk.Decision.{evaluate_permits}
use arbitrage_bot.Risk.Evaluate.{evaluate}
use arbitrage_bot.Runner.Quoting.{assess, quoted_fee_status, quoted_match_status}
use arbitrage_bot.Settings.{live, Settings}
use arbitrage_bot.Base.Dict.{get_or, Dict, lookup}
use arbitrage_bot.Confidence.{
  fee_confidence_at_least, quote_match_status_at_least, normalize_fee_confidence,
}
use arbitrage_bot.Confidence.Canonical.{normalize_fee-canonical}
use arbitrage_bot.Confidence.Rank.{fee_confidence_at_least-top}
use mathlib.Core.Path.{subst}
use arbitrage_bot.Base.Int.{leb_ℤ, ltb_ℤ, pos, ℤ}
use arbitrage_bot.Edge.{dex_fee_status}
use mathlib.Core.Bool.{true≢false}
use arbitrage_bot.Repository.{Route}
use arbitrage_bot.Venues.{DexAdapter}

-- the fee tier of a pool is read from the chain, and is the configured one, if one is configured
pub record TierVerified (adapter : DexAdapter) (pool : String) (configured : ℤ) : Type 0 where
  pub tier : ℤ
  pub read : adapter.pool_fee_tier pool ≡ ok tier
  pub positive : leb_ℤ tier (pos 0) ≡ false
  pub configured_same : ltb_ℤ (pos 0) configured ≡ true → tier ≡ configured

-- what the venues said during the quote
pub record IsVerified (s : Settings) (route : Route) (amount : Decimal) (a b : DexAdapter)
    : Type 0 where
  pub real : s.use_mock_market_data ≡ false
  pub tier_a : TierVerified a route.pool_a route.pool_fee_tier_a
  pub tier_b : TierVerified b route.pool_b route.pool_fee_tier_b
  pub healthy :
      (a.is_pool_healthy route.pool_a ≡ ok true) × (b.is_pool_healthy route.pool_b ≡ ok true)
  pub matched :
      (leg1 : Decimal) × (a.quote_exact_input "USDC" "USDT0" amount
          (some route.quoter_fee_tier_a)
          (some route.pool_a)
        ≡ ok leg1)
      × WayBack route amount leg1 a

tier-verified :
    (s : Settings) (adapter : DexAdapter) (pool : String) (tier configured : ℤ)
    → adapter.pool_fee_tier pool ≡ ok tier
    → normalize_fee_confidence (some (dex_fee_status tier configured (source_type s)).0) none
      ≡ "chain_verified"
    → (s.use_mock_market_data ≡ false) × TierVerified adapter pool configured
tier-verified s adapter pool tier configured read h =
    let (real, positive, same) = dex_status-verified tier configured (source_type s) h in
    (
      go s.use_mock_market_data real,
      record {
        tier = tier;
        read = read;
        positive = positive;
        configured_same = λ on. same_ℤ tier configured (ground (arith, on, same));
      },
    )
  where
    go :
        (mock : Bool)
        → let source : String = if mock then "mock" else "real" in
          (source == "mock") ≡ false → mock ≡ false
    go true e = cc
    go false e = refl

-- A tradable decision in live mode on a quote of the hyper engine, where the settings ask for the
-- default statuses of fees and quotes, rests on the chain: no mock data are used, the fee tier of each
-- pool is read, positive and the configured one, if one is configured, both pools are healthy, the amount
-- is positive, and what the first venue asks for the outcome of the first leg deviates from the amount by
-- at most one hundredth of it.
pub live_trade-IsVerified :
    (s : Settings) (start end later : ℕ) (adapters : Dict DexAdapter) (a b : DexAdapter)
    (route : Route) (amount : Decimal) (started : Dict ℕ) (wallet : Decimal)
    (signing_status : String) (balance : String × String) (q : RouteQuote) (c : Collector)
    (r : Request) (m : Manager) {d : OpportunityDecision}
    → lookup route.venue_a adapters ≡ some a
    → lookup route.venue_b adapters ≡ some b
    → (quote_route_hyper s start end adapters route amount live started).0 ≡ ok q
    → assess later s route live wallet signing_status balance q c ≡ ok r
    → m.settings.live_min_fee_confidence_status ≡ "chain_verified"
    → m.settings.live_min_quote_match_status ≡ "matched"
    → (evaluate later r m).0 ≡ ok d
    → d.tradable ≡ true
    → IsVerified s route amount a b
unfolding quote_route_hyper required_fee_status required_quote_status
live_trade-IsVerified s start end later adapters a b route amount started wallet signing_status
      balance q c r m find_a find_b quoted assessed fee_limit match_limit decides tradable =
    let made =
      quote-Made s start end a b route amount live started
        (rw (find_a, find_b, quote_route_hyper) at quoted) in
    let p = (evaluate_permits later r m decides).0 tradable in
    let (same, mode, _, _, _) =
      assess_parts later s route live wallet signing_status balance q c assessed in
    let fee = fee_status-assessed later s route live wallet signing_status balance q c assessed in
    let matched =
      quote_match_status-assessed later s route live wallet signing_status balance q c assessed in
    let fee_top : quoted_fee_status q ≡ "chain_verified" =
      sym (normalize_fee-canonical _ none (quoted_fee-IsCanonical q))
      ∙ fee_confidence_at_least-top (quoted_fee_status q) (
          subst (λ x. fee_confidence_at_least x "chain_verified" ≡ ok true) fee
            (subst (λ x. fee_confidence_at_least (fee_status r) x ≡ ok true) (required_fee mode)
              p.trusted.fee_verified)) in
    let match_top : quoted_match_status q ≡ "matched" =
      match-verified (quoted_match_status q) (quoted_match-IsCanonical q) (
        subst (λ x. quote_match_status_at_least x "matched" ≡ ok true) matched
          (subst (λ x. quote_match_status_at_least (quote_match_status r) x ≡ ok true)
            (required_match mode) p.trusted.quote_verified)) in
    let (top_a, top_b) =
      (weakest-verified s route made.pools made.weakest).1
        (sym (fee-made s route amount a b q made) ∙ fee_top) in
    let (health_a, health_b, tier_a, tier_b) = pools_parts made.pools made.asked in
    let (real, verified_a) =
      tier-verified s a route.pool_a made.pools.tier_a route.pool_fee_tier_a tier_a top_a in
    let (_, verified_b) =
      tier-verified s b route.pool_b made.pools.tier_b route.pool_fee_tier_b tier_b top_b in
    let (on_a, on_b) = both made.pools.health_a made.pools.health_b (
      sym (health-made s route amount a b q made)
      ∙ sym (metadata-with_statuses "pool_health" "false" balance q (unfold contains in refl))
      ∙ ap (λ x. get_or "pool_health" "false" x.metadata) (sym same)
      ∙ p.calm.pool) in
    record {
      real = real;
      tier_a = verified_a;
      tier_b = verified_b;
      healthy = (health_a ∙ ap ok on_a, health_b ∙ ap ok on_b);
      matched = (
        made.priced.leg1,
        made.first,
        match-WayBack route amount made.priced.leg1 a (
            one_way (quote_match_hyper route amount made.priced.leg1 a)
              (sym (match-made s route amount a b q made) ∙ match_top)),
      );
    }
  where
    required_fee : r.mode ≡ live → required_fee_status m r ≡ "chain_verified"
    required_fee mode = rw mode fee_limit

    required_match : r.mode ≡ live → required_quote_status m r ≡ "matched"
    required_match mode = rw mode match_limit

    both : (x y : Bool) → bool_text (x && y) ≡ "true" → (x ≡ true) × (y ≡ true)
    both true true h = (refl, refl)
    both true false h = absurd (true≢false (sym (agree "false" "true" h)))
    both false y h = absurd (true≢false (sym (agree "false" "true" h)))

    one_way :
        (t : Bool)
        → let status : String = if t then "matched" else "mismatch" in status ≡ "matched" → t ≡ true
    one_way true h = refl
    one_way false h = absurd (true≢false (sym (agree "mismatch" "matched" h)))

    pools_parts :
        (pools : Pools)
        → pools_of route a b ≡ ok pools
        → (a.is_pool_healthy route.pool_a ≡ ok pools.health_a)
          × (b.is_pool_healthy route.pool_b ≡ ok pools.health_b)
          × (a.pool_fee_tier route.pool_a ≡ ok pools.tier_a)
          × (b.pool_fee_tier route.pool_b ≡ ok pools.tier_b)
    pools_parts pools h =
        unfold pools_of in
        let (_, ha, h₁) = bind-ok (a.is_pool_healthy route.pool_a) _ h in
        let (_, hb, h₂) = bind-ok (b.is_pool_healthy route.pool_b) _ h₁ in
        let (_, ta, h₃) = bind-ok (a.pool_fee_tier route.pool_a) _ h₂ in
        let (_, tb, h₄) = bind-ok (b.pool_fee_tier route.pool_b) _ h₃ in
        let (_, la, h₅) = bind-ok (a.liquidity_usd route.pool_a) _ h₄ in
        let (_, lb, h₆) = bind-ok (b.liquidity_usd route.pool_b) _ h₅ in
        let made = ok-cancel h₆ in
        (
          ha ∙ ap (λ x. ok x.health_a) made,
          hb ∙ ap (λ x. ok x.health_b) made,
          ta ∙ ap (λ x. ok x.tier_a) made,
          tb ∙ ap (λ x. ok x.tier_b) made,
        )
