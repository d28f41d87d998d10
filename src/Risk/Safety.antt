-- ===== src/Risk/Safety.antt =====
-- No guard of `evaluate` raises: the comparisons never do, and the share of the pool is computed only
-- where the pool's liquidity is positive.
use arbitrage_bot.Base.Result.{ok}
use arbitrage_bot.Risk.Evaluate.{dynamic_guards, static_guards}
use arbitrage_bot.Risk.Order.{Safe, Safe-append}
use arbitrage_bot.Base.{Bool, Bool-cases, String, inl, inr, refl, ℕ, ◌≡◌}
use arbitrage_bot.Risk.{Manager}
use arbitrage_bot.Decimal.Compare.{div_pos}
use arbitrage_bot.Risk.Guards.{
  quote_match_status, Request, balance_status, confidence_guards, fee_status, health_guards,
  live_guards, market_guards, mode_guards, pause_guards, pool_share_ok, required_balance_status,
  required_fee_status, required_quote_status, route_guards, shadow_guards, size_guards,
}
use arbitrage_bot.Confidence.{
  balance_confidence_at_least, fee_confidence_at_least, quote_match_status_at_least,
}
use arbitrage_bot.Confidence.Rank.{at_least-preorders}
use arbitrage_bot.Decimal.{le}
use arbitrage_bot.Settings.{is_live}

pause-Safe : (m : Manager) (r : Request) → Safe (pause_guards m r)
unfolding pause_guards
pause-Safe m r = (_, refl, λ _. (_, refl, λ _. (_, refl, λ _. (_, refl, λ _. (_, refl, λ _. tt)))))

health-Safe : (m : Manager) (r : Request) → Safe (health_guards m r)
unfolding health_guards
health-Safe m r = (
  _,
  refl,
  λ _. (
    _,
    refl,
    λ _. (
      _,
      refl,
      λ _. (_, refl, λ _. (_, refl, λ _. (_, refl, λ _. (_, refl, λ _. (_, refl, λ _. tt))))),
    ),
  ),
)

fee_call : (a b : String) → (holds : Bool) × (fee_confidence_at_least a b ≡ ok holds)
fee_call = at_least-preorders.1.0

balance_call : (a b : String) → (holds : Bool) × (balance_confidence_at_least a b ≡ ok holds)
balance_call = at_least-preorders.2.0

quote_call : (a b : String) → (holds : Bool) × (quote_match_status_at_least a b ≡ ok holds)
quote_call = at_least-preorders.3.0

confidence-Safe : (m : Manager) (r : Request) → Safe (confidence_guards m r)
unfolding confidence_guards
confidence-Safe m r =
    let (f, pf) = fee_call (fee_status r) (required_fee_status m r) in
    let (q, pq) = quote_call (quote_match_status r) (required_quote_status m r) in
    let (b, pb) = balance_call (balance_status r) (required_balance_status m r) in
    (
      _,
      refl,
      λ _. (
        _,
        refl,
        λ _. (
          f,
          pf,
          λ _. (
            _,
            refl,
            λ _. (q, pq, λ _. (_, refl, λ _. (_, refl, λ _. (_, refl, λ _. (b, pb, λ _. tt))))),
          ),
        ),
      ),
    )

market-Safe : (m : Manager) (r : Request) → Safe (market_guards m r)
unfolding market_guards
market-Safe m r = (
  _,
  refl,
  λ _. (
    _,
    refl,
    λ _. (
      _,
      refl,
      λ _. (
        _,
        refl,
        λ _. (_, refl, λ _. (_, refl, λ _. (_, refl, λ _. (_, refl, λ _. (_, refl, λ _. tt))))),
      ),
    ),
  ),
)

size-Safe : (m : Manager) (r : Request) → Safe (size_guards m r)
unfolding size_guards pool_share_ok
size-Safe m r = (
  _,
  refl,
  λ _. (
    _,
    refl,
    λ liquid.
        let (q, e) = div_pos r.quote.initial_amount r.smaller_pool_liquidity_usdc liquid in
        (le q m.settings.live_max_notional_pct_of_smaller_pool, rw e, λ _. (_, refl, λ _. tt)),
  ),
)

route-Safe : (now : ℕ) (m : Manager) (r : Request) → Safe (route_guards now m r)
unfolding route_guards
route-Safe now m r = (_, refl, λ _. (_, refl, λ _. (_, refl, λ _. (_, refl, λ _. tt))))

mode-Safe : (m : Manager) (r : Request) → Safe (mode_guards m r)
unfolding mode_guards live_guards shadow_guards
mode-Safe m r = elim (Bool-cases (is_live r.mode)) [
  | inl l ↦ rw l (_, refl, λ _. (_, refl, λ _. (_, refl, λ _. (_, refl, λ _. (_, refl, λ _. tt)))))
  | inr l ↦ rw l (_, refl, λ _. (_, refl, λ _. (_, refl, λ _. tt)))
]

pub static-Safe : (m : Manager) (r : Request) → Safe (static_guards m r)
unfolding static_guards
static-Safe m r = Safe-append _ _ (pause-Safe m r) (λ _. Safe-append _ _ (health-Safe m r) (λ _.
    Safe-append _ _ (confidence-Safe m r)
      (λ _. Safe-append _ _ (market-Safe m r) (λ _. size-Safe m r))))

pub dynamic-Safe : (now : ℕ) (m : Manager) (r : Request) → Safe (dynamic_guards now m r)
unfolding dynamic_guards
dynamic-Safe now m r = Safe-append _ _ (route-Safe now m r) (λ _. mode-Safe m r)
