-- ===== src/Runner/WayBack.antt =====
-- What a quote of the hyper engine that matches says of the way back of its first leg.
use arbitrage_bot.Base.{
  Bool-cases, inl, inr, not, ap, false, nat_eq, refl, some, string_eq, true, ◌∙◌, ◌≡◌,
}
use arbitrage_bot.Base.Result.{Result, err, ok}
use arbitrage_bot.Decimal.{abs, dec, div, le, lt, quotient, sub, Decimal}
use arbitrage_bot.Decimal.Compare.{lt-not-le}
use arbitrage_bot.QuoteEngine.{deviation_within}
use arbitrage_bot.QuoteEngine.Hyper.{quote_match_hyper}
use arbitrage_bot.Repository.{Route}
use arbitrage_bot.Venues.{DexAdapter}

-- the amount is positive, and the venue says what the amount `out` costs: it deviates from the amount by
-- at most a hundredth of it
pub record WayBack (route : Route) (amount out : Decimal) (adapter : DexAdapter) : Type 0 where
  pub positive : lt (dec 0 0) amount ≡ true
  pub cost : Decimal
  pub asked :
      adapter.quote_exact_output "USDC" "USDT0" out
        (some route.quoter_fee_tier_a)
        (some route.pool_a)
      ≡ ok cost
  pub deviation : Decimal
  pub relative : div (sub cost amount) amount ≡ ok deviation
  pub within_percent : le (abs deviation) (dec 1 2) ≡ true

pub match-WayBack :
    (route : Route) (amount out : Decimal) (adapter : DexAdapter)
    → quote_match_hyper route amount out adapter ≡ true
    → WayBack route amount out adapter
unfolding quote_match_hyper deviation_within
match-WayBack route amount out adapter h = asked _ refl h
  where
    divided :
        (cost : Decimal) (found : Result Decimal)
        → adapter.quote_exact_output "USDC" "USDT0" out
            (some route.quoter_fee_tier_a)
            (some route.pool_a)
          ≡ ok cost
        → le amount (dec 0 0) ≡ false
        → div (sub cost amount) amount ≡ found
        → elim found [ err e ↦ false | ok deviation ↦ le (abs deviation) (dec 1 2) ] ≡ true
        → WayBack route amount out adapter
    divided cost (err e) answer some_amount quotient k = cc
    divided cost (ok deviation) answer some_amount quotient k = record {
      positive = lt-not-le (dec 0 0) amount ∙ ap not some_amount;
      cost = cost;
      asked = answer;
      deviation = deviation;
      relative = quotient;
      within_percent = k;
    }

    asked :
        (answer : Result Decimal)
        → adapter.quote_exact_output "USDC" "USDT0" out
            (some route.quoter_fee_tier_a)
            (some route.pool_a)
          ≡ answer
        → deviation_within (dec 1 2) amount answer ≡ true
        → WayBack route amount out adapter
    asked (err e) e₁ k = cc
    asked (ok cost) e₁ k = elim (Bool-cases (le amount (dec 0 0))) [
      | inl b ↦ let never = rw b at k in cc
      | inr b ↦ divided cost _ e₁ b refl (rw b at k)
    ]
