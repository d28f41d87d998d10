-- ===== src/Backtest/Returns.antt =====
-- When a replay completes: every text that it reads as a number is one.
use arbitrage_bot.Base.{
  contains, [], nat_eq, string_eq, ◌==◌, ◌∷◌, Bool, Bool-cases, String, false, inl, inr, ltb, refl,
  true, ℕ, ◌∙◌, ◌≡◌,
}
use arbitrage_bot.Backtest.Opportunities.{Opportunity, limits_of}
use arbitrage_bot.Decimal.Order.{lt-of_ℕ}
use arbitrage_bot.Backtest.{base_amount_of, compute_penalties, penalty, penalty_if}
use arbitrage_bot.Backtest.Snapshots.{Snapshot, decimal_or}
use arbitrage_bot.Backtest.Tally.{Tally, finalize_outcome}
use arbitrage_bot.Base.Dict.{Dict, get_or}
use arbitrage_bot.Base.Result.{Returns, bind-Returns}
use arbitrage_bot.Decimal.{Decimal, dec, div, le, mul, of_ℕ}
use arbitrage_bot.Decimal.Compare.{div_pos, lt-not-le}
use arbitrage_bot.Json.{Json, get_decimal, parse_decimal}

-- the parameters that the replays read as numbers
pub record ReadableParams (params : Dict Json) : Type 0 where
  pub min_edge : Returns (get_decimal "min_modeled_edge_bps" "0" params)
  pub max_slippage : Returns (get_decimal "max_slippage_bps" "9999" params)
  pub max_quote_age : Returns (get_decimal "max_quote_age_seconds" "9999" params)
  pub liquidity_cap : Returns (get_decimal "liquidity_cap_ratio" "1" params)
  pub gas : Returns (get_decimal "gas_penalty_bps" "0" params)
  pub drift : Returns (get_decimal "quote_drift_buffer_bps" "0" params)
  pub latency : Returns (get_decimal "latency_penalty_bps" "0" params)
  pub fallback_fee : Returns (get_decimal "fallback_fee_penalty_bps" "0" params)
  pub unverified_fee : Returns (get_decimal "unverified_fee_penalty_bps" "0" params)
  pub unverified_balance : Returns (get_decimal "unverified_balance_penalty_bps" "0" params)
  pub gas_cost : Returns (get_decimal "default_gas_cost_usdc" "0.01" params)
  pub slippage : Returns (get_decimal "default_slippage_bps" "5" params)

-- the entries of an opportunity's payload that are read as numbers
abbrev pub ReadableOpportunity : Opportunity → Type 0
ReadableOpportunity row =
    Returns (parse_decimal (get_or "initial_amount" "0" row.payload))
    × Returns (parse_decimal (get_or "smaller_pool_liquidity_usdc" "0" row.payload))

-- the entries of a snapshot's payload that are read as numbers, where they are there
abbrev pub ReadableSnapshot : Snapshot → Type 0
ReadableSnapshot row =
    ((column : Decimal) → Returns (decimal_or "initial_amount" column row.payload))
    × ((column : Decimal) → Returns (decimal_or "final_amount" column row.payload))
    × ((column : Decimal) → Returns (decimal_or "expected_slippage_bps" column row.payload))
    × ((column : Decimal) → Returns (decimal_or "smaller_pool_liquidity_usdc" column row.payload))
    × ((column : Decimal) → Returns (decimal_or "gas_cost_usdc" column row.payload))

-- Division by a decimal that is not at most 0 does not raise.
pub div_positive : (a b : Decimal) → le b (dec 0 0) ≡ false → Returns (div a b)
div_positive a b h = div_pos a b (lt-not-le (dec 0 0) b ∙ rw h refl)

penalty-Returns :
    (base : Decimal) (key : String) (params : Dict Json)
    → Returns (get_decimal key "0" params)
    → Returns (penalty base key params)
unfolding penalty
penalty-Returns base key params r =
    bind-Returns (get_decimal key "0" params) _ r
      (λ bps. div_pos (mul base bps) (dec 10000 0) (lt-of_ℕ 10000 refl))

penalty_if-Returns :
    (b : Bool) (base : Decimal) (key : String) (params : Dict Json)
    → Returns (get_decimal key "0" params)
    → Returns (penalty_if b base key params)
unfolding penalty_if
penalty_if-Returns true base key params r = penalty-Returns base key params r
penalty_if-Returns false base key params r = (_, refl)

pub penalties-Returns :
    (initial expected : Decimal) (fee balance : String) (params : Dict Json)
    → ReadableParams params
    → Returns (compute_penalties initial expected fee balance params)
unfolding compute_penalties
penalties-Returns initial expected fee balance params r =
    let base = base_amount_of initial expected in
    bind-Returns _ _ (penalty-Returns base _ params r.gas) (λ a.
      bind-Returns _ _ (penalty-Returns base _ params r.drift) (λ b.
        bind-Returns _ _ (penalty-Returns base _ params r.latency) (λ c.
          bind-Returns _ _
            (penalty_if-Returns (fee == "fallback_only") base _ params r.fallback_fee)
            (λ d.
              bind-Returns _ _
                (penalty_if-Returns (contains fee ("fallback_only" ∷ "config_only" ∷ [])) base _
                  params r.unverified_fee)
                (λ e.
                  bind-Returns _ _
                    (penalty_if-Returns
                      (contains balance ("unknown" ∷ "internal_ok" ∷ "db_inventory_ok" ∷ [])) base _
                      params r.unverified_balance)
                    (λ f. (_, refl)))))))

pub limits-Returns : (params : Dict Json) → ReadableParams params → Returns (limits_of params)
unfolding limits_of
limits-Returns params r = bind-Returns _ _ r.min_edge (λ a. bind-Returns _ _ r.max_slippage (λ b.
    bind-Returns _ _ r.max_quote_age (λ c. bind-Returns _ _ r.liquidity_cap (λ d. (_, refl)))))

div_count : (a : Decimal) (n : ℕ) → ltb 0 n ≡ true → Returns (div a (of_ℕ n))
div_count a n h = div_pos a (of_ℕ n) (lt-of_ℕ n h)

pub finalize-Returns : (n : ℕ) (t : Tally) → Returns (finalize_outcome n t)
unfolding finalize_outcome
finalize-Returns n t = elim (Bool-cases (ltb 0 t.eligible_count)) [
  | inl b ↦ rw b (
      bind-Returns _ _ (div_count _ _ b) (λ a.
        bind-Returns _ _ (div_count _ _ b)
          (λ c. bind-Returns _ _ (div_count _ _ b) (λ d. (_, refl)))))
  | inr b ↦ rw b (_, refl)
]
