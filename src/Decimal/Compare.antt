-- ===== src/Decimal/Compare.antt =====
-- The comparisons of decimals, and division by a positive one.
use arbitrage_bot.Base.{◌*◌, arith, false, nat_eq, not, string_eq, true, ℕ, ◌==◌, ◌^◌, ◌≡◌, ◌⊎◌}
use arbitrage_bot.Decimal.{quotient, Decimal, dec, div, is_zero, le, lt, scale_up}
use arbitrage_bot.Base.Int.{abs_ℕ, ltb_ℤ, negsuc, pos, ℤ, ◌*ℤ◌}
use arbitrage_bot.Base.Result.{ok}

pos_coef :
    (s : ℕ) (c : ℤ)
    → ltb_ℤ (pos 0 *ℤ pos (10 ^ s)) (c *ℤ pos (10 ^ 0)) ≡ true
    → (abs_ℕ c == 0) ≡ false
unfolding ◌*ℤ◌
pos_coef s (pos n) h = grind arith
pos_coef s (negsuc n) h = grind arith

pub pos-nonzero : (b : Decimal) → lt (dec 0 0) b ≡ true → is_zero b ≡ false
unfolding lt scale_up
pos-nonzero b h = pos_coef b.scale b.coef h

-- Division by a positive decimal does not raise.
pub div_pos : (a b : Decimal) → lt (dec 0 0) b ≡ true → (q : Decimal) × (div a b ≡ ok q)
unfolding div
div_pos a b h = (
  quotient (a.coef *ℤ b.coef) (abs_ℕ a.coef * 10 ^ b.scale) (abs_ℕ b.coef * 10 ^ a.scale),
  rw (pos-nonzero b h),
)

-- `a < b` is the negation of `b <= a`.
pub lt-not-le : (a b : Decimal) → lt a b ≡ not (le b a)
unfolding lt le
lt-not-le a b = ground arith

pub le_refl : (a : Decimal) → le a a ≡ true
unfolding le
le_refl a = ground arith

pub le_total : (a b : Decimal) → (le a b ≡ true) ⊎ (le b a ≡ true)
unfolding le
le_total a b = ground arith
