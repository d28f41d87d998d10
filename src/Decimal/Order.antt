-- ===== src/Decimal/Order.antt =====
-- The order of decimals is transitive.
use arbitrage_bot.Base.Int.{leb_ℤ, neg_part, pos, pos_part, ℤ, ◌*ℤ◌}
use arbitrage_bot.Decimal.{of_ℤ, dec, of_ℕ, lt, Decimal, le, scale_up}
use arbitrage_bot.Base.{
  ltb, suc, zero, arith, leb→le, le→leb, true, ℕ, ◌*◌, ◌+◌, ◌<◌, ◌^◌, ◌≡◌, ◌≤◌,
}
use native.Mathlib.Nat.{le_of_mul-le-mul_left, mul-le-mul_left}

-- the terms of a product on either side
mul_parts :
    (x : ℤ) (k : ℕ)
    → pos_part (x *ℤ pos k) + neg_part x * k ≡ neg_part (x *ℤ pos k) + pos_part x * k
unfolding ◌*ℤ◌
mul_parts x k = ground arith

-- `le` as an inequality between natural numbers
abbrev Below : ℤ → ℕ → ℤ → ℕ → Type 0
Below x p y q = pos_part x * q + neg_part y * p ≤ pos_part y * p + neg_part x * q

le-Below : (a b : Decimal) → le a b ≡ true → Below a.coef (10 ^ a.scale) b.coef (10 ^ b.scale)
unfolding le scale_up
le-Below a b h =
    omega (arith, mul_parts a.coef (10 ^ b.scale), mul_parts b.coef (10 ^ a.scale), leb→le _ _ h)

Below-le : (a b : Decimal) → Below a.coef (10 ^ a.scale) b.coef (10 ^ b.scale) → le a b ≡ true
unfolding le scale_up
Below-le a b h =
    le→leb _ _ (omega (arith, mul_parts a.coef (10 ^ b.scale), mul_parts b.coef (10 ^ a.scale)))

pub pow_pos : (k : ℕ) → 0 < 10 ^ k
pow_pos zero = omega arith
pow_pos (suc k) = omega (arith, pow_pos k)

Below-trans : (a b c : ℤ) (p q r : ℕ) → 0 < q → Below a p b q → Below b q c r → Below a p c r
Below-trans a b c p q r h x y =
    le_of_mul-le-mul_left {k = q} (omega (arith, mul-le-mul_left r x, mul-le-mul_left p y)) h

pub le_trans : (a b c : Decimal) → le a b ≡ true → le b c ≡ true → le a c ≡ true
le_trans a b c x y =
    Below-le a c
      (Below-trans a.coef b.coef c.coef _ _ _ (pow_pos b.scale) (le-Below a b x) (le-Below b c y))

-- `a < b` gives `a <= b`.
pub lt-le : (a b : Decimal) → lt a b ≡ true → le a b ≡ true
unfolding lt le
lt-le a b h = ground arith

-- A positive number is a positive decimal.
pub lt-of_ℕ : (n : ℕ) → ltb 0 n ≡ true → lt (dec 0 0) (of_ℕ n) ≡ true
unfolding lt scale_up ◌*ℤ◌
lt-of_ℕ n h = ground arith

-- Whole numbers compare as such.
pub le-of_ℤ : (a b : ℤ) → le (of_ℤ a) (of_ℤ b) ≡ leb_ℤ a b
unfolding le scale_up ◌*ℤ◌
le-of_ℤ a b = ground arith
