-- ===== src/Decimal.antt =====
-- Python's `decimal.Decimal` under the default context: 28 significant digits, ties to even.
-- A value is coef / 10 ^ scale. Comparisons are exact; the arithmetic operations round the exact
-- result to the context's precision; `quantize` raises where its result needs more digits.
-- Not a number, the infinities, the sign of zero and the exponent's limits are left out.
pub mod Compare
pub mod Order
use arbitrage_bot.Base.{
  false, true, string_eq, ℕ, zero, suc, ◌+◌, ◌-◌, ◌*◌, ◌/◌, ◌%◌, ◌^◌, Bool, ◌==◌, nat_eq,
  if◌then◌else◌, ltb, leb,
}
use arbitrage_bot.Base.Int.{ℤ, pos, negsuc, neg_ℤ, abs_ℕ, ◌+ℤ◌, ◌*ℤ◌, ltb_ℤ, leb_ℤ}
use arbitrage_bot.Base.Result.{Result, ok, err, division_by_zero, invalid_operation}

pub record Decimal : Type 0 where
  pub coef : ℤ
  pub scale : ℕ

-- `getcontext().prec`
abbrev pub precision : ℕ
precision = 28

-- how many decimal digits a number has; the fuel is the number itself
digits_of : ℕ → ℕ → ℕ
digits_of zero n = 0
digits_of (suc f) n = elim (n == 0) [ true ↦ 0 | false ↦ suc (digits_of f (n / 10)) ]

unfoldable pub digits : ℕ → ℕ
unfolding digits_of
digits n = digits_of n n

-- a / b to the nearest number, ties to even (ROUND_HALF_EVEN)
unfoldable pub div_half_even : ℕ → ℕ → ℕ
div_half_even a b =
    let q = a / b in
    let r = a % b in
    if ltb (r * 2) b then q else if ltb b (r * 2) then q + 1 else if q % 2 == 0 then q else q + 1

-- a / b to the nearest number, ties up (ROUND_HALF_UP on magnitudes)
unfoldable pub div_half_up : ℕ → ℕ → ℕ
div_half_up a b = if ltb (a % b * 2) b then a / b else a / b + 1

unfoldable pub with_sign : ℤ → ℕ → ℤ
with_sign (pos n) m = pos m
with_sign (negsuc n) m = neg_ℤ (pos m)

-- m / 10 ^ scale with k digits dropped; a negative scale is written out in the coefficient
unfoldable pub drop_digits : ℕ → Decimal → Decimal
unfolding div_half_even with_sign
drop_digits k d =
    let m = div_half_even (abs_ℕ d.coef) (10 ^ k) in
    if leb k d.scale
    then record { coef = with_sign d.coef m; scale = d.scale - k }
    else record { coef = with_sign d.coef (m * 10 ^ (k - d.scale)); scale = 0 }

-- rounds to the context's precision
unfoldable pub fix : Decimal → Decimal
unfolding digits drop_digits
fix d =
    if leb (digits (abs_ℕ d.coef)) precision
    then d
    else drop_digits (digits (abs_ℕ d.coef) - precision) d

abbrev pub of_ℤ : ℤ → Decimal
of_ℤ n = record { coef = n; scale = 0 }

abbrev pub of_ℕ : ℕ → Decimal
of_ℕ n = of_ℤ (pos n)

-- the decimal n / 10 ^ k, as a literal such as `Decimal("0.05")`
abbrev pub dec : ℕ → ℕ → Decimal
dec n k = record { coef = pos n; scale = k }

-- the coefficient of `d` when it is written with `k` more places
unfoldable pub scale_up : Decimal → ℕ → ℤ
unfolding ◌*ℤ◌
scale_up d k = d.coef *ℤ pos (10 ^ k)

unfoldable pub exact_add : Decimal → Decimal → Decimal
unfolding scale_up ◌+ℤ◌
exact_add a b =
    if leb a.scale b.scale
    then record { coef = scale_up a (b.scale - a.scale) +ℤ b.coef; scale = b.scale }
    else record { coef = a.coef +ℤ scale_up b (a.scale - b.scale); scale = a.scale }

unfoldable pub exact_mul : Decimal → Decimal → Decimal
unfolding ◌*ℤ◌
exact_mul a b = record { coef = a.coef *ℤ b.coef; scale = a.scale + b.scale }

abbrev pub exact_neg : Decimal → Decimal
exact_neg a = record { coef = neg_ℤ a.coef; scale = a.scale }

unfoldable pub add : Decimal → Decimal → Decimal
unfolding fix exact_add
add a b = fix (exact_add a b)

unfoldable pub sub : Decimal → Decimal → Decimal
unfolding fix exact_add
sub a b = fix (exact_add a (exact_neg b))

unfoldable pub mul : Decimal → Decimal → Decimal
unfolding fix exact_mul
mul a b = fix (exact_mul a b)

-- `-d` and `abs(d)`
unfoldable pub neg : Decimal → Decimal
unfolding fix
neg a = fix (exact_neg a)

unfoldable pub abs : Decimal → Decimal
unfolding fix
abs a = fix (record { coef = pos (abs_ℕ a.coef); scale = a.scale })

-- The quotient of magnitudes n / d, rounded once to the precision: with t places more than the
-- divisor has digits, the quotient has more than 28 digits, and the surplus k is rounded away.
unfoldable pub quotient : ℤ → ℕ → ℕ → Decimal
unfolding digits div_half_even with_sign
quotient sign n d =
    let t = precision + digits d in
    let k = digits (n * 10 ^ t / d) - precision in
    let m = div_half_even (n * 10 ^ t) (d * 10 ^ k) in
    if leb k t
    then record { coef = with_sign sign m; scale = t - k }
    else record { coef = with_sign sign (m * 10 ^ (k - t)); scale = 0 }

-- `a / b`
unfoldable pub div : Decimal → Decimal → Result Decimal
unfolding quotient ◌*ℤ◌
div a b =
    if abs_ℕ b.coef == 0
    then (if abs_ℕ a.coef == 0 then err invalid_operation else err division_by_zero)
    else ok
        (quotient (a.coef *ℤ b.coef) (abs_ℕ a.coef * 10 ^ b.scale) (abs_ℕ b.coef * 10 ^ a.scale))

-- the rounding of `quantize`
pub data Rounding : Type 0 where
  half_even down : Rounding

unfoldable pub round_mag : Rounding → ℕ → ℕ → ℕ
unfolding div_half_even
round_mag half_even a b = div_half_even a b
round_mag down a b = a / b

-- `d.quantize(Decimal(10) ** -k, rounding=…)`
unfoldable pub quantize : Rounding → ℕ → Decimal → Result Decimal
unfolding round_mag with_sign digits
quantize r k d =
    let m =
      if leb d.scale k
      then abs_ℕ d.coef * 10 ^ (k - d.scale)
      else round_mag r (abs_ℕ d.coef) (10 ^ (d.scale - k)) in
    if leb (digits m) precision
    then ok (record { coef = with_sign d.coef m; scale = k })
    else err invalid_operation

-- exact comparisons
unfoldable pub le : Decimal → Decimal → Bool
unfolding scale_up
le a b = leb_ℤ (scale_up a b.scale) (scale_up b a.scale)

unfoldable pub lt : Decimal → Decimal → Bool
unfolding scale_up
lt a b = ltb_ℤ (scale_up a b.scale) (scale_up b a.scale)

-- the builtins `min(a, b)` and `max(a, b)` return their first argument at a tie
unfoldable pub min : Decimal → Decimal → Decimal
unfolding lt
min a b = if lt b a then b else a

unfoldable pub max : Decimal → Decimal → Decimal
unfolding lt
max a b = if lt a b then b else a

abbrev pub is_zero : Decimal → Bool
is_zero d = abs_ℕ d.coef == 0
