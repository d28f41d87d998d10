-- ===== src/Base/Int.antt =====
-- Python's `int`, over the native numbers.
use Prim.Native.Nat.{ℕ, suc, ◌+◌, ◌-◌, ◌*◌, ◌≤◌}
use mathlib.Core.Path.{◌≡◌}
use mathlib.Core.Logic.{◌↔◌}
use mathlib.Core.Bool.{Bool, false, true}
use native.Mathlib.Omega.{arith}
use arbitrage_bot.Base.Tests.{Equality, ltb, leb, nat_eq, if◌then◌else◌, ◌==◌}

-- `negsuc n` is -(n + 1).
pub data ℤ : Type 0 where
  pos : ℕ → ℤ
  negsuc : ℕ → ℤ

abbrev pub pos_part : ℤ → ℕ
pos_part (pos n) = n
pos_part (negsuc n) = 0

abbrev pub neg_part : ℤ → ℕ
neg_part (pos n) = 0
neg_part (negsuc n) = suc n

-- a - b, as an integer
abbrev pub sub_ℕ : ℕ → ℕ → ℤ
sub_ℕ a b = if leb b a then pos (a - b) else negsuc (b - a - 1)

abbrev equal_ℤ : ℤ → ℤ → Bool
equal_ℤ (pos m) (pos n) = m == n
equal_ℤ (pos m) (negsuc n) = false
equal_ℤ (negsuc m) (pos n) = false
equal_ℤ (negsuc m) (negsuc n) = m == n

pub equal_ℤ_iff : (a b : ℤ) → (equal_ℤ a b ≡ true) ↔ (a ≡ b)
equal_ℤ_iff (pos m) (pos n) = ((λ h. ground arith), (λ h. ground arith))
equal_ℤ_iff (pos m) (negsuc n) = ((λ h. cc), (λ h. cc))
equal_ℤ_iff (negsuc m) (pos n) = ((λ h. cc), (λ h. cc))
equal_ℤ_iff (negsuc m) (negsuc n) = ((λ h. ground arith), (λ h. ground arith))

instance abbrev pub int_eq : Equality ℤ
int_eq = record { equals = equal_ℤ; equals_iff = equal_ℤ_iff }

infixl 65 ◌+ℤ◌
infixl 70 ◌*ℤ◌
infix 50 ◌≤ℤ◌
unfoldable pub ◌+ℤ◌ : ℤ → ℤ → ℤ
a +ℤ b = sub_ℕ (pos_part a + pos_part b) (neg_part a + neg_part b)

unfoldable pub ◌*ℤ◌ : ℤ → ℤ → ℤ
a *ℤ b =
    sub_ℕ (pos_part a * pos_part b + neg_part a * neg_part b)
      (pos_part a * neg_part b + neg_part a * pos_part b)

abbrev pub neg_ℤ : ℤ → ℤ
neg_ℤ a = sub_ℕ (neg_part a) (pos_part a)

abbrev pub abs_ℕ : ℤ → ℕ
abs_ℕ a = pos_part a + neg_part a

abbrev pub ◌≤ℤ◌ : ℤ → ℤ → Type 0
a ≤ℤ b = pos_part a + neg_part b ≤ pos_part b + neg_part a

abbrev pub ltb_ℤ : ℤ → ℤ → Bool
ltb_ℤ a b = ltb (pos_part a + neg_part b) (pos_part b + neg_part a)

abbrev pub leb_ℤ : ℤ → ℤ → Bool
leb_ℤ a b = leb (pos_part a + neg_part b) (pos_part b + neg_part a)

-- The operations may stay shut with these.
pub +ℤ_parts :
    (a b : ℤ)
    → pos_part (a +ℤ b) + neg_part a + neg_part b ≡ neg_part (a +ℤ b) + pos_part a + pos_part b
unfolding ◌+ℤ◌
+ℤ_parts a b = ground arith
