-- ===== src/Json/Show.antt =====
-- Python's `str` of a decimal. A quotient keeps the zeros at its end here, which Python drops where the
-- division is exact.
use arbitrage_bot.Base.{
  String, if◌then◌else◌, leb, ltb, nat_eq, refl, string_eq, suc, zero, ℕ, ◌+◌, ◌-◌, ◌==◌, ◌≡◌,
}
use arbitrage_bot.Base.Int.{abs_ℕ, ltb_ℤ, negsuc, pos}
use arbitrage_bot.Decimal.{Decimal, dec}
use arbitrage_bot.Json.{show_ℕ}
use Prim.Native.String.{char_at, ◌++◌ as ◌<>◌}

zeros : ℕ → String → String
zeros zero s = s
zeros (suc n) s = String.◌∷◌ (char_at "0" 0) (zeros n s)

-- a point after so many characters
point_after : ℕ → String → String
point_after zero s = String.◌∷◌ (char_at "." 0) s
point_after (suc n) String.[] = ""
point_after (suc n) (String.◌∷◌ c s) = String.◌∷◌ c (point_after n s)

text_length : String → ℕ
text_length String.[] = 0
text_length (String.◌∷◌ c s) = text_length s + 1

-- the digits with their point, or in scientific notation where more than five zeros would follow it
unfoldable pub place : String → ℕ → ℕ → String
unfolding zeros point_after
place shown n scale =
    if scale == 0
    then shown
    else if ltb scale n
    then point_after (n - scale) shown
    else if leb scale (n + 5)
    then "0." <> zeros (scale - n) shown
    else (if n == 1 then shown else point_after 1 shown) <> ("E-" <> show_ℕ (scale + 1 - n))

unfoldable pub decimal_text : Decimal → String
unfolding place text_length
decimal_text d =
    let shown = show_ℕ (abs_ℕ d.coef) in
    let body = place shown (text_length shown) d.scale in
    if ltb_ℤ d.coef (pos 0) then "-" <> body else body

plain_test : decimal_text (record { coef = negsuc 1249; scale = 3 }) ≡ "-1.250"
unfolding decimal_text show_ℕ
plain_test = refl

small_test : decimal_text (dec 5 8) ≡ "5E-8"
unfolding decimal_text show_ℕ
small_test = refl

zeros_test : decimal_text (dec 105 5) ≡ "0.00105"
unfolding decimal_text show_ℕ
zeros_test = refl
