-- ===== src/Json.antt =====
-- Decoded JSON values, Python's `str` of them, and `Decimal` of a text.
-- Floats, lists and nested objects are left out.
pub mod Show
use arbitrage_bot.Base.{
  Bool, Option, String, false, if◌then◌else◌, leb, nat_eq, none, not, refl, some, string_eq, suc,
  true, zero, ℕ, ◌%◌, ◌&&◌, ◌*◌, ◌+◌, ◌-◌, ◌/◌, ◌==◌, ◌^◌, ◌||◌, ◌≡◌,
}
use arbitrage_bot.Base.Dict.{Dict, lookup}
use arbitrage_bot.Base.Int.{neg_ℤ, negsuc, pos, ℤ}
use arbitrage_bot.Base.Result.{Result, err, invalid_operation, ok}
use arbitrage_bot.Base.Text.{strip}
use arbitrage_bot.Decimal.{Decimal}
use Prim.Native.Char.{Char, code}
use Prim.Native.String.{char_at}

-- A value that `json.loads` gives.
pub data Json : Type 0 where
  null : Json
  boolean : Bool → Json
  int : ℤ → Json
  text : String → Json

-- the decimal digits of a number, least significant first; the fuel is the number itself
digits_from : ℕ → ℕ → String → String
digits_from zero n acc = acc
digits_from (suc f) n acc = elim (n == 0) [
  | true ↦ acc
  | false ↦ digits_from f (n / 10) (String.◌∷◌ (char_at "0123456789" (n % 10)) acc)
]

unfoldable pub show_ℕ : ℕ → String
unfolding digits_from
show_ℕ n = if n == 0 then "0" else digits_from n n ""

unfoldable pub show_ℤ : ℤ → String
unfolding show_ℕ
show_ℤ (pos n) = show_ℕ n
show_ℤ (negsuc n) = String.◌∷◌ (char_at "-" 0) (show_ℕ (n + 1))

-- `str(value)`
unfoldable pub str : Json → String
unfolding show_ℤ
str null = "None"
str (boolean true) = "True"
str (boolean false) = "False"
str (int n) = show_ℤ n
str (text s) = s

-- `a or b` of two texts that may be missing
unfoldable pub or_else : Option String → Option String → Option String
or_else none b = b
or_else (some s) b = if s == "" then b else some s

-- `str(d.get(k, default))`
unfoldable pub get_text : String → String → Dict Json → String
unfolding str
get_text k default d = elim (lookup k d) [ none ↦ default | some v ↦ str v ]

is_digit : Char → Bool
is_digit c = leb b'0' (code c) && leb (code c) b'9'

-- the digits after an `e`, over the number read so far
exponent_from : ℕ → String → Option ℕ
unfolding is_digit
exponent_from n String.[] = some n
exponent_from n (String.◌∷◌ c s) =
    let rest = exponent_from (n * 10 + (code c - b'0')) s in if is_digit c then rest else none

-- The exponent after its sign: `true` stands for a minus sign.
signed_exponent : String → Option (Bool × ℕ)
unfolding exponent_from
signed_exponent String.[] = none
signed_exponent (String.◌∷◌ c String.[]) = elim (exponent_from 0 (String.◌∷◌ c "")) [
  | none ↦ none
  | some n ↦ some (false, n)
]
signed_exponent (String.◌∷◌ c (String.◌∷◌ d s)) =
    let at_sign = exponent_from 0 (String.◌∷◌ d s) in
    let at_digit = exponent_from 0 (String.◌∷◌ c (String.◌∷◌ d s)) in
    if code c == b'-'
    then elim at_sign [ none ↦ none | some n ↦ some (true, n) ]
    else if code c == b'+'
    then elim at_sign [ none ↦ none | some n ↦ some (false, n) ]
    else elim at_digit [ none ↦ none | some n ↦ some (false, n) ]

scaled : ℕ → ℕ → Option (Bool × ℕ) → Option (ℕ × ℕ)
scaled n places none = none
scaled n places (some (true, e)) = some (n, places + e)
scaled n places (some (false, e)) =
    if leb e places then some (n, places - e) else some (n * 10 ^ (e - places), 0)

-- The magnitude and the scale of a text without a sign: `n` is the number read so far, `seen` tells
-- whether a digit was read, `dotted` whether the point was, and `places` counts the digits after it.
magnitude_from : ℕ → Bool → Bool → ℕ → String → Option (ℕ × ℕ)
unfolding is_digit signed_exponent scaled
magnitude_from n seen dotted places String.[] = if seen then some (n, places) else none
magnitude_from n seen dotted places (String.◌∷◌ c s) =
    let whole = magnitude_from (n * 10 + (code c - b'0')) true dotted places s in
    let part = magnitude_from (n * 10 + (code c - b'0')) true dotted (places + 1) s in
    let point = magnitude_from n seen true places s in
    if is_digit c
    then (if dotted then part else whole)
    else if code c == b'.' && not dotted
    then point
    else if (code c == b'e' || code c == b'E') && seen
    then scaled n places (signed_exponent s)
    else none

with_minus : Bool → Option (ℕ × ℕ) → Result Decimal
with_minus minus none = err invalid_operation
with_minus true (some (n, k)) = ok (record { coef = neg_ℤ (pos n); scale = k })
with_minus false (some (n, k)) = ok (record { coef = pos n; scale = k })

signed_from : String → Result Decimal
unfolding magnitude_from with_minus
signed_from String.[] = err invalid_operation
signed_from (String.◌∷◌ c s) =
    if code c == b'-'
    then with_minus true (magnitude_from 0 false false 0 s)
    else if code c == b'+'
    then with_minus false (magnitude_from 0 false false 0 s)
    else with_minus false (magnitude_from 0 false false 0 (String.◌∷◌ c s))

-- `Decimal(text)`: an exact value; underscores, infinities and NaN are left out, and raise here
unfoldable pub parse_decimal : String → Result Decimal
unfolding signed_from strip
parse_decimal s = signed_from (strip s)

-- `Decimal(str(d.get(k, default)))`
unfoldable pub get_decimal : String → String → Dict Json → Result Decimal
unfolding parse_decimal get_text
get_decimal k default d = parse_decimal (get_text k default d)

parse_decimal_test : parse_decimal " -12.50e1" ≡ ok (record { coef = negsuc 1249; scale = 1 })
unfolding parse_decimal
parse_decimal_test = refl

show_ℤ_test : show_ℤ (negsuc 104) ≡ "-105"
unfolding show_ℤ
show_ℤ_test = refl
