-- ===== src/Base/Text.antt =====
-- Python's `str.strip`, `str.lower` and `str.split` on a native text.
-- `lower` maps the letters A to Z; other capitals are outside the model.
use Prim.Native.Nat.{◌-◌}
use Prim.Native.Char.{Char, code}
use Prim.Native.String.{String, char_at, ◌++◌ as ◌<>◌}
use mathlib.Core.Path.{◌≡◌, refl}
use mathlib.Core.Bool.{Bool, ◌&&◌, ◌||◌}
use mathlib.Core.List.{List, [], ◌∷◌}
use arbitrage_bot.Base.Tests.{leb, ◌==◌, nat_eq, string_eq, if◌then◌else◌}

lower_char : Char → Char
lower_char c =
    if leb b'A' (code c) && leb (code c) b'Z'
    then char_at "abcdefghijklmnopqrstuvwxyz" (code c - b'A')
    else c

unfoldable pub lower : String → String
unfolding lower_char
lower String.[] = ""
lower (String.◌∷◌ c s) = String.◌∷◌ (lower_char c) (lower s)

-- the characters for which Python's `str.isspace` holds
unfoldable pub is_space : Char → Bool
is_space c =
    leb 9 (code c) && leb (code c) 13
    || leb 28 (code c) && leb (code c) 32
    || code c == 0x85
    || code c == 0xa0
    || code c == 0x1680
    || leb 0x2000 (code c) && leb (code c) 0x200a
    || code c == 0x2028
    || code c == 0x2029
    || code c == 0x202f
    || code c == 0x205f
    || code c == 0x3000

lstrip : String → String
unfolding is_space
lstrip String.[] = ""
lstrip (String.◌∷◌ c s) = let rest = lstrip s in if is_space c then rest else String.◌∷◌ c s

-- drops the white space at the end: a space stays only where something else follows
rstrip : String → String
unfolding is_space
rstrip String.[] = ""
rstrip (String.◌∷◌ c s) =
    let rest = rstrip s in if is_space c && rest == "" then "" else String.◌∷◌ c rest

unfoldable pub strip : String → String
unfolding lstrip rstrip
strip s = rstrip (lstrip s)

-- `text.split("->")`; the argument `acc` holds the part read so far
split_from : String → String → List String
split_from acc String.[] = acc ∷ []
split_from acc (String.◌∷◌ c String.[]) = (acc <> String.◌∷◌ c "") ∷ []
split_from acc (String.◌∷◌ c (String.◌∷◌ d s)) =
    let found = acc ∷ split_from "" s in
    let missed = split_from (acc <> String.◌∷◌ c "") (String.◌∷◌ d s) in
    if code c == b'-' && code d == b'>' then found else missed

unfoldable pub split_arrow : String → List String
unfolding split_from
split_arrow = split_from ""

-- `text.split(",")`
split_comma_from : String → String → List String
split_comma_from acc String.[] = acc ∷ []
split_comma_from acc (String.◌∷◌ c s) =
    let found = acc ∷ split_comma_from "" s in
    let missed = split_comma_from (acc <> String.◌∷◌ c "") s in
    if code c == b',' then found else missed

unfoldable pub split_comma : String → List String
unfolding split_comma_from
split_comma = split_comma_from ""

strip-lower_test : strip (lower "  Chain_Verified\n") ≡ "chain_verified"
unfolding strip lower
strip-lower_test = refl

split_arrow_test : split_arrow "ramses->hybra" ≡ "ramses" ∷ "hybra" ∷ []
unfolding split_arrow
split_arrow_test = refl
