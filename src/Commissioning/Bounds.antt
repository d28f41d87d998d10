-- ===== src/Commissioning/Bounds.antt =====
-- The score of a route lies between 0 and 100.
use arbitrage_bot.Base.Int.{ℤ, negsuc, pos, ◌*ℤ◌}
use arbitrage_bot.Base.Result.{bind-ok, ok-cancel, ok}
use arbitrage_bot.Commissioning.Gate.{CommissioningRow}
use arbitrage_bot.Commissioning.Score.{raw_score, score_row, clamp_score}
use arbitrage_bot.Decimal.{
  digits, with_sign, half_even, quantize, round_mag, Decimal, dec, div_half_even, le, lt, scale_up,
}
use arbitrage_bot.Settings.{Settings}
use arbitrage_bot.Base.{
  ap, leb, sym, ◌-◌, ◌∙◌, ltb, suc, zero, ◌%◌, ◌+◌, ◌/◌, ◌^◌, Bool-cases, arith, if◌then◌else◌, inl,
  inr, refl, true, ℕ, ◌*◌, ◌<◌, ◌≡◌, ◌≤◌,
}
use arbitrage_bot.Decimal.Order.{pow_pos}
use arbitrage_bot.Decimal.Compare.{lt-not-le}
use native.Mathlib.Nat.{div-add-mod', le_of_mul-le-mul_right, mod-lt, mul-le-mul_right, pow-suc}

-- rounding does not leave a whole bound
div_half_even-le : (a b n : ℕ) → 0 < b → a ≤ n * b → div_half_even a b ≤ n
unfolding div_half_even
div_half_even-le a b n positive h =
    let whole = div-add-mod' a b in
    let below = mod-lt a positive in
    let q_le =
      le_of_mul-le-mul_right {m = a / b} {n = n} {k = b} (omega (arith, whole, h)) positive in
    elim (Bool-cases (ltb (a / b) n)) [
      | inl less ↦ ground arith
      | inr same ↦
          let equal : a / b ≡ n = ground arith in
          let none_left : a % b ≡ 0 = omega (arith, rw equal at whole, h) in ground arith
    ]

clamped :
    (d : Decimal) → (le (dec 0 0) (clamp_score d) ≡ true) × (le (clamp_score d) (dec 100 0) ≡ true)
unfolding clamp_score
clamped d =
    let z = lt-not-le d (dec 0 0) in
    let o = lt-not-le (dec 100 0) d in
    elim (Bool-cases (lt d (dec 0 0))) [
      | inl b ↦ rw b (zero_bounds)
      | inr b ↦ elim (Bool-cases (lt (dec 100 0) d)) [
        | inl c ↦ rw (b, c) (hundred_bounds)
        | inr c ↦ rw (b, c) (ground arith, ground arith)
      ]
    ]
  where
    zero_bounds :
        (le (dec 0 0) (if lt (dec 100 0) (dec 0 0) then dec 100 0 else dec 0 0) ≡ true)
        × (le (if lt (dec 100 0) (dec 0 0) then dec 100 0 else dec 0 0) (dec 100 0) ≡ true)
    zero_bounds = unfold lt le scale_up ◌*ℤ◌ in (refl, refl)

    hundred_bounds : (le (dec 0 0) (dec 100 0) ≡ true) × (le (dec 100 0) (dec 100 0) ≡ true)
    hundred_bounds = unfold lt le scale_up ◌*ℤ◌ in (refl, refl)

pow-split : (k j : ℕ) → 10 ^ (k + j) ≡ 10 ^ k * 10 ^ j
pow-split zero j = let shift : 0 + j ≡ j = omega arith in ap (λ e. 10 ^ e) shift ∙ omega arith
pow-split (suc k) j =
    let shift : suc k + j ≡ suc (k + j) = omega arith in
    ap (λ e. 10 ^ e) shift ∙ pow-suc 10 (k + j) ∙ rw (pow-split k j, pow-suc 10 k) (omega arith)

-- rounding to three places keeps a number between 0 and 100 there
mag_le :
    (c s : ℕ)
    → c ≤ 100 * 10 ^ s
    → (if leb s 3 then c * 10 ^ (3 - s) else div_half_even c (10 ^ (s - 3))) ≤ 100 * 10 ^ 3
mag_le c s h = elim (Bool-cases (leb s 3)) [
  | inl b ↦
      let whole : s + (3 - s) ≡ 3 = ground arith in
      let split = sym (pow-split s (3 - s)) ∙ ap (λ e. 10 ^ e) whole in
      rw b (omega (arith, mul-le-mul_right (10 ^ (3 - s)) h, ap (λ e. 100 * e) split))
  | inr b ↦
      let whole : s - 3 + 3 ≡ s = ground arith in
      let split = sym (pow-split (s - 3) 3) ∙ ap (λ e. 10 ^ e) whole in
      rw b (
        div_half_even-le c (10 ^ (s - 3)) (100 * 10 ^ 3) (pow_pos (s - 3))
          (omega (arith, h, split)))
]

rounded : ℕ → ℕ → ℕ
rounded c s = if leb s 3 then c * 10 ^ (3 - s) else div_half_even c (10 ^ (s - 3))

le-hundred :
    (m : ℕ) → m ≤ 100 * 10 ^ 3 → (le (dec 0 0) (dec m 3) ≡ true) × (le (dec m 3) (dec 100 0) ≡ true)
unfolding le scale_up ◌*ℤ◌
le-hundred m h = (ground arith, ground arith)

hundred-le : (c s : ℕ) → le (dec c s) (dec 100 0) ≡ true → c ≤ 100 * 10 ^ s
unfolding le scale_up ◌*ℤ◌
hundred-le c s h = ground arith

not_negative : (n s : ℕ) → ¬ (le (dec 0 0) (record { coef = negsuc n; scale = s }) ≡ true)
unfolding le scale_up ◌*ℤ◌
not_negative n s h =
    let positive = pow_pos s in
    let one : 1 ≤ n + 1 = omega arith in let more = mul-le-mul_right (10 ^ s) one in ground arith

quantize-rounded :
    (c s : ℕ) {q : Decimal} → quantize half_even 3 (dec c s) ≡ ok q → q ≡ dec (rounded (c + 0) s) 3
unfolding quantize round_mag with_sign rounded
quantize-rounded c s {q} h = elim (Bool-cases (leb (digits (rounded (c + 0) s)) 28)) [
  | inl b ↦ sym (ok-cancel (rw b at h))
  | inr b ↦ let raised = rw b at h in cc
]

score_bounds :
    (c : ℤ) (s : ℕ) (q : Decimal)
    → le (dec 0 0) (record { coef = c; scale = s }) ≡ true
    → le (record { coef = c; scale = s }) (dec 100 0) ≡ true
    → quantize half_even 3 (record { coef = c; scale = s }) ≡ ok q
    → (le (dec 0 0) q ≡ true) × (le q (dec 100 0) ≡ true)
score_bounds (pos c) s q low high h =
    let same = quantize-rounded c s h in
    let small : c + 0 ≤ 100 * 10 ^ s = omega (arith, hundred-le c s high) in
    rw same (le-hundred (rounded (c + 0) s) (unfold rounded in mag_le (c + 0) s small))
score_bounds (negsuc n) s q low high h = absurd (not_negative n s low)

-- A score lies between 0 and 100, whatever the statistics and the settings are.
pub score_row-bounds :
    (s : Settings) (row : CommissioningRow) {score : Decimal}
    → score_row s row ≡ ok score
    → (le (dec 0 0) score ≡ true) × (le score (dec 100 0) ≡ true)
unfolding score_row
score_row-bounds s row {score} h =
    let (raw, _, h₁) = bind-ok (raw_score s row) _ h in
    let (low, high) = clamped raw in
    score_bounds (clamp_score raw).coef (clamp_score raw).scale score low high h₁
