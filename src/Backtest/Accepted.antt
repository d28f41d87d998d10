-- ===== src/Backtest/Accepted.antt =====
-- What the strict and the legacy replay of opportunities accept.
use arbitrage_bot.Base.{
  Bool-cases, String, not, Bool, ap, arith, differ, false, inl, inr, none, refl, sym, true, ◌↔◌,
  ◌∙◌, ◌≡◌, ◌≢◌, ◌⊎◌,
}
use arbitrage_bot.Base.Dict.{get_or, Dict, lookup}
use arbitrage_bot.Decimal.{Decimal, dec, div, lt, le}
use arbitrage_bot.Decimal.Compare.{lt-not-le}
use arbitrage_bot.Json.{parse_decimal, Json, get_text}
use arbitrage_bot.Backtest.Opportunities.{
  Limits, Opportunity, Verdict, column_reason, first_reason, opportunity_fee_status,
  opportunity_quote_status, opportunity_support_status, payload_balance_status, payload_unavailable,
  recompute_blocked_reason, size_reason, status_reason, status_returns,
}
use arbitrage_bot.Backtest.Reasons.{
  column_reason-Named, column_reason_iff, first_reason-Named, first_reason_iff, status_reason-Named,
  status_reason_iff, verdict_iff,
}
use arbitrage_bot.Base.Result.{bind-ok, ok, ok-cancel}
use arbitrage_bot.Confidence.{
  balance_confidence_at_least, fee_confidence_at_least, normalize_support_status,
}

-- The amount and the liquidity of the smaller pool are positive, and the amount is no larger a share of
-- the pool than the limit.
pub record Fits (limits : Limits) (payload : Dict String) : Type 0 where
  pub amount : Decimal
  pub amount_read : parse_decimal (get_or "initial_amount" "0" payload) ≡ ok amount
  pub amount_pos : lt (dec 0 0) amount ≡ true
  pub liquidity : Decimal
  pub liquidity_read :
      parse_decimal (get_or "smaller_pool_liquidity_usdc" "0" payload) ≡ ok liquidity
  pub liquidity_pos : lt (dec 0 0) liquidity ≡ true
  pub share : Decimal
  pub divided : div amount liquidity ≡ ok share
  pub share_small : le share limits.liquidity_cap_ratio ≡ true

-- What makes an opportunity eligible in a replay, stated apart from the order of the reasons.
pub record Accepted (params : Dict Json) (limits : Limits) (legacy : Bool) (row : Opportunity)
    : Type 0 where
  pub quoted : payload_unavailable row.payload ≡ false
  pub supported : opportunity_support_status legacy row.payload ≢ "unsupported"
  pub support_known : opportunity_support_status legacy row.payload ≢ "unknown"
  pub fee_known : opportunity_fee_status row.payload ≢ "unknown"
  pub fee_enough :
      fee_confidence_at_least
        (opportunity_fee_status row.payload)
        (get_text "min_fee_confidence_status" "fallback_only" params)
      ≡ ok true
  pub quote_matched : opportunity_quote_status row.payload ≡ "matched"
  pub balance_known : payload_balance_status row.payload ≢ "unknown"
  pub balance_matches : payload_balance_status row.payload ≢ "mismatch"
  pub balance_enough :
      balance_confidence_at_least
        (payload_balance_status row.payload)
        (get_text "min_balance_confidence_status" "internal_ok" params)
      ≡ ok true
  pub edge : le limits.min_edge row.modeled_edge_bps ≡ true
  pub slippage : le row.expected_slippage_bps limits.max_slippage ≡ true
  pub age : le row.quote_age_seconds limits.max_quote_age ≡ true
  pub sized : Fits limits row.payload

size_reason-Fits :
    (limits : Limits) (payload : Dict String)
    → size_reason limits payload ≡ ok none
    → Fits limits payload
unfolding size_reason
size_reason-Fits limits payload h =
    let (amount, read, h₁) = bind-ok (parse_decimal (get_or "initial_amount" "0" payload)) _ h in
    elim (Bool-cases (le amount (dec 0 0))) [
      | inl b ↦ let never = rw b at h₁ in cc
      | inr b ↦
          let (liquidity, pool_read, h₂) =
            bind-ok (parse_decimal (get_or "smaller_pool_liquidity_usdc" "0" payload)) _
              (rw b at h₁) in
          elim (Bool-cases (le liquidity (dec 0 0))) [
            | inl c ↦ let never = rw c at h₂ in cc
            | inr c ↦
                let (share, divided, h₃) = bind-ok (div amount liquidity) _ (rw c at h₂) in
                elim (Bool-cases (lt limits.liquidity_cap_ratio share)) [
                  | inl d ↦ let never = rw d at h₃ in cc
                  | inr d ↦ record {
                    amount = amount;
                    amount_read = read;
                    amount_pos = lt-not-le (dec 0 0) amount ∙ ap not b;
                    liquidity = liquidity;
                    liquidity_read = pool_read;
                    liquidity_pos = lt-not-le (dec 0 0) liquidity ∙ ap not c;
                    share = share;
                    divided = divided;
                    share_small =
                        let e = lt-not-le limits.liquidity_cap_ratio share in ground arith;
                  }
                ]
          ]
    ]

Fits-size_reason :
    (limits : Limits) (payload : Dict String)
    → Fits limits payload
    → size_reason limits payload ≡ ok none
unfolding size_reason
Fits-size_reason limits payload f =
    let amount_pos = f.amount_pos in
    let liquidity_pos = f.liquidity_pos in
    let share_small = f.share_small in
    let a = lt-not-le (dec 0 0) f.amount in
    let l = lt-not-le (dec 0 0) f.liquidity in
    let c = lt-not-le limits.liquidity_cap_ratio f.share in
    let some_amount : le f.amount (dec 0 0) ≡ false = ground arith in
    let some_pool : le f.liquidity (dec 0 0) ≡ false = ground arith in
    let within : lt limits.liquidity_cap_ratio f.share ≡ false = ground arith in
    rw (f.amount_read, some_amount, f.liquidity_read, some_pool, f.divided, within) refl

-- An opportunity gets no blocking reason exactly where it is accepted: its quote was available, its
-- route supported, fee, quote and balance known and confident enough, edge, slippage and age within the
-- limits, amount and pool positive, and the share of the pool within its limit. This holds for the strict replay and the legacy one.
pub recompute_accepts :
    (params : Dict Json) (limits : Limits) (legacy : Bool) (row : Opportunity) {v : Verdict}
    → recompute_blocked_reason params limits legacy row ≡ ok v
    → (v.reason ≡ "") ↔ Accepted params limits legacy row
unfolding recompute_blocked_reason
recompute_accepts params limits legacy row {v} h =
    let p = row.payload in
    let (fe, e₁, h₁) =
      bind-ok
        (fee_confidence_at_least (opportunity_fee_status p)
          (get_text "min_fee_confidence_status" "fallback_only" params))
        _ h in
    let (be, e₂, h₂) =
      bind-ok
        (balance_confidence_at_least (payload_balance_status p)
          (get_text "min_balance_confidence_status" "internal_ok" params))
        _ h₁ in
    let (o, e₃, h₃) =
      bind-ok (first_reason limits row (status_reason legacy fe be p) (column_reason limits row)) _
        h₂ in
    let (v_to, v_from) = verdict_iff p o (
      first_reason-Named limits row _ _ (status_reason-Named legacy fe be p)
        (column_reason-Named limits row) e₃) in
    let (o_to, o_from) = first_reason_iff limits row _ _ e₃ in
    let (s_to, s_from) = status_reason_iff legacy fe be p in
    let (c_to, c_from) = column_reason_iff limits row in
    let same = ap (λ w. w.reason) (ok-cancel h₃) in
    (
      λ blank.
          let (s, c, z) = o_to (v_to (same ∙ blank)) in
          let (
            quoted, supported, support_known, fee_known, fee, quote, balance_known, matches,
            balance,
          ) =
            s_to s in
          let (edge, slippage, age) = c_to c in
          record {
            quoted = quoted;
            supported = supported;
            support_known = support_known;
            fee_known = fee_known;
            fee_enough = e₁ ∙ ap ok fee;
            quote_matched = quote;
            balance_known = balance_known;
            balance_matches = matches;
            balance_enough = e₂ ∙ ap ok balance;
            edge = edge;
            slippage = slippage;
            age = age;
            sized = size_reason-Fits limits p z;
          },
      λ a.
          sym same
          ∙ v_from (
              o_from (
                s_from (
                  a.quoted,
                  a.supported,
                  a.support_known,
                  a.fee_known,
                  ok-cancel (sym e₁ ∙ a.fee_enough),
                  a.quote_matched,
                  a.balance_known,
                  a.balance_matches,
                  ok-cancel (sym e₂ ∙ a.balance_enough),
                ),
                c_from (a.edge, a.slippage, a.age),
                Fits-size_reason limits p a.sized,
              )),
    )

-- The legacy replay differs from the strict one only on rows that say nothing of the route's support:
-- where the quote was unavailable, or the support status is known, both give the same verdict.
pub legacy_agrees :
    (params : Dict Json) (limits : Limits) (row : Opportunity)
    → (payload_unavailable row.payload ≡ true)
      ⊎ (normalize_support_status (lookup "support_status" row.payload) ≢ "unknown")
    → recompute_blocked_reason params limits true row
      ≡ recompute_blocked_reason params limits false row
unfolding recompute_blocked_reason status_reason status_returns
legacy_agrees params limits row h = rw (same h) refl
  where
    same :
        (payload_unavailable row.payload ≡ true)
          ⊎ (normalize_support_status (lookup "support_status" row.payload) ≢ "unknown")
        → opportunity_support_status true row.payload ≡ opportunity_support_status false row.payload
    same (inl b) = unfold opportunity_support_status in ground arith
    same (inr n) = let d = differ _ _ n in unfold opportunity_support_status in rw d refl
