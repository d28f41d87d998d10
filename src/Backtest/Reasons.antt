-- ===== src/Backtest/Reasons.antt =====
-- The reasons of `_recompute_blocked_reason` one group at a time: when a group gives none.
use arbitrage_bot.Backtest.Opportunities.{
  Return, column_returns, first_return, status_returns, first_reason, mismatch_reason, verdict,
  column_reason, Limits, Opportunity, opportunity_fee_status, opportunity_quote_status,
  opportunity_support_status, payload_balance_status, payload_unavailable, size_reason,
  status_reason,
}
use arbitrage_bot.Base.{
  All, List, [], ◌∷◌, Bool-cases, Option, agree, if◌then◌else◌, inl, inr, nat_eq, some, string_eq,
  sym, ◌==◌, ◌∙◌, differ, refl, arith, eq_iff, ◌↔◌, Bool, String, false, none, true, ◌≡◌, ◌≢◌,
}
use arbitrage_bot.Base.Text.{lower, strip}
use arbitrage_bot.Base.Dict.{get_or, Dict}
use arbitrage_bot.Base.Result.{bind-ok, ok-cancel, ◌>>=◌, ok}
use arbitrage_bot.Decimal.{Decimal, dec, div, lt, le}
use arbitrage_bot.Json.{parse_decimal}
use mathlib.Core.Path.{subst}
use mathlib.Core.Bool.{true≢false}
use arbitrage_bot.Decimal.Compare.{lt-not-le}

first_return_iff : (rs : List Return) → (first_return rs ≡ none) ↔ All (λ r. r.0 ≡ false) rs
unfolding first_return
first_return_iff [] = ((λ h. tt), (λ h. refl))
first_return_iff ((true, reason, unknown) ∷ rs) = ((λ h. cc), (λ h. cc))
first_return_iff ((false, reason, unknown) ∷ rs) =
    let (to, from) = first_return_iff rs in ((λ h. (refl, to h)), (λ h. from h.1))

pub status_reason_iff :
    (legacy fee_enough balance_enough : Bool) (payload : Dict String)
    → (status_reason legacy fee_enough balance_enough payload ≡ none) ↔ (
        (payload_unavailable payload ≡ false)
        × (opportunity_support_status legacy payload ≢ "unsupported")
        × (opportunity_support_status legacy payload ≢ "unknown")
        × (opportunity_fee_status payload ≢ "unknown")
        × (fee_enough ≡ true)
        × (opportunity_quote_status payload ≡ "matched")
        × (payload_balance_status payload ≢ "unknown")
        × (payload_balance_status payload ≢ "mismatch")
        × (balance_enough ≡ true))
unfolding status_reason status_returns
status_reason_iff legacy fee_enough balance_enough payload =
    let s₁ = eq_iff (opportunity_support_status legacy payload) "unsupported" in
    let s₂ = eq_iff (opportunity_support_status legacy payload) "unknown" in
    let f = eq_iff (opportunity_fee_status payload) "unknown" in
    let q = eq_iff (opportunity_quote_status payload) "matched" in
    let b₁ = eq_iff (payload_balance_status payload) "unknown" in
    let b₂ = eq_iff (payload_balance_status payload) "mismatch" in
    let (to, from) = first_return_iff (status_returns legacy fee_enough balance_enough payload) in
    (
      λ h.
          let every = to h in
          (
            ground arith,
            ground arith,
            ground arith,
            ground arith,
            ground arith,
            ground arith,
            ground arith,
            ground arith,
            ground arith,
          ),
      λ (a, b, c, d, e, g, h, i, j). from (
        rw (a, differ _ _ b) refl,
        (
          differ _ _ c,
          (
            differ _ _ d,
            (rw e refl, (rw g refl, (rw g refl, (differ _ _ h, (differ _ _ i, (rw j refl, tt)))))),
          ),
        ),
      ),
    )

pub column_reason_iff :
    (limits : Limits) (row : Opportunity)
    → (column_reason limits row ≡ none) ↔ (
        (le limits.min_edge row.modeled_edge_bps ≡ true)
        × (le row.expected_slippage_bps limits.max_slippage ≡ true)
        × (le row.quote_age_seconds limits.max_quote_age ≡ true))
unfolding column_reason column_returns
column_reason_iff limits row =
    let e = lt-not-le row.modeled_edge_bps limits.min_edge in
    let s = lt-not-le limits.max_slippage row.expected_slippage_bps in
    let q = lt-not-le limits.max_quote_age row.quote_age_seconds in
    let (to, from) = first_return_iff (column_returns limits row) in
    (
      (λ h. let every = to h in (ground arith, ground arith, ground arith)),
      (λ (a, b, c). from (ground arith)),
    )

-- a reason that is given is not the empty text
pub Named : Option (String × Bool) → Type 0
Named none = Unit
Named (some (reason, unknown)) = (reason == "") ≡ false

first_return-Named :
    (rs : List Return) → All (λ r. (r.1 == "") ≡ false) rs → Named (first_return rs)
unfolding first_return Named
first_return-Named [] every = tt
first_return-Named ((true, reason, unknown) ∷ rs) (p, every) = p
first_return-Named ((false, reason, unknown) ∷ rs) (p, every) = first_return-Named rs every

mismatch_reason-named : (payload : Dict String) → (mismatch_reason payload == "") ≡ false
unfolding mismatch_reason
mismatch_reason-named payload =
    elim (Bool-cases
      (lower (strip (get_or "balance_failure_reason" "" payload)) == "wallet_balance_mismatch")) [
        | inl b ↦ rw b refl
        | inr b ↦ rw b refl
      ]

pub status_reason-Named :
    (legacy fee_enough balance_enough : Bool) (payload : Dict String)
    → Named (status_reason legacy fee_enough balance_enough payload)
unfolding status_reason status_returns
status_reason-Named legacy fee_enough balance_enough payload =
    first_return-Named (status_returns legacy fee_enough balance_enough payload) (
      refl,
      (refl, (refl, (refl, (refl, (refl, (refl, (mismatch_reason-named payload, (refl, tt)))))))),
    )

pub column_reason-Named : (limits : Limits) (row : Opportunity) → Named (column_reason limits row)
unfolding column_reason column_returns
column_reason-Named limits row =
    first_return-Named (column_returns limits row) (refl, (refl, (refl, tt)))

size_reason-Named :
    (limits : Limits) (payload : Dict String) {o : Option (String × Bool)}
    → size_reason limits payload ≡ ok o
    → Named o
unfolding size_reason
size_reason-Named limits payload {o} h =
    let (amount, _, h₁) = bind-ok (parse_decimal (get_or "initial_amount" "0" payload)) _ h in
    elim (Bool-cases (le amount (dec 0 0))) [
      | inl b ↦ subst Named (ok-cancel (rw b at h₁)) (unfold Named in refl)
      | inr b ↦ rest amount (rw b at h₁)
    ]
  where
    share :
        (amount liq : Decimal)
        → (div amount liq >>= λ share. ok (
            if lt limits.liquidity_cap_ratio share
            then some ("pool_share_too_large", false)
            else none))
          ≡ ok o
        → Named o
    share amount liq k =
        let (q, _, k₁) = bind-ok (div amount liq) _ k in
        subst Named (ok-cancel k₁) (
          unfold Named in
          elim (Bool-cases (lt limits.liquidity_cap_ratio q)) [
            | inl b ↦ rw b refl
            | inr b ↦ rw b tt
          ])

    rest :
        (amount : Decimal)
        → (parse_decimal (get_or "smaller_pool_liquidity_usdc" "0" payload) >>= λ liq.
            if le liq (dec 0 0)
            then ok (some ("liquidity_unavailable", false))
            else (div amount liq >>= λ share. ok (
                if lt limits.liquidity_cap_ratio share
                then some ("pool_share_too_large", false)
                else none)))
          ≡ ok o
        → Named o
    rest amount k =
        let (liq, _, k₁) =
          bind-ok (parse_decimal (get_or "smaller_pool_liquidity_usdc" "0" payload)) _ k in
        elim (Bool-cases (le liq (dec 0 0))) [
          | inl b ↦ subst Named (ok-cancel (rw b at k₁)) (unfold Named in refl)
          | inr b ↦ share amount liq (rw b at k₁)
        ]

pub first_reason_iff :
    (limits : Limits) (row : Opportunity) (s c : Option (String × Bool))
    {o : Option (String × Bool)}
    → first_reason limits row s c ≡ ok o
    → (o ≡ none) ↔ ((s ≡ none) × (c ≡ none) × (size_reason limits row.payload ≡ ok none))
unfolding first_reason
first_reason_iff limits row (some r) c h = ((λ e. cc), (λ e. cc))
first_reason_iff limits row none (some r) h = ((λ e. cc), (λ e. cc))
first_reason_iff limits row none none h = ((λ e. (refl, refl, cc)), (λ e. cc))

pub first_reason-Named :
    (limits : Limits) (row : Opportunity) (s c : Option (String × Bool))
    {o : Option (String × Bool)}
    → Named s
    → Named c
    → first_reason limits row s c ≡ ok o
    → Named o
unfolding first_reason
first_reason-Named limits row (some r) c p q h = subst Named (ok-cancel h) p
first_reason-Named limits row none (some r) p q h = subst Named (ok-cancel h) q
first_reason-Named limits row none none p q h = size_reason-Named limits row.payload h

pub verdict_iff :
    (payload : Dict String) (o : Option (String × Bool))
    → Named o
    → ((verdict payload o).reason ≡ "") ↔ (o ≡ none)
unfolding Named
verdict_iff payload none n = ((λ e. refl), (λ e. refl))
verdict_iff payload (some (reason, unknown)) n =
    ((λ e. absurd (true≢false (sym (agree reason "" e) ∙ n))), (λ e. cc))
