-- ===== src/Backtest/Opportunities.antt =====
-- app/backtest/engine.py: `_recompute_blocked_reason` and `_evaluate_opportunity_rows`.
use arbitrage_bot.Backtest.{Penalties, Trade, compute_penalties, total}
use arbitrage_bot.Backtest.Tally.{
  Outcome, Tally, count_blocked, count_eligible, count_statuses, empty_tally, finalize_outcome,
  write_trade,
}
use arbitrage_bot.Base.{
  Bool, List, Option, String, [], false, if◌then◌else◌, length, nat_eq, none, not, some, string_eq,
  true, ℕ, ◌&&◌, ◌==◌, ◌||◌, ◌∷◌,
}
use arbitrage_bot.Base.Dict.{Dict, get_or, lookup}
use arbitrage_bot.Base.Result.{Result, ok, ◌>>=◌}
use arbitrage_bot.Base.Text.{lower, strip}
use arbitrage_bot.Confidence.{
  balance_confidence_at_least, fee_confidence_at_least, normalize_balance_confidence,
  normalize_fee_confidence, normalize_quote_match_status, normalize_support_status,
}
use arbitrage_bot.Decimal.{Decimal, dec, div, le, lt, sub}
use arbitrage_bot.Json.{Json, get_decimal, get_text, or_else, parse_decimal}

-- the columns of `Opportunity` that the replay reads, with the decoded payload
pub record Opportunity : Type 0 where
  pub timestamp : ℕ
  pub status : String
  pub modeled_edge_bps : Decimal
  pub expected_slippage_bps : Decimal
  pub quote_age_seconds : Decimal
  pub expected_pnl_abs : Decimal
  pub gas_estimate_usdc : Decimal
  pub payload : Dict String

-- what `_recompute_blocked_reason` returns; no reason is the empty text
pub record Verdict : Type 0 where
  pub reason : String
  pub fee_status : String
  pub balance_status : String
  pub quote_unknown : Bool

-- the limits that both replays read of the parameters
pub record Limits : Type 0 where
  pub min_edge : Decimal
  pub max_slippage : Decimal
  pub max_quote_age : Decimal
  pub liquidity_cap_ratio : Decimal

unfoldable pub limits_of : Dict Json → Result Limits
limits_of params = get_decimal "min_modeled_edge_bps" "0" params >>= λ min_edge.
    get_decimal "max_slippage_bps" "9999" params >>= λ max_slippage.
    get_decimal "max_quote_age_seconds" "9999" params >>= λ max_quote_age.
    get_decimal "liquidity_cap_ratio" "1" params >>= λ liquidity_cap_ratio. ok (record {
      min_edge = min_edge;
      max_slippage = max_slippage;
      max_quote_age = max_quote_age;
      liquidity_cap_ratio = liquidity_cap_ratio;
    })

-- `normalize_fee_confidence(payload.get("fee_known_status"), provenance_hint=…)`
unfoldable pub payload_fee_status : Dict String → String
payload_fee_status payload =
    normalize_fee_confidence (lookup "fee_known_status" payload)
      (or_else (lookup "fee_provenance" payload) (lookup "fee_source" payload))

-- the fee status of an opportunity, with the older flag `fee_known` where it is unknown
unfoldable pub opportunity_fee_status : Dict String → String
opportunity_fee_status payload =
    if payload_fee_status payload == "unknown"
      && lower (get_or "fee_known" "unknown" payload) == "true"
    then "config_only"
    else payload_fee_status payload

unfoldable pub payload_balance_status : Dict String → String
payload_balance_status payload =
    normalize_balance_confidence (lookup "balance_match_status" payload)
      (lookup "balance_failure_reason" payload)

unfoldable pub opportunity_quote_status : Dict String → String
opportunity_quote_status payload =
    let status = normalize_quote_match_status (lookup "quote_match_status" payload) in
    if status == "unknown"
    then normalize_quote_match_status (lookup "quote_match" payload)
    else status

unfoldable pub payload_unavailable : Dict String → Bool
payload_unavailable payload = lower (get_or "quote_unavailable" "false" payload) == "true"

-- The support status; the legacy replay takes a route for supported where nothing says otherwise.
unfoldable pub opportunity_support_status : Bool → Dict String → String
opportunity_support_status legacy payload =
    let status = normalize_support_status (lookup "support_status" payload) in
    if legacy && (status == "unknown" && not (payload_unavailable payload))
    then "supported"
    else status

-- the reason where the balance does not match
unfoldable pub mismatch_reason : Dict String → String
mismatch_reason payload =
    if lower (strip (get_or "balance_failure_reason" "" payload)) == "wallet_balance_mismatch"
    then "wallet_balance_mismatch"
    else "inventory_drift"

-- A return: its test, its reason, and whether it counts as an unknown event. The first that applies
-- is taken.
abbrev pub Return : Type 0
Return = Bool × String × Bool

unfoldable pub first_return : List Return → Option (String × Bool)
first_return [] = none
first_return ((b, reason, unknown) ∷ rs) =
    let rest = first_return rs in if b then some (reason, unknown) else rest

-- The returns that depend on statuses alone. The two arguments before the payload are the answers of
-- `fee_confidence_at_least` and of `balance_confidence_at_least`.
unfoldable pub status_returns : Bool → Bool → Bool → Dict String → List Return
status_returns legacy fee_enough balance_enough payload =
    let support = opportunity_support_status legacy payload in
    let fee = opportunity_fee_status payload in
    let quote = opportunity_quote_status payload in
    let balance = payload_balance_status payload in
    (payload_unavailable payload || support == "unsupported", "quote_unavailable", true)
    ∷ (support == "unknown", "health_unknown", true)
    ∷ (fee == "unknown", "fee_unknown", true)
    ∷ (not fee_enough, "fee_unverified", false)
    ∷ (quote == "unknown", "health_unknown", true)
    ∷ (not (quote == "matched"), "quote_mismatch", false)
    ∷ (balance == "unknown", "balance_unverified", true)
    ∷ (balance == "mismatch", mismatch_reason payload, false)
    ∷ (not balance_enough, "balance_unverified", false)
    ∷ []

unfoldable pub status_reason : Bool → Bool → Bool → Dict String → Option (String × Bool)
unfolding first_return status_returns
status_reason legacy fee_enough balance_enough payload =
    first_return (status_returns legacy fee_enough balance_enough payload)

-- the returns that depend on the row's own columns
unfoldable pub column_returns : Limits → Opportunity → List Return
column_returns limits row =
    (lt row.modeled_edge_bps limits.min_edge, "below_threshold", false)
    ∷ (lt limits.max_slippage row.expected_slippage_bps, "slippage_too_high", false)
    ∷ (lt limits.max_quote_age row.quote_age_seconds, "stale_quote", false)
    ∷ []

unfoldable pub column_reason : Limits → Opportunity → Option (String × Bool)
unfolding first_return column_returns
column_reason limits row = first_return (column_returns limits row)

-- the returns on the amount and the pool, whose texts are read here
unfoldable pub size_reason : Limits → Dict String → Result (Option (String × Bool))
size_reason limits payload = parse_decimal (get_or "initial_amount" "0" payload) >>= λ amount_in.
    if le amount_in (dec 0 0)
    then ok (some ("health_unknown", true))
    else (parse_decimal (get_or "smaller_pool_liquidity_usdc" "0" payload) >>= λ liq.
        if le liq (dec 0 0)
        then ok (some ("liquidity_unavailable", false))
        else (div amount_in liq >>= λ share. ok (
            if lt limits.liquidity_cap_ratio share
            then some ("pool_share_too_large", false)
            else none)))

abbrev pub verdict : Dict String → Option (String × Bool) → Verdict
verdict payload none = record {
  reason = "";
  fee_status = opportunity_fee_status payload;
  balance_status = payload_balance_status payload;
  quote_unknown = false;
}
verdict payload (some (reason, unknown)) = record {
  reason = reason;
  fee_status = opportunity_fee_status payload;
  balance_status = payload_balance_status payload;
  quote_unknown = unknown;
}

-- the first of the three groups that gives a reason
unfoldable pub first_reason :
    Limits
    → Opportunity
    → Option (String × Bool)
    → Option (String × Bool)
    → Result (Option (String × Bool))
unfolding size_reason
first_reason limits row (some r) columns = ok (some r)
first_reason limits row none (some r) = ok (some r)
first_reason limits row none none = size_reason limits row.payload

unfoldable pub recompute_blocked_reason : Dict Json → Limits → Bool → Opportunity → Result Verdict
unfolding first_reason status_reason column_reason
recompute_blocked_reason params limits legacy row =
    fee_confidence_at_least (opportunity_fee_status row.payload)
      (get_text "min_fee_confidence_status" "fallback_only" params)
    >>= λ fee_enough.
        balance_confidence_at_least (payload_balance_status row.payload)
          (get_text "min_balance_confidence_status" "internal_ok" params)
        >>= λ balance_enough.
            first_reason limits row (status_reason legacy fee_enough balance_enough row.payload)
              (column_reason limits row)
            >>= λ reason. ok (verdict row.payload reason)

-- the eligible branch: its penalties and the simulated result
unfoldable pub simulate_opportunity :
    Dict Json → Opportunity → Verdict → Result (Decimal × Penalties)
simulate_opportunity params row v =
    parse_decimal (get_or "initial_amount" "0" row.payload) >>= λ initial_amount.
    compute_penalties initial_amount row.expected_pnl_abs v.fee_status v.balance_status params
    >>= λ penalties.
        ok (sub (sub row.expected_pnl_abs (total penalties)) row.gas_estimate_usdc, penalties)

abbrev pub opportunity_trade : Opportunity → String → Decimal → Trade
opportunity_trade row reason pnl = record {
  timestamp = row.timestamp;
  blocked_reason = reason;
  modeled_edge_bps = row.modeled_edge_bps;
  expected_pnl = row.expected_pnl_abs;
  simulated_pnl = pnl;
}

-- one row's effect, once it is judged
unfoldable pub settle_opportunity : Dict Json → Opportunity → Verdict → Tally → Result Tally
unfolding simulate_opportunity count_statuses count_blocked count_eligible write_trade
settle_opportunity params row v t =
    let counted = count_statuses v.fee_status v.balance_status v.quote_unknown t in
    if v.reason == ""
    then (simulate_opportunity params row v >>= λ (pnl, penalties). ok (
        write_trade (opportunity_trade row "" pnl)
          (count_eligible row.modeled_edge_bps pnl penalties counted)))
    else ok (
        write_trade (opportunity_trade row v.reason (dec 0 0))
          (count_blocked v.reason (row.status == "eligible") counted))

-- the loop
unfoldable pub replay_opportunities :
    Dict Json → Limits → Bool → List Opportunity → Tally → Result Tally
replay_opportunities params limits legacy [] t = ok t
replay_opportunities params limits legacy (row ∷ rows) t =
    recompute_blocked_reason params limits legacy row >>= λ v.
    settle_opportunity params row v t >>= λ next.
    replay_opportunities params limits legacy rows next

unfoldable pub evaluate_opportunity_rows : Dict Json → Bool → List Opportunity → Result Outcome
evaluate_opportunity_rows params legacy rows = limits_of params >>= λ limits.
    replay_opportunities params limits legacy rows empty_tally >>= λ t.
    finalize_outcome (length rows) t
