-- ===== src/Backtest/Snapshots.antt =====
-- app/backtest/engine.py: `_evaluate_market_snapshot_rows` and `run`.
use arbitrage_bot.Backtest.{to_bps}
use arbitrage_bot.Backtest.Opportunities.{
  Limits, mismatch_reason, payload_balance_status, payload_fee_status, payload_unavailable,
}
use arbitrage_bot.Base.{
  Bool, List, Option, String, [], if◌then◌else◌, leb, nat_eq, none, not, some, string_eq, ℕ, ◌&&◌,
  ◌==◌, ◌||◌, ◌∷◌,
}
use arbitrage_bot.Base.Dict.{Dict, lookup}
use arbitrage_bot.Base.Result.{Result, ok, ◌>>=◌}
use arbitrage_bot.Confidence.{
  balance_confidence_at_least, fee_confidence_at_least, normalize_balance_confidence,
  normalize_fee_confidence, normalize_quote_match_status, normalize_support_status,
}
use arbitrage_bot.Decimal.{Decimal, dec, div, le, lt, sub}
use arbitrage_bot.Json.{Json, get_text, parse_decimal}

-- the columns of `MarketSnapshot` that the replay reads; `amount_in` and the others that stand in
-- for a missing payload entry are decimals of the database
pub record Snapshot : Type 0 where
  pub timestamp : ℕ
  pub context : String
  pub amount_in : Decimal
  pub quoted_amount_out : Decimal
  pub quote_age_seconds : Decimal
  pub liquidity_usd : Decimal
  pub payload : Dict String

-- the columns of `RouteHealthSnapshot` that the replay reads
pub record RouteHealth : Type 0 where
  pub timestamp : ℕ
  pub fee_known_status : String
  pub balance_match_status : String
  pub quote_match_status : String
  pub support_status : String

-- `sorted(health_rows, key=lambda x: x.timestamp)`, which is stable
unfoldable pub insert_health : RouteHealth → List RouteHealth → List RouteHealth
insert_health h [] = h ∷ []
insert_health h (g ∷ gs) =
    let later = insert_health h gs in if leb h.timestamp g.timestamp then h ∷ g ∷ gs else g ∷ later

unfoldable pub sort_health : List RouteHealth → List RouteHealth
unfolding insert_health
sort_health [] = []
sort_health (h ∷ hs) = insert_health h (sort_health hs)

-- The pointer as the rows that are not read yet, with the row read last.
abbrev pub Cursor : Type 0
Cursor = Option RouteHealth × List RouteHealth

-- the loop `while health_ptr < len(ordered_health) and … <= row.timestamp`
unfoldable pub advance : ℕ → Cursor → Cursor
advance now (current, []) = (current, [])
advance now (current, h ∷ hs) =
    let moved = advance now (some h, hs) in if leb h.timestamp now then moved else (current, h ∷ hs)

-- `Decimal(str(payload.get(key, column)))`
unfoldable pub decimal_or : String → Decimal → Dict String → Result Decimal
decimal_or key column payload = elim (lookup key payload) [
  | none ↦ ok column
  | some s ↦ parse_decimal s
]

-- the four statuses of a row
pub record Statuses : Type 0 where
  pub fee : String
  pub balance : String
  pub quote : String
  pub support : String

unfoldable pub payload_statuses : Dict String → Statuses
payload_statuses payload = record {
  fee = payload_fee_status payload;
  balance = payload_balance_status payload;
  quote = normalize_quote_match_status (lookup "quote_match_status" payload);
  support = normalize_support_status (lookup "support_status" payload);
}

-- The health row fills in what the payload does not say; its support status, where known, wins.
unfoldable pub with_health : Option RouteHealth → Statuses → Statuses
with_health none s = s
with_health (some h) s =
    let health_support = normalize_support_status (some h.support_status) in
    record {
      fee =
          if s.fee == "unknown"
          then normalize_fee_confidence (some h.fee_known_status) none
          else s.fee;
      balance =
          if s.balance == "unknown"
          then normalize_balance_confidence (some h.balance_match_status) none
          else s.balance;
      quote =
          if s.quote == "unknown"
          then normalize_quote_match_status (some h.quote_match_status)
          else s.quote;
      support =
          if not (health_support == "unknown") || s.support == "unknown"
          then health_support
          else s.support;
    }

-- `if quote_unavailable and support_status == "unknown"`
unfoldable pub with_unavailable : Bool → Statuses → Statuses
with_unavailable unavailable s = record s {
  support = if unavailable && s.support == "unknown" then "unsupported" else s.support;
}

unfoldable pub row_statuses : Option RouteHealth → Dict String → Statuses
unfolding payload_statuses with_health with_unavailable
row_statuses health payload =
    with_unavailable (payload_unavailable payload) (with_health health (payload_statuses payload))

-- what the reasons read of a row, each value computed before the first reason is tried
pub record Figures : Type 0 where
  pub initial_amount : Decimal
  pub expected_pnl : Decimal
  pub modeled_edge_bps : Decimal
  pub slippage_bps : Decimal
  pub quote_age : Decimal
  pub smaller_liq : Decimal

unfoldable pub figures : Decimal → Snapshot → Result Figures
unfolding decimal_or
figures default_slippage row = decimal_or "initial_amount" row.amount_in row.payload >>= λ given.
    decimal_or "final_amount" row.quoted_amount_out row.payload >>= λ final_amount.
    let initial_amount = if le given (dec 0 0) then dec 0 0 else given in
    let expected_pnl = sub final_amount initial_amount in
    to_bps expected_pnl initial_amount >>= λ edge.
    decimal_or "expected_slippage_bps" default_slippage row.payload >>= λ slippage.
    decimal_or "smaller_pool_liquidity_usdc" row.liquidity_usd row.payload >>= λ smaller_liq.
    ok (record {
      initial_amount = initial_amount;
      expected_pnl = expected_pnl;
      modeled_edge_bps = edge;
      slippage_bps = slippage;
      quote_age = row.quote_age_seconds;
      smaller_liq = smaller_liq;
    })

-- the reasons that depend on the statuses; the empty text is none
unfoldable pub snapshot_status_reason : Bool → Bool → Statuses → Dict String → String
snapshot_status_reason fee_enough balance_enough s payload =
    if payload_unavailable payload || s.support == "unsupported"
    then "quote_unavailable"
    else if s.support == "unknown"
    then "health_unknown"
    else if s.fee == "unknown"
    then "fee_unknown"
    else if not fee_enough
    then "fee_unverified"
    else if s.balance == "unknown"
    then "balance_unverified"
    else if s.balance == "mismatch"
    then mismatch_reason payload
    else if not balance_enough
    then "balance_unverified"
    else if s.quote == "unknown"
    then "health_unknown"
    else if not (s.quote == "matched")
    then "quote_mismatch"
    else ""

-- `initial_amount > 0 and initial_amount / smaller_liq > liquidity_cap_ratio`
unfoldable pub share_reason : Limits → Figures → Result String
share_reason limits f =
    if lt (dec 0 0) f.initial_amount
    then (div f.initial_amount f.smaller_liq >>= λ share.
        ok (if lt limits.liquidity_cap_ratio share then "pool_share_too_large" else ""))
    else ok ""

unfoldable pub snapshot_figure_reason : Limits → Figures → Result String
unfolding share_reason
snapshot_figure_reason limits f =
    if lt f.modeled_edge_bps limits.min_edge
    then ok "below_threshold"
    else if lt limits.max_slippage f.slippage_bps
    then ok "slippage_too_high"
    else if lt limits.max_quote_age f.quote_age
    then ok "stale_quote"
    else if le f.smaller_liq (dec 0 0)
    then ok "liquidity_unavailable"
    else share_reason limits f

-- the whole chain of reasons
unfoldable pub snapshot_reason :
    Dict Json → Limits → Statuses → Figures → Dict String → Result String
unfolding snapshot_status_reason snapshot_figure_reason
snapshot_reason params limits s f payload =
    fee_confidence_at_least s.fee (get_text "min_fee_confidence_status" "fallback_only" params)
    >>= λ fee_enough.
        balance_confidence_at_least s.balance
          (get_text "min_balance_confidence_status" "internal_ok" params)
        >>= λ balance_enough.
            let reason = snapshot_status_reason fee_enough balance_enough s payload in
            if reason == "" then snapshot_figure_reason limits f else ok reason
