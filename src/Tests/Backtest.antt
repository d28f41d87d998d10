-- ===== src/Tests/Backtest.antt =====
-- The theorems on the replays at concrete rows.
use arbitrage_bot.Backtest.Health.{IsLatest, walk-IsLatest}
use arbitrage_bot.Backtest.Pointer.{last_or, until, walk}
use arbitrage_bot.Backtest.{normalize_replay_mode, settings_params}
use arbitrage_bot.Backtest.Accepted.{Accepted, recompute_accepts}
use arbitrage_bot.Backtest.Completion.{ReadableRows, run_backtest_completes}
use arbitrage_bot.Backtest.Counts.{Counted}
use arbitrage_bot.Backtest.Ledger.{Kept, fills}
use arbitrage_bot.Backtest.Opportunities.{
  Limits, Opportunity, Verdict, column_reason, column_returns, first_reason, first_return,
  opportunity_fee_status, opportunity_quote_status, opportunity_support_status,
  payload_balance_status, payload_fee_status, payload_unavailable, recompute_blocked_reason,
  size_reason, status_reason, status_returns,
}
use arbitrage_bot.Backtest.Returns.{ReadableParams}
use arbitrage_bot.Backtest.Run.{Rows, completed, run_backtest}
use arbitrage_bot.Backtest.Snapshots.{RouteHealth, advance, insert_health, sort_health}
use arbitrage_bot.Backtest.Tally.{Outcome}
use arbitrage_bot.Backtest.Totals.{run_backtest-Counted, run_backtest-Kept}
use arbitrage_bot.Base.{
  List, String, [], agree, arith, contains, false, nat_eq, none, refl, some, string_eq, sym, ℕ, ◌↔◌,
  ◌∷◌, ◌≡◌, ◌≢◌,
}
use arbitrage_bot.Base.Dict.{Dict, get_or, lookup}
use arbitrage_bot.Base.Int.{◌*ℤ◌}
use arbitrage_bot.Base.Result.{ok}
use arbitrage_bot.Base.Text.{lower, strip}
use arbitrage_bot.Confidence.{
  at_least, balance_body, balance_confidence_at_least, fee_confidence_at_least, norm,
  normalize_balance_confidence, normalize_fee_confidence, normalize_quote_match_status,
  normalize_support_status, rank, rank_table,
}
use arbitrage_bot.Decimal.{
  Decimal, dec, digits, div, div_half_even, le, lt, quotient, scale_up, with_sign,
}
use arbitrage_bot.Json.{Json, get_decimal, get_text, or_else, parse_decimal, show_ℕ, show_ℤ, str}
use arbitrage_bot.Settings.{default_settings}
use mathlib.Core.Bool.{true≢false}

abbrev good_payload : Dict String
good_payload =
    ("fee_known_status", "chain_verified")
    ∷ ("balance_match_status", "wallet_verified")
    ∷ ("quote_match_status", "matched")
    ∷ ("support_status", "supported")
    ∷ ("initial_amount", "100")
    ∷ ("smaller_pool_liquidity_usdc", "1000000")
    ∷ []

abbrev row_of : ℕ → Decimal → Dict String → Opportunity
row_of timestamp expected payload = record {
  timestamp = timestamp;
  status = "eligible";
  modeled_edge_bps = dec 200 0;
  expected_slippage_bps = dec 1 0;
  quote_age_seconds = dec 1 0;
  expected_pnl_abs = expected;
  gas_estimate_usdc = dec 1 2;
  payload = payload;
}

-- a fill that wins, one that loses, and a row that says nothing of the route's support
abbrev rows : Rows
rows = record {
  opportunity_rows =
      row_of 10 (dec 2 0) good_payload
      ∷ row_of 20 (dec 1 2) good_payload
      ∷ row_of 30 (dec 2 0) (("initial_amount", "100") ∷ [])
      ∷ [];
  market_rows = [];
  health_rows = [];
}

abbrev params : Dict Json
params = settings_params default_settings "0.0002"

params-Readable : ReadableParams params
unfolding get_decimal get_text str show_ℤ show_ℕ parse_decimal strip lookup settings_params
params-Readable = record {
  min_edge = (_, refl);
  max_slippage = (_, refl);
  max_quote_age = (_, refl);
  liquidity_cap = (_, refl);
  gas = (_, refl);
  drift = (_, refl);
  latency = (_, refl);
  fallback_fee = (_, refl);
  unverified_fee = (_, refl);
  unverified_balance = (_, refl);
  gas_cost = (_, refl);
  slippage = (_, refl);
}

rows-Readable : ReadableRows rows
unfolding get_or lookup parse_decimal strip
rows-Readable = record {
  opportunity_rows =
      (((_, refl), (_, refl)), (((_, refl), (_, refl)), (((_, refl), (_, refl)), tt)));
  market_rows = tt;
}

run_backtest_completes_example :
    (out : Outcome) × (run_backtest "legacy" params rows
      ≡ completed (normalize_replay_mode "legacy") out)
run_backtest_completes_example =
    run_backtest_completes "legacy" params rows params-Readable rows-Readable

outcome : Outcome
outcome = run_backtest_completes_example.0

completes : run_backtest "legacy" params rows ≡ completed (normalize_replay_mode "legacy") outcome
unfolding outcome
completes = run_backtest_completes_example.1

run_backtest-Counted_example : Counted outcome.signals outcome.tally
run_backtest-Counted_example = run_backtest-Counted "legacy" params rows completes

run_backtest-Kept_example : Kept (fills outcome.tally.trades) outcome.tally
run_backtest-Kept_example = run_backtest-Kept "legacy" params rows completes

abbrev health_at : ℕ → RouteHealth
health_at timestamp = record {
  timestamp = timestamp;
  fee_known_status = "chain_verified";
  balance_match_status = "wallet_verified";
  quote_match_status = "matched";
  support_status = "supported";
}

abbrev health_rows : List RouteHealth
health_rows = health_at 30 ∷ health_at 10 ∷ health_at 20 ∷ []

walk-IsLatest_example :
    IsLatest 25 health_rows (advance 25 (walk (5 ∷ 15 ∷ []) (none, sort_health health_rows))).0
walk-IsLatest_example = walk-IsLatest (5 ∷ 15 ∷ []) 25 health_rows (omega arith, (omega arith, tt))

latest_test : last_or none (until 25 (sort_health health_rows)) ≡ some (health_at 20)
unfolding last_or until sort_health insert_health
latest_test = refl

abbrev limits : Limits
limits = record {
  min_edge = dec 30 0;
  max_slippage = dec 2 0;
  max_quote_age = dec 3 0;
  liquidity_cap_ratio = dec 2 4;
}

abbrev good_verdict : Verdict
good_verdict = record {
  reason = "";
  fee_status = "chain_verified";
  balance_status = "wallet_verified";
  quote_unknown = false;
}

judged :
    recompute_blocked_reason params limits false (row_of 10 (dec 2 0) good_payload)
    ≡ ok good_verdict
unfolding recompute_blocked_reason first_reason first_return status_reason status_returns
    column_reason column_returns size_reason opportunity_fee_status payload_fee_status
    opportunity_quote_status opportunity_support_status payload_balance_status payload_unavailable
    or_else get_text str get_or lookup contains normalize_fee_confidence
    normalize_balance_confidence balance_body normalize_quote_match_status normalize_support_status
    fee_confidence_at_least balance_confidence_at_least at_least rank rank_table norm lower strip
    parse_decimal lt le scale_up div quotient digits div_half_even with_sign settings_params ◌*ℤ◌
judged = refl

recompute_accepts_example :
    (good_verdict.reason ≡ "") ↔ Accepted params limits false (row_of 10 (dec 2 0) good_payload)
recompute_accepts_example =
    recompute_accepts params limits false (row_of 10 (dec 2 0) good_payload) judged

support_known : normalize_support_status (lookup "support_status" good_payload) ≢ "unknown"
unfolding normalize_support_status lookup contains norm lower strip
support_known = λ h. true≢false (sym (agree "supported" "unknown" h))
