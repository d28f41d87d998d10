-- ===== src/Backtest/Run.antt =====
-- app/backtest/engine.py: the loop of `_evaluate_market_snapshot_rows`, and `run`. The rows that the
-- repository lists, and the parameters resolved before, are arguments; writing the run, its trades and
-- its result to the database is left out, and the trades stand in the outcome.
use arbitrage_bot.Backtest.{
  Penalties, ReplayMode, Trade, compute_penalties, market_snapshots, normalize_replay_mode,
  opportunities, opportunities_legacy, total,
}
use arbitrage_bot.Backtest.Opportunities.{Limits, Opportunity, evaluate_opportunity_rows, limits_of}
use arbitrage_bot.Backtest.Snapshots.{
  Cursor, Figures, RouteHealth, Snapshot, Statuses, advance, decimal_or, figures, row_statuses,
  snapshot_reason, sort_health,
}
use arbitrage_bot.Backtest.Tally.{
  Outcome, Tally, count_blocked, count_eligible, count_statuses, empty_tally, finalize_outcome,
  write_trade,
}
use arbitrage_bot.Base.{
  List, Option, String, [], contains, false, if◌then◌else◌, length, nat_eq, none, string_eq, true,
  ◌==◌, ◌∷◌,
}
use arbitrage_bot.Base.Dict.{Dict}
use arbitrage_bot.Base.Result.{Error, Result, err, ok, ◌>>=◌}
use arbitrage_bot.Decimal.{Decimal, dec, sub}
use arbitrage_bot.Json.{Json, get_decimal}

-- the eligible branch: its penalties and the simulated result
unfoldable pub simulate_snapshot :
    Dict Json → Decimal → Snapshot → Statuses → Figures → Result (Decimal × Penalties)
simulate_snapshot params default_gas_cost row s f =
    compute_penalties f.initial_amount f.expected_pnl s.fee s.balance params >>= λ penalties.
    decimal_or "gas_cost_usdc" default_gas_cost row.payload >>= λ gas_cost.
    ok (sub (sub f.expected_pnl (total penalties)) gas_cost, penalties)

abbrev pub snapshot_trade : Snapshot → Figures → String → Decimal → Trade
snapshot_trade row f reason pnl = record {
  timestamp = row.timestamp;
  blocked_reason = reason;
  modeled_edge_bps = f.modeled_edge_bps;
  expected_pnl = f.expected_pnl;
  simulated_pnl = pnl;
}

-- one row's effect, once its reason is known
unfoldable pub settle_snapshot :
    Dict Json → Decimal → Snapshot → Statuses → Figures → String → Tally → Result Tally
unfolding simulate_snapshot count_statuses count_blocked count_eligible write_trade
settle_snapshot params default_gas_cost row s f reason t =
    let unknown = contains reason ("health_unknown" ∷ "quote_unavailable" ∷ []) in
    let counted = count_statuses s.fee s.balance unknown t in
    if reason == ""
    then (simulate_snapshot params default_gas_cost row s f >>= λ (pnl, penalties). ok (
        write_trade (snapshot_trade row f "" pnl)
          (count_eligible f.modeled_edge_bps pnl penalties counted)))
    else ok
        (write_trade (snapshot_trade row f reason (dec 0 0)) (count_blocked reason false counted))

-- the parameters that only this replay reads
pub record Defaults : Type 0 where
  pub gas_cost : Decimal
  pub slippage : Decimal

unfoldable pub defaults_of : Dict Json → Result Defaults
defaults_of params = get_decimal "default_gas_cost_usdc" "0.01" params >>= λ gas_cost.
    get_decimal "default_slippage_bps" "5" params >>= λ slippage.
    ok (record { gas_cost = gas_cost; slippage = slippage })

-- one turn of the loop
unfoldable pub step_snapshot :
    Dict Json → Limits → Defaults → Option RouteHealth → Snapshot → Tally → Result Tally
unfolding settle_snapshot
step_snapshot params limits defaults health row t =
    let s = row_statuses health row.payload in
    figures defaults.slippage row >>= λ f.
    snapshot_reason params limits s f row.payload >>= λ reason.
    settle_snapshot params defaults.gas_cost row s f reason t

unfoldable pub replay_snapshots :
    Dict Json → Limits → Defaults → List Snapshot → Cursor → Tally → Result Tally
unfolding step_snapshot advance
replay_snapshots params limits defaults [] cursor t = ok t
replay_snapshots params limits defaults (row ∷ rows) cursor t =
    let moved = advance row.timestamp cursor in
    step_snapshot params limits defaults moved.0 row t >>= λ next.
    replay_snapshots params limits defaults rows moved next

-- `[row for row in rows if row.context == "leg_b"]`
unfoldable pub candidates : List Snapshot → List Snapshot
candidates [] = []
candidates (row ∷ rows) =
    let rest = candidates rows in if row.context == "leg_b" then row ∷ rest else rest

unfoldable pub evaluate_market_snapshot_rows :
    Dict Json → List RouteHealth → List Snapshot → Result Outcome
evaluate_market_snapshot_rows params health_rows rows = limits_of params >>= λ limits.
    defaults_of params >>= λ defaults.
    replay_snapshots params limits defaults (candidates rows) (none, sort_health health_rows)
      empty_tally
    >>= λ t. finalize_outcome (length (candidates rows)) t

-- the dict that `run` returns: `status`, with the outcome or the error
pub data Report : Type 0 where
  completed : ReplayMode → Outcome → Report
  failed : ReplayMode → Error → Report

-- the rows that the repository lists
pub record Rows : Type 0 where
  pub opportunity_rows : List Opportunity
  pub market_rows : List Snapshot
  pub health_rows : List RouteHealth

unfoldable pub evaluate_rows : ReplayMode → Dict Json → Rows → Result Outcome
evaluate_rows market_snapshots params rows =
    evaluate_market_snapshot_rows params rows.health_rows rows.market_rows
evaluate_rows opportunities_legacy params rows =
    evaluate_opportunity_rows params true rows.opportunity_rows
evaluate_rows opportunities params rows =
    evaluate_opportunity_rows params false rows.opportunity_rows

-- the two returns
unfoldable pub report : ReplayMode → Result Outcome → Report
report mode (ok outcome) = completed mode outcome
report mode (err e) = failed mode e

unfoldable pub run_backtest : String → Dict Json → Rows → Report
unfolding evaluate_rows report
run_backtest replay_mode params rows =
    let mode = normalize_replay_mode replay_mode in report mode (evaluate_rows mode params rows)
