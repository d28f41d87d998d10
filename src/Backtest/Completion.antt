-- ===== src/Backtest/Completion.antt =====
-- `run` completes where every text that a replay reads as a number is one.
use arbitrage_bot.Backtest.{
  ReplayMode, market_snapshots, normalize_replay_mode, opportunities, opportunities_legacy,
}
use arbitrage_bot.Backtest.Completes.{replay-Returns, walk-Returns}
use arbitrage_bot.Backtest.Opportunities.{evaluate_opportunity_rows}
use arbitrage_bot.Backtest.Returns.{
  ReadableOpportunity, ReadableParams, ReadableSnapshot, finalize-Returns, limits-Returns,
}
use arbitrage_bot.Backtest.Run.{
  Rows, candidates, completed, defaults_of, evaluate_market_snapshot_rows, evaluate_rows, report,
  run_backtest,
}
use arbitrage_bot.Backtest.Snapshots.{Snapshot}
use arbitrage_bot.Backtest.Tally.{Outcome}
use arbitrage_bot.Base.{
  All, Bool-cases, List, String, [], false, inl, inr, nat_eq, refl, string_eq, true, ◌==◌, ◌∷◌, ◌≡◌,
}
use arbitrage_bot.Base.Dict.{Dict}
use arbitrage_bot.Base.Result.{Returns, bind-Returns}
use arbitrage_bot.Json.{Json}

All-candidates :
    (rows : List Snapshot) → All ReadableSnapshot rows → All ReadableSnapshot (candidates rows)
unfolding candidates
All-candidates [] a = tt
All-candidates (row ∷ rows) (a, every) = elim (Bool-cases (row.context == "leg_b")) [
  | inl b ↦ rw b (a, All-candidates rows every)
  | inr b ↦ rw b (All-candidates rows every)
]

defaults-Returns : (params : Dict Json) → ReadableParams params → Returns (defaults_of params)
unfolding defaults_of
defaults-Returns params r =
    bind-Returns _ _ r.gas_cost (λ a. bind-Returns _ _ r.slippage (λ b. (_, refl)))

-- the rows of a run that are readable
pub record ReadableRows (rows : Rows) : Type 0 where
  pub opportunity_rows : All ReadableOpportunity rows.opportunity_rows
  pub market_rows : All ReadableSnapshot rows.market_rows

evaluate_rows-Returns :
    (mode : ReplayMode) (params : Dict Json) (rows : Rows)
    → ReadableParams params
    → ReadableRows rows
    → Returns (evaluate_rows mode params rows)
unfolding evaluate_rows evaluate_market_snapshot_rows evaluate_opportunity_rows
evaluate_rows-Returns market_snapshots params rows p r =
    bind-Returns _ _ (limits-Returns params p) (λ limits.
      bind-Returns _ _ (defaults-Returns params p) (λ defaults.
        bind-Returns _ _
          (walk-Returns params p limits defaults _ _ _ (All-candidates _ r.market_rows))
          (λ t. finalize-Returns _ t)))
evaluate_rows-Returns opportunities_legacy params rows p r =
    bind-Returns _ _ (limits-Returns params p) (λ limits.
      bind-Returns _ _ (replay-Returns params p limits true _ _ r.opportunity_rows)
        (λ t. finalize-Returns _ t))
evaluate_rows-Returns opportunities params rows p r =
    bind-Returns _ _ (limits-Returns params p) (λ limits.
      bind-Returns _ _ (replay-Returns params p limits false _ _ r.opportunity_rows)
        (λ t. finalize-Returns _ t))

-- A run completes in the mode that it was asked for, with an outcome, where its parameters and the
-- amounts in the rows' payloads are readable as numbers: no division by zero and no unknown name of a
-- confidence can fail it.
pub run_backtest_completes :
    (replay_mode : String) (params : Dict Json) (rows : Rows)
    → ReadableParams params
    → ReadableRows rows
    → (out : Outcome) × (run_backtest replay_mode params rows
        ≡ completed (normalize_replay_mode replay_mode) out)
unfolding run_backtest
run_backtest_completes replay_mode params rows p r =
    let (out, e) = evaluate_rows-Returns (normalize_replay_mode replay_mode) params rows p r in
    (out, rw e (unfold report in refl))
