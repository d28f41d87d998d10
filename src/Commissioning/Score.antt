-- ===== src/Commissioning/Score.antt =====
-- app/commissioning/service.py: `_score_row` and `_rank_rows`.
use arbitrage_bot.Base.{
  Bool, List, String, [], count_if, false, if◌then◌else◌, nat_eq, string_eq, true, ℕ, ◌+◌, ◌==◌,
  ◌∷◌,
}
use arbitrage_bot.Base.Result.{Result, ok, ◌>>=◌}
use arbitrage_bot.Commissioning.{
  Kpi, Stats, Status, is_live_intent, min_days, min_opportunities, min_snapshots, warn,
}
use arbitrage_bot.Commissioning.Gate.{
  CommissioningRow, GateStatus, is_fail, not_ready, observation_ready, promotion_blocked,
  review_ready,
}
use arbitrage_bot.Decimal.{
  Decimal, add, dec, div, half_even, le, lt, min, mul, of_ℕ, of_ℤ, quantize, sub,
}
use arbitrage_bot.Settings.{Settings}

-- `_completion_ratio`
unfoldable pub completion_ratio : Decimal → Decimal → Result Decimal
completion_ratio value required =
    if le required (dec 0 0)
    then ok (dec 1 0)
    else (div value required >>= λ ratio.
        ok (if lt ratio (dec 0 0) then dec 0 0 else min ratio (dec 1 0)))

unfoldable pub status_points : GateStatus → Decimal
status_points review_ready = dec 45 0
status_points observation_ready = dec 40 0
status_points not_ready = dec 20 0
status_points promotion_blocked = dec 5 0

unfoldable pub readiness_points : String → Decimal
readiness_points grade =
    if grade == "green" then dec 20 0 else if grade == "yellow" then dec 10 0 else dec 0 0

abbrev pub is_warn : Status → Bool
is_warn warn = true
is_warn _ = false

unfoldable pub count_status : (Status → Bool) → List Kpi → ℕ
count_status test ks = count_if (λ k. test k.status) ks

-- the ratio of the backtests; the thresholds are those of `_route_thresholds`
unfoldable pub backtest_ratio : Settings → Stats → Result Decimal
unfolding completion_ratio
backtest_ratio s x =
    if is_live_intent x.route_type
    then (completion_ratio (of_ℕ x.backtest_run_count_market_snapshots)
          (of_ℤ s.commissioning_live_min_backtest_runs_market_snapshots)
        >>= λ a.
            completion_ratio (of_ℕ x.backtest_run_count_opportunities)
              (of_ℤ s.commissioning_live_min_backtest_runs_opportunities)
            >>= λ b. div (add a b) (dec 2 0))
    else completion_ratio (of_ℕ x.backtest_run_count_total)
        (of_ℤ s.commissioning_shadow_min_backtest_runs_total)

unfoldable pub completion_bonus : Settings → Stats → Result Decimal
unfolding completion_ratio backtest_ratio
completion_bonus s x =
    completion_ratio x.observation_window_days (min_days s x.route_type) >>= λ observation.
    completion_ratio (of_ℕ x.market_snapshot_count) (min_snapshots s x.route_type) >>= λ snapshots.
    completion_ratio (of_ℕ x.opportunity_count) (min_opportunities s x.route_type) >>= λ found.
    backtest_ratio s x >>= λ backtests.
    div (add (add (add observation snapshots) found) backtests) (dec 4 0) >>= λ mean.
    ok (mul mean (dec 20 0))

-- the score before it is clamped
unfoldable pub raw_score : Settings → CommissioningRow → Result Decimal
unfolding completion_bonus status_points readiness_points count_status
raw_score s row = completion_bonus s row.stats >>= λ bonus.
    let live_bonus = if is_live_intent row.stats.route_type then dec 8 0 else dec 0 0 in
    let gained =
      add
        (add (add (status_points row.gate) (readiness_points row.stats.readiness_grade)) live_bonus)
        bonus in
    let fail_penalty = mul (of_ℕ (count_status is_fail row.kpi_evaluations)) (dec 12 0) in
    let warn_penalty = mul (of_ℕ (count_status is_warn row.kpi_evaluations)) (dec 4 0) in
    let quote_penalty = min (dec 15 0) (mul row.stats.quote_unavailable_rate (dec 200 0)) in
    ok (sub (sub (sub gained fail_penalty) warn_penalty) quote_penalty)

unfoldable pub clamp_score : Decimal → Decimal
clamp_score score =
    let low = if lt score (dec 0 0) then dec 0 0 else score in
    if lt (dec 100 0) low then dec 100 0 else low

-- `_score_row`
unfoldable pub score_row : Settings → CommissioningRow → Result Decimal
unfolding raw_score clamp_score
score_row s row = raw_score s row >>= λ score. quantize half_even 3 (clamp_score score)

-- a row of the ranking: its rank, its score and the row that it shows a part of
pub record Ranked : Type 0 where
  pub rank_number : ℕ
  pub score : Decimal
  pub row : CommissioningRow

-- `sorted(rows, key=score, reverse=True)`, which keeps the order of equal scores
unfoldable pub insert_scored :
    Decimal × CommissioningRow
    → List (Decimal × CommissioningRow)
    → List (Decimal × CommissioningRow)
insert_scored r [] = r ∷ []
insert_scored r (w ∷ ws) =
    let later = insert_scored r ws in if le w.0 r.0 then r ∷ w ∷ ws else w ∷ later

unfoldable pub sort_scored : List (Decimal × CommissioningRow) → List (Decimal × CommissioningRow)
unfolding insert_scored
sort_scored [] = []
sort_scored (r ∷ rs) = insert_scored r (sort_scored rs)

unfoldable pub score_rows :
    Settings → List CommissioningRow → Result (List (Decimal × CommissioningRow))
unfolding score_row
score_rows s [] = ok []
score_rows s (row ∷ rows) =
    score_row s row >>= λ score. score_rows s rows >>= λ rest. ok ((score, row) ∷ rest)

-- `enumerate(ranked_rows, start=n)`
unfoldable pub number_from : ℕ → List (Decimal × CommissioningRow) → List Ranked
number_from n [] = []
number_from n ((score, row) ∷ rows) =
    record { rank_number = n; score = score; row = row } ∷ number_from (n + 1) rows

-- `_rank_rows`
unfoldable pub rank_rows : Settings → List CommissioningRow → Result (List Ranked)
unfolding sort_scored score_rows number_from
rank_rows s rows = score_rows s rows >>= λ scored. ok (number_from 1 (sort_scored scored))
