-- ===== src/Tests/Reviews.antt =====
-- The theorems on readiness and commissioning at concrete routes.
use arbitrage_bot.Base.{
  All, length, ◌+◌, Bool, List, count_if, [], contains, false, nat_eq, none, refl, some, string_eq,
  true, ◌↔◌, ◌∷◌, ◌≡◌, ◌≢◌,
}
use arbitrage_bot.Readiness.Summary.{
  ReadinessSummary, StoredRoute, readiness_summary, readiness_summary_lem,
}
use arbitrage_bot.Base.Int.{◌+ℤ◌, ◌*ℤ◌}
use arbitrage_bot.Commissioning.Bounds.{score_row-bounds}
use arbitrage_bot.Commissioning.Ranking.{IsNumbered, IsRanked, rank_rows-IsRanked}
use arbitrage_bot.Commissioning.Score.{
  Ranked, backtest_ratio, clamp_score, completion_bonus, completion_ratio, count_status,
  insert_scored, number_from, rank_rows, raw_score, readiness_points, score_row, score_rows,
  sort_scored, status_points,
}
use arbitrage_bot.Decimal.{
  add, div, div_half_even, drop_digits, exact_add, quotient, sub, Decimal, dec, digits, exact_mul,
  fix, le, lt, min, mul, quantize, round_mag, scale_up, with_sign,
}
use arbitrage_bot.Base.Result.{Result, err, ok}
use arbitrage_bot.Commissioning.{
  Stats, backtest_kpis, bool_status, count_kpis, enum_status, evaluate_kpis, live_intent,
  max_unavailable, min_days, min_opportunities, min_snapshots, minimum_status, rate_kpis,
  rate_status, reverse_status, shadow, state_kpis, warn_quote_unavailable_max,
}
use arbitrage_bot.Commissioning.Gate.{
  CommissioningRow, backtests_enough, commissioning_row, critical_fails, minimum_gate_passed,
  not_ready, observation_ready, phase_0_mock_sanity, promotion_blocked, promotion_gate_status,
  review_ready,
}
use arbitrage_bot.Commissioning.Promotion.{Qualified}
use arbitrage_bot.Commissioning.Review.{commissioning_row-not_ready, commissioning_row-ready}
use arbitrage_bot.Readiness.{ReadinessRow, Records, dedup, dedup_from, readiness_row}
use arbitrage_bot.Readiness.Grade.{Observed, Vetted}
use arbitrage_bot.Readiness.Rows.{readiness_row-green, readiness_row-red, readiness_row_total}
use arbitrage_bot.Settings.{default_settings}

abbrev records : Records
records = record {
  latest_health = some (record {
    support_status = "supported";
    fee_known_status = "chain_verified";
    balance_match_status = "wallet_verified";
    quote_match_status = "matched";
    cooldown_active = false;
  });
  runtime = none;
  observation_count = 40;
  backtest_run_count = 3;
  quote_unavailable_rate = dec 1 2;
}

readiness : ReadinessRow
readiness = (readiness_row_total default_settings 0 "hyperevm_dex_dex" records).0

is_readiness : readiness_row default_settings 0 "hyperevm_dex_dex" records ≡ ok readiness
unfolding readiness
is_readiness = (readiness_row_total default_settings 0 "hyperevm_dex_dex" records).1

readiness_row-green_example :
    (readiness.readiness_grade ≡ "green")
    ↔ (Vetted default_settings readiness.evidence × Observed readiness.evidence)
readiness_row-green_example =
    readiness_row-green default_settings 0 "hyperevm_dex_dex" records is_readiness

readiness_row-red_example :
    ((readiness.readiness_grade ≢ "red") ↔ Vetted default_settings readiness.evidence)
    × ((readiness.readiness_grade ≡ "yellow")
        ↔ (Vetted default_settings readiness.evidence × (¬ Observed readiness.evidence)))
readiness_row-red_example =
    readiness_row-red default_settings 0 "hyperevm_dex_dex" records is_readiness

dedup_test : dedup ("a" ∷ "b" ∷ "a" ∷ []) ≡ "a" ∷ "b" ∷ []
unfolding dedup dedup_from contains
dedup_test = refl

-- a live route that has enough of everything, with this rate of unavailable quotes
abbrev stats_with : Decimal → Stats
stats_with rate = record {
  route_type = live_intent;
  observation_window_days = dec 20 0;
  market_snapshot_count = 6000;
  opportunity_count = 400;
  backtest_run_count_total = 8;
  backtest_run_count_market_snapshots = 4;
  backtest_run_count_opportunities = 4;
  quote_unavailable_rate = rate;
  health_unknown_rate = dec 1 2;
  fee_unverified_rate = dec 1 2;
  balance_unverified_rate = dec 1 2;
  quote_mismatch_rate = dec 1 2;
  support_status = "supported";
  readiness_grade = "green";
  fatal_paused = false;
  fatal_pause_count = 0;
  cooldown_event_count = 0;
}

-- the row, with an empty one where the call raises
abbrev row_of : Stats → Result CommissioningRow → CommissioningRow
row_of x (ok row) = row
row_of x (err e) = record {
  stats = x;
  phase = phase_0_mock_sanity;
  gate = promotion_blocked;
  kpi_evaluations = [];
  gate_blockers = [];
  human_action_items = [];
}

good : CommissioningRow
good =
    row_of (stats_with (dec 1 2)) (commissioning_row default_settings (stats_with (dec 1 2)) [] [])

good_row : commissioning_row default_settings (stats_with (dec 1 2)) [] [] ≡ ok good
unfolding good commissioning_row evaluate_kpis warn_quote_unavailable_max max_unavailable quantize
    mul fix exact_mul digits with_sign round_mag ◌*ℤ◌ min lt scale_up
good_row = refl

commissioning_row-ready_example :
    ((good.gate ≡ review_ready) ↔ (
      (live_intent ≡ live_intent)
      × Qualified default_settings (stats_with (dec 1 2))
      × (le (dec 1 2) (max_unavailable default_settings live_intent) ≡ true)))
    × ((good.gate ≡ observation_ready) ↔ (
        (live_intent ≡ shadow)
        × Qualified default_settings (stats_with (dec 1 2))
        × (le (dec 1 2) (max_unavailable default_settings live_intent) ≡ true)))
commissioning_row-ready_example =
    commissioning_row-ready default_settings (stats_with (dec 1 2)) [] [] good_row

gate_test : good.gate ≡ review_ready
unfolding good commissioning_row evaluate_kpis warn_quote_unavailable_max max_unavailable quantize
    mul fix exact_mul digits with_sign round_mag ◌*ℤ◌ min lt le scale_up promotion_gate_status
    critical_fails minimum_gate_passed backtests_enough count_kpis backtest_kpis rate_kpis
    state_kpis minimum_status rate_status enum_status bool_status reverse_status min_days
    min_snapshots min_opportunities contains
gate_test = refl

-- the same with six quotes of a hundred unavailable
short : CommissioningRow
short =
    row_of (stats_with (dec 6 2)) (commissioning_row default_settings (stats_with (dec 6 2)) [] [])

short_row : commissioning_row default_settings (stats_with (dec 6 2)) [] [] ≡ ok short
unfolding short commissioning_row evaluate_kpis warn_quote_unavailable_max max_unavailable quantize
    mul fix exact_mul digits with_sign round_mag ◌*ℤ◌ min lt scale_up
short_row = refl

short_gate : short.gate ≡ not_ready
unfolding short commissioning_row evaluate_kpis warn_quote_unavailable_max max_unavailable quantize
    mul fix exact_mul digits with_sign round_mag ◌*ℤ◌ min lt le scale_up promotion_gate_status
    critical_fails minimum_gate_passed backtests_enough count_kpis backtest_kpis rate_kpis
    state_kpis minimum_status rate_status enum_status bool_status reverse_status min_days
    min_snapshots min_opportunities contains
short_gate = refl

commissioning_row-not_ready_example :
    Qualified default_settings (stats_with (dec 6 2))
    × (lt (max_unavailable default_settings live_intent) (dec 6 2) ≡ true)
commissioning_row-not_ready_example =
    commissioning_row-not_ready default_settings (stats_with (dec 6 2)) [] [] short_row short_gate
      (λ e. cc)

good_score : score_row default_settings good ≡ ok (dec 91000 3)
unfolding good commissioning_row evaluate_kpis warn_quote_unavailable_max max_unavailable quantize
    mul fix exact_mul digits with_sign round_mag ◌*ℤ◌ ◌+ℤ◌ min lt le scale_up promotion_gate_status
    critical_fails minimum_gate_passed backtests_enough count_kpis backtest_kpis rate_kpis
    state_kpis minimum_status rate_status enum_status bool_status reverse_status min_days
    min_snapshots min_opportunities contains score_row raw_score clamp_score completion_bonus
    backtest_ratio completion_ratio status_points readiness_points count_status div quotient
    div_half_even add sub exact_add drop_digits
good_score = refl

score_row-bounds_example :
    (le (dec 0 0) (dec 91000 3) ≡ true) × (le (dec 91000 3) (dec 100 0) ≡ true)
score_row-bounds_example = score_row-bounds default_settings good good_score

ranking : List Ranked
ranking = record { rank_number = 1; score = dec 91000 3; row = good } ∷ []

is_ranking : rank_rows default_settings (good ∷ []) ≡ ok ranking
unfolding ranking rank_rows score_rows sort_scored insert_scored number_from
is_ranking = rw good_score refl

rank_rows-IsRanked_example :
    All (λ r. score_row default_settings r.row ≡ ok r.score) ranking
    × IsRanked ranking
    × IsNumbered 1 ranking
    × ((p : CommissioningRow → Bool) → count_if (λ r. p r.row) ranking ≡ count_if p (good ∷ []))
rank_rows-IsRanked_example = rank_rows-IsRanked default_settings (good ∷ []) is_ranking

abbrev stored_routes : List StoredRoute
stored_routes =
    record { id = "a"; strategy = "hyperevm_dex_dex"; records = records; built_at = 0 }
    ∷ record { id = "b"; strategy = "base_virtual_shadow"; records = records; built_at = 7 }
    ∷ []

readiness_summary_lem_example :
    (summary : ReadinessSummary) × (readiness_summary default_settings stored_routes
        (some "opportunities")
      ≡ ok summary)
    × (summary.red_count + summary.yellow_count + summary.green_count ≡ summary.total_routes)
    × (summary.total_routes ≡ length stored_routes)
readiness_summary_lem_example =
    readiness_summary_lem default_settings stored_routes (some "opportunities")
