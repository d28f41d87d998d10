-- ===== src/Commissioning/Gate.antt =====
-- app/commissioning/service.py: the minimum gate, the promotion gate, the phase and the route's row.
use arbitrage_bot.Base.{
  Bool, List, String, [], false, if◌then◌else◌, nat_eq, not, string_eq, true, ◌&&◌, ◌++◌, ◌==◌, ◌∷◌,
}
use arbitrage_bot.Base.Int.{leb_ℤ, pos}
use arbitrage_bot.Base.Result.{Result, ok, ◌>>=◌}
use arbitrage_bot.Commissioning.{
  Kpi, RouteType, Stats, Status, evaluate_kpis, fail, is_live_intent, live_intent, max_unavailable,
  min_days, min_opportunities, min_snapshots, other, pass, shadow,
}
use arbitrage_bot.Decimal.{le, of_ℕ}
use arbitrage_bot.Readiness.{dedup}
use arbitrage_bot.Settings.{Settings}

unfoldable pub backtests_enough : Settings → Stats → Bool
backtests_enough s x =
    if is_live_intent x.route_type
    then leb_ℤ s.commissioning_live_min_backtest_runs_market_snapshots
        (pos x.backtest_run_count_market_snapshots)
      && leb_ℤ s.commissioning_live_min_backtest_runs_opportunities
          (pos x.backtest_run_count_opportunities)
    else leb_ℤ s.commissioning_shadow_min_backtest_runs_total (pos x.backtest_run_count_total)

-- `_minimum_gate_passed`
unfoldable pub minimum_gate_passed : Settings → Stats → Bool
unfolding backtests_enough
minimum_gate_passed s x =
    le (min_days s x.route_type) x.observation_window_days
    && (le (min_snapshots s x.route_type) (of_ℕ x.market_snapshot_count)
        && (le (min_opportunities s x.route_type) (of_ℕ x.opportunity_count)
            && (backtests_enough s x
                && (le x.quote_unavailable_rate (max_unavailable s x.route_type)
                    && (x.support_status == "supported"
                        && (not (x.readiness_grade == "red") && not x.fatal_paused))))))

pub data GateStatus : Type 0 where
  promotion_blocked not_ready observation_ready review_ready : GateStatus

-- `_promotion_gate_status`
unfoldable pub promotion_gate_status : RouteType → List String → Bool → GateStatus
promotion_gate_status route_type (name ∷ names) passed = promotion_blocked
promotion_gate_status route_type [] false = not_ready
promotion_gate_status live_intent [] true = review_ready
promotion_gate_status shadow [] true = observation_ready
promotion_gate_status other [] true = not_ready

pub data Phase : Type 0 where
  phase_0_mock_sanity phase_1_real_observation phase_2_replay_review phase_3_commissioning_review :
      Phase

-- `promotion_gate_status in {"review_ready", "observation_ready"}`
abbrev pub is_ready : GateStatus → Bool
is_ready review_ready = true
is_ready observation_ready = true
is_ready _ = false

-- `_phase_for_route`
unfoldable pub phase_for_route : Stats → GateStatus → Phase
phase_for_route x status =
    if x.market_snapshot_count == 0 && x.opportunity_count == 0
    then phase_0_mock_sanity
    else if x.backtest_run_count_total == 0
    then phase_1_real_observation
    else if is_ready status
    then phase_3_commissioning_review
    else phase_2_replay_review

abbrev pub is_fail : Status → Bool
is_fail fail = true
is_fail _ = false

abbrev pub is_pass : Status → Bool
is_pass pass = true
is_pass _ = false

-- `[item.name for item in kpis if item.critical and item.status == "fail"]`
unfoldable pub critical_fails : List Kpi → List String
critical_fails [] = []
critical_fails (k ∷ ks) =
    let rest = critical_fails ks in if k.critical && is_fail k.status then k.name ∷ rest else rest

-- `[item.note for item in kpis if item.note and item.status != "pass"]`
unfoldable pub notes : List Kpi → List String
notes [] = []
notes (k ∷ ks) =
    let rest = notes ks in
    if not (k.note == "") && not (is_pass k.status) then k.note ∷ rest else rest

-- the row that `_build_route_row` makes, without what it only passes on
pub record CommissioningRow : Type 0 where
  pub stats : Stats
  pub phase : Phase
  pub gate : GateStatus
  pub kpi_evaluations : List Kpi
  pub gate_blockers : List String
  pub human_action_items : List String

-- The two lists are the blockers and the actions of the route's readiness row.
unfoldable pub commissioning_row :
    Settings → Stats → List String → List String → Result CommissioningRow
unfolding critical_fails notes
commissioning_row s x readiness_blockers readiness_actions = evaluate_kpis s x >>= λ kpis.
    let fails = critical_fails kpis in
    let gate = promotion_gate_status x.route_type fails (minimum_gate_passed s x) in
    ok (record {
      stats = x;
      phase = phase_for_route x gate;
      gate = gate;
      kpi_evaluations = kpis;
      gate_blockers = dedup (fails ++ readiness_blockers);
      human_action_items = dedup (readiness_actions ++ notes kpis);
    })
