-- ===== src/Commissioning.antt =====
-- app/commissioning/service.py: the key performance indicators of a route, its gate, its phase and the
-- row that `_build_route_row` makes of them. The texts `value` and `threshold` of an indicator, and the
-- statistics that the row only passes on, are left out.
pub mod Gate
pub mod Promotion
pub mod Review
pub mod Score
pub mod Ranking
pub mod Bounds
use arbitrage_bot.Base.{
  Bool, List, String, [], contains, false, if◌then◌else◌, nat_eq, not, string_eq, true, ℕ, ◌++◌,
  ◌==◌, ◌∷◌,
}
use arbitrage_bot.Base.Result.{Result, ok, ◌>>=◌}
use arbitrage_bot.Decimal.{Decimal, dec, half_even, le, min, mul, of_ℕ, of_ℤ, quantize}
use arbitrage_bot.Settings.{Settings}

pub data Status : Type 0 where
  pass warn fail : Status

-- `KpiEvaluation`
pub record Kpi : Type 0 where
  pub name : String
  pub status : Status
  pub critical : Bool
  pub note : String

pub data RouteType : Type 0 where
  live_intent shadow other : RouteType

-- `_route_type`
unfoldable pub route_type_of : String → RouteType
route_type_of strategy =
    if strategy == "hyperevm_dex_dex"
    then live_intent
    else if strategy == "base_virtual_shadow"
    then shadow
    else other

abbrev pub is_live_intent : RouteType → Bool
is_live_intent live_intent = true
is_live_intent _ = false

-- the arguments of `_evaluate_kpis`
pub record Stats : Type 0 where
  pub route_type : RouteType
  pub observation_window_days : Decimal
  pub market_snapshot_count : ℕ
  pub opportunity_count : ℕ
  pub backtest_run_count_total : ℕ
  pub backtest_run_count_market_snapshots : ℕ
  pub backtest_run_count_opportunities : ℕ
  pub quote_unavailable_rate : Decimal
  pub health_unknown_rate : Decimal
  pub fee_unverified_rate : Decimal
  pub balance_unverified_rate : Decimal
  pub quote_mismatch_rate : Decimal
  pub support_status : String
  pub readiness_grade : String
  pub fatal_paused : Bool
  pub fatal_pause_count : ℕ
  pub cooldown_event_count : ℕ

abbrev pub kpi : String → Status → Bool → String → Kpi
kpi name status critical note = record {
  name = name;
  status = status;
  critical = critical;
  note = note;
}

-- the status of `_minimum_kpi`, and of its reverse
unfoldable pub minimum_status : Decimal → Decimal → Status
minimum_status value threshold = if le threshold value then pass else fail

unfoldable pub reverse_status : Decimal → Decimal → Status
reverse_status value threshold = if le value threshold then pass else warn

-- the status of `_rate_kpi`
unfoldable pub rate_status : Decimal → Decimal → Decimal → Status
rate_status value pass_max warn_max =
    if le value pass_max then pass else if le value warn_max then warn else fail

-- the status of `_enum_kpi`
unfoldable pub enum_status : String → List String → List String → Status
enum_status value pass_when warn_when =
    if contains value pass_when then pass else if contains value warn_when then warn else fail

-- the status of `_bool_kpi`
unfoldable pub bool_status : Bool → Status
bool_status b = if b then pass else fail

-- a setting that depends on whether the route is meant for live trading
abbrev pub for_route {ℓ} : {A : Type ℓ} → RouteType → A → A → A
for_route t live_setting shadow_setting = if is_live_intent t then live_setting else shadow_setting

unfoldable pub min_days : Settings → RouteType → Decimal
min_days s t = of_ℤ (
    for_route t s.commissioning_live_min_observation_days
      s.commissioning_shadow_min_observation_days)

unfoldable pub min_snapshots : Settings → RouteType → Decimal
min_snapshots s t = of_ℤ (
    for_route t s.commissioning_live_min_market_snapshots
      s.commissioning_shadow_min_market_snapshots)

unfoldable pub min_opportunities : Settings → RouteType → Decimal
min_opportunities s t =
    of_ℤ
      (for_route t s.commissioning_live_min_opportunities s.commissioning_shadow_min_opportunities)

unfoldable pub max_unavailable : Settings → RouteType → Decimal
max_unavailable s t =
    for_route t s.commissioning_live_max_quote_unavailable_rate
      s.commissioning_shadow_max_quote_unavailable_rate

-- `_warn_quote_unavailable_max`
unfoldable pub warn_quote_unavailable_max : Settings → RouteType → Result Decimal
unfolding max_unavailable
warn_quote_unavailable_max s t =
    quantize half_even 5 (mul (max_unavailable s t) (dec 15 1)) >>= λ expanded.
    ok (min expanded (dec 1 0))

unfoldable pub count_kpis : Settings → Stats → List Kpi
unfolding min_days min_snapshots min_opportunities
count_kpis s x =
    kpi "observation_window_days"
      (minimum_status x.observation_window_days (min_days s x.route_type)) true
      "Collect more real observation days before promotion review."
    ∷ kpi "market_snapshot_count"
        (minimum_status (of_ℕ x.market_snapshot_count) (min_snapshots s x.route_type)) true
        "Increase market snapshot persistence volume for this route."
    ∷ kpi "opportunity_count"
        (minimum_status (of_ℕ x.opportunity_count) (min_opportunities s x.route_type)) true
        "Collect more opportunity records to reduce sampling bias."
    ∷ []

unfoldable pub backtest_kpis : Settings → Stats → List Kpi
backtest_kpis s x =
    if is_live_intent x.route_type
    then kpi "backtest_run_count_market_snapshots"
        (minimum_status (of_ℕ x.backtest_run_count_market_snapshots)
          (of_ℤ s.commissioning_live_min_backtest_runs_market_snapshots))
        true "Run additional market_snapshots replay backtests."
      ∷ kpi "backtest_run_count_opportunities"
          (minimum_status (of_ℕ x.backtest_run_count_opportunities)
            (of_ℤ s.commissioning_live_min_backtest_runs_opportunities))
          true "Run additional opportunities replay backtests."
      ∷ []
    else kpi "backtest_run_count_total"
        (minimum_status (of_ℕ x.backtest_run_count_total)
          (of_ℤ s.commissioning_shadow_min_backtest_runs_total))
        true "Run additional replay/backtest iterations for observation review."
      ∷ []

unfoldable pub rate_kpis : Settings → Stats → Decimal → List Kpi
unfolding max_unavailable
rate_kpis s x quote_warn_max =
    kpi "quote_unavailable_rate"
      (rate_status x.quote_unavailable_rate (max_unavailable s x.route_type) quote_warn_max) true
      "Reduce quote_unavailable frequency by fixing route support or keeping route out of promotion scope."
    ∷ kpi "health_unknown_rate"
        (rate_status x.health_unknown_rate s.commissioning_warn_health_unknown_rate
          s.commissioning_fail_health_unknown_rate)
        true "Stabilize health telemetry so unknown states are rare and explainable."
    ∷ kpi "fee_unverified_rate"
        (rate_status x.fee_unverified_rate s.commissioning_warn_fee_unverified_rate
          s.commissioning_fail_fee_unverified_rate)
        true "Increase fee provenance confidence and reduce fallback-only runs."
    ∷ kpi "balance_unverified_rate"
        (rate_status x.balance_unverified_rate s.commissioning_warn_balance_unverified_rate
          s.commissioning_fail_balance_unverified_rate)
        true "Improve balance verification (wallet/venue) and eliminate inventory drift."
    ∷ kpi "quote_mismatch_rate"
        (rate_status x.quote_mismatch_rate s.commissioning_warn_quote_mismatch_rate
          s.commissioning_fail_quote_mismatch_rate)
        true "Address quote mismatch causes before promotion review."
    ∷ []

unfoldable pub state_kpis : Stats → List Kpi
state_kpis x =
    kpi "support_status" (enum_status x.support_status ("supported" ∷ []) []) true
      "Unsupported or unknown support status must be resolved before promotion."
    ∷ kpi "readiness_grade" (enum_status x.readiness_grade ("green" ∷ []) ("yellow" ∷ [])) true
        "Keep route out of promotion while readiness is red."
    ∷ kpi "fatal_pause_unresolved" (bool_status (not x.fatal_paused)) true
        "Resolve fatal pause conditions and clear route pause with audit logging."
    ∷ kpi "fatal_pause_count" (reverse_status (of_ℕ x.fatal_pause_count) (dec 0 0)) false
        "Review repeated fatal failure history before promotion discussions."
    ∷ kpi "cooldown_event_count" (reverse_status (of_ℕ x.cooldown_event_count) (dec 0 0)) false
        "Investigate recurring cooldown triggers and reduce instability."
    ∷ []

unfoldable pub evaluate_kpis : Settings → Stats → Result (List Kpi)
unfolding count_kpis backtest_kpis rate_kpis state_kpis
evaluate_kpis s x = warn_quote_unavailable_max s x.route_type >>= λ quote_warn_max.
    ok (count_kpis s x ++ (backtest_kpis s x ++ (rate_kpis s x quote_warn_max ++ state_kpis x)))
