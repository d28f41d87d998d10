-- ===== src/Commissioning/Promotion.antt =====
-- What a route needs to be ready for review, or for observation.
use arbitrage_bot.Base.{
  All, Bool-cases, List, [], arith, contains, eq_iff, false, inl, inr, nat_eq, refl, string_eq,
  true, ◌&&◌, ◌++◌, ◌↔◌, ◌∷◌, ◌≡◌, ◌⊎◌,
}
use arbitrage_bot.Base.Int.{pos}
use arbitrage_bot.Commissioning.{
  Kpi, Stats, backtest_kpis, bool_status, count_kpis, enum_status, is_live_intent, max_unavailable,
  min_days, min_opportunities, min_snapshots, minimum_status, rate_kpis, rate_status, state_kpis,
}
use arbitrage_bot.Commissioning.Gate.{backtests_enough, critical_fails, is_fail}
use arbitrage_bot.Decimal.{Decimal, le, of_ℕ}
use arbitrage_bot.Decimal.Order.{le-of_ℤ}
use arbitrage_bot.Settings.{Settings}

-- a rate that is no failure
abbrev pub Within : Decimal → Decimal → Decimal → Type 0
Within value pass_max warn_max = (le value pass_max ≡ true) ⊎ (le value warn_max ≡ true)

-- What both kinds of route need.
pub record Qualified (s : Settings) (x : Stats) : Type 0 where
  pub days : le (min_days s x.route_type) x.observation_window_days ≡ true
  pub snapshots : le (min_snapshots s x.route_type) (of_ℕ x.market_snapshot_count) ≡ true
  pub opportunities : le (min_opportunities s x.route_type) (of_ℕ x.opportunity_count) ≡ true
  pub backtests : backtests_enough s x ≡ true
  pub health :
      Within x.health_unknown_rate s.commissioning_warn_health_unknown_rate
        s.commissioning_fail_health_unknown_rate
  pub fees :
      Within x.fee_unverified_rate s.commissioning_warn_fee_unverified_rate
        s.commissioning_fail_fee_unverified_rate
  pub balances :
      Within x.balance_unverified_rate s.commissioning_warn_balance_unverified_rate
        s.commissioning_fail_balance_unverified_rate
  pub quotes :
      Within x.quote_mismatch_rate s.commissioning_warn_quote_mismatch_rate
        s.commissioning_fail_quote_mismatch_rate
  pub supported : x.support_status ≡ "supported"
  pub graded : (x.readiness_grade ≡ "green") ⊎ (x.readiness_grade ≡ "yellow")
  pub unpaused : x.fatal_paused ≡ false

-- a KPI that does not count against the promotion
abbrev pub Passes : Kpi → Type 0
Passes k = (k.critical && is_fail k.status) ≡ false

pub critical_fails_iff : (ks : List Kpi) → (critical_fails ks ≡ []) ↔ All Passes ks
unfolding critical_fails
critical_fails_iff [] = ((λ h. tt), (λ h. refl))
critical_fails_iff (k ∷ ks) = elim (Bool-cases (k.critical && is_fail k.status)) [
  | inl b ↦ rw b ((λ h. cc), (λ h. cc))
  | inr b ↦ rw b ((λ h. (refl, (critical_fails_iff ks).0 h)), (λ h. (critical_fails_iff ks).1 h.1))
]

pub All-split {ℓ κ} :
    {A : Type ℓ} (P : A → Type κ) (xs ys : List A) → All P (xs ++ ys) → All P xs × All P ys
All-split P [] ys a = (tt, a)
All-split P (x ∷ xs) ys (a, b) = let (c, d) = All-split P xs ys b in ((a, c), d)

module _ (s : Settings) (x : Stats) where
  pub counts_iff : All Passes (count_kpis s x) ↔ (
      (le (min_days s x.route_type) x.observation_window_days ≡ true)
      × (le (min_snapshots s x.route_type) (of_ℕ x.market_snapshot_count) ≡ true)
      × (le (min_opportunities s x.route_type) (of_ℕ x.opportunity_count) ≡ true))
  unfolding count_kpis minimum_status
  counts_iff = ((λ h. (ground arith, ground arith, ground arith)), (λ (a, b, c). ground arith))

  pub backtests_iff : All Passes (backtest_kpis s x) ↔ (backtests_enough s x ≡ true)
  unfolding backtest_kpis minimum_status backtests_enough
  backtests_iff =
      let a =
        le-of_ℤ s.commissioning_live_min_backtest_runs_market_snapshots
          (pos x.backtest_run_count_market_snapshots) in
      let b =
        le-of_ℤ s.commissioning_live_min_backtest_runs_opportunities
          (pos x.backtest_run_count_opportunities) in
      let c =
        le-of_ℤ s.commissioning_shadow_min_backtest_runs_total (pos x.backtest_run_count_total) in
      elim (Bool-cases (is_live_intent x.route_type)) [
        | inl t ↦ rw (t, a, b) ((λ h. ground arith), (λ h. ground arith))
        | inr t ↦ rw (t, c) ((λ h. ground arith), (λ h. ground arith))
      ]

  pub rates_iff :
      (warn_max : Decimal)
      → All Passes (rate_kpis s x warn_max) ↔ (
          Within x.quote_unavailable_rate (max_unavailable s x.route_type) warn_max
          × Within x.health_unknown_rate s.commissioning_warn_health_unknown_rate
              s.commissioning_fail_health_unknown_rate
          × Within x.fee_unverified_rate s.commissioning_warn_fee_unverified_rate
              s.commissioning_fail_fee_unverified_rate
          × Within x.balance_unverified_rate s.commissioning_warn_balance_unverified_rate
              s.commissioning_fail_balance_unverified_rate
          × Within x.quote_mismatch_rate s.commissioning_warn_quote_mismatch_rate
              s.commissioning_fail_quote_mismatch_rate)
  unfolding rate_kpis rate_status
  rates_iff warn_max = (
    (λ h. (ground arith, ground arith, ground arith, ground arith, ground arith)),
    (λ (a, b, c, d, e). ground arith),
  )

  pub states_iff : All Passes (state_kpis x) ↔ (
      (x.support_status ≡ "supported")
      × ((x.readiness_grade ≡ "green") ⊎ (x.readiness_grade ≡ "yellow"))
      × (x.fatal_paused ≡ false))
  unfolding state_kpis enum_status bool_status contains
  states_iff =
      let a = eq_iff x.support_status "supported" in
      let b = eq_iff x.readiness_grade "green" in
      let c = eq_iff x.readiness_grade "yellow" in
      ((λ h. (ground arith, ground arith, ground arith)), (λ (p, q, r). ground arith))
