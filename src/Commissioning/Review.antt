-- ===== src/Commissioning/Review.antt =====
-- The gate of a commissioning row, in terms of the route's statistics.
use arbitrage_bot.Commissioning.Promotion.{
  Passes, All-split, Qualified, Within, backtests_iff, counts_iff, critical_fails_iff, rates_iff,
  states_iff,
}
use arbitrage_bot.Base.{
  All, All-append, Bool, List, String, [], agree, ap, false, inl, inr, nat_eq, refl, string_eq, sym,
  true, ◌&&◌, ◌++◌, ◌==◌, ◌↔◌, ◌∙◌, ◌∷◌, ◌≡◌, ◌≢◌, ◌⊎◌,
}
use arbitrage_bot.Base.Result.{bind-ok, ok, ok-cancel}
use arbitrage_bot.Commissioning.{
  RouteType, Stats, backtest_kpis, count_kpis, evaluate_kpis, live_intent, max_unavailable, other,
  rate_kpis, shadow, state_kpis, warn_quote_unavailable_max,
}
use arbitrage_bot.Commissioning.Gate.{
  CommissioningRow, commissioning_row, critical_fails, minimum_gate_passed, not_ready,
  observation_ready, promotion_gate_status, review_ready,
}
use arbitrage_bot.Decimal.{Decimal, le, lt}
use arbitrage_bot.Decimal.Compare.{lt-not-le}
use arbitrage_bot.Settings.{Settings}

module _ (s : Settings) (x : Stats) where
  kpis_iff :
      (warn_max : Decimal)
      → All Passes
          (count_kpis s x ++ (backtest_kpis s x ++ (rate_kpis s x warn_max ++ state_kpis x)))
        ↔ (Qualified s x
            × Within x.quote_unavailable_rate (max_unavailable s x.route_type) warn_max)
  kpis_iff warn_max = (
    λ h.
        let (a, h₁) = All-split Passes _ _ h in
        let (b, h₂) = All-split Passes _ _ h₁ in
        let (c, d) = All-split Passes _ _ h₂ in
        let (days, snapshots, opps) = (counts_iff s x).0 a in
        let (rate, health, fees, balances, quotes) = (rates_iff s x warn_max).0 c in
        let (supported, graded, unpaused) = (states_iff s x).0 d in
        (
          record {
            days = days;
            snapshots = snapshots;
            opportunities = opps;
            backtests = (backtests_iff s x).0 b;
            health = health;
            fees = fees;
            balances = balances;
            quotes = quotes;
            supported = supported;
            graded = graded;
            unpaused = unpaused;
          },
          rate,
        ),
    λ (q, rate). All-append Passes _ _ ((counts_iff s x).1 (q.days, q.snapshots, q.opportunities)) (
        All-append Passes _ _ ((backtests_iff s x).1 q.backtests) (
          All-append Passes _ _
            ((rates_iff s x warn_max).1 (rate, q.health, q.fees, q.balances, q.quotes))
            ((states_iff s x).1 (q.supported, q.graded, q.unpaused)))),
  )

  -- For a qualified route, the minimum gate asks only for the rate of unavailable quotes.
  gate-Qualified :
      Qualified s x
      → minimum_gate_passed s x ≡ le x.quote_unavailable_rate (max_unavailable s x.route_type)
  unfolding minimum_gate_passed
  gate-Qualified q =
      rw
        (
          q.days,
          q.snapshots,
          q.opportunities,
          q.backtests,
          agree _ _ q.supported,
          not_red q.graded,
          q.unpaused,
        )
        (and_true _)
    where
      and_true : (b : Bool) → (b && true) ≡ b
      and_true true = refl
      and_true false = refl

      not_red :
          ((x.readiness_grade ≡ "green") ⊎ (x.readiness_grade ≡ "yellow"))
          → (x.readiness_grade == "red") ≡ false
      not_red (inl g) = rw g refl
      not_red (inr g) = rw g refl

  row_parts :
      (blockers actions : List String) {row : CommissioningRow}
      → commissioning_row s x blockers actions ≡ ok row
      → (warn_max : Decimal) × (row.gate
          ≡ promotion_gate_status x.route_type
              (critical_fails
                (count_kpis s x ++ (backtest_kpis s x ++ (rate_kpis s x warn_max ++ state_kpis x))))
              (minimum_gate_passed s x))
  unfolding commissioning_row evaluate_kpis
  row_parts blockers actions h =
      let (ks, e, k) = bind-ok (evaluate_kpis s x) _ h in
      let (w, _, m) = bind-ok (warn_quote_unavailable_max s x.route_type) _ e in
      (
        w,
        ap (λ r. r.gate) (sym (ok-cancel k))
            ∙ ap
                (λ l.
                  promotion_gate_status x.route_type (critical_fails l) (minimum_gate_passed s x))
                (sym (ok-cancel m)),
      )

status_ready :
    (t : RouteType) (names : List String) (passed : Bool)
    → ((promotion_gate_status t names passed ≡ review_ready)
        ↔ ((t ≡ live_intent) × (names ≡ []) × (passed ≡ true)))
      × ((promotion_gate_status t names passed ≡ observation_ready)
          ↔ ((t ≡ shadow) × (names ≡ []) × (passed ≡ true)))
unfolding promotion_gate_status
status_ready t (n ∷ ns) passed = (((λ h. cc), (λ h. cc)), ((λ h. cc), (λ h. cc)))
status_ready t [] false = (((λ h. cc), (λ h. cc)), ((λ h. cc), (λ h. cc)))
status_ready live_intent [] true =
    (((λ h. (refl, refl, refl)), (λ h. refl)), ((λ h. cc), (λ h. cc)))
status_ready shadow [] true = (((λ h. cc), (λ h. cc)), ((λ h. (refl, refl, refl)), (λ h. refl)))
status_ready other [] true = (((λ h. cc), (λ h. cc)), ((λ h. cc), (λ h. cc)))

-- A route is ready for review exactly where it is meant for live trading, qualified, and its rate of
-- unavailable quotes is at most the maximum; it is ready for observation exactly where it is a shadow
-- route of which the same holds with the shadow limits. So no shadow route is ever ready for review.
pub commissioning_row-ready :
    (s : Settings) (x : Stats) (blockers actions : List String) {row : CommissioningRow}
    → commissioning_row s x blockers actions ≡ ok row
    → ((row.gate ≡ review_ready) ↔ (
        (x.route_type ≡ live_intent)
        × Qualified s x
        × (le x.quote_unavailable_rate (max_unavailable s x.route_type) ≡ true)))
      × ((row.gate ≡ observation_ready) ↔ (
          (x.route_type ≡ shadow)
          × Qualified s x
          × (le x.quote_unavailable_rate (max_unavailable s x.route_type) ≡ true)))
commissioning_row-ready s x blockers actions {row} h =
    let (w, gate) = row_parts s x blockers actions h in
    let ks = count_kpis s x ++ (backtest_kpis s x ++ (rate_kpis s x w ++ state_kpis x)) in
    let ((to_review, from_review), (to_observe, from_observe)) =
      status_ready x.route_type (critical_fails ks) (minimum_gate_passed s x) in
    let pass =
      λ (names : critical_fails ks ≡ []). (kpis_iff s x w).0 ((critical_fails_iff ks).0 names) in
    let clear =
      λ (q : Qualified s x)
          (rate : le x.quote_unavailable_rate (max_unavailable s x.route_type) ≡ true).
        (critical_fails_iff ks).1 ((kpis_iff s x w).1 (q, inl rate)) in
    (
      (
        (λ g.
            let (t, names, passed) = to_review (sym gate ∙ g) in
            let (q, _) = pass names in (t, q, sym (gate-Qualified s x q) ∙ passed)),
        (λ (t, q, rate). gate ∙ from_review (t, clear q rate, gate-Qualified s x q ∙ rate)),
      ),
      (
        (λ g.
            let (t, names, passed) = to_observe (sym gate ∙ g) in
            let (q, _) = pass names in (t, q, sym (gate-Qualified s x q) ∙ passed)),
        (λ (t, q, rate). gate ∙ from_observe (t, clear q rate, gate-Qualified s x q ∙ rate)),
      ),
    )

status_not_ready :
    (t : RouteType) (names : List String) (passed : Bool)
    → promotion_gate_status t names passed ≡ not_ready
    → t ≢ other
    → (names ≡ []) × (passed ≡ false)
unfolding promotion_gate_status
status_not_ready t (n ∷ ns) passed h k = cc
status_not_ready t [] false h k = (refl, refl)
status_not_ready live_intent [] true h k = cc
status_not_ready shadow [] true h k = cc
status_not_ready other [] true h k = absurd (k refl)

-- A live or shadow route that is "not ready", and not blocked, is one whose only shortcoming is its
-- rate of unavailable quotes: it is qualified, and the rate is above the maximum. Every other unmet
-- minimum blocks the promotion instead.
pub commissioning_row-not_ready :
    (s : Settings) (x : Stats) (blockers actions : List String) {row : CommissioningRow}
    → commissioning_row s x blockers actions ≡ ok row
    → row.gate ≡ not_ready
    → x.route_type ≢ other
    → Qualified s x × (lt (max_unavailable s x.route_type) x.quote_unavailable_rate ≡ true)
commissioning_row-not_ready s x blockers actions h g k =
    let (w, gate) = row_parts s x blockers actions h in
    let ks = count_kpis s x ++ (backtest_kpis s x ++ (rate_kpis s x w ++ state_kpis x)) in
    let (names, passed) = status_not_ready x.route_type (critical_fails ks) _ (sym gate ∙ g) k in
    let (q, _) = (kpis_iff s x w).0 ((critical_fails_iff ks).0 names) in
    (q, lt-not-le _ _ ∙ rw (sym (gate-Qualified s x q) ∙ passed) refl)
