-- ===== src/Risk/Decision.antt =====
-- `evaluate` as a whole: it never raises, and it permits exactly what passes every guard.
use arbitrage_bot.Base.Result.{ok-cancel, ok}
use arbitrage_bot.Risk.Evaluate.{
  run_guards, decide, trim_route, dynamic_guards, evaluate, evaluate_route, static_guards,
}
use arbitrage_bot.Risk.Order.{
  FailsFirst-left, FailsFirst-not, FailsFirst-right, run_guards-none, run_guards-some,
  All-Passes-append, FailsFirst, Passes, run_guards-Safe,
}
use arbitrage_bot.Risk.Permit.{
  Permitted, Calm, Healthy, Rested, Running, Sized, Trusted, Worthwhile,
}
use arbitrage_bot.Base.{
  All, All-append, false, sym, true, ◌++◌, ◌↔◌, ◌⊎◌, Option, [], none, some, Bool, String, inl, inr,
  refl, ℕ, ◌≡◌,
}
use arbitrage_bot.Risk.{put_stats, Manager}
use arbitrage_bot.Risk.Permit.Match.{
  confidence_iff, health_iff, market_iff, mode_iff, pause_iff, route_iff, size_iff,
}
use mathlib.Core.Path.{subst}
use arbitrage_bot.Base.Dict.{Dict}
use arbitrage_bot.Risk.Guards.{Request, live_guards, mode_guards, shadow_guards}
use arbitrage_bot.Quote.{OpportunityDecision}
use arbitrage_bot.Risk.Safety.{static-Safe, dynamic-Safe}

-- `evaluate` never raises: at every instant, on every request and in every state it returns a
-- decision.
pub evaluate_total :
    (now : ℕ) (r : Request) (m : Manager)
    → (d : OpportunityDecision) × ((evaluate now r m).0 ≡ ok d)
unfolding evaluate evaluate_route
evaluate_total now r m =
    let (out, e) = run_guards-Safe [] (static_guards m r) (static-Safe m r) in
    rw (e, evaluate) (finish out)
  where
    finish :
        (out : Option String × Dict Bool)
        → (d : OpportunityDecision) × ((evaluate_route now r m out).0 ≡ ok d)
    finish (some reason, checks) = (_, refl)
    finish (none, checks) =
        let trimmed = trim_route now r.quote.route_id m in
        let (after, e) =
          run_guards-Safe checks (dynamic_guards now trimmed r) (dynamic-Safe now trimmed r) in
        (decide after, rw e)

module _ (now : ℕ) (r : Request) (m : Manager) where
  trimmed : Manager
  trimmed = trim_route now r.quote.route_id m

  static_iff :
      All Passes (static_guards m r)
      ↔ (Running m r × Healthy m r × Trusted m r × Calm m r × Sized m r)
  unfolding static_guards
  static_iff = (
    λ a.
        let (p, a₁) = All-Passes-append _ _ a in
        let (h, a₂) = All-Passes-append _ _ a₁ in
        let (c, a₃) = All-Passes-append _ _ a₂ in
        let (k, s) = All-Passes-append _ _ a₃ in
        (
          (pause_iff m r).0 p,
          (health_iff m r).0 h,
          (confidence_iff m r).0 c,
          (market_iff m r).0 k,
          (size_iff m r).0 s,
        ),
    λ (p, h, c, k, s). All-append _ _ _ ((pause_iff m r).1 p) (
        All-append _ _ _ ((health_iff m r).1 h) (
          All-append _ _ _ ((confidence_iff m r).1 c)
            (All-append _ _ _ ((market_iff m r).1 k) ((size_iff m r).1 s)))),
  )

  evaluate-route :
      {out : Option String × Dict Bool}
      → run_guards [] (static_guards m r) ≡ ok out
      → evaluate now r m ≡ evaluate_route now r m out
  unfolding evaluate
  evaluate-route e = rw (e, evaluate)

  mode-trimmed : mode_guards trimmed r ≡ mode_guards m r
  unfolding trimmed trim_route put_stats mode_guards live_guards shadow_guards
  mode-trimmed = refl

  dynamic_iff : All Passes (dynamic_guards now trimmed r) ↔ (Rested now m r × Worthwhile m r)
  unfolding dynamic_guards trimmed
  dynamic_iff = (
    λ a.
        let (p, q) = All-Passes-append _ _ a in
        ((route_iff now m r).0 p, (mode_iff m r).0 (subst (All Passes) mode-trimmed q)),
    λ (p, q).
        All-append _ _ _ ((route_iff now m r).1 p)
          (subst (All Passes) (sym mode-trimmed) ((mode_iff m r).1 q)),
  )

  -- What a permitted decision has passed, and what a blocked one has failed first.
  Judged : OpportunityDecision → Type 0
  Judged d =
      ((d.tradable ≡ true)
        × All Passes (static_guards m r)
        × All Passes (dynamic_guards now trimmed r))
      ⊎ ((d.tradable ≡ false)
          × FailsFirst d.blocked_reason (static_guards m r ++ dynamic_guards now trimmed r))

  judge_dynamic :
      (checks : Dict Bool) (after : Option String × Dict Bool)
      → All Passes (static_guards m r)
      → run_guards checks (dynamic_guards now trimmed r) ≡ ok after
      → Judged (decide after)
  unfolding Judged
  judge_dynamic checks (none, after) a e = inl (refl, a, run_guards-none checks _ e)
  judge_dynamic checks (some reason, after) a e =
      inr (refl, FailsFirst-right reason _ _ a (run_guards-some checks _ e))

  judge_route :
      (out : Option String × Dict Bool) (d : OpportunityDecision)
      → run_guards [] (static_guards m r) ≡ ok out
      → (evaluate_route now r m out).0 ≡ ok d
      → Judged d
  unfolding evaluate_route trimmed
  judge_route (some reason, checks) d e h =
      subst Judged (ok-cancel h)
        (unfold Judged in (inr (refl, FailsFirst-left reason _ _ (run_guards-some [] _ e))))
  judge_route (none, checks) d e h =
      let (after, p) =
        run_guards-Safe checks (dynamic_guards now trimmed r) (dynamic-Safe now trimmed r) in
      subst Judged (ok-cancel (rw p at h)) (judge_dynamic checks after (run_guards-none [] _ e) p)

  judge : {d : OpportunityDecision} → (evaluate now r m).0 ≡ ok d → Judged d
  judge {d} h =
      let (out, e) = run_guards-Safe [] (static_guards m r) (static-Safe m r) in
      judge_route out d e (rw (← evaluate-route e) h)

-- A decision is tradable exactly where the state and the request are permitted: no switch or pause
-- applies, health and confidence are as the mode requires, the market is calm, the amount fits, the
-- route is rested and the edge is worthwhile.
pub evaluate_permits :
    (now : ℕ) (r : Request) (m : Manager) {d : OpportunityDecision}
    → (evaluate now r m).0 ≡ ok d
    → (d.tradable ≡ true) ↔ Permitted now m r
unfolding Judged
evaluate_permits now r m {d} h = elim (judge now r m h) [
  | inl (t, a, b) ↦
      let (running, healthy, trusted, calm, sized) = (static_iff now r m).0 a in
      let (rested, worthwhile) = (dynamic_iff now r m).0 b in
      (
        (λ _. record {
          running = running;
          healthy = healthy;
          trusted = trusted;
          calm = calm;
          sized = sized;
          rested = rested;
          worthwhile = worthwhile;
        }),
        (λ _. t),
      )
  | inr (t, f) ↦ (
    (λ y. cc),
    (λ p. absurd (
        FailsFirst-not d.blocked_reason _
          (All-append _ _ _
            ((static_iff now r m).1 (p.running, p.healthy, p.trusted, p.calm, p.sized))
            ((dynamic_iff now r m).1 (p.rested, p.worthwhile)))
          f)),
  )
]

-- A blocked decision names the first guard of the run that fails: that guard's
-- test is false, its reason is the decision's, and every guard before it passes.
pub evaluate-FailsFirst :
    (now : ℕ) (r : Request) (m : Manager) {d : OpportunityDecision}
    → (evaluate now r m).0 ≡ ok d
    → d.tradable ≡ false
    → FailsFirst d.blocked_reason
        (static_guards m r ++ dynamic_guards now (trim_route now r.quote.route_id m) r)
unfolding Judged trimmed
evaluate-FailsFirst now r m h f = elim (judge now r m h) [
  | inl (t, a, b) ↦ cc
  | inr (t, first) ↦ first
]
