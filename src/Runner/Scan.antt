-- ===== src/Runner/Scan.antt =====
-- What a scan of a route leaves behind.
use arbitrage_bot.Runner.{
  settle_attempt, attempt, category_of, dry_run_outcome, is_failed, scan_route, settle,
  settle_blocked, settle_outcome, Outcome,
}
use arbitrage_bot.Base.{
  Bool-cases, Bool, List, Option, String, ap, arith, contains, differ, false, inl, inr, nat_eq,
  refl, some, string_eq, true, ℕ, ◌==◌, ◌∙◌, ◌≡◌, ◌≢◌, ◌⊎◌,
}
use arbitrage_bot.Base.Result.{ok}
use arbitrage_bot.Execution.{dry_run_live}
use arbitrage_bot.Quote.{OpportunityDecision, RouteQuote}
use arbitrage_bot.Risk.{Manager, fatal_failure_categories, mark_failure, stats_of}
use arbitrage_bot.Risk.Decision.{evaluate_total}
use arbitrage_bot.Risk.Evaluate.{evaluate}
use arbitrage_bot.Risk.Guards.{Request}
use arbitrage_bot.Settings.{RunMode, live, paper, stopped}
use Prim.Native.String.{◌++◌ as ◌<>◌}
use arbitrage_bot.Risk.Failures.{NoneOf, fatal_failure_blocks, releases}
use arbitrage_bot.Risk.Stats.{stats-mark_failure, stats-mark_success, stats-trim_route}
use arbitrage_bot.Risk.Runs.{Op, evaluate-state, run}

-- a decision blocked for a fatal reason, or a live attempt whose dry run finds the wrong chain
unfoldable pub Fails : RunMode → Option Bool → OpportunityDecision → Type 0
Fails mode chain d =
    ((d.tradable ≡ false) × (contains d.blocked_reason fatal_failure_categories ≡ true))
    ⊎ ((d.tradable ≡ true) × (mode ≡ live) × (chain ≡ some false))

-- Such a route is marked with a failure of a fatal category.
settle-Fails :
    (now : ℕ) (mode : RunMode) (q : RouteQuote) (chain : Option Bool) (d : OpportunityDecision)
    (m : Manager)
    → Fails mode chain d
    → (category : String) × (reason : String) × (contains category fatal_failure_categories ≡ true)
      × (settle now mode q chain d m ≡ mark_failure now q.route_id category reason m)
unfolding Fails settle settle_blocked contains
settle-Fails now mode q chain d m (inl (b, f)) =
    (d.blocked_reason, "opportunity blocked: " <> d.blocked_reason, f, rw (b, f) refl)
settle-Fails now mode q chain d m (inr (t, l, c)) = (
  "chain_id_mismatch",
  "tx_status=dry_run_blocked",
  refl,
  rw (t, l, c)
      (unfold settle_attempt settle_outcome attempt is_failed category_of dry_run_outcome
          dry_run_live contains in
        refl),
)

-- After a scan that blocks a route for a fatal reason, or whose dry run finds the wrong chain, no later
-- decision on the route is tradable, over every run of operations none of which resumes the route or
-- hydrates it as not paused.
pub scan_failure_blocks :
    (now later : ℕ) (r : Request) (chain : Option Bool) (d : OpportunityDecision) (m : Manager)
    (ops : List (ℕ × Op)) (next : Request) {verdict : OpportunityDecision}
    → Fails r.mode chain d
    → NoneOf (releases r.quote.route_id) ops
    → next.quote.route_id ≡ r.quote.route_id
    → (evaluate later next (run ops (settle now r.mode r.quote chain d m))).0 ≡ ok verdict
    → verdict.tradable ≡ false
scan_failure_blocks now later r chain d m ops next fails quiet same h =
    let (category, reason, fatal, e) = settle-Fails now r.mode r.quote chain d m fails in
    fatal_failure_blocks now later r.quote.route_id category reason m ops next fatal quiet same
      (rw e at h)

module _ (now : ℕ) (j k : String) (m : Manager) (n : (k == j) ≡ false) where
  outcome-stats : (o : Outcome) → stats_of k (settle_outcome now j o m) ≡ stats_of k m
  unfolding settle_outcome
  outcome-stats o = elim (Bool-cases (is_failed o)) [
    | inl b ↦
        rw b
          (stats-mark_failure now k j (category_of o) ("tx_status=" <> o.tx_status) m ∙ rw n refl)
    | inr b ↦ rw b (stats-mark_success now k j o.realized m ∙ rw n refl)
  ]

  blocked-stats : (reason : String) → stats_of k (settle_blocked now j reason m) ≡ stats_of k m
  unfolding settle_blocked
  blocked-stats reason = elim (Bool-cases (contains reason fatal_failure_categories)) [
    | inl b ↦
        rw b (stats-mark_failure now k j reason ("opportunity blocked: " <> reason) m ∙ rw n refl)
    | inr b ↦ rw b refl
  ]

attempt-stats :
    (now : ℕ) (mode : RunMode) (q : RouteQuote) (chain : Option Bool) (m : Manager) (k : String)
    → (k == q.route_id) ≡ false
    → stats_of k (settle_attempt now mode q chain m) ≡ stats_of k m
unfolding settle_attempt
attempt-stats now stopped q chain m k n = refl
attempt-stats now paper q chain m k n = outcome-stats now q.route_id k m n (attempt paper q chain)
attempt-stats now live q chain m k n = outcome-stats now q.route_id k m n (attempt live q chain)

settle-stats :
    (now : ℕ) (mode : RunMode) (q : RouteQuote) (chain : Option Bool) (d : OpportunityDecision)
    (m : Manager) (k : String)
    → (k == q.route_id) ≡ false
    → stats_of k (settle now mode q chain d m) ≡ stats_of k m
unfolding settle
settle-stats now mode q chain d m k n = elim (Bool-cases d.tradable) [
  | inl t ↦ rw t (attempt-stats now mode q chain m k n)
  | inr t ↦ rw t (blocked-stats now q.route_id k m n d.blocked_reason)
]

-- A scan of a route always returns, and the statistics of every other route are as before.
pub scan_route_isolated :
    (now settled : ℕ) (r : Request) (chain : Option Bool) (m : Manager) (k : String)
    → k ≢ r.quote.route_id
    → (after : Manager) × (scan_route now settled r chain m ≡ ok after)
      × (stats_of k after ≡ stats_of k m)
unfolding scan_route
scan_route_isolated now settled r chain m k n =
    let (d, h) = evaluate_total now r m in
    let judged = (evaluate now r m).1 in
    let differs = differ k r.quote.route_id n in
    let kept : stats_of k judged ≡ stats_of k m = elim (evaluate-state now r m) [
      | inl e ↦ ap (stats_of k) e
      | inr e ↦ ap (stats_of k) e ∙ ground (arith, stats-trim_route now k r.quote.route_id m)
    ] in
    (
      settle settled r.mode r.quote chain d judged,
      rw h refl,
      settle-stats settled r.mode r.quote chain d judged k differs ∙ kept,
    )
