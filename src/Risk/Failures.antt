-- ===== src/Risk/Failures.antt =====
-- How long a failure keeps its route from trading, over every later run of operations.
use mathlib.Core.Path.{subst}
use arbitrage_bot.Base.{
  ◌+◌, Bool-cases, refl, sym, ◌≤◌, All, Bool, List, String, [], arith, contains, eq_iff, false, inl,
  inr, nat_eq, none, some, string_eq, true, ℕ, ◌==◌, ◌||◌, ◌∙◌, ◌∷◌, ◌≡◌,
}
use arbitrage_bot.Base.Int.{pos, ◌≤ℤ◌}
use arbitrage_bot.Risk.Stats.{
  stats-clear_route, stats-hydrate, stats-mark_failure, stats-mark_success, stats-trim_route,
}
use arbitrage_bot.Risk.{
  stats_of, Manager, clear_cooldown, fatal_failure_categories, hydrate_route_state, mark_failure,
  mark_success, pause_pair, pause_route, pause_strategy, pause_venue, put_stats,
  reset_daily_if_needed, resume_pair, resume_route, resume_strategy, resume_venue, set_global_kill,
}
use arbitrage_bot.Risk.Decision.{evaluate_permits}
use mathlib.Core.Bool.{true≢false}
use text.Mathlib.TextPositions.{eq_refl}
use arbitrage_bot.Base.Dict.{contains-set_add, contains-set_discard}
use arbitrage_bot.Base.Result.{ok}
use arbitrage_bot.Quote.{OpportunityDecision}
use arbitrage_bot.Risk.Evaluate.{evaluate, trim_route}
use arbitrage_bot.Risk.Guards.{Request}
use arbitrage_bot.Risk.Runs.{Op, apply, evaluate-state, run}

-- the operations that may take a route off the pause list
unfoldable pub releases : String → Op → Bool
releases k (Op.route false j) = j == k
releases k (Op.hydrate j false _ _ _ _ _ _ _) = j == k
releases k _ = false

-- the operations that may lower a route's count of consecutive failures
unfoldable pub forgives : String → Op → Bool
forgives k (Op.clear none) = true
forgives k (Op.clear (some j)) = j == "" || j == k
forgives k (Op.succeed j _) = j == k
forgives k (Op.hydrate j _ _ _ _ _ _ _ _) = j == k
forgives k _ = false

abbrev pub NoneOf : (Op → Bool) → List (ℕ × Op) → Type 0
NoneOf p = All (λ e. p e.1 ≡ false)

abbrev IsPaused : String → Manager → Type 0
IsPaused k m = contains k m.route_paused ≡ true

-- A paused route stays paused under every operation that does not release it.
apply-IsPaused :
    (k : String) (now : ℕ) (op : Op) (m : Manager)
    → releases k op ≡ false
    → IsPaused k m
    → IsPaused k (apply now op m)
unfolding apply releases
apply-IsPaused k now (Op.kill b) m f h = unfold set_global_kill in h
apply-IsPaused k now (Op.strategy true s) m f h = unfold pause_strategy in h
apply-IsPaused k now (Op.strategy false s) m f h = unfold resume_strategy in h
apply-IsPaused k now (Op.route true j) m f h =
    unfold pause_route in ground (arith, contains-set_add k j m.route_paused)
apply-IsPaused k now (Op.route false j) m f h =
    unfold resume_route in
    ground (arith, contains-set_discard k j m.route_paused, eq_iff k j, eq_iff j k)
apply-IsPaused k now (Op.pair true s) m f h = unfold pause_pair in h
apply-IsPaused k now (Op.pair false s) m f h = unfold resume_pair in h
apply-IsPaused k now (Op.venue true s) m f h = unfold pause_venue in h
apply-IsPaused k now (Op.venue false s) m f h = unfold resume_venue in h
apply-IsPaused k now (Op.clear none) m f h = unfold clear_cooldown in h
apply-IsPaused k now (Op.clear (some j)) m f h = unfold clear_cooldown put_stats in ground arith
apply-IsPaused k now (Op.fail j category reason) m f h =
    unfold mark_failure pause_route put_stats in ground (arith, contains-set_add k j m.route_paused)
apply-IsPaused k now (Op.succeed j pnl) m f h =
    unfold mark_success put_stats reset_daily_if_needed in ground arith
apply-IsPaused k now (Op.hydrate j true c a b d e g l) m f h =
    unfold hydrate_route_state pause_route put_stats in
    ground (arith, contains-set_add k j m.route_paused)
apply-IsPaused k now (Op.hydrate j false c a b d e g l) m f h =
    unfold hydrate_route_state resume_route put_stats in
    ground (arith, contains-set_discard k j m.route_paused, eq_iff k j, eq_iff j k)
apply-IsPaused k now (Op.judge r) m f h = elim (evaluate-state now r m) [
  | inl e ↦ rw e h
  | inr e ↦ rw e (unfold trim_route put_stats in h)
]

run-IsPaused :
    (k : String) (ops : List (ℕ × Op)) (m : Manager)
    → NoneOf (releases k) ops
    → IsPaused k m
    → IsPaused k (run ops m)
unfolding run
run-IsPaused k [] m f h = h
run-IsPaused k ((now, op) ∷ ops) m (f, fs) h =
    run-IsPaused k ops (apply now op m) fs (apply-IsPaused k now op m f h)

-- A failure of a fatal category pauses its route.
pub fatal-IsPaused :
    (now : ℕ) (k category reason : String) (m : Manager)
    → contains category fatal_failure_categories ≡ true
    → IsPaused k (mark_failure now k category reason m)
unfolding mark_failure pause_route put_stats
fatal-IsPaused now k category reason m fatal =
    rw fatal (contains-set_add k k m.route_paused ∙ rw (eq_refl k))

-- After a failure of a fatal category, no decision on the route is tradable, however much time
-- passes and whatever operations run, as long as none of them is `resume_route` of that route or a
-- hydration of it as not paused. Clearing its cooldown does not help.
pub fatal_failure_blocks :
    (now later : ℕ) (k category reason : String) (m : Manager) (ops : List (ℕ × Op)) (r : Request)
    {d : OpportunityDecision}
    → contains category fatal_failure_categories ≡ true
    → NoneOf (releases k) ops
    → r.quote.route_id ≡ k
    → (evaluate later r (run ops (mark_failure now k category reason m))).0 ≡ ok d
    → d.tradable ≡ false
fatal_failure_blocks now later k category reason m ops r {d} fatal quiet same h =
    elim (Bool-cases d.tradable) [
      | inl t ↦
          let permitted = (evaluate_permits later r _ h).0 t in
          let paused =
            run-IsPaused k ops (mark_failure now k category reason m) quiet
              (fatal-IsPaused now k category reason m fatal) in
          let listed =
            subst (λ x. IsPaused x (run ops (mark_failure now k category reason m))) (sym same)
              paused in
          absurd (true≢false (sym listed ∙ permitted.running.route_on))
      | inr f ↦ f
    ]

-- The count of consecutive failures never falls under an operation that does not forgive, and no
-- operation changes the settings.
abbrev Keeps : String → Manager → Manager → Type 0
Keeps k m m' =
    ((stats_of k m).consecutive_failures ≤ (stats_of k m').consecutive_failures)
    × (m'.settings ≡ m.settings)

Keeps-refl : (k : String) (m : Manager) → Keeps k m m
Keeps-refl k m = (omega arith, refl)

apply-Keeps :
    (k : String) (now : ℕ) (op : Op) (m : Manager)
    → forgives k op ≡ false
    → Keeps k m (apply now op m)
unfolding apply forgives
apply-Keeps k now (Op.kill b) m f = unfold set_global_kill stats_of in Keeps-refl k m
apply-Keeps k now (Op.strategy true s) m f = unfold pause_strategy stats_of in Keeps-refl k m
apply-Keeps k now (Op.strategy false s) m f = unfold resume_strategy stats_of in Keeps-refl k m
apply-Keeps k now (Op.route true j) m f = unfold pause_route stats_of in Keeps-refl k m
apply-Keeps k now (Op.route false j) m f = unfold resume_route stats_of in Keeps-refl k m
apply-Keeps k now (Op.pair true s) m f = unfold pause_pair stats_of in Keeps-refl k m
apply-Keeps k now (Op.pair false s) m f = unfold resume_pair stats_of in Keeps-refl k m
apply-Keeps k now (Op.venue true s) m f = unfold pause_venue stats_of in Keeps-refl k m
apply-Keeps k now (Op.venue false s) m f = unfold resume_venue stats_of in Keeps-refl k m
apply-Keeps k now (Op.clear none) m f = cc
apply-Keeps k now (Op.clear (some j)) m f = (
  ground (arith, stats-clear_route k j m, eq_iff j k, eq_iff k j),
  unfold clear_cooldown put_stats in ground arith,
)
apply-Keeps k now (Op.fail j category reason) m f = (
  ground (arith, stats-mark_failure now k j category reason m, eq_iff k j),
  unfold mark_failure pause_route put_stats in ground arith,
)
apply-Keeps k now (Op.succeed j pnl) m f = (
  ground (arith, stats-mark_success now k j pnl m, eq_iff j k, eq_iff k j),
  unfold mark_success put_stats reset_daily_if_needed in ground arith,
)
apply-Keeps k now (Op.hydrate j p c a b d e g l) m f = (
  ground (arith, stats-hydrate now k j p c a b d e g l m, eq_iff j k, eq_iff k j),
  unfold hydrate_route_state pause_route resume_route put_stats in ground arith,
)
apply-Keeps k now (Op.judge r) m f = elim (evaluate-state now r m) [
  | inl e ↦ rw e (Keeps-refl k m)
  | inr e ↦ rw e (
    ground (arith, stats-trim_route now k r.quote.route_id m, eq_iff k r.quote.route_id),
    unfold trim_route put_stats in refl,
  )
]

run-Keeps :
    (k : String) (ops : List (ℕ × Op)) (m : Manager)
    → NoneOf (forgives k) ops
    → Keeps k m (run ops m)
unfolding run
run-Keeps k [] m f = Keeps-refl k m
run-Keeps k ((now, op) ∷ ops) m (f, fs) =
    let (a, b) = apply-Keeps k now op m f in
    let (c, d) = run-Keeps k ops (apply now op m) fs in (omega arith, d ∙ b)

-- Where the settings allow fewer than n consecutive failures, a route with n failures is not
-- tradable.
failures_block :
    (now : ℕ) (m : Manager) (r : Request) {d : OpportunityDecision}
    → m.settings.live_max_consecutive_failures_per_route
      ≤ℤ pos (stats_of r.quote.route_id m).consecutive_failures
    → (evaluate now r m).0 ≡ ok d
    → d.tradable ≡ false
failures_block now m r {d} many h = elim (Bool-cases d.tradable) [
  | inl t ↦
      let permitted = (evaluate_permits now r m h).0 t in
      absurd (omega (arith, permitted.rested.failures, many))
  | inr f ↦ f
]

settings-mark_failure :
    (now : ℕ) (k category reason : String) (m : Manager)
    → (mark_failure now k category reason m).settings ≡ m.settings
unfolding mark_failure pause_route put_stats
settings-mark_failure now k category reason m = ground arith

failures-mark_failure :
    (now : ℕ) (k category reason : String) (m : Manager)
    → (stats_of k (mark_failure now k category reason m)).consecutive_failures
      ≡ (stats_of k m).consecutive_failures + 1
failures-mark_failure now k category reason m =
    ground (arith, stats-mark_failure now k k category reason m, eq_refl k)

-- After one failure of any category, with the default limit of one failure (or a lower one), no
-- decision on the route is tradable until an operation forgives it: clearing its cooldown, a success
-- on it or its hydration. That the cooldown runs out is not enough.
pub failure_outlasts_cooldown :
    (now later : ℕ) (k category reason : String) (m : Manager) (ops : List (ℕ × Op)) (r : Request)
    {d : OpportunityDecision}
    → m.settings.live_max_consecutive_failures_per_route ≤ℤ pos 1
    → NoneOf (forgives k) ops
    → r.quote.route_id ≡ k
    → (evaluate later r (run ops (mark_failure now k category reason m))).0 ≡ ok d
    → d.tradable ≡ false
failure_outlasts_cooldown now later k category reason m ops r limit quiet same h =
    let failed = mark_failure now k category reason m in
    let (count, settings) = run-Keeps k ops failed quiet in
    let unchanged = settings ∙ settings-mark_failure now k category reason m in
    let one = failures-mark_failure now k category reason m in
    failures_block later (run ops failed) r (simp (unchanged, same) (omega arith)) h
