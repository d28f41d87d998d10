-- ===== src/App/Lockout.antt =====
-- The two locks of a route that outlast restarts: its losses and a fatal failure.
use arbitrage_bot.App.Fixed.{settings-scan, conclude-manager}
use arbitrage_bot.Base.{
  if◌then◌else◌, ◌&&◌, agree, arith, contains, false, nat_eq, not, string_eq, sym, ◌==◌, Bool,
  Bool-cases, Option, String, inl, inr, refl, true, ℕ, ◌∙◌, ◌≡◌,
}
use arbitrage_bot.Risk.{fatal_failure_categories, Manager, stats_of}
use arbitrage_bot.Risk.Failures.{fatal-IsPaused}
use arbitrage_bot.Runner.{
  category_of, settle_attempt, settle_blocked, settle_outcome, attempt, is_failed, settle, Outcome,
}
use arbitrage_bot.Settings.{paper, stopped, RunMode, live}
use arbitrage_bot.App.Control.{Command, enable_route}
use arbitrage_bot.App.Locked.{Locked-Steps}
use arbitrage_bot.App.Steps.{Steps}
use arbitrage_bot.Base.Int.{pos, ◌≤ℤ◌}
use arbitrage_bot.Risk.Decision.{evaluate_permits}
use mathlib.Core.Bool.{true≢false}
use Prim.Native.String.{◌++◌ as ◌<>◌}
use mathlib.Core.Path.{subst}
use arbitrage_bot.App.{App, Env, persist_route_state, runtime_row}
use arbitrage_bot.App.Held.{send-database}
use arbitrage_bot.App.Lock.{Holds, IsLocked}
use arbitrage_bot.App.Scan.{conclude, is_kept, report_attempt, scan_one}
use arbitrage_bot.App.Unique.{HoldsFor-written, found-upsert, is_unique}
use arbitrage_bot.Base.Result.{ok}
use arbitrage_bot.Quote.{OpportunityDecision, RouteQuote}
use arbitrage_bot.Repository.{upsert, upsert_route_runtime_state}
use arbitrage_bot.Risk.Evaluate.{evaluate}
use arbitrage_bot.Risk.Guards.{Request}
use arbitrage_bot.Risk.State.{get_route_state}

-- the command that takes the route off the pause list
abbrev pub enables : String → Command → Bool
enables k (enable_route j) = j == k
enables k c = false

rows-report :
    (env : Env) (name : String) (mode : RunMode) (q : RouteQuote) (chain : Option Bool) (a : App)
    → (report_attempt env name mode q chain a).database.runtime_states ≡ a.database.runtime_states
unfolding report_attempt
rows-report env name mode q chain a = elim (Bool-cases (is_failed (attempt mode q chain))) [
  | inl f ↦ rw f (send-database env _ _ _ a).0
  | inr f ↦ rw f (send-database env _ _ _ a).0
]

-- what an attempt that the scan loop keeps leaves in the table
rows-conclude :
    (env : Env) (name : String) (mode : RunMode) (q : RouteQuote) (chain : Option Bool)
    (d : OpportunityDecision) (a : App)
    → is_kept mode d ≡ true
    → (conclude env name mode q chain d a).database.runtime_states
      ≡ upsert
          (runtime_row env.now q.route_id (settle env.now mode q chain d a.manager))
          a.database.runtime_states
unfolding conclude
rows-conclude env name mode q chain d a kept = elim (Bool-cases d.tradable) [
  | inl t ↦
      simp (kept, t)
        (rows-report env name mode q chain _
          ∙ unfold persist_route_state upsert_route_runtime_state in refl)
  | inr t ↦ simp (kept, t) (unfold persist_route_state upsert_route_runtime_state in refl)
]

module _ (P : Bool → ℕ → Type 0) where
  Locked-conclude :
      (env : Env) (name : String) (mode : RunMode) (q : RouteQuote) (chain : Option Bool)
      (d : OpportunityDecision) (a : App)
      → is_unique a.database.runtime_states ≡ true
      → is_kept mode d ≡ true
      → Holds P q.route_id (conclude env name mode q chain d a).manager
      → IsLocked P q.route_id (conclude env name mode q chain d a)
  Locked-conclude env name mode q chain d a unique kept h =
      let row = runtime_row env.now q.route_id (settle env.now mode q chain d a.manager) in
      let rows = rows-conclude env name mode q chain d a kept in
      let settled = rw (conclude-manager env name mode q chain d a) at h in
      record {
        live = h;
        stored = rw rows (
            unfold runtime_row get_route_state in
            HoldsFor-written P row a.database.runtime_states unique settled);
        found = rw rows (unfold runtime_row in found-upsert row a.database.runtime_states);
      }

  -- the route of an attempt that the scan loop keeps
  pub Locked-scanned :
      (now : ℕ) (env : Env) (name : String) (r : Request) (chain : Option Bool) (a : App)
      {d : OpportunityDecision}
      → is_unique a.database.runtime_states ≡ true
      → (evaluate now r a.manager).0 ≡ ok d
      → is_kept r.mode d ≡ true
      → Holds P r.quote.route_id (scan_one now env name r chain a).manager
      → IsLocked P r.quote.route_id (scan_one now env name r chain a)
  unfolding scan_one
  Locked-scanned now env name r chain a {d} unique e kept h =
      let b : App = record a { manager = (evaluate now r a.manager).1 } in
      rw (e, scan_one)
        (Locked-conclude env name r.mode r.quote chain d b unique kept (rw (e, scan_one) at h))

losses_block :
    (now : ℕ) (r : Request) (m : Manager) {d : OpportunityDecision}
    → m.settings.live_max_consecutive_losses_per_route
      ≤ℤ pos (stats_of r.quote.route_id m).consecutive_losses
    → (evaluate now r m).0 ≡ ok d
    → d.tradable ≡ false
losses_block now r m {d} many h = elim (Bool-cases d.tradable) [
  | inl t ↦ absurd (omega (arith, ((evaluate_permits now r m h).0 t).rested.losses, many))
  | inr f ↦ f
]

pause_blocks :
    (now : ℕ) (r : Request) (m : Manager) {d : OpportunityDecision}
    → contains r.quote.route_id m.route_paused ≡ true
    → (evaluate now r m).0 ≡ ok d
    → d.tradable ≡ false
pause_blocks now r m {d} paused h = elim (Bool-cases d.tradable) [
  | inl t ↦ absurd (true≢false (sym paused ∙ ((evaluate_permits now r m h).0 t).running.route_on))
  | inr f ↦ f
]

-- When an attempt of the scan loop on a route leaves it with as many consecutive losses as the
-- settings allow, then no decision on the route is tradable ever after, whatever rounds, restarts
-- and requests of the API follow, those that enable the route or clear its cooldown included. The
-- table of the routes' states has one row for each route.
pub losses_lock :
    (now : ℕ) (env : Env) (name : String) (r : Request) (chain : Option Bool) (a z : App)
    (later : ℕ) (r' : Request) {d d' : OpportunityDecision}
    → is_unique a.database.runtime_states ≡ true
    → (evaluate now r a.manager).0 ≡ ok d
    → is_kept r.mode d ≡ true
    → a.manager.settings.live_max_consecutive_losses_per_route
      ≤ℤ pos
          (stats_of r.quote.route_id (scan_one now env name r chain a).manager).consecutive_losses
    → Steps (λ c. true) (scan_one now env name r chain a) z
    → r'.quote.route_id ≡ r.quote.route_id
    → (evaluate later r' z.manager).0 ≡ ok d'
    → d'.tradable ≡ false
losses_lock now env name r chain a z later r' unique e kept many steps same decided =
    let limit = a.manager.settings.live_max_consecutive_losses_per_route in
    let b = scan_one now env name r chain a in
    Locked-Steps (λ p l. limit ≤ℤ pos l) r.quote.route_id (λ p l h. h) a.manager.settings
      (λ t q m d'' fixed j h. losses_block t q m (
        subst
          (λ x.
            m.settings.live_max_consecutive_losses_per_route
            ≤ℤ pos (stats_of x m).consecutive_losses)
          (sym j)
          (subst
            (λ x.
              x.live_max_consecutive_losses_per_route
              ≤ℤ pos (stats_of r.quote.route_id m).consecutive_losses)
            (sym fixed) h)))
      (λ c. true) (λ p l c h. h) b z later r' (settings-scan now env name r chain a)
      (Locked-scanned (λ p l. limit ≤ℤ pos l) now env name r chain a unique e kept many) steps same
      decided

-- whether the attempt fails, or the decision blocks, with a fatal category
abbrev pub is_fatal : RunMode → RouteQuote → Option Bool → OpportunityDecision → Bool
is_fatal mode q chain d =
    let o = attempt mode q chain in
    if d.tradable
    then is_failed o && contains (category_of o) fatal_failure_categories
    else contains d.blocked_reason fatal_failure_categories

-- a kept fatal event pauses its route
paused-settle :
    (now : ℕ) (mode : RunMode) (q : RouteQuote) (chain : Option Bool) (d : OpportunityDecision)
    (m : Manager)
    → is_kept mode d ≡ true
    → is_fatal mode q chain d ≡ true
    → contains q.route_id (settle now mode q chain d m).route_paused ≡ true
unfolding settle settle_blocked is_kept
paused-settle now mode q chain d m kept fatal = elim (Bool-cases d.tradable) [
  | inl t ↦ rw t (attempted mode (rw t at kept) (rw t at fatal))
  | inr f ↦
      rw (f, rw f at fatal)
        (fatal-IsPaused now q.route_id d.blocked_reason
          ("opportunity blocked: " <> d.blocked_reason) m (rw f at fatal))
]
  where
    failed :
        (o : Outcome)
        → is_failed o && contains (category_of o) fatal_failure_categories ≡ true
        → contains q.route_id (settle_outcome now q.route_id o m).route_paused ≡ true
    failed o h =
        let fails : is_failed o ≡ true = ground (arith, h) in
        unfold settle_outcome in
        rw fails (
          fatal-IsPaused now q.route_id (category_of o) ("tx_status=" <> o.tx_status) m
            (ground (arith, h)))

    attempted :
        (mode : RunMode)
        → elim mode [ stopped ↦ false | paper ↦ true | live ↦ true ] ≡ true
        → is_failed (attempt mode q chain)
            && contains (category_of (attempt mode q chain)) fatal_failure_categories
          ≡ true
        → contains q.route_id (settle_attempt now mode q chain m).route_paused ≡ true
    attempted stopped k h = absurd (true≢false (sym k))
    attempted paper k h = unfold settle_attempt in failed (attempt paper q chain) h
    attempted live k h = unfold settle_attempt in failed (attempt live q chain) h

-- When an attempt of the scan loop fails with a fatal category, or a decision blocks with one, then
-- no decision on the route is tradable, whatever rounds, restarts and requests of the API follow, as
-- long as none of the requests is `enable_route` of that route. The table of the routes' states has
-- one row for each route.
pub fatal_lock :
    (now : ℕ) (env : Env) (name : String) (r : Request) (chain : Option Bool) (a z : App)
    (later : ℕ) (r' : Request) {d d' : OpportunityDecision}
    → is_unique a.database.runtime_states ≡ true
    → (evaluate now r a.manager).0 ≡ ok d
    → is_kept r.mode d ≡ true
    → is_fatal r.mode r.quote chain d ≡ true
    → Steps (λ c. not (enables r.quote.route_id c)) (scan_one now env name r chain a) z
    → r'.quote.route_id ≡ r.quote.route_id
    → (evaluate later r' z.manager).0 ≡ ok d'
    → d'.tradable ≡ false
fatal_lock now env name r chain a z later r' {d} unique e kept fatal steps same decided =
    let k = r.quote.route_id in
    let c : App = record a { manager = (evaluate now r a.manager).1 } in
    let b = scan_one now env name r chain a in
    Locked-Steps (λ p l. p ≡ true) k (λ p l h. refl) a.manager.settings
      (λ t q m d'' fixed j h.
        pause_blocks t q m (subst (λ x. contains x m.route_paused ≡ true) (sym j) h))
      (λ c. not (enables k c)) (λ p l c h. absurd (true≢false (sym c ∙ rw (agree k k refl) refl))) b
      z later r' (settings-scan now env name r chain a)
      (Locked-scanned (λ p l. p ≡ true) now env name r chain a unique e kept
        (unfold scan_one in
          rw (e, scan_one, conclude-manager env name r.mode r.quote chain d c)
            (paused-settle env.now r.mode r.quote chain d c.manager kept fatal)))
      steps same decided
