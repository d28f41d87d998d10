-- ===== src/App/Locked.antt =====
-- Every step of the program keeps a lock: rounds of the scan loop and restarts too.
use arbitrage_bot.App.Lock.{HoldsFor, Holds, IsLocked, Holds-hydrate_all}
use arbitrage_bot.App.Unique.{HoldsFor-snoc, ensure-invariant}
use arbitrage_bot.Repository.{
  ensure_route_runtime_states, get_runtime_control, write_kill_switch_event,
}
use arbitrage_bot.App.Fixed.{settings-Step}
use arbitrage_bot.Settings.{Settings, RunMode, live, paper, stopped}
use arbitrage_bot.Base.{
  if◌then◌else◌, none, some, Bool, Bool-cases, Option, String, contains, eq_iff, false, inl, inr,
  nat_eq, refl, string_eq, sym, true, ℕ, ◌==◌, ◌∙◌, ◌≡◌,
}
use arbitrage_bot.App.{restart, send, App, Env}
use arbitrage_bot.App.Control.{run_mode, on_manager, Command, enable_route}
use arbitrage_bot.App.Handlers.{Locked-handle}
use arbitrage_bot.App.Held.{
  states-control, Locked-changed, Locked-persist, send-database, send-manager, states-set_pause,
}
use arbitrage_bot.App.Ops.{Holds-judge, Holds-failure, Holds-kill, Holds-success}
use arbitrage_bot.App.Scan.{
  check_drawdown, enter_round, abort_round, begin_round, conclude, is_kept, report_attempt,
  scan_one, stop_for_drawdown,
}
use arbitrage_bot.Base.Result.{Result, err, ok}
use arbitrage_bot.Risk.{
  set_global_kill, should_stop_for_daily_dd, fatal_failure_categories, Manager,
}
use arbitrage_bot.Risk.Decision.{evaluate_total}
use mathlib.Core.Path.{subst}
use arbitrage_bot.Decimal.{Decimal}
use arbitrage_bot.Quote.{OpportunityDecision, RouteQuote}
use arbitrage_bot.Risk.Evaluate.{evaluate}
use arbitrage_bot.Risk.Guards.{Request}
use arbitrage_bot.Runner.{
  attempt, category_of, is_failed, settle, settle_attempt, settle_blocked, settle_outcome, Outcome,
}
use arbitrage_bot.App.Steps.{Step, Steps, Steps-invariant}
use mathlib.Core.Bool.{true≢false}
use Prim.Native.String.{◌++◌ as ◌<>◌}

module _ (P : Bool → ℕ → Type 0) (k : String) (raise : (p : Bool) (l : ℕ) → P p l → P true l)
    (s : Settings)
    (blocks : (now : ℕ) (r : Request) (m : Manager) (d : OpportunityDecision)
      → m.settings ≡ s
      → r.quote.route_id ≡ k
      → Holds P k m
      → (evaluate now r m).0 ≡ ok d
      → d.tradable ≡ false) where
  Locked-send :
      (env : Env) (level category message : String) (a : App)
      → IsLocked P k a
      → IsLocked P k (send env level category message a)
  Locked-send env level category message a h =
      Locked-changed P k a (send env level category message a)
        (send-database env level category message a).0
        (λ p. rw (send-manager env level category message a) p) h

  Locked-abort :
      (env : Env) (exc : String) (a : App) → IsLocked P k a → IsLocked P k (abort_round env exc a)
  unfolding abort_round
  Locked-abort env exc a h =
      Locked-send env _ _ _ _ (Locked-changed P k a (record a { scanning = false }) refl (λ p. p) h)

  Locked-drawdown : (env : Env) (a : App) → IsLocked P k a → IsLocked P k (stop_for_drawdown env a)
  unfolding stop_for_drawdown write_kill_switch_event
  Locked-drawdown env a h =
      Locked-changed P k a (stop_for_drawdown env a)
        ((send-database env _ _ _ _).0 ∙ states-set_pause env.now true a.database)
        (λ p. rw (send-manager env _ _ _ _) (Holds-kill P k true a.manager p)) h

  Locked-check :
      (env : Env) (stop : Result Bool) (a : App)
      → IsLocked P k a
      → IsLocked P k (check_drawdown env stop a)
  unfolding check_drawdown
  Locked-check env (err e) a h = Locked-abort env "decimal" a h
  Locked-check env (ok true) a h = Locked-drawdown env a h
  Locked-check env (ok false) a h = h

  Locked-enter :
      (env : Env) (wallet : Decimal) (b : Bool) (mode : Option RunMode) (a : App)
      → IsLocked P k a
      → IsLocked P k (enter_round env wallet b mode a)
  unfolding enter_round
  Locked-enter env wallet b none a h = Locked-abort env "invalid mode" a h
  Locked-enter env wallet b (some mode) a h =
      let set = on_manager (set_global_kill b) a in
      Locked-check env (should_stop_for_daily_dd wallet set.manager) set
        (Locked-changed P k a set refl (Holds-kill P k b a.manager) h)

  Locked-begin :
      (env : Env) (wallet : Decimal) (a : App)
      → IsLocked P k a
      → IsLocked P k (begin_round env wallet a)
  unfolding begin_round
  Locked-begin env wallet a h =
      let (ctrl, db) = get_runtime_control env.now a.database in
      let b : App = record a { database = db; scanning = true } in
      Locked-enter env wallet ctrl.global_pause (run_mode ctrl.mode) b
        (Locked-changed P k a b (states-control env.now a.database) (λ p. p) h)

  -- an attempt on another route
  Holds-outcome :
      (now : ℕ) (j : String) (o : Outcome) (m : Manager)
      → (k == j) ≡ false
      → Holds P k m
      → Holds P k (settle_outcome now j o m)
  unfolding settle_outcome
  Holds-outcome now j o m e h = elim (Bool-cases (is_failed o)) [
    | inl f ↦ rw f (Holds-failure P k raise now j (category_of o) ("tx_status=" <> o.tx_status) m h)
    | inr f ↦ rw f (Holds-success P k now j o.realized m e h)
  ]

  Holds-attempt :
      (now : ℕ) (mode : RunMode) (q : RouteQuote) (chain : Option Bool) (m : Manager)
      → (k == q.route_id) ≡ false
      → Holds P k m
      → Holds P k (settle_attempt now mode q chain m)
  unfolding settle_attempt
  Holds-attempt now stopped q chain m e h = h
  Holds-attempt now paper q chain m e h = Holds-outcome now q.route_id (attempt paper q chain) m e h
  Holds-attempt now live q chain m e h = Holds-outcome now q.route_id (attempt live q chain) m e h

  -- the route itself is not traded
  Holds-settle :
      (now : ℕ) (mode : RunMode) (q : RouteQuote) (chain : Option Bool) (d : OpportunityDecision)
      (m : Manager)
      → (q.route_id ≡ k → d.tradable ≡ false)
      → Holds P k m
      → Holds P k (settle now mode q chain d m)
  unfolding settle settle_blocked
  Holds-settle now mode q chain d m stop h = elim (Bool-cases d.tradable) [
    | inl t ↦ elim (Bool-cases (k == q.route_id)) [
      | inl e ↦ absurd (true≢false (sym t ∙ stop (sym ((eq_iff k q.route_id).0 e))))
      | inr e ↦ rw t (Holds-attempt now mode q chain m e h)
    ]
    | inr t ↦ elim (Bool-cases (contains d.blocked_reason fatal_failure_categories)) [
      | inl f ↦
          rw (t, f)
            (Holds-failure P k raise now q.route_id d.blocked_reason
              ("opportunity blocked: " <> d.blocked_reason) m h)
      | inr f ↦ rw (t, f) h
    ]
  ]

  Locked-report :
      (env : Env) (name : String) (mode : RunMode) (q : RouteQuote) (chain : Option Bool) (a : App)
      → IsLocked P k a
      → IsLocked P k (report_attempt env name mode q chain a)
  unfolding report_attempt
  Locked-report env name mode q chain a h = elim (Bool-cases (is_failed (attempt mode q chain))) [
    | inl f ↦ rw f (Locked-send env _ _ _ a h)
    | inr f ↦ rw f (Locked-send env _ _ _ a h)
  ]

  Locked-if :
      (t : Bool) (a b : App) → IsLocked P k a → IsLocked P k b → IsLocked P k (if t then a else b)
  Locked-if true a b p q = p
  Locked-if false a b p q = q

  Locked-conclude :
      (env : Env) (name : String) (mode : RunMode) (q : RouteQuote) (chain : Option Bool)
      (d : OpportunityDecision) (a : App)
      → (q.route_id ≡ k → d.tradable ≡ false)
      → IsLocked P k a
      → IsLocked P k (conclude env name mode q chain d a)
  unfolding conclude
  Locked-conclude env name mode q chain d a stop h =
      let b : App = on_manager (settle env.now mode q chain d) a in
      let settled =
        Locked-changed P k a b refl (Holds-settle env.now mode q chain d a.manager stop) h in
      let kept = Locked-persist P k env.now q.route_id b settled in
      Locked-if (is_kept mode d) _ _
        (Locked-if d.tradable _ _ (Locked-report env name mode q chain _ kept) kept) settled

  Locked-scan :
      (now : ℕ) (env : Env) (name : String) (r : Request) (chain : Option Bool) (a : App)
      → a.manager.settings ≡ s
      → IsLocked P k a
      → IsLocked P k (scan_one now env name r chain a)
  unfolding scan_one
  Locked-scan now env name r chain a fixed h =
      let (d, e) = evaluate_total now r a.manager in
      let b : App = record a { manager = (evaluate now r a.manager).1 } in
      rw (e, scan_one)
        (Locked-conclude env name r.mode r.quote chain d b
          (λ same. blocks now r a.manager d fixed same h.live e)
          (Locked-changed P k a b refl (Holds-judge P k now r a.manager) h))

  Locked-restart : (env : Env) (a : App) → IsLocked P k a → IsLocked P k (restart env a)
  unfolding restart ensure_route_runtime_states
  Locked-restart env a h =
      let (stored, found) =
        ensure-invariant (HoldsFor P k) k (HoldsFor-snoc P k) a.database.routes
          a.database.runtime_states h.found h.stored in
      Locked-send env _ _ _ _ (record {
        live = Holds-hydrate_all P k env.now _ _ stored (inr found);
        stored = stored;
        found = found;
      })

  module _ (allowed : Command → Bool)
      (leave : (p : Bool) (l : ℕ) → allowed (enable_route k) ≡ true → P p l → P false l) where
    Locked-Step :
        (b c : App) → Step allowed b c → b.manager.settings ≡ s → IsLocked P k b → IsLocked P k c
    Locked-Step b c (Step.request env r _ fits) fixed h =
        Locked-handle P k raise env r b (λ p l e. leave p l (subst (λ x. allowed x ≡ true) e fits))
          h
    Locked-Step b c (Step.begin env wallet _) fixed h = Locked-begin env wallet b h
    Locked-Step b c (Step.scan now env name r chain _ on) fixed h =
        Locked-scan now env name r chain b fixed h
    Locked-Step b c (Step.crash env _) fixed h = Locked-restart env b h

    abbrev Kept : App → Type 0
    Kept a = (a.manager.settings ≡ s) × IsLocked P k a

    Kept-Step : (b c : App) → Step allowed b c → Kept b → Kept c
    Kept-Step b c t (fixed, h) = (settings-Step b c t ∙ fixed, Locked-Step b c t fixed h)

    -- A locked route is locked after every run of steps, and no decision on it is tradable.
    pub Locked-Steps :
        (a z : App) (now : ℕ) (r : Request) {d : OpportunityDecision}
        → a.manager.settings ≡ s
        → IsLocked P k a
        → Steps allowed a z
        → r.quote.route_id ≡ k
        → (evaluate now r z.manager).0 ≡ ok d
        → d.tradable ≡ false
    Locked-Steps a z now r {d} fixed h steps same e =
        let (still, locked) = Steps-invariant Kept Kept-Step a z steps (fixed, h) in
        blocks now r z.manager d still same locked.live e
