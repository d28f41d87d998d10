-- ===== src/App/Fixed.antt =====
-- No step of the program changes the settings of the manager.
use arbitrage_bot.Risk
use arbitrage_bot.Repository.{ensure_route_runtime_states, RouteRuntimeState, get_runtime_control}
use Prim.Native.String.{◌++◌ as ◌<>◌}
use arbitrage_bot.App.{App, Env, hydrate, hydrate_all, persist_route_state, restart}
use arbitrage_bot.App.Control.{
  ApiRequest, Command, disable_route, disable_venue, enable_route, enable_venue, handle, on_manager,
  pause, resume, run_mode, stop_all, switch_mode,
}
use arbitrage_bot.App.Effects.{execute-manager, manager_effect}
use arbitrage_bot.App.Held.{send-manager}
use arbitrage_bot.App.Scan.{
  abort_round, begin_round, check_drawdown, conclude, enter_round, report_attempt, scan_one,
  stop_for_drawdown,
}
use arbitrage_bot.App.Steps.{Step}
use arbitrage_bot.Base.{
  Bool, Bool-cases, List, Option, String, [], arith, false, inl, inr, nat_eq, none, refl, some,
  string_eq, true, ℕ, ◌==◌, ◌∙◌, ◌∷◌, ◌≡◌,
}
use arbitrage_bot.Base.Result.{Result, err, ok}
use arbitrage_bot.Decimal.{Decimal}
use arbitrage_bot.Quote.{OpportunityDecision, RouteQuote}
use arbitrage_bot.Risk.{
  Manager, clear_cooldown, hydrate_route_state, mark_failure, mark_success, new_manager,
  pause_route, pause_venue, put_stats, reset_daily_if_needed, resume_route, resume_venue,
  set_global_kill,
}
use arbitrage_bot.Risk.Decision.{evaluate_total}
use arbitrage_bot.Risk.Evaluate.{evaluate, trim_route}
use arbitrage_bot.Risk.Guards.{Request}
use arbitrage_bot.Risk.Runs.{evaluate-state}
use arbitrage_bot.Runner.{
  attempt, category_of, settle, settle_attempt, settle_blocked, settle_outcome,
}
use arbitrage_bot.Settings.{RunMode, live, paper, stopped}

settings-clear : (j : Option String) (m : Manager) → (Risk.clear_cooldown j m).settings ≡ m.settings
unfolding clear_cooldown put_stats
settings-clear none m = refl
settings-clear (some j) m = ground arith

pub settings-effect : (c : Command) (m : Manager) → (manager_effect c m).settings ≡ m.settings
unfolding set_global_kill pause_route resume_route pause_venue resume_venue Risk.pause_strategy
    Risk.resume_strategy
settings-effect pause m = refl
settings-effect resume m = refl
settings-effect stop_all m = refl
settings-effect (disable_route k) m = refl
settings-effect (enable_route k) m = refl
settings-effect (switch_mode target token) m = refl
settings-effect (disable_venue v) m = refl
settings-effect (enable_venue v) m = refl
settings-effect (Command.pause_strategy s) m = refl
settings-effect (Command.resume_strategy s) m = refl
settings-effect (Command.clear_cooldown k) m = settings-clear k m

settings-handle :
    (env : Env) (r : ApiRequest) (a : App)
    → (handle env r a).1.manager.settings ≡ a.manager.settings
unfolding handle
settings-handle env r a = elim (Bool-cases (r.token == a.manager.settings.control_api_token)) [
  | inl e ↦ rw (e, execute-manager env r.command a) (settings-effect r.command a.manager)
  | inr e ↦ rw e refl
]

settings-failure :
    (now : ℕ) (j category reason : String) (m : Manager)
    → (mark_failure now j category reason m).settings ≡ m.settings
unfolding mark_failure pause_route put_stats
settings-failure now j category reason m = ground arith

settings-success :
    (now : ℕ) (j : String) (pnl : Decimal) (m : Manager)
    → (mark_success now j pnl m).settings ≡ m.settings
unfolding mark_success put_stats reset_daily_if_needed
settings-success now j pnl m = ground arith

settings-settle :
    (now : ℕ) (mode : RunMode) (q : RouteQuote) (chain : Option Bool) (d : OpportunityDecision)
    (m : Manager)
    → (settle now mode q chain d m).settings ≡ m.settings
unfolding settle settle_blocked settle_attempt settle_outcome
settings-settle now stopped q chain d m = ground (
  arith,
  settings-failure now q.route_id d.blocked_reason ("opportunity blocked: " <> d.blocked_reason) m,
)
settings-settle now paper q chain d m =
    let o = attempt paper q chain in
    ground (
      arith,
      settings-failure now q.route_id d.blocked_reason ("opportunity blocked: " <> d.blocked_reason)
          m,
      settings-failure now q.route_id (category_of o) ("tx_status=" <> o.tx_status) m,
      settings-success now q.route_id o.realized m,
    )
settings-settle now live q chain d m =
    let o = attempt live q chain in
    ground (
      arith,
      settings-failure now q.route_id d.blocked_reason ("opportunity blocked: " <> d.blocked_reason)
          m,
      settings-failure now q.route_id (category_of o) ("tx_status=" <> o.tx_status) m,
      settings-success now q.route_id o.realized m,
    )

settings-judge : (now : ℕ) (r : Request) (m : Manager) → (evaluate now r m).1.settings ≡ m.settings
settings-judge now r m = elim (evaluate-state now r m) [
  | inl e ↦ rw e refl
  | inr e ↦ rw e (unfold trim_route put_stats in refl)
]

pub conclude-manager :
    (env : Env) (name : String) (mode : RunMode) (q : RouteQuote) (chain : Option Bool)
    (d : OpportunityDecision) (a : App)
    → (conclude env name mode q chain d a).manager ≡ settle env.now mode q chain d a.manager
unfolding conclude report_attempt persist_route_state
conclude-manager env name mode q chain d a = grind (arith, send-manager)

pub settings-scan :
    (now : ℕ) (env : Env) (name : String) (r : Request) (chain : Option Bool) (a : App)
    → (scan_one now env name r chain a).manager.settings ≡ a.manager.settings
unfolding scan_one
settings-scan now env name r chain a =
    let (d, e) = evaluate_total now r a.manager in
    let b : App = record a { manager = (evaluate now r a.manager).1 } in
    rw (e, scan_one, conclude-manager env name r.mode r.quote chain d b)
      (settings-settle env.now r.mode r.quote chain d b.manager ∙ settings-judge now r a.manager)

settings-hydrate_all :
    (now : ℕ) (rows : List RouteRuntimeState) (m : Manager)
    → (hydrate_all now rows m).settings ≡ m.settings
unfolding hydrate_all hydrate hydrate_route_state put_stats pause_route resume_route
settings-hydrate_all now [] m = refl
settings-hydrate_all now (row ∷ rows) m =
    settings-hydrate_all now rows (hydrate now row m) ∙ ground arith

settings-restart : (env : Env) (a : App) → (restart env a).manager.settings ≡ a.manager.settings
unfolding restart
settings-restart env a = rw (send-manager env) (
    settings-hydrate_all env.now (ensure_route_runtime_states a.database).runtime_states
      (new_manager a.manager.settings env.now)
    ∙ unfold new_manager in refl)

settings-begin :
    (env : Env) (wallet : Decimal) (a : App)
    → (begin_round env wallet a).manager.settings ≡ a.manager.settings
unfolding begin_round
settings-begin env wallet a =
    let (ctrl, db) = get_runtime_control env.now a.database in
    go ctrl.global_pause (run_mode ctrl.mode) (record a { database = db; scanning = true })
  where
    check :
        (stop : Result Bool) (b : App)
        → (check_drawdown env stop b).manager.settings ≡ b.manager.settings
    check (err e) b = unfold check_drawdown abort_round in rw (send-manager env) refl
    check (ok true) b =
        unfold check_drawdown stop_for_drawdown set_global_kill in rw (send-manager env) refl
    check (ok false) b = unfold check_drawdown in refl

    go :
        (p : Bool) (mode : Option RunMode) (b : App)
        → (enter_round env wallet p mode b).manager.settings ≡ b.manager.settings
    go p none b = unfold enter_round abort_round in rw (send-manager env) refl
    go p (some mode) b =
        unfold enter_round in
        check _ (on_manager (set_global_kill p) b) ∙ unfold set_global_kill in refl

pub settings-Step :
    {allowed : Command → Bool} (b c : App)
    → Step allowed b c
    → c.manager.settings ≡ b.manager.settings
settings-Step b c (Step.request env r _ fits) = settings-handle env r b
settings-Step b c (Step.begin env wallet _) = settings-begin env wallet b
settings-Step b c (Step.scan now env name r chain _ on) = settings-scan now env name r chain b
settings-Step b c (Step.crash env _) = settings-restart env b
