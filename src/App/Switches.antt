-- ===== src/App/Switches.antt =====
-- The switches over every step of the program.
use arbitrage_bot.Repository.{ensure_route_runtime_states, RouteRuntimeState}
use arbitrage_bot.App.{send, persist_route_state, App, Env, hydrate, hydrate_all, restart}
use arbitrage_bot.App.Control.{on_manager, ApiRequest, Response, execute, handle, http_error}
use arbitrage_bot.App.Held.{send-database}
use arbitrage_bot.App.Scan.{conclude, is_kept, report_attempt, scan_one}
use arbitrage_bot.App.Shown.{view-persist, view-same, Shows, after-send}
use arbitrage_bot.Base.{
  String, inl, inr, Bool, List, Option, [], arith, false, if◌then◌else◌, nat_eq, refl, string_eq,
  true, ℕ, ◌==◌, ◌∙◌, ◌∷◌, ◌≡◌,
}
use arbitrage_bot.Risk.Decision.{evaluate_total}
use arbitrage_bot.Risk.Evaluate.{evaluate, trim_route}
use arbitrage_bot.Risk.Guards.{Request}
use arbitrage_bot.Risk.Runs.{evaluate-state}
use arbitrage_bot.Runner.{
  attempt, is_failed, settle, settle_attempt, settle_blocked, settle_outcome,
}
use arbitrage_bot.App.Refines.{execute-view}
use arbitrage_bot.App.View.{command_spec, is_single, view}
use arbitrage_bot.Execution.{new_engine}
use arbitrage_bot.Quote.{OpportunityDecision, RouteQuote}
use arbitrage_bot.Risk.{
  Manager, hydrate_route_state, mark_failure, mark_success, new_manager, pause_route, put_stats,
  reset_daily_if_needed, resume_route,
}
use arbitrage_bot.Settings.{RunMode, live, paper, stopped}

pub view-handle :
    (env : Env) (r : ApiRequest) (a : App)
    → is_single a.database.controls ≡ true
    → Shows (handle env r a).1 (
        if r.token == a.manager.settings.control_api_token
        then command_spec a.manager.settings r.command (view a)
        else view a)
unfolding handle
view-handle env r a single = go (r.token == a.manager.settings.control_api_token)
  where
    go :
        (t : Bool)
        → let out : Response × App =
            if t then execute env r.command a else (http_error 401 "invalid control token", a) in
          Shows out.1 (if t then command_spec a.manager.settings r.command (view a) else view a)
    go true = execute-view env r.command a single
    go false = (single, refl)

kill-hydrate_all :
    (now : ℕ) (rows : List RouteRuntimeState) (m : Manager)
    → (hydrate_all now rows m).global_kill_switch ≡ m.global_kill_switch
unfolding hydrate_all hydrate hydrate_route_state put_stats pause_route resume_route
kill-hydrate_all now [] m = refl
kill-hydrate_all now (row ∷ rows) m = kill-hydrate_all now rows (hydrate now row m) ∙ ground arith

pub view-restart :
    (env : Env) (a : App)
    → is_single a.database.controls ≡ true
    → Shows
        (restart env a)
        (record (view a) { killed = a.manager.settings.global_kill_switch; armed = false })
unfolding restart ensure_route_runtime_states
view-restart env a single =
    let db = ensure_route_runtime_states a.database in
    let m = hydrate_all env.now db.runtime_states (new_manager a.manager.settings env.now) in
    let b : App = record a {
      manager = m;
      database = db;
      live = new_engine;
      alerts = record a.alerts { failure_count = 0 };
      scanning = false;
    } in
    after-send env _ _ _ b _ (
      single,
      rw (kill-hydrate_all env.now db.runtime_states (new_manager a.manager.settings env.now))
          (unfold new_manager in refl),
    )

kill-settle :
    (now : ℕ) (mode : RunMode) (q : RouteQuote) (chain : Option Bool) (d : OpportunityDecision)
    (m : Manager)
    → (settle now mode q chain d m).global_kill_switch ≡ m.global_kill_switch
unfolding settle settle_blocked settle_attempt settle_outcome mark_failure mark_success pause_route
    put_stats reset_daily_if_needed
kill-settle now stopped q chain d m = ground arith
kill-settle now paper q chain d m = ground arith
kill-settle now live q chain d m = ground arith

kill-judge :
    (now : ℕ) (r : Request) (m : Manager)
    → (evaluate now r m).1.global_kill_switch ≡ m.global_kill_switch
kill-judge now r m = elim (evaluate-state now r m) [
  | inl e ↦ rw e refl
  | inr e ↦ rw e (unfold trim_route put_stats in refl)
]

-- what a route of a round leaves as it was
abbrev pub Untouched : App → App → Type 0
Untouched a b = Shows b (view a) × (b.scanning ≡ a.scanning)

Untouched-if :
    (t : Bool) (a b c : App) → Untouched a b → Untouched a c → Untouched a (if t then b else c)
Untouched-if true a b c p q = p
Untouched-if false a b c p q = q

Untouched-conclude :
    (env : Env) (name : String) (mode : RunMode) (q : RouteQuote) (chain : Option Bool)
    (d : OpportunityDecision) (a : App)
    → is_single a.database.controls ≡ true
    → Untouched a (conclude env name mode q chain d a)
unfolding conclude report_attempt
Untouched-conclude env name mode q chain d a single =
    let b : App = on_manager (settle env.now mode q chain d) a in
    let kept = persist_route_state env.now q.route_id b in
    let settled : Untouched a b =
      (view-same a b refl (kill-settle env.now mode q chain d a.manager) refl single, refl) in
    let stored : Untouched a kept =
      let (s, e) = view-persist env.now q.route_id b settled.0.0 in
      ((s, e ∙ settled.0.1), unfold persist_route_state in refl) in
    let sent : (level category message : String)
        → Untouched a (send env level category message kept) =
      λ level category message. (
        after-send env level category message kept (view a) stored.0,
        (send-database env level category message kept).3 ∙ unfold persist_route_state in refl,
      ) in
    Untouched-if (is_kept mode d) a _ b
      (Untouched-if d.tradable a _ kept
        (Untouched-if (is_failed (attempt mode q chain)) a _ _ (sent _ _ _) (sent _ _ _)) stored)
      settled

pub Untouched-scan :
    (now : ℕ) (env : Env) (name : String) (r : Request) (chain : Option Bool) (a : App)
    → is_single a.database.controls ≡ true
    → Untouched a (scan_one now env name r chain a)
unfolding scan_one
Untouched-scan now env name r chain a single =
    let (d, e) = evaluate_total now r a.manager in
    let b : App = record a { manager = (evaluate now r a.manager).1 } in
    let (s, v) = view-same a b refl (kill-judge now r a.manager) refl single in
    let ((t, w), x) = Untouched-conclude env name r.mode r.quote chain d b s in
    rw (e, scan_one) ((t, w ∙ v), x)
