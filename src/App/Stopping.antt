-- ===== src/App/Stopping.antt =====
-- What a pause holds back, over every step of the program.
use arbitrage_bot.App.{Env, restart, App}
use arbitrage_bot.App.Control.{
  ApiRequest, execute, handle, Command, disable_route, disable_venue, enable_route, enable_venue,
  pause, resume, run_mode, stop_all, switch_mode,
}
use arbitrage_bot.App.Effects.{execute-scanning}
use arbitrage_bot.App.Held.{send-database}
use arbitrage_bot.App.Refines.{execute-view}
use arbitrage_bot.App.Rounds.{Entered-begin}
use arbitrage_bot.App.Steps.{Step, Steps, Steps-invariant}
use arbitrage_bot.App.Switches.{Untouched-scan, view-handle, view-restart}
use arbitrage_bot.Base.{
  Bool-cases, ap, if◌then◌else◌, inl, inr, nat_eq, string_eq, ℕ, ◌==◌, ◌∙◌, Bool, Option, String,
  arith, false, none, not, refl, some, sym, true, ◌≡◌,
}
use arbitrage_bot.Base.Result.{ok}
use arbitrage_bot.Quote.{OpportunityDecision}
use arbitrage_bot.Risk.Decision.{evaluate_permits}
use arbitrage_bot.Risk.Evaluate.{evaluate}
use arbitrage_bot.Risk.Guards.{Request}
use mathlib.Core.Path.{subst}
use arbitrage_bot.App.View.{View, command_spec, is_single, switch_spec, view}
use arbitrage_bot.Base.Text.{lower}
use arbitrage_bot.Settings.{RunMode, Settings, live, paper, stopped}
use mathlib.Core.Bool.{true≢false}

-- the command that releases the pause
abbrev pub releases_all : Command → Bool
releases_all resume = true
releases_all c = false

-- whether a command pauses everything at once
abbrev pub halts : Command → Bool
halts pause = true
halts stop_all = true
halts c = false

-- the database is paused, and a round that has begun is under the kill switch
record IsHalted (a : App) : Type 0 where
  single : is_single a.database.controls ≡ true
  held : (view a).paused ≡ true
  killed : a.scanning ≡ true → (view a).killed ≡ true

abbrev Held : View → View → Type 0
Held v w = (v.paused ≡ true → w.paused ≡ true) × (v.killed ≡ true → w.killed ≡ true)

spec-Held :
    (s : Settings) (c : Command) (v : View)
    → not (releases_all c) ≡ true
    → Held v (command_spec s c v)
spec-Held s pause v fits = ((λ h. refl), (λ h. refl))
spec-Held s resume v fits = absurd (true≢false (sym fits))
spec-Held s stop_all v fits = ((λ h. refl), (λ h. refl))
spec-Held s (disable_route k) v fits = ((λ h. h), (λ h. h))
spec-Held s (enable_route k) v fits = ((λ h. h), (λ h. h))
spec-Held s (switch_mode target token) v fits = go token (run_mode (lower target))
  where
    go : (token : Option String) (target : Option RunMode) → Held v (switch_spec s token target v)
    go token none = ((λ h. h), (λ h. h))
    go token (some stopped) = ((λ h. refl), (λ h. h))
    go token (some paper) = ((λ h. h), (λ h. h))
    go none (some live) = ((λ h. h), (λ h. h))
    go (some t) (some live) = (ground arith, ground arith)
spec-Held s (disable_venue n) v fits = ((λ h. h), (λ h. h))
spec-Held s (enable_venue n) v fits = ((λ h. h), (λ h. h))
spec-Held s (Command.pause_strategy n) v fits = ((λ h. h), (λ h. h))
spec-Held s (Command.resume_strategy n) v fits = ((λ h. h), (λ h. h))
spec-Held s (Command.clear_cooldown k) v fits = ((λ h. h), (λ h. h))

IsHalted-Step : (a b : App) → Step (λ c. not (releases_all c)) a b → IsHalted a → IsHalted b
IsHalted-Step a b (Step.request env r _ fits) h =
    let (s, e) = view-handle env r a h.single in
    let kept : Held (view a) (view b) =
      subst (Held (view a)) (sym e) (go (r.token == a.manager.settings.control_api_token)) in
    record {
      single = s;
      held = kept.0 h.held;
      killed = λ on. kept.1 (h.killed (sym (scanning-handle env r a) ∙ on));
    }
  where
    go :
        (t : Bool)
        → Held (view a) (if t then command_spec a.manager.settings r.command (view a) else view a)
    go true = spec-Held a.manager.settings r.command (view a) fits
    go false = ((λ p. p), (λ p. p))

    scanning-handle :
        (env : Env) (r : ApiRequest) (a : App) → (handle env r a).1.scanning ≡ a.scanning
    scanning-handle env r a =
        unfold handle in
        elim (Bool-cases (r.token == a.manager.settings.control_api_token)) [
          | inl e ↦ rw e (execute-scanning env r.command a)
          | inr e ↦ rw e refl
        ]
IsHalted-Step a b (Step.begin env wallet _) h =
    let e = Entered-begin env wallet a h.single in
    record { single = e.single; held = e.still_paused h.held; killed = λ on. e.halted on h.held }
IsHalted-Step a b (Step.scan now env name r chain _ on) h =
    let ((s, e), x) = Untouched-scan now env name r chain a h.single in
    record {
      single = s;
      held = ap (λ (w : View). w.paused) e ∙ h.held;
      killed = λ begun. ap (λ (w : View). w.killed) e ∙ h.killed (sym x ∙ begun);
    }
IsHalted-Step a b (Step.crash env _) h =
    let (s, e) = view-restart env a h.single in
    record {
      single = s;
      held = ap (λ (w : View). w.paused) e ∙ h.held;
      killed = λ on. absurd (true≢false (sym on ∙ scanning-restart env a));
    }
  where
    scanning-restart : (env : Env) (a : App) → (restart env a).scanning ≡ false
    scanning-restart env a = unfold restart in (send-database env _ _ _ _).3

IsHalted-execute :
    (env : Env) (c : Command) (a : App)
    → is_single a.database.controls ≡ true
    → halts c ≡ true
    → IsHalted (execute env c a).1
IsHalted-execute env pause a single fits =
    let (s, e) = execute-view env pause a single in
    record {
      single = s;
      held = ap (λ (w : View). w.paused) e;
      killed = λ on. ap (λ (w : View). w.killed) e;
    }
IsHalted-execute env stop_all a single fits =
    let (s, e) = execute-view env stop_all a single in
    record {
      single = s;
      held = ap (λ (w : View). w.paused) e;
      killed = λ on. ap (λ (w : View). w.killed) e;
    }
IsHalted-execute env resume a single fits = absurd (true≢false (sym fits))
IsHalted-execute env (disable_route k) a single fits = absurd (true≢false (sym fits))
IsHalted-execute env (enable_route k) a single fits = absurd (true≢false (sym fits))
IsHalted-execute env (switch_mode target token) a single fits = absurd (true≢false (sym fits))
IsHalted-execute env (disable_venue n) a single fits = absurd (true≢false (sym fits))
IsHalted-execute env (enable_venue n) a single fits = absurd (true≢false (sym fits))
IsHalted-execute env (Command.pause_strategy n) a single fits = absurd (true≢false (sym fits))
IsHalted-execute env (Command.resume_strategy n) a single fits = absurd (true≢false (sym fits))
IsHalted-execute env (Command.clear_cooldown k) a single fits = absurd (true≢false (sym fits))

-- After `pause` or `stop_all`, no round of the scan loop makes a tradable decision on any route,
-- whatever rounds, restarts and requests of the API follow, as long as none of the requests is
-- `resume`; the table of the control has at most one row.
pub halt_blocks :
    (env : Env) (c : Command) (a z : App) (now : ℕ) (r : Request) {d : OpportunityDecision}
    → is_single a.database.controls ≡ true
    → halts c ≡ true
    → Steps (λ c. not (releases_all c)) (execute env c a).1 z
    → z.scanning ≡ true
    → (evaluate now r z.manager).0 ≡ ok d
    → d.tradable ≡ false
halt_blocks env c a z now r {d} single fits steps on decides =
    let h =
      Steps-invariant IsHalted IsHalted-Step _ z steps (IsHalted-execute env c a single fits) in
    elim (Bool-cases d.tradable) [
      | inl t ↦ absurd (
          true≢false (
            sym (h.killed on)
            ∙ ((evaluate_permits now r z.manager decides).0 t).running.switch_off))
      | inr f ↦ f
    ]
