-- ===== src/App/Arming.antt =====
-- The live engine and the mode, over every step of the program.
use arbitrage_bot.App.{Env, App}
use arbitrage_bot.App.Control.{
  ApiRequest, handle, Command, disable_route, disable_venue, enable_route, enable_venue, pause,
  resume, run_mode, stop_all, switch_mode,
}
use arbitrage_bot.Base.{
  ap, refl, ◌||◌, Bool, Option, String, arith, false, if◌then◌else◌, nat_eq, none, some, string_eq,
  sym, true, ◌==◌, ◌∙◌, ◌≡◌,
}
use arbitrage_bot.App.Rounds.{Entered-begin}
use arbitrage_bot.App.Steps.{Step, Steps, Steps-invariant}
use arbitrage_bot.App.Switches.{Untouched-scan, view-handle, view-restart}
use arbitrage_bot.App.View.{View, command_spec, is_single, mode_of, switch_spec, view}
use arbitrage_bot.Base.Text.{lower}
use arbitrage_bot.Settings.{RunMode, Settings, live, paper, stopped}
use mathlib.Core.Path.{subst}
use mathlib.Core.Bool.{true≢false}

abbrev ArmingOf : View → Type 0
ArmingOf v = v.armed ≡ true → v.mode ≡ "live"

spec-arming : (s : Settings) (c : Command) (v : View) → ArmingOf v → ArmingOf (command_spec s c v)
spec-arming s pause v h = h
spec-arming s resume v h = h
spec-arming s stop_all v h = λ e. absurd (true≢false (sym e))
spec-arming s (disable_route k) v h = h
spec-arming s (enable_route k) v h = h
spec-arming s (switch_mode target token) v h = go token (run_mode (lower target))
  where
    go : (token : Option String) (target : Option RunMode) → ArmingOf (switch_spec s token target v)
    go token none = h
    go token (some stopped) = λ e. absurd (true≢false (sym e))
    go token (some paper) = λ e. absurd (true≢false (sym e))
    go none (some live) = h
    go (some t) (some live) = ground arith
spec-arming s (disable_venue n) v h = h
spec-arming s (enable_venue n) v h = h
spec-arming s (Command.pause_strategy n) v h = h
spec-arming s (Command.resume_strategy n) v h = h
spec-arming s (Command.clear_cooldown k) v h = h

abbrev ArmedLive : App → Type 0
ArmedLive a = (is_single a.database.controls ≡ true) × ArmingOf (view a)

-- switches with the same arming and mode
arming-moved : (v w : View) → w.armed ≡ v.armed → w.mode ≡ v.mode → ArmingOf v → ArmingOf w
arming-moved v w armed mode h = λ on. mode ∙ h (sym armed ∙ on)

arming-Step : {allowed : Command → Bool} (a b : App) → Step allowed a b → ArmedLive a → ArmedLive b
arming-Step a b (Step.request env r _ fits) (single, h) =
    let (s, e) = view-handle env r a single in
    (s, subst ArmingOf (sym e) (go (r.token == a.manager.settings.control_api_token)))
  where
    go :
        (t : Bool)
        → ArmingOf (if t then command_spec a.manager.settings r.command (view a) else view a)
    go true = spec-arming a.manager.settings r.command (view a) h
    go false = h
arming-Step a b (Step.begin env wallet _) (single, h) =
    let e = Entered-begin env wallet a single in
    (e.single, arming-moved (view a) (view b) e.armed_same e.mode_same h)
arming-Step a b (Step.scan now env name r chain _ on) (single, h) =
    let ((s, e), _) = Untouched-scan now env name r chain a single in (s, subst ArmingOf (sym e) h)
arming-Step a b (Step.crash env _) (single, h) =
    let (s, e) = view-restart env a single in
    (s, subst ArmingOf (sym e) (λ on. absurd (true≢false (sym on))))

-- In every state that the program reaches by requests, rounds and restarts in any order, the live
-- engine is armed only while the mode in the database is live, if that holds at first and the table
-- of the control has at most one row.
pub armed_only_in_live :
    (a z : App)
    → is_single a.database.controls ≡ true
    → (a.live.runtime_armed ≡ true → mode_of a.database.controls ≡ "live")
    → Steps (λ c. true) a z
    → z.live.runtime_armed ≡ true
    → mode_of z.database.controls ≡ "live"
armed_only_in_live a z single h steps =
    (Steps-invariant ArmedLive arming-Step a z steps (single, h)).1

-- what a command must be that arms the engine
abbrev pub Arms : Settings → Command → Type 0
Arms s c =
    (target : String) × (token : String) × (c ≡ switch_mode target (some token))
    × (run_mode (lower target) ≡ some live)
    × (s.live_enable_flag ≡ true)
    × ((token == "") ≡ false)
    × (s.allow_live_without_token || token == s.live_confirmation_token ≡ true)

spec-Arms :
    (s : Settings) (c : Command) (v : View)
    → v.armed ≡ false
    → (command_spec s c v).armed ≡ true
    → Arms s c
spec-Arms s pause v off on = absurd (true≢false (sym on ∙ off))
spec-Arms s resume v off on = absurd (true≢false (sym on ∙ off))
spec-Arms s stop_all v off on = absurd (true≢false (sym on))
spec-Arms s (disable_route k) v off on = absurd (true≢false (sym on ∙ off))
spec-Arms s (enable_route k) v off on = absurd (true≢false (sym on ∙ off))
spec-Arms s (switch_mode target token) v off on = go token (run_mode (lower target)) refl on
  where
    go :
        (token : Option String) (mode : Option RunMode)
        → run_mode (lower target) ≡ mode
        → (switch_spec s token mode v).armed ≡ true
        → Arms s (switch_mode target token)
    go token none e on = absurd (true≢false (sym on ∙ off))
    go token (some stopped) e on = absurd (true≢false (sym on))
    go token (some paper) e on = absurd (true≢false (sym on))
    go none (some live) e on = absurd (true≢false (sym on ∙ off))
    go (some t) (some live) e on = (
      target,
      t,
      refl,
      e,
      ground (arith, on, off),
      ground (arith, on, off),
      ground (arith, on, off),
    )
spec-Arms s (disable_venue n) v off on = absurd (true≢false (sym on ∙ off))
spec-Arms s (enable_venue n) v off on = absurd (true≢false (sym on ∙ off))
spec-Arms s (Command.pause_strategy n) v off on = absurd (true≢false (sym on ∙ off))
spec-Arms s (Command.resume_strategy n) v off on = absurd (true≢false (sym on ∙ off))
spec-Arms s (Command.clear_cooldown k) v off on = absurd (true≢false (sym on ∙ off))

-- A request that arms the live engine bears the control token, and asks for the mode live with a
-- confirmation token that is not empty and is that of the settings, or no token is needed; and the
-- settings have the live flag on. The table of the control has at most one row.
pub handle-Arms :
    (env : Env) (r : ApiRequest) (a : App)
    → is_single a.database.controls ≡ true
    → a.live.runtime_armed ≡ false
    → (handle env r a).1.live.runtime_armed ≡ true
    → ((r.token == a.manager.settings.control_api_token) ≡ true) × Arms a.manager.settings r.command
handle-Arms env r a single off on =
    go (r.token == a.manager.settings.control_api_token)
      (sym (ap (λ (w : View). w.armed) (view-handle env r a single).1) ∙ on)
  where
    go :
        (t : Bool)
        → (if t then command_spec a.manager.settings r.command (view a) else view a).armed ≡ true
        → (t ≡ true) × Arms a.manager.settings r.command
    go true h = (refl, spec-Arms a.manager.settings r.command (view a) off h)
    go false h = absurd (true≢false (sym h ∙ off))
