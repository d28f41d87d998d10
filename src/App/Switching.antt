-- ===== src/App/Switching.antt =====
-- A switch of the mode refines its specification.
use arbitrage_bot.App.Shown.{Shows, after-send, seen-disarm, seen-mode, seen-pause}
use arbitrage_bot.App.Control.{
  Response, accepted, http_error, on_database, apply_mode, handle_switch, switch_live,
}
use arbitrage_bot.Base.{
  if◌then◌else◌, not, sym, ◌&&◌, ◌||◌, Option, arith, nat_eq, none, some, string_eq, ◌==◌, Bool,
  String, false, refl, true, ◌≡◌,
}
use arbitrage_bot.Execution.{LiveEngine, arm_live, disarm_live}
use arbitrage_bot.Settings.{Settings, RunMode, live, paper, stopped}
use mathlib.Core.Path.{subst}
use arbitrage_bot.App.View.{switch_spec, View, is_single, view}
use arbitrage_bot.Repository.{set_global_pause, set_mode}
use arbitrage_bot.App.{App, Env}

-- a switch to live, with a token
arms_live : Settings → String → Bool
arms_live s token =
    s.live_enable_flag
    && (not (token == "") && (s.allow_live_without_token || token == s.live_confirmation_token))

switch_live-app :
    (env : Env) (token : String) (a : App)
    → (switch_live env (some token) a).1 ≡ (
        if arms_live a.manager.settings token
        then apply_mode env live (record a { live = record { runtime_armed = true } })
        else a)
unfolding switch_live arm_live arms_live
switch_live-app env token a = go a.manager.settings.live_enable_flag (token == "") (
    a.manager.settings.allow_live_without_token
    || token == a.manager.settings.live_confirmation_token)
  where
    go :
        (f e g : Bool)
        → let out : Response × App =
            if not f
            then (http_error 400 "live mode disabled by env", a)
            else if e
            then (http_error 400 "live_confirmation_token required", a)
            else let (armed, engine) : Bool × LiveEngine =
                if g then (true, record { runtime_armed = true }) else (false, a.live) in
              if armed
              then (accepted true, apply_mode env live (record a { live = engine }))
              else (http_error 401 "invalid live confirmation token", record a { live = engine }) in
          out.1 ≡ (
            if f && (not e && g)
            then apply_mode env live (record a { live = record { runtime_armed = true } })
            else a)
    go false e g = refl
    go true true g = refl
    go true false true = refl
    go true false false = refl

switch_live-none : (env : Env) (a : App) → (switch_live env none a).1 ≡ a
unfolding switch_live
switch_live-none env a = ground arith

seen-if :
    (t : Bool) (a b : App) (v w : View)
    → Shows a v
    → Shows b w
    → Shows (if t then a else b) (if t then v else w)
seen-if true a b v w p q = p
seen-if false a b v w p q = q

seen-live :
    (env : Env) (token : String) (a : App)
    → is_single a.database.controls ≡ true
    → Shows
        (switch_live env (some token) a).1
        (switch_spec a.manager.settings (some token) (some live) (view a))
unfolding apply_mode arms_live
seen-live env token a single =
    let on : App = record a { live = record { runtime_armed = true } } in
    let moved = on_database (set_mode env.now "live") on in
    subst (λ x. Shows x (switch_spec a.manager.settings (some token) (some live) (view a)))
      (sym (switch_live-app env token a))
      (seen-if (arms_live a.manager.settings token) _ _ _ _
        (after-send env _ _ _ moved _
          (seen-mode env.now "live" on (record (view a) { armed = true }) (single, refl)))
        (single, refl))

pub seen-switch :
    (env : Env) (token : Option String) (target : Option RunMode) (a : App)
    → is_single a.database.controls ≡ true
    → Shows
        (handle_switch env token target a).1
        (switch_spec a.manager.settings token target (view a))
unfolding handle_switch apply_mode
seen-switch env token none a single = (single, refl)
seen-switch env token (some stopped) a single =
    let off : App = record a { live = disarm_live a.live } in
    let moved = on_database (set_mode env.now "stopped") off in
    after-send env _ _ _ (on_database (set_global_pause env.now true) moved) _ (
      seen-pause env.now true moved _
        (seen-mode env.now "stopped" off _ (seen-disarm a (view a) (single, refl))))
seen-switch env token (some paper) a single =
    let off : App = record a { live = disarm_live a.live } in
    seen-mode env.now "paper" off _ (seen-disarm a (view a) (single, refl))
seen-switch env none (some live) a single =
    subst (λ x. Shows x (view a)) (sym (switch_live-none env a)) (single, refl)
seen-switch env (some token) (some live) a single = seen-live env token a single
