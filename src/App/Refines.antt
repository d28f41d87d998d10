-- ===== src/App/Refines.antt =====
-- Each command refines its specification on the switches.
use arbitrage_bot.Risk
use arbitrage_bot.App.Shown.{
  Shows, after-send, seen-disarm, seen-kill, seen-mode, seen-pause, view-persist, view-persist_all,
  view-same,
}
use arbitrage_bot.App.Switching.{seen-switch}
use arbitrage_bot.App.Control.{
  audit, on_database, Command, disable_route, disable_venue, enable_route, enable_venue, execute,
  handle_clear, handle_pause, handle_resume, handle_route, handle_stop_all, mode_value, pause,
  resume, run_mode, stop_all, switch_mode, on_manager,
}
use arbitrage_bot.Base.{
  Bool-cases, Option, arith, inl, inr, nat_eq, none, some, string_eq, ◌==◌, Bool, String, ap, false,
  refl, true, ◌∙◌, ◌≡◌,
}
use arbitrage_bot.Execution.{disarm_live}
use arbitrage_bot.App.Effects.{execute-manager, manager_effect}
use arbitrage_bot.App.View.{command_spec, is_single, view}
use arbitrage_bot.Base.Text.{lower}
use arbitrage_bot.Repository.{
  Database, set_route_enabled, write_config_audit, write_kill_switch_event, set_global_pause,
  set_mode,
}
use arbitrage_bot.Risk.{
  Manager, clear_cooldown, pause_route, pause_venue, put_stats, resume_route, resume_venue,
  set_global_kill,
}
use arbitrage_bot.App.{App, Env}
use arbitrage_bot.App.Held.{send-database}

-- the kill switch, where no command sets it
seen-other :
    (env : Env) (c : Command) (a : App)
    → is_single a.database.controls ≡ true
    → (execute env c a).1.database.controls ≡ a.database.controls
    → (execute env c a).1.live ≡ a.live
    → (manager_effect c a.manager).global_kill_switch ≡ a.manager.global_kill_switch
    → Shows (execute env c a).1 (view a)
seen-other env c a single rows engine kill =
    view-same a (execute env c a).1 rows
      (ap (λ m. m.global_kill_switch) (execute-manager env c a) ∙ kill) engine single

seen-clear :
    (env : Env) (j : Option String) (a : App)
    → is_single a.database.controls ≡ true
    → Shows (handle_clear env j a) (view a)
unfolding handle_clear write_config_audit clear_cooldown put_stats
seen-clear env none a single = view-persist_all env.now _ _ single
seen-clear env (some j) a single = elim (Bool-cases (j == "")) [
  | inl e ↦ rw e (view-persist_all env.now _ _ single)
  | inr e ↦ rw e (view-persist env.now j _ single)
]

seen-route :
    (env : Env) (j : String) (enabled : Bool) (action reason : String) (op : Manager → Manager)
    (a : App)
    → (op a.manager).global_kill_switch ≡ a.manager.global_kill_switch
    → is_single a.database.controls ≡ true
    → Shows (handle_route env j enabled action reason op a).1 (view a)
unfolding handle_route write_kill_switch_event
seen-route env j enabled action reason op a kill single =
    let b : App = record a {
      manager = op a.manager;
      database =
          write_kill_switch_event "route" j action reason
            (set_route_enabled j enabled a.database).1;
    } in
    let (s, e) = view-same a b (controls-enabled j enabled a.database) kill refl single in
    let (t, f) = view-persist env.now j b s in (t, f ∙ e)
  where
    controls-enabled :
        (j : String) (b : Bool) (db : Database)
        → (set_route_enabled j b db).1.controls ≡ db.controls
    controls-enabled j b db = unfold set_route_enabled write_config_audit in ground arith

-- Each command changes the mode, the pause, the kill switch and the arming as its specification
-- says, where the table of the control has at most one row: a pause and a stop set the switches, a
-- resume releases them and leaves the mode, a stop and any switch of the mode but one to live disarm
-- the engine, and a switch to live acts only with the flag on and a token that is not empty and, if
-- the settings require it, is theirs.
pub execute-view :
    (env : Env) (c : Command) (a : App)
    → is_single a.database.controls ≡ true
    → Shows (execute env c a).1 (command_spec a.manager.settings c (view a))
unfolding execute handle_pause handle_resume handle_stop_all mode_value write_kill_switch_event
execute-view env pause a single =
    let held =
      on_database
        (λ db.
          write_kill_switch_event "global" "global" "trigger" "manual_pause"
            (set_global_pause env.now true db))
        a in
    after-send env _ _ _ (on_manager (set_global_kill true) held) _
      (seen-kill true held _ (seen-pause env.now true a (view a) (single, refl)))
execute-view env resume a single =
    let freed =
      on_database
        (λ db.
          write_kill_switch_event "global" "global" "release" "manual_resume"
            (set_global_pause env.now false db))
        a in
    after-send env _ _ _ (on_manager (set_global_kill false) freed) _
      (seen-kill false freed _ (seen-pause env.now false a (view a) (single, refl)))
execute-view env stop_all a single =
    let paused = on_database (set_global_pause env.now true) a in
    let stored =
      on_database
        (λ db.
          write_kill_switch_event "global" "global" "trigger" "stop_all"
            (set_mode env.now "stopped" db))
        paused in
    let killed = on_manager (set_global_kill true) stored in
    after-send env _ _ _ (record killed { live = disarm_live killed.live }) _
      (seen-disarm killed _ (
        seen-kill true stored _ (
          seen-mode env.now "stopped" paused _
            (seen-pause env.now true a (view a) (single, refl)))))
execute-view env (disable_route k) a single =
    seen-route env k false _ _ (Risk.pause_route k) a (unfold pause_route in refl) single
execute-view env (enable_route k) a single =
    seen-route env k true _ _ (Risk.resume_route k) a (unfold resume_route in refl) single
execute-view env (switch_mode target token) a single =
    seen-switch env token (run_mode (lower target)) a single
execute-view env (disable_venue v) a single =
    seen-other env (disable_venue v) a single (unfold write_config_audit in refl) refl
      (unfold pause_venue in refl)
execute-view env (enable_venue v) a single =
    seen-other env (enable_venue v) a single (unfold write_config_audit in refl) refl
      (unfold resume_venue in refl)
execute-view env (Command.pause_strategy s) a single =
    seen-other env (Command.pause_strategy s) a single
      (unfold write_config_audit in (send-database env _ _ _ _).1)
      ((send-database env _ _ _ (audit _ _ _ _ (on_manager (Risk.pause_strategy s) a))).2)
      (unfold Risk.pause_strategy in refl)
execute-view env (Command.resume_strategy s) a single =
    seen-other env (Command.resume_strategy s) a single
      (unfold write_config_audit in (send-database env _ _ _ _).1)
      ((send-database env _ _ _ (audit _ _ _ _ (on_manager (Risk.resume_strategy s) a))).2)
      (unfold Risk.resume_strategy in refl)
execute-view env (Command.clear_cooldown j) a single = seen-clear env j a single
