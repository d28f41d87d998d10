-- ===== src/App/Handlers.antt =====
-- Every request of the API keeps a lock, other than one that enables the route where the lock rests on
-- its pause.
use arbitrage_bot.Risk
use arbitrage_bot.App.Control.{
  apply_mode, audit, handle, handle_clear, handle_pause, handle_resume, handle_route,
  handle_stop_all, handle_switch, mode_value, on_manager, run_mode, switch_live, ApiRequest,
  Command, disable_route, disable_venue, enable_route, enable_venue, execute, pause, resume,
  stop_all, switch_mode,
}
use arbitrage_bot.App.Effects.{execute-manager, manager_effect}
use arbitrage_bot.App.Held.{
  Locked-changed, Locked-persist, Locked-persist_all, send-database, states-enabled,
  states-set_mode, states-set_pause,
}
use arbitrage_bot.App.Ops.{
  Holds-clear, Holds-kill, Holds-pause, Holds-pause_strategy, Holds-pause_venue, Holds-resume,
  Holds-resume_strategy, Holds-resume_venue,
}
use arbitrage_bot.Base.{
  Bool, Bool-cases, Option, String, ap, arith, false, inl, inr, nat_eq, none, refl, some, string_eq,
  true, ℕ, ◌==◌, ◌∙◌, ◌≡◌,
}
use arbitrage_bot.Base.Text.{lower}
use arbitrage_bot.Execution.{arm_live}
use arbitrage_bot.Repository.{
  set_global_pause, set_mode, set_route_enabled, write_config_audit, write_kill_switch_event,
}
use arbitrage_bot.Settings.{RunMode, live, paper, stopped}
use arbitrage_bot.App.{App, Env}
use arbitrage_bot.App.Lock.{Holds, IsLocked}
use arbitrage_bot.Risk.{Manager}

states-apply_mode :
    (env : Env) (mode : RunMode) (a : App)
    → (apply_mode env mode a).database.runtime_states ≡ a.database.runtime_states
unfolding apply_mode
states-apply_mode env stopped a =
    (send-database env _ _ _ _).0
    ∙ states-set_pause env.now true (set_mode env.now "stopped" a.database)
    ∙ states-set_mode env.now "stopped" a.database
states-apply_mode env paper a = states-set_mode env.now "paper" a.database
states-apply_mode env live a =
    (send-database env _ _ _ _).0 ∙ states-set_mode env.now "live" a.database

states-switch_live :
    (env : Env) (token : Option String) (a : App)
    → (switch_live env token a).1.database.runtime_states ≡ a.database.runtime_states
unfolding switch_live
states-switch_live env none a = ground arith
states-switch_live env (some token) a = ground (
  arith,
  states-apply_mode env live (record a { live = (arm_live a.manager.settings token a.live).1 }),
)

states-switch :
    (env : Env) (token : Option String) (target : Option RunMode) (a : App)
    → (handle_switch env token target a).1.database.runtime_states ≡ a.database.runtime_states
unfolding handle_switch
states-switch env token none a = refl
states-switch env token (some stopped) a = states-apply_mode env stopped a
states-switch env token (some paper) a = states-apply_mode env paper a
states-switch env token (some live) a = states-switch_live env token a

module _ (P : Bool → ℕ → Type 0) (k : String) where
  -- the manager is cleared, and the audit row leaves the lock alone
  Locked-cleared :
      (j : Option String) (target : String) (a : App)
      → IsLocked P k a
      → IsLocked P k (
          audit "clear_cooldown" target "{}" "manual cooldown clear"
            (on_manager (Risk.clear_cooldown j) a))
  unfolding write_config_audit
  Locked-cleared j target a h = record {
    live = Holds-clear P k j a.manager h.live;
    stored = h.stored;
    found = h.found;
  }

  Locked-clear :
      (env : Env) (j : Option String) (a : App)
      → IsLocked P k a
      → IsLocked P k (handle_clear env j a)
  unfolding handle_clear
  Locked-clear env none a h =
      Locked-persist_all P k env.now _ _ (Locked-cleared none "all_routes" a h)
  Locked-clear env (some j) a h = elim (Bool-cases (j == "")) [
    | inl e ↦ rw e (Locked-persist_all P k env.now _ _ (Locked-cleared (some j) "all_routes" a h))
    | inr e ↦ rw e (Locked-persist P k env.now j _ (Locked-cleared (some j) j a h))
  ]

  Locked-route :
      (env : Env) (j : String) (enabled : Bool) (action reason : String) (op : Manager → Manager)
      (a : App)
      → (Holds P k a.manager → Holds P k (op a.manager))
      → IsLocked P k a
      → IsLocked P k (handle_route env j enabled action reason op a).1
  unfolding handle_route
  Locked-route env j enabled action reason op a keep h =
      let db =
        write_kill_switch_event "route" j action reason
          (set_route_enabled j enabled a.database).1 in
      let same : db.runtime_states ≡ a.database.runtime_states =
        unfold write_kill_switch_event in states-enabled j enabled a.database in
      let b : App = record a { manager = op a.manager; database = db } in
      Locked-persist P k env.now j b (Locked-changed P k a b same keep h)

  module _ (raise : (p : Bool) (l : ℕ) → P p l → P true l) where
    -- the commands that write no row of a route's state
    Locked-plain :
        (env : Env) (c : Command) (a : App)
        → (execute env c a).1.database.runtime_states ≡ a.database.runtime_states
        → (Holds P k a.manager → Holds P k (manager_effect c a.manager))
        → IsLocked P k a
        → IsLocked P k (execute env c a).1
    Locked-plain env c a same keep h =
        Locked-changed P k a (execute env c a).1 same (λ p. rw (execute-manager env c a) (keep p)) h

    pub Locked-execute :
        (env : Env) (c : Command) (a : App)
        → ((p : Bool) (l : ℕ) → c ≡ enable_route k → P p l → P false l)
        → IsLocked P k a
        → IsLocked P k (execute env c a).1
    Locked-execute env pause a leave h =
        Locked-plain env pause a
          (unfold execute handle_pause write_kill_switch_event in
            (send-database env _ _ _ _).0 ∙ states-set_pause env.now true a.database)
          (Holds-kill P k true a.manager) h
    Locked-execute env resume a leave h =
        Locked-plain env resume a
          (unfold execute handle_resume write_kill_switch_event in
            (send-database env _ _ _ _).0 ∙ states-set_pause env.now false a.database)
          (Holds-kill P k false a.manager) h
    Locked-execute env stop_all a leave h =
        Locked-plain env stop_all a
          (unfold execute handle_stop_all write_kill_switch_event in
            (send-database env _ _ _ _).0
            ∙ states-set_mode env.now (mode_value stopped)
                (set_global_pause env.now true a.database)
            ∙ states-set_pause env.now true a.database)
          (Holds-kill P k true a.manager) h
    Locked-execute env (disable_route j) a leave h =
        unfold execute in
        Locked-route env j false _ _ (Risk.pause_route j) a (Holds-pause P k raise j a.manager) h
    Locked-execute env (enable_route j) a leave h =
        unfold execute in
        Locked-route env j true _ _ (Risk.resume_route j) a
          (Holds-resume P k j a.manager (λ p l e. leave p l (ap enable_route e))) h
    Locked-execute env (switch_mode target token) a leave h =
        Locked-plain env (switch_mode target token) a
          (unfold execute in states-switch env token (run_mode (lower target)) a) (λ p. p) h
    Locked-execute env (disable_venue v) a leave h =
        Locked-plain env (disable_venue v) a (unfold execute write_config_audit in refl)
          (Holds-pause_venue P k v a.manager) h
    Locked-execute env (enable_venue v) a leave h =
        Locked-plain env (enable_venue v) a (unfold execute write_config_audit in refl)
          (Holds-resume_venue P k v a.manager) h
    Locked-execute env (Command.pause_strategy s) a leave h =
        Locked-plain env (Command.pause_strategy s) a
          (unfold execute write_config_audit in (send-database env _ _ _ _).0)
          (Holds-pause_strategy P k s a.manager) h
    Locked-execute env (Command.resume_strategy s) a leave h =
        Locked-plain env (Command.resume_strategy s) a
          (unfold execute write_config_audit in (send-database env _ _ _ _).0)
          (Holds-resume_strategy P k s a.manager) h
    Locked-execute env (Command.clear_cooldown j) a leave h =
        unfold execute in Locked-clear env j a h

    pub Locked-handle :
        (env : Env) (r : ApiRequest) (a : App)
        → ((p : Bool) (l : ℕ) → r.command ≡ enable_route k → P p l → P false l)
        → IsLocked P k a
        → IsLocked P k (handle env r a).1
    unfolding handle
    Locked-handle env r a leave h =
        elim (Bool-cases (r.token == a.manager.settings.control_api_token)) [
          | inl e ↦ rw e (Locked-execute env r.command a leave h)
          | inr e ↦ rw e h
        ]
