-- ===== src/App/Effects.antt =====
-- What a request does to the manager, to the live engine and to the rows of the routes' states.
use arbitrage_bot.Risk
use arbitrage_bot.App.Control.{
  on_database, apply_mode, handle_clear, handle_pause, handle_resume, handle_route, handle_stop_all,
  handle_switch, persist_all, run_mode, switch_live, Command, execute, disable_route, disable_venue,
  enable_route, enable_venue, pause, resume, stop_all, switch_mode,
}
use arbitrage_bot.Execution.{disarm_live, arm_live}
use arbitrage_bot.Repository.{set_global_pause, set_mode, Route}
use arbitrage_bot.App.Held.{send-database, send-manager}
use arbitrage_bot.App.{persist_route_state, App, Env}
use arbitrage_bot.Base.{
  Bool-cases, List, Option, String, [], arith, false, inl, inr, nat_eq, none, refl, some, string_eq,
  true, ℕ, ◌==◌, ◌∷◌, ◌≡◌,
}
use arbitrage_bot.Base.Text.{lower}
use arbitrage_bot.Settings.{RunMode, live, paper, stopped}
use arbitrage_bot.Risk.{Manager}

abbrev pub manager_effect : Command → Manager → Manager
manager_effect pause m = Risk.set_global_kill true m
manager_effect resume m = Risk.set_global_kill false m
manager_effect stop_all m = Risk.set_global_kill true m
manager_effect (disable_route k) m = Risk.pause_route k m
manager_effect (enable_route k) m = Risk.resume_route k m
manager_effect (switch_mode target token) m = m
manager_effect (disable_venue v) m = Risk.pause_venue v m
manager_effect (enable_venue v) m = Risk.resume_venue v m
manager_effect (Command.pause_strategy s) m = Risk.pause_strategy s m
manager_effect (Command.resume_strategy s) m = Risk.resume_strategy s m
manager_effect (Command.clear_cooldown k) m = Risk.clear_cooldown k m

apply_mode-manager :
    (env : Env) (mode : RunMode) (a : App) → (apply_mode env mode a).manager ≡ a.manager
unfolding apply_mode
apply_mode-manager env stopped a = send-manager env _ _ _ _
apply_mode-manager env paper a = refl
apply_mode-manager env live a = send-manager env _ _ _ _

switch_live-manager :
    (env : Env) (token : Option String) (a : App) → (switch_live env token a).1.manager ≡ a.manager
unfolding switch_live
switch_live-manager env none a = ground arith
switch_live-manager env (some token) a = ground (
  arith,
  apply_mode-manager env live (record a { live = (arm_live a.manager.settings token a.live).1 }),
)

switch-manager :
    (env : Env) (token : Option String) (target : Option RunMode) (a : App)
    → (handle_switch env token target a).1.manager ≡ a.manager
unfolding handle_switch
switch-manager env token none a = refl
switch-manager env token (some stopped) a = apply_mode-manager env stopped a
switch-manager env token (some paper) a = apply_mode-manager env paper a
switch-manager env token (some live) a = switch_live-manager env token a

persist_all-manager :
    (now : ℕ) (rs : List Route) (a : App) → (persist_all now rs a).manager ≡ a.manager
unfolding persist_all persist_route_state
persist_all-manager now [] a = refl
persist_all-manager now (r ∷ rs) a = persist_all-manager now rs (persist_route_state now r.id a)

clear-manager :
    (env : Env) (j : Option String) (a : App)
    → (handle_clear env j a).manager ≡ Risk.clear_cooldown j a.manager
unfolding handle_clear persist_route_state
clear-manager env none a = persist_all-manager env.now _ _
clear-manager env (some j) a = elim (Bool-cases (j == "")) [
  | inl e ↦ rw e (persist_all-manager env.now _ _)
  | inr e ↦ rw e refl
]

-- Each command does to the manager what its name says.
pub execute-manager :
    (env : Env) (c : Command) (a : App) → (execute env c a).1.manager ≡ manager_effect c a.manager
unfolding execute handle_pause handle_resume handle_stop_all handle_route persist_route_state
execute-manager env pause a = send-manager env _ _ _ _
execute-manager env resume a = send-manager env _ _ _ _
execute-manager env stop_all a = send-manager env _ _ _ _
execute-manager env (disable_route k) a = refl
execute-manager env (enable_route k) a = refl
execute-manager env (switch_mode target token) a =
    switch-manager env token (run_mode (lower target)) a
execute-manager env (disable_venue v) a = refl
execute-manager env (enable_venue v) a = refl
execute-manager env (Command.pause_strategy s) a = send-manager env _ _ _ _
execute-manager env (Command.resume_strategy s) a = send-manager env _ _ _ _
execute-manager env (Command.clear_cooldown k) a = clear-manager env k a

persist_all-scanning :
    (now : ℕ) (rs : List Route) (a : App) → (persist_all now rs a).scanning ≡ a.scanning
unfolding persist_all persist_route_state
persist_all-scanning now [] a = refl
persist_all-scanning now (r ∷ rs) a = persist_all-scanning now rs (persist_route_state now r.id a)

switch-scanning :
    (env : Env) (token : Option String) (target : Option RunMode) (a : App)
    → (handle_switch env token target a).1.scanning ≡ a.scanning
unfolding handle_switch apply_mode switch_live
switch-scanning env token none a = refl
switch-scanning env token (some stopped) a =
    (send-database env _ _ _ (
      on_database (λ db. set_global_pause env.now true (set_mode env.now "stopped" db))
        (record a { live = disarm_live a.live }))).3
switch-scanning env token (some paper) a = refl
switch-scanning env none (some live) a = ground arith
switch-scanning env (some token) (some live) a = grind (arith, send-database)

clear-scanning :
    (env : Env) (j : Option String) (a : App) → (handle_clear env j a).scanning ≡ a.scanning
unfolding handle_clear persist_route_state
clear-scanning env none a = persist_all-scanning env.now _ _
clear-scanning env (some j) a = elim (Bool-cases (j == "")) [
  | inl e ↦ rw e (persist_all-scanning env.now _ _)
  | inr e ↦ rw e refl
]

-- No command begins or ends a round.
pub execute-scanning :
    (env : Env) (c : Command) (a : App) → (execute env c a).1.scanning ≡ a.scanning
unfolding execute handle_pause handle_resume handle_stop_all handle_route persist_route_state
execute-scanning env pause a = (send-database env _ _ _ _).3
execute-scanning env resume a = (send-database env _ _ _ _).3
execute-scanning env stop_all a = (send-database env _ _ _ _).3
execute-scanning env (disable_route k) a = refl
execute-scanning env (enable_route k) a = refl
execute-scanning env (switch_mode target token) a =
    switch-scanning env token (run_mode (lower target)) a
execute-scanning env (disable_venue v) a = refl
execute-scanning env (enable_venue v) a = refl
execute-scanning env (Command.pause_strategy s) a = (send-database env _ _ _ _).3
execute-scanning env (Command.resume_strategy s) a = (send-database env _ _ _ _).3
execute-scanning env (Command.clear_cooldown k) a = clear-scanning env k a
