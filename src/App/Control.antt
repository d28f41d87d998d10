-- ===== src/App/Control.antt =====
-- app/api/router.py: the handlers under `/control`.
use arbitrage_bot.Risk
use arbitrage_bot.Risk.{set_global_kill, Manager}
use arbitrage_bot.Base.{
  Bool, List, Option, String, [], false, if◌then◌else◌, nat_eq, none, not, some, string_eq, true, ℕ,
  ◌==◌, ◌∷◌,
}
use arbitrage_bot.Base.Text.{lower}
use arbitrage_bot.App.{App, Env, persist_route_state, send}
use arbitrage_bot.Execution.{arm_live, disarm_live}
use arbitrage_bot.Repository.{
  Database, Route, set_global_pause, set_mode, set_route_enabled, write_config_audit,
  write_kill_switch_event,
}
use arbitrage_bot.Settings.{RunMode, live, paper, stopped}
use Prim.Native.String.{◌++◌ as ◌<>◌}

-- one constructor for each handler, with the fields of its payload
pub data Command : Type 0 where
  pause resume stop_all : Command
  disable_route enable_route : String → Command
  switch_mode : String → Option String → Command
  disable_venue enable_venue : String → Command
  pause_strategy resume_strategy : String → Command
  clear_cooldown : Option String → Command

pub record ApiRequest : Type 0 where
  pub token : String
  pub command : Command

-- a response with the status 200 and the fields of its body that vary, or an `HTTPException`
pub data Response : Type 0 where
  accepted : Bool → Response
  http_error : ℕ → String → Response

abbrev pub on_manager : (Manager → Manager) → App → App
on_manager f a = record a { manager = f a.manager }

abbrev pub on_database : (Database → Database) → App → App
on_database f a = record a { database = f a.database }

-- `RunMode(value)`, none where it raises `ValueError`
unfoldable pub run_mode : String → Option RunMode
run_mode value =
    if value == "stopped"
    then some stopped
    else if value == "paper"
    then some paper
    else if value == "live"
    then some live
    else none

unfoldable pub mode_value : RunMode → String
mode_value stopped = "stopped"
mode_value paper = "paper"
mode_value live = "live"

unfoldable pub handle_pause : Env → App → App
handle_pause env a = send env "WARN" "strategy_paused" "global pause activated" (
    on_manager (set_global_kill true) (
      on_database
        (λ db.
          write_kill_switch_event "global" "global" "trigger" "manual_pause"
            (set_global_pause env.now true db))
        a))

unfoldable pub handle_resume : Env → App → App
handle_resume env a = send env "INFO" "strategy_resumed" "global pause released" (
    on_manager (set_global_kill false) (
      on_database
        (λ db.
          write_kill_switch_event "global" "global" "release" "manual_resume"
            (set_global_pause env.now false db))
        a))

unfoldable pub handle_stop_all : Env → App → App
handle_stop_all env a =
    let stored =
      on_database
        (λ db.
          write_kill_switch_event "global" "global" "trigger" "stop_all"
            (set_mode env.now (mode_value stopped) (set_global_pause env.now true db)))
        a in
    let killed = on_manager (set_global_kill true) stored in
    send env "WARN" "kill_switch_triggered" "stop-all invoked"
      (record killed { live = disarm_live killed.live })

-- `disable_route` and `enable_route`, with the operation on the manager
unfoldable pub handle_route :
    Env → String → Bool → String → String → (Manager → Manager) → App → Response × App
handle_route env route_id enabled action reason op a =
    let (updated, db) = set_route_enabled route_id enabled a.database in
    let stored = record a {
      database = write_kill_switch_event "route" route_id action reason db;
    } in
    (accepted updated, persist_route_state env.now route_id (on_manager op stored))

-- the part of `switch_mode` after the checks
unfoldable pub apply_mode : Env → RunMode → App → App
apply_mode env stopped a =
    let disarmed = record a { live = disarm_live a.live } in
    send env "WARN" "kill_switch_triggered" "mode switched to stopped"
      (on_database (λ db. set_global_pause env.now true (set_mode env.now "stopped" db)) disarmed)
apply_mode env paper a =
    on_database (set_mode env.now "paper") (record a { live = disarm_live a.live })
apply_mode env live a =
    send env "INFO" "mode_switch" "live mode armed" (on_database (set_mode env.now "live") a)

-- the checks of a switch to live
unfoldable pub switch_live : Env → Option String → App → Response × App
switch_live env none a =
    if not a.manager.settings.live_enable_flag
    then (http_error 400 "live mode disabled by env", a)
    else (http_error 400 "live_confirmation_token required", a)
switch_live env (some token) a =
    if not a.manager.settings.live_enable_flag
    then (http_error 400 "live mode disabled by env", a)
    else if token == ""
    then (http_error 400 "live_confirmation_token required", a)
    else let (armed, engine) = arm_live a.manager.settings token a.live in
      if armed
      then (accepted true, apply_mode env live (record a { live = engine }))
      else (http_error 401 "invalid live confirmation token", record a { live = engine })

unfoldable pub handle_switch : Env → Option String → Option RunMode → App → Response × App
handle_switch env token none a = (http_error 400 "invalid target_mode", a)
handle_switch env token (some stopped) a = (accepted true, apply_mode env stopped a)
handle_switch env token (some paper) a = (accepted true, apply_mode env paper a)
handle_switch env token (some live) a = switch_live env token a

-- `write_config_audit` as the handlers call it
abbrev pub audit : String → String → String → String → App → App
audit action target after_json remark =
    on_database (write_config_audit "api" action target "{}" after_json remark)

-- `for route in routes: await _persist_route_state(…)`
unfoldable pub persist_all : ℕ → List Route → App → App
persist_all now [] a = a
persist_all now (r ∷ rs) a = persist_all now rs (persist_route_state now r.id a)

-- `payload.route_id or "all_routes"`, and whether the text is there
unfoldable pub handle_clear : Env → Option String → App → App
handle_clear env none a =
    let cleared =
      audit "clear_cooldown" "all_routes" "{}" "manual cooldown clear"
        (on_manager (Risk.clear_cooldown none) a) in
    persist_all env.now cleared.database.routes cleared
handle_clear env (some route_id) a =
    let cleared = on_manager (Risk.clear_cooldown (some route_id)) a in
    let everything = audit "clear_cooldown" "all_routes" "{}" "manual cooldown clear" cleared in
    let one = audit "clear_cooldown" route_id "{}" "manual cooldown clear" cleared in
    if route_id == ""
    then persist_all env.now everything.database.routes everything
    else persist_route_state env.now route_id one

unfoldable pub execute : Env → Command → App → Response × App
execute env pause a = (accepted true, handle_pause env a)
execute env resume a = (accepted true, handle_resume env a)
execute env stop_all a = (accepted true, handle_stop_all env a)
execute env (disable_route k) a =
    handle_route env k false "trigger" "manual_disable_route" (Risk.pause_route k) a
execute env (enable_route k) a =
    handle_route env k true "release" "manual_enable_route" (Risk.resume_route k) a
execute env (switch_mode target token) a = handle_switch env token (run_mode (lower target)) a
execute env (disable_venue v) a = (
  accepted true,
  audit "disable_venue" ("venue." <> v) "{\"enabled\":false}" "manual venue disable"
      (on_manager (Risk.pause_venue v) a),
)
execute env (enable_venue v) a = (
  accepted true,
  audit "enable_venue" ("venue." <> v) "{\"enabled\":true}" "manual venue enable"
      (on_manager (Risk.resume_venue v) a),
)
execute env (pause_strategy s) a = (
  accepted true,
  send env "WARN" "strategy_paused" ("strategy paused: " <> s) (
      audit "pause_strategy" ("strategy." <> s) "{\"paused\":true}" "manual strategy pause"
        (on_manager (Risk.pause_strategy s) a)),
)
execute env (resume_strategy s) a = (
  accepted true,
  send env "INFO" "strategy_resumed" ("strategy resumed: " <> s) (
      audit "resume_strategy" ("strategy." <> s) "{\"paused\":false}" "manual strategy resume"
        (on_manager (Risk.resume_strategy s) a)),
)
execute env (clear_cooldown k) a = (accepted true, handle_clear env k a)

-- a handler: the token is checked first
unfoldable pub handle : Env → ApiRequest → App → Response × App
handle env r a =
    if r.token == a.manager.settings.control_api_token
    then execute env r.command a
    else (http_error 401 "invalid control token", a)
