-- ===== src/App.antt =====
-- app/app_state.py: the state that the API and the job runner share, with the tables of the
-- database; and what both do with it: alerts (app/alerts/service.py), keeping the state of a route
-- (`_persist_route_state`, `_persist_route_runtime_state`) and the start of `BotRunner`.
pub mod Control
pub mod Scan
pub mod Steps
pub mod Lock
pub mod Ops
pub mod Held
pub mod Effects
pub mod Unique
pub mod Fixed
pub mod Handlers
pub mod Locked
pub mod Lockout
pub mod View
pub mod Shown
pub mod Switching
pub mod Refines
pub mod Switches
pub mod Rounds
pub mod Restores
pub mod Arming
pub mod Stopping
pub mod Recovery
use arbitrage_bot.Repository.{
  ensure_route_runtime_states, Alert, Database, RouteRuntimeState, upsert_route_runtime_state,
}
use arbitrage_bot.Base.{
  Bool, List, Option, String, [], false, if◌then◌else◌, none, some, true, ℕ, ◌++◌, ◌+◌, ◌∷◌,
}
use arbitrage_bot.Base.Int.{pos}
use arbitrage_bot.Risk.State.{fromisoformat, get_route_state, isoformat}
use arbitrage_bot.Execution.{LiveEngine, new_engine}
use arbitrage_bot.Risk.{Manager, hydrate_route_state, new_manager}

-- `AlertService`; without a webhook nothing is posted
pub record AlertService : Type 0 where
  pub has_webhook : Bool
  pub failure_count : ℕ

-- The settings are those of the manager. `scanning` says that the scan loop has begun a round since
-- the start.
pub record App : Type 0 where
  pub manager : Manager
  pub live : LiveEngine
  pub database : Database
  pub alerts : AlertService
  pub scanning : Bool

-- what the outside gives a step: the time, and what the posting of an alert comes to, none where it
-- succeeds and else the error's text
pub record Env : Type 0 where
  pub now : ℕ
  pub post_error : Option String

unfoldable pub add_alert : String → String → String → Bool → String → Database → Database
add_alert level category message sent error db = record db {
  alerts =
      db.alerts
      ++ record {
        level = level;
        category = category;
        message = message;
        sent = sent;
        error = error;
      }
        ∷ [];
}

-- `AlertService.send`
unfoldable pub send : Env → String → String → String → App → App
unfolding add_alert
send env level category message a =
    if a.alerts.has_webhook
    then elim env.post_error [
      | none ↦ record a {
        alerts = record a.alerts { failure_count = 0 };
        database = add_alert level category message true "" a.database;
      }
      | some error ↦ record a {
        alerts = record a.alerts { failure_count = a.alerts.failure_count + 1 };
        database = add_alert level category message false error a.database;
      }
    ]
    else record a {
      database = add_alert level category message false "webhook_not_configured" a.database;
    }

-- the row that is made of the state of a route
unfoldable pub runtime_row : ℕ → String → Manager → RouteRuntimeState
unfolding get_route_state isoformat fromisoformat
runtime_row now route_id m =
    let state = get_route_state now route_id m in
    record {
      route_id = route_id;
      paused = state.route_paused;
      cooldown_until = fromisoformat state.cooldown_until;
      last_failure_category = state.last_failure_category;
      last_failure_reason = state.last_failure_reason;
      last_failure_fatal = state.last_failure_fatal;
      last_failure_at = fromisoformat state.last_failure_at;
      consecutive_failures = pos state.consecutive_failures;
      consecutive_losses = pos state.consecutive_losses;
    }

unfoldable pub persist_route_state : ℕ → String → App → App
persist_route_state now route_id a = record a {
  database = upsert_route_runtime_state (runtime_row now route_id a.manager) a.database;
}

unfoldable pub hydrate : ℕ → RouteRuntimeState → Manager → Manager
hydrate now row m =
    hydrate_route_state now row.route_id row.paused row.cooldown_until row.last_failure_category
      row.last_failure_reason row.last_failure_fatal row.last_failure_at row.consecutive_failures
      row.consecutive_losses m

-- the loop of `start`
unfoldable pub hydrate_all : ℕ → List RouteRuntimeState → Manager → Manager
unfolding hydrate
hydrate_all now [] m = m
hydrate_all now (row ∷ rows) m = hydrate_all now rows (hydrate now row m)

-- A new process on the same database: each route gets a row, then `build_app_state` and `start`. The
-- scan loop is taken to do nothing before the rows are read, which no call ensures. A route has one
-- row, so that the order in which they are read does not matter.
unfoldable pub restart : Env → App → App
restart env a =
    let db = ensure_route_runtime_states a.database in
    send env "INFO" "startup" "bot runner started" (record a {
      manager = hydrate_all env.now db.runtime_states (new_manager a.manager.settings env.now);
      database = db;
      live = new_engine;
      alerts = record a.alerts { failure_count = 0 };
      scanning = false;
    })
