-- ===== src/Repository.antt =====
-- app/db/repository.py: the tables that the control of the program writes, as lists of rows, and the
-- operations on them. A transaction commits; an identifier and a run id are left out where no
-- operation reads them.
use arbitrage_bot.Base.{
  any, Bool, List, Option, String, [], false, if◌then◌else◌, leb, nat_eq, none, not, some,
  string_eq, true, ℕ, ◌&&◌, ◌++◌, ◌==◌, ◌||◌, ◌∷◌,
}
use arbitrage_bot.Base.Int.{pos, ℤ}
use arbitrage_bot.Decimal.{Decimal}
use arbitrage_bot.Risk.{DateTime}
use Prim.Native.String.{◌++◌ as ◌<>◌}

-- the columns of `RuntimeControl` that are read
pub record RuntimeControl : Type 0 where
  pub mode : String
  pub global_pause : Bool
  pub updated_at : ℕ

-- `Route`; the older fee columns are not read
pub record Route : Type 0 where
  pub id : String
  pub strategy : String
  pub name : String
  pub pair : String
  pub direction : String
  pub venue_a : String
  pub venue_b : String
  pub pool_a : String
  pub pool_b : String
  pub quoter_fee_tier_a : ℤ
  pub quoter_fee_tier_b : ℤ
  pub pool_fee_tier_a : ℤ
  pub pool_fee_tier_b : ℤ
  pub economic_fee_bps_a : ℤ
  pub economic_fee_bps_b : ℤ
  pub max_notional_usdc : Decimal
  pub enabled : Bool
  pub kill_switch : Bool

-- `RouteRuntimeState`
pub record RouteRuntimeState : Type 0 where
  pub route_id : String
  pub paused : Bool
  pub cooldown_until : Option DateTime
  pub last_failure_category : String
  pub last_failure_reason : String
  pub last_failure_fatal : Bool
  pub last_failure_at : Option DateTime
  pub consecutive_failures : ℤ
  pub consecutive_losses : ℤ

-- `KillSwitchEvent`, `ConfigAuditLog` and `Alert`
pub record KillSwitchEvent : Type 0 where
  pub scope : String
  pub scope_ref : String
  pub action : String
  pub reason : String

pub record ConfigAuditLog : Type 0 where
  pub actor : String
  pub action : String
  pub target : String
  pub before_json : String
  pub after_json : String
  pub notes : String

pub record Alert : Type 0 where
  pub level : String
  pub category : String
  pub message : String
  pub sent : Bool
  pub error : String

pub record Database : Type 0 where
  pub controls : List RuntimeControl
  pub routes : List Route
  pub runtime_states : List RouteRuntimeState
  pub kill_events : List KillSwitchEvent
  pub audits : List ConfigAuditLog
  pub alerts : List Alert

-- no row is newer
unfoldable pub is_newest : RuntimeControl → List RuntimeControl → Bool
is_newest c [] = true
is_newest c (d ∷ ds) = leb d.updated_at c.updated_at && is_newest c ds

-- the first row in the order `updated_at.desc()`
unfoldable pub latest_control : List RuntimeControl → Option RuntimeControl
latest_control [] = none
latest_control (c ∷ cs) = if is_newest c cs then some c else latest_control cs

-- a change of that row
unfoldable pub edit_latest :
    (RuntimeControl → RuntimeControl) → List RuntimeControl → List RuntimeControl
edit_latest f [] = []
edit_latest f (c ∷ cs) = if is_newest c cs then f c ∷ cs else c ∷ edit_latest f cs

abbrev pub new_control : ℕ → RuntimeControl
new_control now = record { mode = "paper"; global_pause = false; updated_at = now }

-- a missing row is added
unfoldable pub get_runtime_control : ℕ → Database → RuntimeControl × Database
get_runtime_control now db = elim (latest_control db.controls) [
  | none ↦ (new_control now, record db { controls = db.controls ++ new_control now ∷ [] })
  | some c ↦ (c, db)
]

unfoldable pub write_config_audit :
    String → String → String → String → String → String → Database → Database
write_config_audit actor action target before_json after_json notes db = record db {
  audits =
      db.audits
      ++ record {
        actor = actor;
        action = action;
        target = target;
        before_json = before_json;
        after_json = after_json;
        notes = notes;
      }
        ∷ [];
}

unfoldable pub write_kill_switch_event : String → String → String → String → Database → Database
write_kill_switch_event scope scope_ref action reason db = record db {
  kill_events =
      db.kill_events
      ++ record { scope = scope; scope_ref = scope_ref; action = action; reason = reason } ∷ [];
}

unfoldable pub mode_json : String → String
mode_json mode = "{\"mode\":\"" <> (mode <> "\"}")

unfoldable pub set_mode : ℕ → String → Database → Database
set_mode now mode db =
    let (c, db') = get_runtime_control now db in
    write_config_audit "api" "switch_mode" "runtime_controls.mode" (mode_json c.mode)
      (mode_json mode) "manual mode switch"
      (record db' {
        controls = edit_latest (λ r. record r { mode = mode; updated_at = now }) db'.controls;
      })

unfoldable pub set_global_pause : ℕ → Bool → Database → Database
set_global_pause now value db =
    let db' = (get_runtime_control now db).1 in
    record db' {
      controls =
          edit_latest (λ r. record r { global_pause = value; updated_at = now }) db'.controls;
    }

unfoldable pub find_route : String → List Route → Option Route
find_route route_id [] = none
find_route route_id (r ∷ rs) =
    let rest = find_route route_id rs in if r.id == route_id then some r else rest

-- `update(Route).where(Route.id == route_id).values(enabled=enabled)`
unfoldable pub enable_rows : String → Bool → List Route → List Route
enable_rows route_id enabled [] = []
enable_rows route_id enabled (r ∷ rs) =
    let rest = enable_rows route_id enabled rs in
    if r.id == route_id then record r { enabled = enabled } ∷ rest else r ∷ rest

unfoldable pub enabled_json : Bool → String
enabled_json true = "{\"enabled\":true}"
enabled_json false = "{\"enabled\":false}"

-- whether a row was changed, and the new tables
unfoldable pub set_route_enabled : String → Bool → Database → Bool × Database
set_route_enabled route_id enabled db = elim (find_route route_id db.routes) [
  | none ↦ (false, db)
  | some before ↦ (
    true,
    write_config_audit "api" "set_route_enabled" ("routes." <> (route_id <> ".enabled"))
        (enabled_json before.enabled) (enabled_json enabled) "manual route control"
        (record db { routes = enable_rows route_id enabled db.routes }),
  )
]

unfoldable pub route_matches : Option String → Bool → Route → Bool
route_matches none enabled_only r = not enabled_only || (r.enabled && not r.kill_switch)
route_matches (some strategy) enabled_only r =
    (strategy == "" || r.strategy == strategy)
    && (not enabled_only || (r.enabled && not r.kill_switch))

-- `get_routes`; the rows stand in the order of their creation
unfoldable pub get_routes : Option String → Bool → List Route → List Route
get_routes strategy enabled_only [] = []
get_routes strategy enabled_only (r ∷ rs) =
    let rest = get_routes strategy enabled_only rs in
    if route_matches strategy enabled_only r then r ∷ rest else rest

unfoldable pub get_route_runtime_state : String → List RouteRuntimeState → Option RouteRuntimeState
get_route_runtime_state route_id [] = none
get_route_runtime_state route_id (r ∷ rs) =
    let rest = get_route_runtime_state route_id rs in
    if r.route_id == route_id then some r else rest

-- `upsert_route_runtime_state`: the row of the route is overwritten, or added
unfoldable pub upsert : RouteRuntimeState → List RouteRuntimeState → List RouteRuntimeState
upsert row [] = row ∷ []
upsert row (r ∷ rs) =
    let rest = upsert row rs in if r.route_id == row.route_id then row ∷ rs else r ∷ rest

unfoldable pub upsert_route_runtime_state : RouteRuntimeState → Database → Database
unfolding upsert
upsert_route_runtime_state row db = record db { runtime_states = upsert row db.runtime_states }

-- the row of a route that has none
abbrev pub new_state : String → RouteRuntimeState
new_state route_id = record {
  route_id = route_id;
  paused = false;
  cooldown_until = none;
  last_failure_category = "";
  last_failure_reason = "";
  last_failure_fatal = false;
  last_failure_at = none;
  consecutive_failures = pos 0;
  consecutive_losses = pos 0;
}

-- the loop of `ensure_route_runtime_states`
unfoldable pub ensure_states : List Route → List RouteRuntimeState → List RouteRuntimeState
ensure_states [] rows = rows
ensure_states (r ∷ rs) rows =
    let added = ensure_states rs (rows ++ new_state r.id ∷ []) in
    let kept = ensure_states rs rows in
    if any (λ row. row.route_id == r.id) rows then kept else added

unfoldable pub ensure_route_runtime_states : Database → Database
unfolding ensure_states
ensure_route_runtime_states db = record db {
  runtime_states = ensure_states db.routes db.runtime_states;
}
