-- ===== src/Risk.antt =====
-- app/risk/manager.py: the state of `GlobalRiskManager` and the operations on it.
-- An instant is the number of microseconds since the year 1, UTC; `datetime.now` is an argument.
pub mod Guards
pub mod Order
pub mod Evaluate
pub mod Decision
pub mod Safety
pub mod Conditions
pub mod Blocks
pub mod Permit
pub mod Stats
pub mod Window
pub mod Runs
pub mod Failures
pub mod State
use arbitrage_bot.Base.{
  Bool, List, Option, String, [], contains, false, if◌then◌else◌, ltb, map, nat_eq, none, some,
  string_eq, true, ℕ, ◌*◌, ◌++◌, ◌+◌, ◌-◌, ◌/◌, ◌==◌, ◌∷◌,
}
use arbitrage_bot.Base.Dict.{Dict, erase, get_or, insert, lookup, set_add, set_discard}
use arbitrage_bot.Base.Int.{negsuc, pos, pos_part, ℤ}
use arbitrage_bot.Base.Result.{Result, ok, ◌>>=◌}
use arbitrage_bot.Decimal.{Decimal, add, dec, div, le, lt, neg}
use arbitrage_bot.Settings.{Settings}

-- `datetime`: without a time zone, or an instant in UTC
pub data DateTime : Type 0 where
  naive : ℕ → DateTime
  aware : ℕ → DateTime

abbrev pub second : ℕ
second = 1_000_000

abbrev pub ten_minutes : ℕ
ten_minutes = 600 * second

-- `dt + timedelta(seconds=n)`
unfoldable pub add_seconds : ℕ → ℤ → ℕ
add_seconds t (pos n) = t + n * second
add_seconds t (negsuc n) = t - (n + 1) * second

-- `dt.date()`, as a day number
unfoldable pub date_of : ℕ → ℕ
date_of t = t / (86400 * second)

-- `RouteStats`
pub record RouteStats : Type 0 where
  pub consecutive_failures : ℕ
  pub consecutive_losses : ℕ
  pub executions : List ℕ
  pub last_failure_category : String
  pub last_failure_reason : String
  pub last_failure_at : Option ℕ
  pub last_failure_fatal : Bool

abbrev pub new_stats : RouteStats
new_stats = record {
  consecutive_failures = 0;
  consecutive_losses = 0;
  executions = [];
  last_failure_category = "";
  last_failure_reason = "";
  last_failure_at = none;
  last_failure_fatal = false;
}

abbrev pub fatal_failure_categories : List String
fatal_failure_categories =
    "quote_mismatch" ∷ "revert" ∷ "invalid_address" ∷ "chain_id_mismatch"
    ∷ "router_allowlist_violation" ∷ "stale_critical_data" ∷ "quote_unavailable" ∷ "scan_fatal" ∷ []

-- `GlobalRiskManager`
pub record Manager : Type 0 where
  pub settings : Settings
  pub global_kill_switch : Bool
  pub strategy_paused : List String
  pub route_paused : List String
  pub pair_paused : List String
  pub venue_paused : List String
  pub cooldown_until : Dict ℕ
  pub route_stats : Dict RouteStats
  pub daily_realized_pnl : Decimal
  pub day_anchor : ℕ

unfoldable pub new_manager : Settings → ℕ → Manager
unfolding date_of
new_manager settings now = record {
  settings = settings;
  global_kill_switch = settings.global_kill_switch;
  strategy_paused = [];
  route_paused = [];
  pair_paused = [];
  venue_paused = [];
  cooldown_until = [];
  route_stats = [];
  daily_realized_pnl = dec 0 0;
  day_anchor = date_of now;
}

-- `_as_utc`
unfoldable pub as_utc : Option DateTime → Option ℕ
as_utc none = none
as_utc (some (naive t)) = some t
as_utc (some (aware t)) = some t

unfoldable pub reset_daily_if_needed : ℕ → Manager → Manager
reset_daily_if_needed now m =
    if date_of now == m.day_anchor
    then m
    else record m { day_anchor = date_of now; daily_realized_pnl = dec 0 0 }

unfoldable pub set_global_kill : Bool → Manager → Manager
set_global_kill paused m = record m { global_kill_switch = paused }

unfoldable pub pause_strategy : String → Manager → Manager
pause_strategy strategy m = record m { strategy_paused = set_add strategy m.strategy_paused }

unfoldable pub resume_strategy : String → Manager → Manager
resume_strategy strategy m = record m { strategy_paused = set_discard strategy m.strategy_paused }

unfoldable pub pause_route : String → Manager → Manager
pause_route route_id m = record m { route_paused = set_add route_id m.route_paused }

unfoldable pub resume_route : String → Manager → Manager
resume_route route_id m = record m { route_paused = set_discard route_id m.route_paused }

unfoldable pub pause_pair : String → Manager → Manager
pause_pair pair m = record m { pair_paused = set_add pair m.pair_paused }

unfoldable pub resume_pair : String → Manager → Manager
resume_pair pair m = record m { pair_paused = set_discard pair m.pair_paused }

unfoldable pub pause_venue : String → Manager → Manager
pause_venue venue m = record m { venue_paused = set_add venue m.venue_paused }

unfoldable pub resume_venue : String → Manager → Manager
resume_venue venue m = record m { venue_paused = set_discard venue m.venue_paused }

-- `self.route_stats[route_id]` on the `defaultdict`
unfoldable pub stats_of : String → Manager → RouteStats
stats_of route_id m = get_or route_id new_stats m.route_stats

unfoldable pub put_stats : String → RouteStats → Manager → Manager
put_stats route_id stats m = record m { route_stats = insert route_id stats m.route_stats }

-- the failure fields that `clear_cooldown` and `mark_success` reset
abbrev pub without_failure : RouteStats → RouteStats
without_failure stats = record stats {
  consecutive_failures = 0;
  last_failure_category = "";
  last_failure_reason = "";
  last_failure_at = none;
  last_failure_fatal = false;
}

abbrev pub clear_entry : String × RouteStats → String × RouteStats
clear_entry (route_id, stats) = (route_id, without_failure stats)

-- `if route_id:` also takes the empty text to the branch of all routes
unfoldable pub clear_cooldown : Option String → Manager → Manager
clear_cooldown none m = record m {
  cooldown_until = [];
  route_stats = map clear_entry m.route_stats;
}
clear_cooldown (some route_id) m =
    if route_id == ""
    then record m { cooldown_until = []; route_stats = map clear_entry m.route_stats }
    else put_stats route_id (without_failure (stats_of route_id m))
        (record m { cooldown_until = erase route_id m.cooldown_until })

-- `mark_failure`; both calls of `datetime.now` are the one instant
unfoldable pub mark_failure : ℕ → String → String → String → Manager → Manager
mark_failure now route_id category reason m =
    let fatal = contains category fatal_failure_categories in
    let stats = stats_of route_id m in
    let cooldown =
      if fatal
      then m.settings.route_fatal_failure_cooldown_seconds
      else m.settings.route_failure_cooldown_seconds in
    let counted =
      put_stats route_id
        (record stats {
          consecutive_failures = stats.consecutive_failures + 1;
          last_failure_category = category;
          last_failure_reason = reason;
          last_failure_at = some now;
          last_failure_fatal = fatal;
        })
        m in
    let cooled = record counted {
      cooldown_until = insert route_id (add_seconds now cooldown) counted.cooldown_until;
    } in
    if fatal then pause_route route_id cooled else cooled

-- the loop `while executions and executions[0] < cutoff: executions.popleft()`
unfoldable pub trim : ℕ → List ℕ → List ℕ
trim cutoff [] = []
trim cutoff (t ∷ ts) = let rest = trim cutoff ts in if ltb t cutoff then rest else t ∷ ts

unfoldable pub mark_success : ℕ → String → Decimal → Manager → Manager
mark_success now route_id realized_pnl m =
    let fresh = reset_daily_if_needed now m in
    let stats = without_failure (stats_of route_id fresh) in
    let losses = if lt realized_pnl (dec 0 0) then stats.consecutive_losses + 1 else 0 in
    put_stats route_id
      (record stats {
        consecutive_losses = losses;
        executions = trim (now - ten_minutes) (stats.executions ++ now ∷ []);
      })
      (record fresh { daily_realized_pnl = add fresh.daily_realized_pnl realized_pnl })

unfoldable pub should_stop_for_daily_dd : Decimal → Manager → Result Bool
should_stop_for_daily_dd balance_baseline m =
    if le balance_baseline (dec 0 0)
    then ok true
    else div (neg m.daily_realized_pnl) balance_baseline >>= λ dd.
        ok (le m.settings.global_daily_dd_stop_pct dd)

-- whole seconds left; `int` of a difference below one second, or negative, gives 0 after `max`
unfoldable pub cooldown_remaining_seconds : ℕ → String → Manager → ℕ
cooldown_remaining_seconds now route_id m = elim (lookup route_id m.cooldown_until) [
  | none ↦ 0
  | some until ↦ (until - now) / second
]

-- the cooldown that a hydration leaves: the given end if it lies ahead, and else none
unfoldable pub hydrated_cooldown : ℕ → String → Option ℕ → Dict ℕ → Dict ℕ
hydrated_cooldown now route_id none d = erase route_id d
hydrated_cooldown now route_id (some until) d =
    if ltb now until then insert route_id until d else erase route_id d

-- `hydrate_route_state`
unfoldable pub hydrate_route_state :
    ℕ
    → String
    → Bool
    → Option DateTime
    → String
    → String
    → Bool
    → Option DateTime
    → ℤ
    → ℤ
    → Manager
    → Manager
hydrate_route_state now route_id paused cooldown category reason fatal failure_at failures losses
      m =
    let stats = stats_of route_id m in
    let hydrated =
      put_stats route_id
        (record stats {
          consecutive_failures = pos_part failures;
          consecutive_losses = pos_part losses;
          last_failure_category = category;
          last_failure_reason = reason;
          last_failure_fatal = fatal;
          last_failure_at = as_utc failure_at;
        })
        m in
    let switched =
      if paused then pause_route route_id hydrated else resume_route route_id hydrated in
    record switched {
      cooldown_until = hydrated_cooldown now route_id (as_utc cooldown) switched.cooldown_until;
    }
