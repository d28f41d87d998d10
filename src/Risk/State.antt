-- ===== src/Risk/State.antt =====
-- app/risk/manager.py: `get_route_state`, the state of a route as a dict.
use arbitrage_bot.Base.{Bool, Option, String, contains, nat_eq, none, some, string_eq, ℕ}
use arbitrage_bot.Base.Dict.{lookup}
use arbitrage_bot.Risk.{stats_of, Manager, DateTime, aware, cooldown_remaining_seconds}

-- The text that `isoformat` gives of an instant in UTC, or the empty text. `fromisoformat` reads the
-- instant back.
pub data IsoText : Type 0 where
  empty_text : IsoText
  iso : ℕ → IsoText

unfoldable pub isoformat : Option ℕ → IsoText
isoformat none = empty_text
isoformat (some t) = iso t

unfoldable pub fromisoformat : IsoText → Option DateTime
fromisoformat empty_text = none
fromisoformat (iso t) = some (aware t)

pub record RouteState : Type 0 where
  pub route_id : String
  pub consecutive_failures : ℕ
  pub consecutive_losses : ℕ
  pub last_failure_category : String
  pub last_failure_reason : String
  pub last_failure_fatal : Bool
  pub last_failure_at : IsoText
  pub cooldown_until : IsoText
  pub cooldown_remaining_seconds : ℕ
  pub route_paused : Bool

unfoldable pub get_route_state : ℕ → String → Manager → RouteState
get_route_state now route_id m =
    let stats = stats_of route_id m in
    record {
      route_id = route_id;
      consecutive_failures = stats.consecutive_failures;
      consecutive_losses = stats.consecutive_losses;
      last_failure_category = stats.last_failure_category;
      last_failure_reason = stats.last_failure_reason;
      last_failure_fatal = stats.last_failure_fatal;
      last_failure_at = isoformat stats.last_failure_at;
      cooldown_until = isoformat (lookup route_id m.cooldown_until);
      cooldown_remaining_seconds = cooldown_remaining_seconds now route_id m;
      route_paused = contains route_id m.route_paused;
    }
