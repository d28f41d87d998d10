-- ===== src/Risk/Runs.antt =====
-- The operations on the risk manager as requests, and runs of them at given instants. `BotRunner`
-- and the control API make such calls in any order.
use arbitrage_bot.Base.{
  Bool, List, Option, String, [], false, inl, inr, none, refl, some, true, ℕ, ◌∷◌, ◌≡◌, ◌⊎◌,
}
use arbitrage_bot.Base.Dict.{Dict}
use arbitrage_bot.Base.Int.{ℤ}
use arbitrage_bot.Base.Result.{Result, err, ok}
use arbitrage_bot.Decimal.{Decimal}
use arbitrage_bot.Risk.{
  DateTime, Manager, clear_cooldown, hydrate_route_state, mark_failure, mark_success, pause_pair,
  pause_route, pause_strategy, pause_venue, resume_pair, resume_route, resume_strategy,
  resume_venue, set_global_kill,
}
use arbitrage_bot.Risk.Evaluate.{evaluate, evaluate_route, run_guards, static_guards, trim_route}
use arbitrage_bot.Risk.Guards.{Request}

pub data Op : Type 0 where
  -- `set_global_kill`
  kill : Bool → Op
  -- `pause_…` (true) and `resume_…` (false) of a strategy, route, pair or venue
  strategy route pair venue : Bool → String → Op
  -- `clear_cooldown`
  clear : Option String → Op
  -- `mark_failure` and `mark_success`
  fail : String → String → String → Op
  succeed : String → Decimal → Op
  -- `hydrate_route_state`
  hydrate : String → Bool → Option DateTime → String → String → Bool → Option DateTime → ℤ → ℤ → Op
  -- `evaluate`
  judge : Request → Op

unfoldable pub apply : ℕ → Op → Manager → Manager
apply now (kill paused) m = set_global_kill paused m
apply now (strategy true name) m = pause_strategy name m
apply now (strategy false name) m = resume_strategy name m
apply now (route true name) m = pause_route name m
apply now (route false name) m = resume_route name m
apply now (pair true name) m = pause_pair name m
apply now (pair false name) m = resume_pair name m
apply now (venue true name) m = pause_venue name m
apply now (venue false name) m = resume_venue name m
apply now (clear route_id) m = clear_cooldown route_id m
apply now (fail route_id category reason) m = mark_failure now route_id category reason m
apply now (succeed route_id pnl) m = mark_success now route_id pnl m
apply now (hydrate route_id paused cooldown category reason fatal failure_at failures losses) m =
    hydrate_route_state now route_id paused cooldown category reason fatal failure_at failures
      losses m
apply now (judge r) m = (evaluate now r m).1

unfoldable pub run : List (ℕ × Op) → Manager → Manager
run [] m = m
run ((now, op) ∷ ops) m = run ops (apply now op m)

-- `evaluate` leaves the state, or trims the executions of its route.
pub evaluate-state :
    (now : ℕ) (r : Request) (m : Manager)
    → ((evaluate now r m).1 ≡ m) ⊎ ((evaluate now r m).1 ≡ trim_route now r.quote.route_id m)
unfolding evaluate
evaluate-state now r m = go (run_guards [] (static_guards m r)) refl
  where
    go :
        (out : Result (Option String × Dict Bool))
        → run_guards [] (static_guards m r) ≡ out
        → ((evaluate now r m).1 ≡ m) ⊎ ((evaluate now r m).1 ≡ trim_route now r.quote.route_id m)
    go (err x) e = inl (rw (e, evaluate))
    go (ok (some reason, checks)) e = inl (rw (e, evaluate) (unfold evaluate_route in refl))
    go (ok (none, checks)) e = inr (rw (e, evaluate) (unfold evaluate_route in refl))
