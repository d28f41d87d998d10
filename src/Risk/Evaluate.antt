-- ===== src/Risk/Evaluate.antt =====
-- app/risk/manager.py: `GlobalRiskManager.evaluate`.
use arbitrage_bot.Base.{Bool, List, Option, String, [], false, none, some, true, ℕ, ◌++◌, ◌-◌, ◌∷◌}
use arbitrage_bot.Base.Dict.{Dict, insert}
use arbitrage_bot.Base.Result.{Result, err, ok, ◌>>=◌}
use arbitrage_bot.Quote.{OpportunityDecision}
use arbitrage_bot.Risk.{Manager, put_stats, stats_of, ten_minutes, trim}
use arbitrage_bot.Risk.Guards.{
  Guard, Request, confidence_guards, health_guards, market_guards, mode_guards, pause_guards,
  route_guards, size_guards,
}

-- The guards in order: the first that fails gives the reason, and `checks` ends with its name.
unfoldable pub run_guards : Dict Bool → List Guard → Result (Option String × Dict Bool)
run_guards checks [] = ok (none, checks)
run_guards checks (g ∷ gs) = elim g.passed [
  | err e ↦ err e
  | ok passed ↦ elim passed [
    | true ↦ run_guards (insert g.name true checks) gs
    | false ↦ ok (some g.reason, insert g.name false checks)
  ]
]

abbrev pub decide : Option String × Dict Bool → OpportunityDecision
decide (none, checks) = record { tradable = true; blocked_reason = ""; checks = checks }
decide (some reason, checks) = record { tradable = false; blocked_reason = reason; checks = checks }

-- the guards before the route's statistics are read
unfoldable pub static_guards : Manager → Request → List Guard
static_guards m r =
    pause_guards m r
    ++ (health_guards m r ++ (confidence_guards m r ++ (market_guards m r ++ size_guards m r)))

-- `stats = self.route_stats[route_id]` with the executions older than ten minutes dropped
unfoldable pub trim_route : ℕ → String → Manager → Manager
trim_route now route_id m =
    let stats = stats_of route_id m in
    put_stats route_id (record stats { executions = trim (now - ten_minutes) stats.executions }) m

unfoldable pub dynamic_guards : ℕ → Manager → Request → List Guard
dynamic_guards now m r = route_guards now m r ++ mode_guards m r

-- the part after the trimming, on the trimmed state
unfoldable pub evaluate_route :
    ℕ → Request → Manager → Option String × Dict Bool → Result OpportunityDecision × Manager
evaluate_route now r m (some reason, checks) = (ok (decide (some reason, checks)), m)
evaluate_route now r m (none, checks) =
    let trimmed = trim_route now r.quote.route_id m in
    (run_guards checks (dynamic_guards now trimmed r) >>= λ out. ok (decide out), trimmed)

unfoldable pub evaluate : ℕ → Request → Manager → Result OpportunityDecision × Manager
evaluate now r m = elim (run_guards [] (static_guards m r)) [
  | err e ↦ (err e, m)
  | ok out ↦ evaluate_route now r m out
]
