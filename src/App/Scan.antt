-- ===== src/App/Scan.antt =====
-- app/jobs/runner.py: `_scan_loop` on the shared state: the head of a round, and one route of it.
-- Quoting, the collector and the rows of observations, attempts and executions are left out here.
use arbitrage_bot.Base.Result.{Result, err, ok}
use arbitrage_bot.Base.{
  Bool, Option, String, contains, false, if◌then◌else◌, nat_eq, none, some, string_eq, true, ℕ,
}
use arbitrage_bot.Decimal.{Decimal}
use arbitrage_bot.Quote.{OpportunityDecision, RouteQuote}
use arbitrage_bot.Repository.{get_runtime_control, set_global_pause, write_kill_switch_event}
use arbitrage_bot.Risk.{fatal_failure_categories, set_global_kill, should_stop_for_daily_dd}
use arbitrage_bot.Risk.Evaluate.{evaluate}
use arbitrage_bot.Risk.Guards.{Request}
use arbitrage_bot.App.{App, Env, persist_route_state, send}
use arbitrage_bot.App.Control.{run_mode, on_manager, on_database}
use arbitrage_bot.Runner.{attempt, category_of, is_failed, settle}
use arbitrage_bot.Settings.{RunMode, paper, live, stopped}
use Prim.Native.String.{◌++◌ as ◌<>◌}

-- the handler of an exception in a round
unfoldable pub abort_round : Env → String → App → App
abort_round env exc a =
    send env "ERROR" "scan_loop" ("scan loop failure: " <> exc) (record a { scanning = false })

-- the drawdown stop
unfoldable pub stop_for_drawdown : Env → App → App
stop_for_drawdown env a =
    let killed = on_manager (set_global_kill true) a in
    send env "WARN" "daily_dd_stop" "daily drawdown threshold reached; new entries stopped" (
      on_database
        (λ db.
          write_kill_switch_event "global" "global" "trigger" "daily_dd_stop"
            (set_global_pause env.now true db))
        killed)

unfoldable pub check_drawdown : Env → Result Bool → App → App
check_drawdown env (err e) a = abort_round env "decimal" a
check_drawdown env (ok true) a = stop_for_drawdown env a
check_drawdown env (ok false) a = a

-- the kill switch of the manager is that of the database, and what `RunMode` makes of the mode
unfoldable pub enter_round : Env → Decimal → Bool → Option RunMode → App → App
enter_round env wallet global_pause none a = abort_round env "invalid mode" a
enter_round env wallet global_pause (some mode) a =
    let set = on_manager (set_global_kill global_pause) a in
    check_drawdown env (should_stop_for_daily_dd wallet set.manager) set

-- the head of a round, up to the loop over the routes, with the balance that the database gives
unfoldable pub begin_round : Env → Decimal → App → App
begin_round env wallet a =
    let (ctrl, db) = get_runtime_control env.now a.database in
    enter_round env wallet ctrl.global_pause (run_mode ctrl.mode)
      (record a { database = db; scanning = true })

-- the state is kept after a fatal block and after each attempt
unfoldable pub is_kept : RunMode → OpportunityDecision → Bool
is_kept mode d =
    if d.tradable
    then elim mode [ stopped ↦ false | paper ↦ true | live ↦ true ]
    else contains d.blocked_reason fatal_failure_categories

-- the alert on an attempt
unfoldable pub report_attempt : Env → String → RunMode → RouteQuote → Option Bool → App → App
report_attempt env name mode q chain a =
    let o = attempt mode q chain in
    if is_failed o
    then send env "ERROR" "trade_reverted"
        ("route=" <> (name <> (" tx_status=" <> (o.tx_status <> (" category=" <> category_of o)))))
        a
    else send env "INFO" "trade_executed" ("route=" <> (name <> (" tx_status=" <> o.tx_status))) a

-- what follows the decision on a route
unfoldable pub conclude :
    Env → String → RunMode → RouteQuote → Option Bool → OpportunityDecision → App → App
conclude env name mode q chain d a =
    let settled = on_manager (settle env.now mode q chain d) a in
    let kept = persist_route_state env.now q.route_id settled in
    if is_kept mode d
    then (if d.tradable then report_attempt env name mode q chain kept else kept)
    else settled

-- one route of a round, given its name, decided at the first instant
unfoldable pub scan_one : ℕ → Env → String → Request → Option Bool → App → App
scan_one now env name r chain a =
    let (out, judged) = evaluate now r a.manager in
    let decided = record a { manager = judged } in
    elim out [
      | err e ↦ abort_round env "decimal" decided
      | ok d ↦ conclude env name r.mode r.quote chain d decided
    ]
