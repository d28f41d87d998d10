-- ===== src/Lib.antt =====
-- The arbitrage bot: what decides whether a route may trade, and what is reported of it.
--
-- The bot scans routes, each a pair of venues for one token pair, quotes a round trip, and lets the
-- risk manager decide whether the opportunity is tradable. It records snapshots, opportunities and
-- route health; the backtest engine replays these records, the readiness service grades routes by
-- them, and the commissioning service decides which gate of promotion a route has reached.
--
-- Base       shared helpers: tests, lists, integers over native numbers, texts, dicts, sets, results.
-- Decimal    Python's decimals under the default context of 28 digits, rounded half to even.
-- Json       decoded JSON values, `str` of them and of decimals, and `Decimal` of a text.
-- Confidence app/utils/confidence.py: the four families of statuses, their normalisation and order.
--            Vocabulary: what the comparisons say.
-- Settings   app/config/settings.py: the settings read by the modelled code, defaults and validators.
-- Quote      app/quote_engine/types.py: a quote and a decision.
-- Risk       app/risk/manager.py. Risk: the state of GlobalRiskManager and its operations. Guards:
--            the guards of `evaluate` as a list. Evaluate: the run over them. Safety: none of them
--            raises. Conditions, Blocks: the first condition not met. Permit: what a permitted
--            request is, apart from that order. Runs: any sequence of operations by the runner and
--            the API. Window, Failures: the ten-minute window, and how long a failure blocks. State:
--            what `get_route_state` shows of a route.
-- Backtest   app/backtest/engine.py. Tally: the running figures. Opportunities, Snapshots, Run: the
--            two replays and `run`, here run_backtest. Counts, Ledger, Sound, Totals: the figures
--            agree with the trades. Pointer, Health: the pointer over health rows. Reasons,
--            Accepted: what is eligible. Returns, Completes, Completion: when a run completes.
-- Readiness  app/readiness/service.py: evidence, blockers, actions and grade of a route.
-- Commissioning  app/commissioning/service.py: indicators, gates, phase and row of a route.
--            Promotion, Review: what a gate needs. Score, Ranking, Bounds: the score and its order.
-- Health     app/health/collector.py: the rolling windows; Risk: the snapshot for the risk manager;
--            Windows, Evidence: what the windows hold, and what a tradable decision rests on.
-- Edge       app/quote_engine/edge.py, app/utils/decimal_math.py, app/risk/guards.py and the pure
--            helpers of app/quote_engine/engine.py. Persistence: how long an edge has lasted.
-- Venues     app/exchanges/dex/base.py, app/exchanges/cex/base.py: the adapters, as records of
--            answers.
-- QuoteEngine  app/quote_engine/engine.py: `quote_route` of both engines. Hyper, Shadow.
-- Metrics    app/utils/metrics.py: the series of figures.
-- Runner     app/jobs/runner.py: what `_scan_loop` does with a quoted route. Scan: what it leaves
--            behind. Balance, Probed, Backing: `_probe_balance_status`, and what a verified wallet
--            rests on. Quoting: from a quote, or its failure, to the arguments of the decision.
--            Quoted, Statuses, Made, WayBack, Verified, Depeg: what a decision says of the quote.
-- Repository app/db/repository.py, app/models/core.py: the tables of the control, the routes, their
--            states, kill events, audits and alerts, and what the program writes to them.
-- App        app/app_state.py and app/alerts/service.py: the state that the API and the runner share,
--            the alerts, the keeping of a route's state and the restart. Control: the handlers under
--            /control of app/api/router.py. Scan: a round of `_scan_loop` on the shared state. Steps:
--            requests, rounds and restarts in any order. Lock, Ops, Held, Effects, Handlers, Locked,
--            Fixed, Unique, Lockout: what blocks a route for good. View, Shown, Switching, Refines,
--            Switches, Rounds, Arming, Stopping: mode, pause, kill switch and arming. Recovery,
--            Restores: what a restart reads back, and what the operator can restore.
-- Contracts  app/contracts/client.py, with web3 as a record of its answers.
-- Execution  app/execution/live.py and app/execution/paper.py.
-- Tests      each result at a concrete input.
--
-- An exception is a value of Result. The current time is an argument, in microseconds. A row of the
-- database is a record of the columns that are read, with its payload decoded to a dict of texts, as
-- the program writes it; other JSON values in a payload are outside the model. A Python set is a list
-- without repetition, a dict an association list, a defaultdict's missing key its default. A
-- decimal's exponent is never positive and has no limit, and NaN and the infinities are left out.
-- The text of an exact quotient keeps the zeros at its end, which Python drops. `lower` changes the
-- letters A to Z only. Loops are structural recursion on their list; counting
-- the digits of a number has the number itself as fuel, which is more than its digits.
--
-- The program runs its handlers and its scan loop as coroutines of one thread. A handler, the head of
-- a round, what a round does with one quoted route, and a restart are one step each, and any steps may
-- follow one another, at any instants; a step in the midst of another's wait is outside the model.
--
-- Not modelled: the handlers of the HTTP API that only read, the dashboard, the tables of
-- opportunities, attempts, executions and backtests and the queries over them, logging, the adapters
-- of exchanges and chains behind their interfaces, the scheduler, the health loop and the other probes
-- of the job runner, and the seeding of an empty database but for the states of the routes.
pub mod Base
pub mod Decimal
pub mod Json
pub mod Confidence
pub mod Settings
pub mod Quote
pub mod Risk
pub mod Backtest
pub mod Readiness
pub mod Commissioning
pub mod Contracts
pub mod Execution
pub mod Health
pub mod Edge
pub mod Metrics
pub mod Runner
pub mod Venues
pub mod QuoteEngine
pub mod Repository
pub mod App
mod Tests
