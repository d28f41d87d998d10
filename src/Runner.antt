-- ===== src/Runner.antt =====
-- app/jobs/runner.py: what `_scan_loop` does with a route once it is quoted: the decision, the attempt
-- and what the risk manager is told of it. The kept state and the alerts that follow stand in App.Scan;
-- rows of observations and attempts and logging are left out, and so is a client that raises in
-- `validate_chain`, which ends the scan.
pub mod Quoting
pub mod Quoted
pub mod WayBack
pub mod Verified
pub mod Depeg
pub mod Statuses
pub mod Made
pub mod Scan
pub mod Balance
pub mod Probed
pub mod Backing
use arbitrage_bot.Base.{
  Bool, Option, String, [], contains, if◌then◌else◌, nat_eq, string_eq, true, ℕ, ◌==◌, ◌∷◌,
}
use arbitrage_bot.Base.Result.{Result, ok, ◌>>=◌}
use arbitrage_bot.Decimal.{Decimal, dec}
use arbitrage_bot.Execution.{Answer, dry_run_live, paper_realized}
use arbitrage_bot.Risk.{Manager, fatal_failure_categories, mark_failure, mark_success}
use arbitrage_bot.Risk.Evaluate.{evaluate}
use arbitrage_bot.Risk.Guards.{Request}
use arbitrage_bot.Quote.{OpportunityDecision, RouteQuote}
use arbitrage_bot.Settings.{RunMode, stopped, paper, live}
use Prim.Native.String.{◌++◌ as ◌<>◌}

-- the variables `tx_status`, `failure_category` and `realized`
pub record Outcome : Type 0 where
  pub tx_status : String
  pub failure_category : String
  pub realized : Decimal

-- the paper engine always answers with `ok`
unfoldable pub paper_outcome : Bool → Decimal → Outcome
paper_outcome answered realized =
    if answered
    then record { tx_status = "success"; failure_category = ""; realized = realized }
    else record { tx_status = "failed"; failure_category = "revert"; realized = realized }

unfoldable pub dry_run_outcome : Answer → Outcome
dry_run_outcome answer =
    if answer.ok
    then record { tx_status = "dry_run"; failure_category = ""; realized = dec 0 0 }
    else record {
      tx_status = "dry_run_blocked";
      failure_category = answer.blocked_reason;
      realized = dec 0 0;
    }

-- the two branches of the attempt, with the client's answer to `validate_chain`
unfoldable pub attempt : RunMode → RouteQuote → Option Bool → Outcome
attempt paper q chain = paper_outcome true (paper_realized q)
attempt stopped q chain = dry_run_outcome (dry_run_live chain)
attempt live q chain = dry_run_outcome (dry_run_live chain)

unfoldable pub is_failed : Outcome → Bool
is_failed o = contains o.tx_status ("failed" ∷ "reverted" ∷ "dry_run_blocked" ∷ [])

unfoldable pub category_of : Outcome → String
category_of o = if o.failure_category == "" then "scan_fatal" else o.failure_category

-- the outcome is told to the risk manager
unfoldable pub settle_outcome : ℕ → String → Outcome → Manager → Manager
settle_outcome now route_id o m =
    if is_failed o
    then mark_failure now route_id (category_of o) ("tx_status=" <> o.tx_status) m
    else mark_success now route_id o.realized m

-- a decision that is not tradable
unfoldable pub settle_blocked : ℕ → String → String → Manager → Manager
settle_blocked now route_id reason m =
    if contains reason fatal_failure_categories
    then mark_failure now route_id reason ("opportunity blocked: " <> reason) m
    else m

-- a tradable decision; a stopped strategy attempts nothing
unfoldable pub settle_attempt : ℕ → RunMode → RouteQuote → Option Bool → Manager → Manager
settle_attempt now stopped q chain m = m
settle_attempt now paper q chain m = settle_outcome now q.route_id (attempt paper q chain) m
settle_attempt now live q chain m = settle_outcome now q.route_id (attempt live q chain) m

-- what follows the decision
unfoldable pub settle :
    ℕ → RunMode → RouteQuote → Option Bool → OpportunityDecision → Manager → Manager
settle now mode q chain d m =
    if d.tradable
    then settle_attempt now mode q chain m
    else settle_blocked now q.route_id d.blocked_reason m

-- one route of a scan: the decision at the first instant, its consequence at the second
unfoldable pub scan_route : ℕ → ℕ → Request → Option Bool → Manager → Result Manager
scan_route now settled r chain m =
    let (out, judged) = evaluate now r m in
    out >>= λ d. ok (settle settled r.mode r.quote chain d judged)
