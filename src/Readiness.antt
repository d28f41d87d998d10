-- ===== src/Readiness.antt =====
-- app/readiness/service.py: `_build_blockers_and_actions`, `_grade_from_blockers`, the row that
-- `_build_route_row` makes of a route's records. Summary: the rows of all routes and their counts.
pub mod Grade
pub mod Rows
pub mod Dedup
pub mod Summary
use arbitrage_bot.Base.{
  Bool, List, Option, String, [], any, contains, false, if◌then◌else◌, is_empty, ltb, nat_eq, none,
  not, some, string_eq, ℕ, ◌&&◌, ◌==◌, ◌||◌, ◌∷◌,
}
use arbitrage_bot.Base.Result.{Result, ok, ◌>>=◌}
use arbitrage_bot.Confidence.{
  balance_confidence_at_least, fee_confidence_at_least, normalize_balance_confidence,
  normalize_fee_confidence, normalize_quote_match_status, normalize_support_status,
  quote_match_status_at_least,
}
use arbitrage_bot.Decimal.{Decimal, dec, le}
use arbitrage_bot.Risk.{DateTime, as_utc}
use arbitrage_bot.Settings.{Settings}

-- the columns of the latest `RouteHealthSnapshot` that are read
pub record LatestHealth : Type 0 where
  pub support_status : String
  pub fee_known_status : String
  pub balance_match_status : String
  pub quote_match_status : String
  pub cooldown_active : Bool

-- the columns of the route's runtime state that are read
pub record RuntimeState : Type 0 where
  pub cooldown_until : Option DateTime
  pub paused : Bool
  pub last_failure_fatal : Bool

-- what the repository says of a route
pub record Records : Type 0 where
  pub latest_health : Option LatestHealth
  pub runtime : Option RuntimeState
  pub observation_count : ℕ
  pub backtest_run_count : ℕ
  pub quote_unavailable_rate : Decimal

-- the arguments of `_build_blockers_and_actions`
pub record Evidence : Type 0 where
  pub strategy : String
  pub support_status : String
  pub fee_status : String
  pub balance_status : String
  pub quote_match_status : String
  pub cooldown_active : Bool
  pub fatal_paused : Bool
  pub observation_count : ℕ
  pub backtest_run_count : ℕ
  pub quote_unavailable_rate : Decimal

-- `getattr(latest_health, name, "unknown")`
abbrev pub column_of : (LatestHealth → String) → Option LatestHealth → Option String
column_of column none = some "unknown"
column_of column (some h) = some (column h)

-- `bool(cooldown_until and cooldown_until > now)`
unfoldable pub cooldown_running : ℕ → Option ℕ → Bool
cooldown_running now none = false
cooldown_running now (some until) = ltb now until

unfoldable pub runtime_cooldown : ℕ → Option RuntimeState → Bool
runtime_cooldown now none = false
runtime_cooldown now (some state) = cooldown_running now (as_utc state.cooldown_until)

unfoldable pub runtime_fatal : Option RuntimeState → Bool
runtime_fatal none = false
runtime_fatal (some state) = state.paused && state.last_failure_fatal

unfoldable pub health_cooldown : Option LatestHealth → Bool
health_cooldown none = false
health_cooldown (some h) = h.cooldown_active

-- the first part of `_build_route_row`
unfoldable pub evidence_of : ℕ → String → Records → Evidence
unfolding runtime_cooldown runtime_fatal health_cooldown cooldown_running
evidence_of now strategy r = record {
  strategy = strategy;
  support_status = normalize_support_status (column_of (λ h. h.support_status) r.latest_health);
  fee_status = normalize_fee_confidence (column_of (λ h. h.fee_known_status) r.latest_health) none;
  balance_status =
      normalize_balance_confidence (column_of (λ h. h.balance_match_status) r.latest_health) none;
  quote_match_status =
      normalize_quote_match_status (column_of (λ h. h.quote_match_status) r.latest_health);
  cooldown_active = runtime_cooldown now r.runtime || health_cooldown r.latest_health;
  fatal_paused = runtime_fatal r.runtime;
  observation_count = r.observation_count;
  backtest_run_count = r.backtest_run_count;
  quote_unavailable_rate = r.quote_unavailable_rate;
}

unfoldable pub is_shadow : Evidence → Bool
is_shadow e = e.strategy == "base_virtual_shadow"

-- One `if` of the method: its test, and what it appends to the blockers and to the actions.
pub record Item : Type 0 where
  pub applies : Bool
  pub blocker : String
  pub action : String

abbrev pub item : Bool → String → String → Item
item applies blocker action = record { applies = applies; blocker = blocker; action = action }

-- the three verifications, computed on the statuses and the least ones required
pub record Verified : Type 0 where
  pub fee : Bool
  pub balance : Bool
  pub quote : Bool

unfoldable pub verify : Settings → Evidence → Result Verified
verify s e =
    fee_confidence_at_least e.fee_status
      (if is_shadow e then s.shadow_min_fee_confidence_for_readiness else "venue_declared")
    >>= λ fee.
        balance_confidence_at_least e.balance_status
          (if is_shadow e then s.shadow_min_balance_confidence_for_readiness else "wallet_verified")
        >>= λ balance.
            quote_match_status_at_least e.quote_match_status
              (if is_shadow e then s.shadow_min_quote_match_for_readiness else "matched")
            >>= λ quote. ok (record { fee = fee; balance = balance; quote = quote })

unfoldable pub items : Evidence → Verified → List Item
items e v =
    item (not (e.support_status == "supported")) "unsupported_route"
      "Resolve adapter/quoter support and eliminate quote_unavailable before readiness review."
    ∷ item (not v.fee) "fee_unverified" (
        if is_shadow e
        then "Increase fee provenance confidence for shadow observation quality."
        else "Collect venue/account or chain-verified fee provenance for this route.")
    ∷ item (e.balance_status == "mismatch") "balance_mismatch"
        "Investigate balance drift and reconcile DB/inventory/wallet state."
    ∷ item (not (e.balance_status == "mismatch") && not v.balance) "balance_unverified" (
        if is_shadow e
        then "Keep inventory checks at least internal/db-consistent for observation readiness."
        else "Add wallet/venue balance verification and keep drift checks green.")
    ∷ item (not v.quote) "quote_match_unverified"
        "Stabilize quote consistency checks to avoid unknown/mismatch states."
    ∷ item (ltb e.observation_count 20) "insufficient_observations"
        "Accumulate more real observation records before readiness gating."
    ∷ item (ltb e.backtest_run_count 1) "backtest_missing"
        "Run both opportunities and market_snapshots replay for this route."
    ∷ item (le (dec 20 2) e.quote_unavailable_rate) "quote_unavailable_rate_high"
        "Reduce quote_unavailable rate by fixing route support/health dependencies."
    ∷ item e.cooldown_active "cooldown_active"
        "Clear cooldown only after root cause analysis and audit logging."
    ∷ item e.fatal_paused "fatal_paused"
        "Keep route paused until fatal failure category is resolved and re-tested."
    ∷ item (is_shadow e) "observation_only_route"
        "Shadow routes are observation-readiness only; live-intent gate is not applicable."
    ∷ []

unfoldable pub blockers_of : List Item → List String
blockers_of [] = []
blockers_of (i ∷ is) = let rest = blockers_of is in if i.applies then i.blocker ∷ rest else rest

unfoldable pub actions_of : List Item → List String
actions_of [] = []
actions_of (i ∷ is) = let rest = actions_of is in if i.applies then i.action ∷ rest else rest

-- the loop over `actions` with the set `seen`, and `list(dict.fromkeys(…))`
unfoldable pub dedup_from : List String → List String → List String
dedup_from seen [] = []
dedup_from seen (x ∷ xs) =
    let skipped = dedup_from seen xs in
    let kept = dedup_from (x ∷ seen) xs in if contains x seen then skipped else x ∷ kept

unfoldable pub dedup : List String → List String
unfolding dedup_from
dedup = dedup_from []

unfoldable pub build_blockers_and_actions : Settings → Evidence → Result (List String × List String)
build_blockers_and_actions s e =
    verify s e >>= λ v. ok (blockers_of (items e v), dedup (actions_of (items e v)))

-- both branches of the method have the same set
abbrev pub critical_blockers : List String
critical_blockers =
    "unsupported_route" ∷ "fee_unverified" ∷ "balance_mismatch" ∷ "balance_unverified"
    ∷ "quote_match_unverified" ∷ "backtest_missing" ∷ "fatal_paused" ∷ []

unfoldable pub grade_from_blockers : List String → String
grade_from_blockers blockers =
    if is_empty blockers
    then "green"
    else if any (λ b. contains b critical_blockers) blockers
    then "red"
    else "yellow"

-- the graded part of the row
pub record ReadinessRow : Type 0 where
  pub evidence : Evidence
  pub readiness_grade : String
  pub readiness_blockers : List String
  pub human_action_items : List String

unfoldable pub readiness_row : Settings → ℕ → String → Records → Result ReadinessRow
readiness_row s now strategy r =
    let e = evidence_of now strategy r in
    build_blockers_and_actions s e >>= λ (blockers, actions). ok (record {
      evidence = e;
      readiness_grade = grade_from_blockers blockers;
      readiness_blockers = blockers;
      human_action_items = actions;
    })
