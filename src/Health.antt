-- ===== src/Health.antt =====
-- app/health/collector.py: `HealthCollector`, its rolling windows and the snapshot for the risk manager.
-- An instant is in microseconds; a number of seconds is the exact difference, where Python goes through
-- a float. `venue_quote_health`, which reports venues to the API, is left out.
pub mod Risk
pub mod Evidence
pub mod Windows
use arbitrage_bot.Base.{
  Bool, List, Option, String, [], contains, if◌then◌else◌, ltb, nat_eq, none, not, some, string_eq,
  ℕ, ◌*◌, ◌++◌, ◌-◌, ◌∷◌,
}
use arbitrage_bot.Base.Dict.{Dict, get_or, insert}
use arbitrage_bot.Base.Text.{lower, strip}
use arbitrage_bot.Confidence.{
  normalize_balance_confidence, normalize_fee_confidence, normalize_quote_match_status,
}
use arbitrage_bot.Decimal.{Decimal}
use arbitrage_bot.Risk.{second}

-- `TimedValue` and `TimedBool`
pub record Timed {ℓ} (A : Type ℓ) : Type ℓ where
  pub ts : ℕ
  pub value : A

-- the collector
pub record Collector : Type 0 where
  pub rpc_latency : List (Timed Decimal)
  pub rpc_results : List (Timed Bool)
  pub db_latency : List (Timed Decimal)
  pub db_results : List (Timed Bool)
  pub quote_latency : List (Timed Decimal)
  pub quote_age : List (Timed Decimal)
  pub gas_series : List (Timed Decimal)
  pub alert_results : List (Timed Bool)
  pub execution_results : List (Timed Bool)
  pub venue_last_success : Dict ℕ
  pub venue_unavailable_events : Dict (List ℕ)
  pub route_liquidity : Dict (List (Timed Decimal))
  pub heartbeat_ts : ℕ
  pub last_quality_update : ℕ
  pub signing_state : String
  pub quality_fee_status : String
  pub quality_fee_provenance : String
  pub quality_quote_match_status : String
  pub quality_balance_status : String
  pub quality_balance_failure_reason : String

unfoldable pub new_collector : ℕ → Collector
new_collector now = record {
  rpc_latency = [];
  rpc_results = [];
  db_latency = [];
  db_results = [];
  quote_latency = [];
  quote_age = [];
  gas_series = [];
  alert_results = [];
  execution_results = [];
  venue_last_success = [];
  venue_unavailable_events = [];
  route_liquidity = [];
  heartbeat_ts = now;
  last_quality_update = now;
  signing_state = "unknown";
  quality_fee_status = "unknown";
  quality_fee_provenance = "";
  quality_quote_match_status = "unknown";
  quality_balance_status = "unknown";
  quality_balance_failure_reason = "";
}

abbrev pub five_minutes : ℕ
five_minutes = 300 * second

abbrev pub one_hour : ℕ
one_hour = 3600 * second

module _ {ℓ} {A : Type ℓ} where
  -- the loop `while dq and dq[0].ts < cutoff: dq.popleft()`
  unfoldable pub trim_series : ℕ → List (Timed A) → List (Timed A)
  trim_series cutoff [] = []
  trim_series cutoff (x ∷ xs) =
      let rest = trim_series cutoff xs in if ltb x.ts cutoff then rest else x ∷ xs

  -- `dq.append(Timed(now, value))`
  unfoldable pub push : ℕ → A → List (Timed A) → List (Timed A)
  push now value xs = xs ++ record { ts = now; value = value } ∷ []

unfoldable pub trim_routes : ℕ → Dict (List (Timed Decimal)) → Dict (List (Timed Decimal))
unfolding trim_series
trim_routes cutoff [] = []
trim_routes cutoff ((route_id, xs) ∷ d) = (route_id, trim_series cutoff xs) ∷ trim_routes cutoff d

-- `_trim_all`
unfoldable pub trim_all : ℕ → Collector → Collector
unfolding trim_series trim_routes
trim_all now c =
    let cutoff_5m = now - five_minutes in
    let cutoff_60m = now - one_hour in
    record c {
      rpc_latency = trim_series cutoff_5m c.rpc_latency;
      rpc_results = trim_series cutoff_5m c.rpc_results;
      db_latency = trim_series cutoff_5m c.db_latency;
      db_results = trim_series cutoff_5m c.db_results;
      quote_latency = trim_series cutoff_5m c.quote_latency;
      quote_age = trim_series cutoff_5m c.quote_age;
      alert_results = trim_series cutoff_5m c.alert_results;
      execution_results = trim_series cutoff_5m c.execution_results;
      gas_series = trim_series cutoff_60m c.gas_series;
      route_liquidity = trim_routes cutoff_60m c.route_liquidity;
    }

unfoldable pub record_rpc_probe : ℕ → Decimal → Bool → Collector → Collector
unfolding trim_all push
record_rpc_probe now latency_ms success c = trim_all now (record c {
  rpc_latency = push now latency_ms c.rpc_latency;
  rpc_results = push now success c.rpc_results;
})

unfoldable pub record_db_latency : ℕ → Decimal → Bool → Collector → Collector
unfolding trim_all push
record_db_latency now latency_ms success c = trim_all now (record c {
  db_latency = push now latency_ms c.db_latency;
  db_results = push now success c.db_results;
})

unfoldable pub record_quote_probe :
    ℕ → String → Decimal → Decimal → Bool → Bool → Collector → Collector
unfolding trim_all push
record_quote_probe now venue latency_ms age success quote_unavailable c = trim_all now (record c {
  quote_latency = push now latency_ms c.quote_latency;
  quote_age = push now age c.quote_age;
  venue_last_success =
      if success then insert venue now c.venue_last_success else c.venue_last_success;
  venue_unavailable_events =
      if quote_unavailable
      then insert venue (get_or venue [] c.venue_unavailable_events ++ now ∷ [])
          c.venue_unavailable_events
      else c.venue_unavailable_events;
})

unfoldable pub record_gas : ℕ → Decimal → Collector → Collector
unfolding trim_all push
record_gas now gas_gwei c = trim_all now (record c { gas_series = push now gas_gwei c.gas_series })

unfoldable pub record_liquidity : ℕ → String → Decimal → Collector → Collector
unfolding trim_all push
record_liquidity now route_id liquidity_usd c = trim_all now (record c {
  route_liquidity =
      insert route_id (push now liquidity_usd (get_or route_id [] c.route_liquidity))
        c.route_liquidity;
})

unfoldable pub record_alert_result : ℕ → Bool → Collector → Collector
unfolding trim_all push
record_alert_result now sent_ok c =
    trim_all now (record c { alert_results = push now sent_ok c.alert_results })

unfoldable pub record_execution_result : ℕ → String → Collector → Collector
unfolding trim_all push
record_execution_result now tx_status c = trim_all now (record c {
  execution_results =
      push now (not (contains tx_status ("reverted" ∷ "failed" ∷ []))) c.execution_results;
})

unfoldable pub set_heartbeat : ℕ → Collector → Collector
set_heartbeat ts c = record c { heartbeat_ts = ts }

-- `(value or "").strip().lower()`
abbrev pub stripped : Option String → String
stripped none = ""
stripped (some value) = lower (strip value)

-- `_normalize_signing_state`
unfoldable pub normalize_signing_state : Option String → String
normalize_signing_state value =
    if contains (stripped value) ("good" ∷ "bad" ∷ "unknown" ∷ [])
    then stripped value
    else if contains (stripped value) ("true" ∷ "1" ∷ "yes" ∷ [])
    then "good"
    else if contains (stripped value) ("false" ∷ "0" ∷ "no" ∷ [])
    then "bad"
    else "unknown"

-- `set_quality_status`: signing, fee, provenance, quote match, balance, failure reason
unfoldable pub set_quality_status :
    ℕ
    → Option String
    → Option String
    → Option String
    → Option String
    → Option String
    → Option String
    → Collector
    → Collector
unfolding normalize_signing_state
set_quality_status now signing fee provenance quote balance reason c = record c {
  signing_state = normalize_signing_state signing;
  quality_fee_status = normalize_fee_confidence fee none;
  quality_fee_provenance = stripped provenance;
  quality_quote_match_status = normalize_quote_match_status quote;
  quality_balance_status = normalize_balance_confidence balance none;
  quality_balance_failure_reason = stripped reason;
  last_quality_update = now;
}
