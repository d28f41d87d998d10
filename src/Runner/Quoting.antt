-- ===== src/Runner/Quoting.antt =====
-- app/jobs/runner.py: what `_scan_loop` makes of the quote of a route, up to the decision: the probes,
-- the metadata, the statuses for the collector and the arguments of `evaluate`.
use arbitrage_bot.App.Control.{mode_value}
use arbitrage_bot.Base.{
  Bool, Option, String, [], false, if◌then◌else◌, nat_eq, none, not, some, string_eq, true, ℕ, ◌==◌,
  ◌∷◌,
}
use arbitrage_bot.Base.Dict.{get_or, insert, lookup}
use arbitrage_bot.Base.Int.{ℤ}
use arbitrage_bot.Base.Result.{Error, Result, err, ok, ◌>>=◌}
use arbitrage_bot.Confidence.{normalize_fee_confidence, normalize_quote_match_status}
use arbitrage_bot.Decimal.{Decimal, dec, min}
use arbitrage_bot.Health.{Collector, record_liquidity, record_quote_probe, set_quality_status}
use arbitrage_bot.Health.Risk.{to_risk_snapshot}
use arbitrage_bot.Json.{or_else, parse_decimal}
use arbitrage_bot.Quote.{RouteQuote}
use arbitrage_bot.Repository.{Route}
use arbitrage_bot.Risk.Guards.{Request, balance_reason, balance_status}
use arbitrage_bot.Settings.{RunMode, Settings, paper}
use Prim.Native.String.{◌++◌ as ◌<>◌}

-- the mode, the limit of a quote's age and the amount of a route
unfoldable pub strategy_mode : RunMode → Route → RunMode
strategy_mode current route = if route.strategy == "hyperevm_dex_dex" then current else paper

unfoldable pub stale_limit : Settings → Route → ℤ
stale_limit s route =
    if route.strategy == "hyperevm_dex_dex"
    then s.global_stale_quote_stop_seconds
    else s.shadow_stale_quote_seconds

unfoldable pub quote_amount : Settings → Route → Decimal
quote_amount s route =
    if route.strategy == "hyperevm_dex_dex"
    then min route.max_notional_usdc s.live_max_notional_usdc
    else s.shadow_notional_usdc

-- `_build_unavailable_quote`
unfoldable pub build_unavailable_quote : Route → RunMode → String → RouteQuote
unfolding mode_value
build_unavailable_quote route mode reason = record {
  route_id = route.id;
  strategy = route.strategy;
  pair = route.pair;
  direction = route.direction;
  initial_amount = dec 0 0;
  final_amount = dec 0 0;
  raw_spread_amount = dec 0 0;
  raw_edge_bps = dec 0 0;
  modeled_net_edge_amount = dec 0 0;
  modeled_net_edge_bps = dec 0 0;
  expected_slippage_bps = dec 0 0;
  gas_cost_usdc = dec 0 0;
  quote_age_seconds = dec 999 0;
  all_costs = dec 0 0;
  persisted_seconds = dec 0 0;
  status = "blocked";
  blocked_reason = "quote_unavailable";
  metadata =
      ("pool_health", "false")
      ∷ ("quote_unavailable", "true")
      ∷ ("quote_unavailable_reason", reason)
      ∷ ("support_status", "unsupported")
      ∷ ("fee_known", "false")
      ∷ ("fee_known_status", "unknown")
      ∷ ("fee_provenance", "unavailable")
      ∷ ("quote_match", "unknown")
      ∷ ("quote_match_status", "unknown")
      ∷ ("balance_match_status", "unknown")
      ∷ ("balance_failure_reason", "quote_unavailable")
      ∷ ("smaller_pool_liquidity_usdc", "0")
      ∷ ("venues", route.venue_a <> ("->" <> route.venue_b))
      ∷ ("mode_profile", mode_value mode)
      ∷ [];
}

-- a probe of both venues of a route
unfoldable pub probe_venues : ℕ → Decimal → Route → Decimal → Bool → Collector → Collector
probe_venues now latency_ms route age success c =
    record_quote_probe now route.venue_b latency_ms age success (not success)
      (record_quote_probe now route.venue_a latency_ms age success (not success) c)

-- the handler of an exception, with its text
unfoldable pub record_unavailable :
    ℕ → Decimal → Route → RunMode → String → Collector → RouteQuote × Collector
unfolding build_unavailable_quote probe_venues
record_unavailable now latency_ms route mode reason c =
    let q = build_unavailable_quote route mode reason in
    (q, probe_venues now latency_ms route q.quote_age_seconds false c)

-- the `try` around the quote, with the text of an exception
unfoldable pub record_quote :
    ℕ
    → Decimal
    → (Error → String)
    → Route
    → RunMode
    → Result RouteQuote
    → Collector
    → RouteQuote × Collector
unfolding record_unavailable probe_venues
record_quote now latency_ms text_of route mode (err e) c =
    record_unavailable now latency_ms route mode (text_of e) c
record_quote now latency_ms text_of route mode (ok q) c =
    let probed = probe_venues now latency_ms route q.quote_age_seconds true c in
    elim (parse_decimal (get_or "smaller_pool_liquidity_usdc" "0" q.metadata)) [
      | err e ↦ record_unavailable now latency_ms route mode (text_of e) probed
      | ok liq ↦ (q, record_liquidity now route.id liq probed)
    ]

-- `_probe_signing_status`, with the client's answer to `validate_chain` where there is a client
unfoldable pub probe_signing_status : Route → Option (Result Bool) → String
probe_signing_status route client =
    if not (route.strategy == "hyperevm_dex_dex") then "good" else elim client [
      | none ↦ "unknown"
      | some (err e) ↦ "bad"
      | some (ok true) ↦ "good"
      | some (ok false) ↦ "bad"
    ]

abbrev pub text_or_empty : Option String → String
text_or_empty none = ""
text_or_empty (some s) = s

-- the statuses of a quote
unfoldable pub quoted_fee_status : RouteQuote → String
quoted_fee_status q =
    normalize_fee_confidence
      (or_else (lookup "fee_known_status" q.metadata) (lookup "fee_known" q.metadata)) none

unfoldable pub quoted_fee_provenance : RouteQuote → String
quoted_fee_provenance q = text_or_empty (
    or_else (lookup "fee_provenance" q.metadata)
      (or_else (lookup "fee_source" q.metadata) (some "")))

unfoldable pub quoted_match_status : RouteQuote → String
quoted_match_status q =
    normalize_quote_match_status
      (or_else (lookup "quote_match_status" q.metadata) (lookup "quote_match" q.metadata))

-- the metadata with the statuses
unfoldable pub with_statuses : String × String → RouteQuote → RouteQuote
unfolding quoted_fee_status quoted_fee_provenance quoted_match_status
with_statuses (balance_status, balance_reason) q = record q {
  metadata = insert "balance_failure_reason" balance_reason (
      insert "balance_match_status" balance_status (
        insert "quote_match_status" (quoted_match_status q) (
          insert "fee_provenance" (quoted_fee_provenance q)
            (insert "fee_known_status" (quoted_fee_status q) q.metadata))));
}

-- the collector with the statuses
unfoldable pub record_statuses : ℕ → String → String × String → RouteQuote → Collector → Collector
unfolding quoted_fee_status quoted_fee_provenance quoted_match_status
record_statuses now signing_status (balance_status, balance_reason) q c =
    set_quality_status now (some signing_status) (some (quoted_fee_status q))
      (some (quoted_fee_provenance q)) (some (quoted_match_status q)) (some balance_status)
      (some balance_reason) c

-- the arguments of `evaluate`, with the answers of the two probes and the stored balance of the wallet
unfoldable pub assess :
    ℕ
    → Settings
    → Route
    → RunMode
    → Decimal
    → String
    → String × String
    → RouteQuote
    → Collector
    → Result Request
unfolding with_statuses record_statuses stale_limit
assess now s route mode wallet signing_status balance q c =
    to_risk_snapshot now route.id (record_statuses now signing_status balance q c) >>= λ health.
    parse_decimal (get_or "smaller_pool_liquidity_usdc" "0" (with_statuses balance q).metadata)
    >>= λ smaller_pool. ok (record {
      quote = with_statuses balance q;
      mode = mode;
      quote_freshness_limit = stale_limit s route;
      health = health;
      wallet_balance_usdc = wallet;
      reference_deviation_bps = (with_statuses balance q).raw_edge_bps;
      depeg_detected = false;
      smaller_pool_liquidity_usdc = smaller_pool;
    })
