-- ===== src/Tests/Evidence.antt =====
-- A tradable decision on the collector's own snapshot.
use arbitrage_bot.Base.{ap, contains, nat_eq, none, refl, some, string_eq, sym, true, ◌-◌, ◌∙◌, ◌≡◌}
use arbitrage_bot.Base.Dict.{get_or, insert, lookup}
use arbitrage_bot.Base.Int.{◌*ℤ◌, ◌+ℤ◌}
use arbitrage_bot.Base.Result.{Result, err, ok}
use arbitrage_bot.Base.Text.{lower, split_arrow, strip}
use arbitrage_bot.Confidence.{
  at_least, balance_body, balance_confidence_at_least, fee_confidence_at_least, norm,
  normalize_balance_confidence, normalize_fee_confidence, normalize_quote_match_status,
  quote_match_status_at_least, rank, rank_table,
}
use arbitrage_bot.Decimal.{
  dec, digits, div, div_half_even, div_half_up, exact_mul, fix, le, lt, mul, quotient, scale_up,
  with_sign, abs,
}
use arbitrage_bot.Health.{
  Collector, new_collector, normalize_signing_state, push, record_db_latency, record_gas,
  record_rpc_probe, set_heartbeat, set_quality_status, trim_all, trim_routes, trim_series,
}
use arbitrage_bot.Health.Evidence.{Seen, to_risk_snapshot_total, tradable-Seen}
use arbitrage_bot.Health.Risk.{
  error_rate, failures, insert_value, latest_value, liquidity_change, nth_value, probe_ok, quantile,
  quantile_index, reachable, seconds_between, sort_values, to_risk_snapshot, values,
}
use arbitrage_bot.Risk.{date_of, new_manager, put_stats, second, stats_of, trim}
use arbitrage_bot.Risk.Evaluate.{
  dynamic_guards, evaluate, evaluate_route, run_guards, static_guards, trim_route,
}
use arbitrage_bot.Risk.Guards.{
  HealthSnapshot, Request, balance_status, confidence_guards, cooldown_over, fee_status,
  gas_baseline, health_guards, live_guards, market_guards, mode_guards, no_venue_paused,
  pause_guards, pool_share_ok, quote_match_status, required_balance_status, required_fee_status,
  required_quote_status, route_guards, shadow_guards, size_guards, venue_tokens, venue_tokens_of,
}
use arbitrage_bot.Tests.Risk.{request, noon, decided, still_decides, manager}

-- a second of good probes before noon
abbrev pub evidence : Collector
evidence = set_heartbeat noon (
    set_quality_status noon (some "good") (some "chain_verified") (some "chain") (some "matched")
      (some "wallet_verified") none
      (record_gas noon (dec 1 0) (
        record_db_latency noon (dec 2 0) true
          (record_rpc_probe noon (dec 5 0) true (new_collector (noon - second))))))

abbrev snapshot_of : Result HealthSnapshot → HealthSnapshot
snapshot_of (ok h) = h
snapshot_of (err e) = request.health

snapshot : HealthSnapshot
snapshot = snapshot_of (to_risk_snapshot noon "route-1" evidence)

is_snapshot : to_risk_snapshot noon "route-1" evidence ≡ ok snapshot
unfolding snapshot
is_snapshot = go (to_risk_snapshot_total noon "route-1" evidence)
  where
    go :
        (h : HealthSnapshot) × (to_risk_snapshot noon "route-1" evidence ≡ ok h)
        → to_risk_snapshot noon "route-1" evidence
          ≡ ok (snapshot_of (to_risk_snapshot noon "route-1" evidence))
    go (h, e) = e ∙ ap (λ x. ok (snapshot_of x)) (sym e)

evidenced : Request
evidenced = record request { health = snapshot }

is_tradable : (decided (evaluate noon evidenced manager).0).tradable ≡ true
unfolding evidenced snapshot to_risk_snapshot error_rate failures liquidity_change reachable
    probe_ok seconds_between latest_value quantile quantile_index nth_value sort_values insert_value
    values set_heartbeat set_quality_status normalize_signing_state record_gas record_db_latency
    record_rpc_probe trim_all trim_series trim_routes push new_collector div_half_up manager
    new_manager date_of evaluate evaluate_route run_guards static_guards dynamic_guards trim_route
    trim put_stats stats_of pause_guards health_guards confidence_guards market_guards size_guards
    route_guards mode_guards shadow_guards live_guards venue_tokens venue_tokens_of no_venue_paused
    fee_status required_fee_status quote_match_status required_quote_status balance_status
    required_balance_status gas_baseline pool_share_ok cooldown_over lookup get_or insert contains
    normalize_fee_confidence normalize_balance_confidence balance_body normalize_quote_match_status
    at_least fee_confidence_at_least balance_confidence_at_least quote_match_status_at_least rank
    rank_table norm lower strip split_arrow le lt scale_up div mul abs fix exact_mul quotient digits
    div_half_even with_sign ◌*ℤ◌ ◌+ℤ◌
is_tradable = refl

tradable-Seen_example : Seen noon evidence
unfolding evidenced
tradable-Seen_example =
    tradable-Seen noon "route-1" evidence evidenced manager is_snapshot
      (still_decides noon evidenced manager) is_tradable
