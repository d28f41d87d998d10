-- ===== src/Tests/Quoting.antt =====
-- The theorems on quotes and their decisions at concrete venues.
use arbitrage_bot.Runner.Depeg.{depeg_blocks_paper}
use arbitrage_bot.Base.Dict.{get_or, erase, insert, lookup, Dict}
use arbitrage_bot.Base.Result.{quote_unavailable, Result, err, ok}
use arbitrage_bot.Base.Text.{split_arrow, lower, strip}
use arbitrage_bot.Confidence.{
  at_least, balance_body, balance_confidence_at_least, fee_confidence_at_least,
  normalize_balance_confidence, normalize_quote_match_status, quote_match_status_at_least,
  legacy_fee, min_by_rank, min_fee_confidence, min_of, norm, normalize_fee_confidence, rank,
  rank_table,
}
use arbitrage_bot.Decimal.{
  div_half_up, abs, add, digits, div, div_half_even, drop_digits, exact_add, exact_mul, fix, le, lt,
  min, mul, quantize, quotient, round_mag, scale_up, sub, with_sign, dec,
}
use arbitrage_bot.Health.{
  new_collector, normalize_signing_state, push, record_db_latency, record_gas, record_rpc_probe,
  set_heartbeat, set_quality_status, trim_all, trim_routes, trim_series,
}
use arbitrage_bot.Health.Risk.{
  error_rate, failures, insert_value, latest_value, liquidity_change, nth_value, probe_ok, quantile,
  quantile_index, reachable, seconds_between, sort_values, to_risk_snapshot, values,
}
use arbitrage_bot.Json.{or_else, parse_decimal, show_ℕ, show_ℤ}
use arbitrage_bot.Quote.{OpportunityDecision, RouteQuote}
use arbitrage_bot.Risk.{Manager, date_of, new_manager, put_stats, stats_of, trim, second}
use arbitrage_bot.Risk.Evaluate.{
  dynamic_guards, evaluate, evaluate_route, run_guards, static_guards, trim_route,
}
use arbitrage_bot.Risk.Guards.{
  Request, balance_status, confidence_guards, cooldown_over, fee_status, gas_baseline,
  health_guards, live_guards, market_guards, mode_guards, no_venue_paused, pause_guards,
  pool_share_ok, quote_match_status, required_balance_status, required_fee_status,
  required_quote_status, route_guards, shadow_guards, size_guards, venue_tokens, venue_tokens_of,
}
use arbitrage_bot.Runner.Quoted.{unavailable_blocks}
use arbitrage_bot.Runner.Quoting.{
  assess, quoted_fee_provenance, quoted_fee_status, quoted_match_status, record_quote,
  record_statuses, stale_limit, with_statuses,
}
use arbitrage_bot.Runner.Verified.{IsVerified, live_trade-IsVerified}
use arbitrage_bot.Settings.{paper, Settings, default_settings, live}
use arbitrage_bot.Tests.Evidence.{evidence}
use arbitrage_bot.Tests.Risk.{decided, manager, request, still_decides, market_quote, noon}
use arbitrage_bot.Base.{
  contains, [], false, if◌then◌else◌, nat_eq, refl, some, string_eq, true, ℕ, ◌*◌, ◌+◌, ◌-◌, ◌==◌,
  ◌∷◌, ◌≡◌,
}
use arbitrage_bot.Base.Int.{◌*ℤ◌, ◌+ℤ◌, pos}
use arbitrage_bot.Edge.{
  apply_bps, calculate, cost_total, dex_fee_status, to_bps_down, update_persistence,
}
use arbitrage_bot.Json.Show.{decimal_text, place}
use arbitrage_bot.QuoteEngine.{
  deviation_within, estimate_dex_fee_cost, estimate_gas_usdc, quote_with,
}
use arbitrage_bot.QuoteEngine.Hyper.{
  fees_of, finish_hyper, metadata_hyper, pools_of, price_hyper, quote_between, quote_match_hyper,
  quote_route_hyper,
}
use arbitrage_bot.Repository.{Route}
use arbitrage_bot.Tests.App.{only_route}
use arbitrage_bot.Venues.{DexAdapter}

-- a venue that buys with a gain of two percent and answers the way back exactly
abbrev venue : DexAdapter
venue = record {
  supported = true;
  support_reason = "";
  quote_exact_input = λ token_in token_out amount fee_tier pool_id.
      ok (if token_in == "USDC" then dec 100 0 else dec 1005 1);
  quote_exact_output = λ token_in token_out amount fee_tier pool_id. ok (dec 100 0);
  estimate_gas = λ route. ok (pos 100000);
  pool_fee_tier = λ pool. ok (pos 500);
  liquidity_usd = λ pool. ok (some (dec 1000000 0));
  is_pool_healthy = λ pool. ok true;
}

abbrev adapters : Dict DexAdapter
adapters = ("ramses", venue) ∷ ("hybra", venue) ∷ []

abbrev on_chain : Settings
on_chain = record default_settings {
  use_mock_market_data = false;
  live_enable_flag = true;
  gas_token_price_usdc = dec 1 0;
  live_min_profit_absolute_usdc = dec 3 1;
}

abbrev live_route : Route
live_route = record only_route { economic_fee_bps_a = pos 1; economic_fee_bps_b = pos 1 }

abbrev lasting : Dict ℕ
lasting = ("route-1", noon - 60 * second) ∷ []

abbrev ended : ℕ
ended = noon + 1000

quoted : Result RouteQuote
quoted = (quote_route_hyper on_chain noon ended adapters live_route (dec 100 0) live lasting).0

abbrev quote_of : Result RouteQuote → RouteQuote
quote_of (ok q) = q
quote_of (err e) = market_quote

is_quoted : quoted ≡ ok (quote_of quoted)
unfolding quoted quote_route_hyper quote_between price_hyper finish_hyper pools_of fees_of
    metadata_hyper quote_match_hyper deviation_within estimate_dex_fee_cost estimate_gas_usdc
    quote_with to_bps_down apply_bps cost_total calculate dex_fee_status update_persistence
    min_fee_confidence min_of min_by_rank rank rank_table normalize_fee_confidence legacy_fee norm
    strip lower contains lookup insert erase quantize round_mag mul div sub add abs fix exact_mul
    exact_add drop_digits digits div_half_even quotient with_sign scale_up le lt min decimal_text
    place show_ℕ show_ℤ ◌*ℤ◌ ◌+ℤ◌
is_quoted = refl

abbrev request_or : Result Request → Request
request_or (ok r) = r
request_or (err e) = request

abbrev assessment : Result Request
assessment =
    assess ended on_chain live_route live (dec 1000 0) "good" ("wallet_verified", "")
      (quote_of quoted) evidence

is_assessed : assessment ≡ ok (request_or assessment)
unfolding quoted quote_route_hyper quote_between price_hyper finish_hyper pools_of fees_of
    metadata_hyper quote_match_hyper deviation_within estimate_dex_fee_cost estimate_gas_usdc
    quote_with to_bps_down apply_bps cost_total calculate dex_fee_status update_persistence
    min_fee_confidence min_of min_by_rank legacy_fee erase quantize round_mag sub add exact_add
    drop_digits min decimal_text place show_ℕ show_ℤ assess with_statuses record_statuses
    stale_limit quoted_fee_status quoted_fee_provenance quoted_match_status parse_decimal or_else
    to_risk_snapshot error_rate failures liquidity_change reachable probe_ok seconds_between
    latest_value quantile quantile_index nth_value sort_values insert_value values set_heartbeat
    set_quality_status normalize_signing_state record_gas record_db_latency record_rpc_probe
    trim_all trim_series trim_routes push new_collector div_half_up new_manager date_of evaluate
    evaluate_route run_guards static_guards dynamic_guards trim_route trim put_stats stats_of
    pause_guards health_guards confidence_guards market_guards size_guards route_guards mode_guards
    shadow_guards live_guards venue_tokens venue_tokens_of no_venue_paused fee_status
    required_fee_status quote_match_status required_quote_status balance_status
    required_balance_status gas_baseline pool_share_ok cooldown_over lookup get_or insert contains
    normalize_fee_confidence normalize_balance_confidence balance_body normalize_quote_match_status
    at_least fee_confidence_at_least balance_confidence_at_least quote_match_status_at_least rank
    rank_table norm lower strip split_arrow le lt scale_up div mul abs fix exact_mul quotient digits
    div_half_even with_sign ◌*ℤ◌ ◌+ℤ◌
is_assessed = refl

abbrev live_manager : Manager
live_manager = new_manager on_chain noon

goes_ahead : (decided (evaluate ended (request_or assessment) live_manager).0).tradable ≡ true
unfolding quoted quote_route_hyper quote_between price_hyper finish_hyper pools_of fees_of
    metadata_hyper quote_match_hyper deviation_within estimate_dex_fee_cost estimate_gas_usdc
    quote_with to_bps_down apply_bps cost_total calculate dex_fee_status update_persistence
    min_fee_confidence min_of min_by_rank legacy_fee erase quantize round_mag sub add exact_add
    drop_digits min decimal_text place show_ℕ show_ℤ assess with_statuses record_statuses
    stale_limit quoted_fee_status quoted_fee_provenance quoted_match_status parse_decimal or_else
    to_risk_snapshot error_rate failures liquidity_change reachable probe_ok seconds_between
    latest_value quantile quantile_index nth_value sort_values insert_value values set_heartbeat
    set_quality_status normalize_signing_state record_gas record_db_latency record_rpc_probe
    trim_all trim_series trim_routes push new_collector div_half_up new_manager date_of evaluate
    evaluate_route run_guards static_guards dynamic_guards trim_route trim put_stats stats_of
    pause_guards health_guards confidence_guards market_guards size_guards route_guards mode_guards
    shadow_guards live_guards venue_tokens venue_tokens_of no_venue_paused fee_status
    required_fee_status quote_match_status required_quote_status balance_status
    required_balance_status gas_baseline pool_share_ok cooldown_over lookup get_or insert contains
    normalize_fee_confidence normalize_balance_confidence balance_body normalize_quote_match_status
    at_least fee_confidence_at_least balance_confidence_at_least quote_match_status_at_least rank
    rank_table norm lower strip split_arrow le lt scale_up div mul abs fix exact_mul quotient digits
    div_half_even with_sign ◌*ℤ◌ ◌+ℤ◌
goes_ahead = refl

live_trade-IsVerified_example : IsVerified on_chain live_route (dec 100 0) venue venue
unfolding quoted new_manager lookup
live_trade-IsVerified_example =
    live_trade-IsVerified on_chain noon ended ended adapters venue venue live_route (dec 100 0)
      lasting (dec 1000 0) "good" ("wallet_verified", "") (quote_of quoted) evidence
      (request_or assessment) live_manager refl refl is_quoted is_assessed refl refl
      (still_decides ended (request_or assessment) live_manager) goes_ahead

unavailable_blocks_example :
    let (q, recorded) =
      record_quote noon
        (dec 5 0)
        (λ e. "timeout")
        live_route
        paper
        (err (quote_unavailable "quote_unavailable" "down"))
        evidence in
    (r : Request) × (assess ended default_settings live_route paper
        (dec 1000 0)
        "good"
        ("unknown", "")
        q
        recorded
      ≡ ok r)
    × (d : OpportunityDecision) × ((evaluate ended r manager).0 ≡ ok d)
    × (d.tradable ≡ false)
unavailable_blocks_example =
    unavailable_blocks noon ended (dec 5 0) (λ e. "timeout") default_settings live_route paper
      (quote_unavailable "quote_unavailable" "down") (dec 1000 0) "good" ("unknown", "") evidence
      manager

-- a quote with two percent of gain
abbrev rich : DexAdapter
rich = record venue {
  quote_exact_input = λ token_in token_out amount fee_tier pool_id.
      ok (if token_in == "USDC" then dec 100 0 else dec 102 0);
}

rich_quote : RouteQuote
rich_quote =
    quote_of (quote_between on_chain noon ended rich rich live_route (dec 100 0) paper lasting).0

abbrev rich_assessment : Result Request
rich_assessment =
    assess ended on_chain live_route paper (dec 1000 0) "good" ("wallet_verified", "") rich_quote
      evidence

rich_is_assessed : rich_assessment ≡ ok (request_or rich_assessment)
unfolding rich_quote quote_route_hyper quote_between price_hyper finish_hyper pools_of fees_of
    metadata_hyper quote_match_hyper deviation_within estimate_dex_fee_cost estimate_gas_usdc
    quote_with to_bps_down apply_bps cost_total calculate dex_fee_status update_persistence
    min_fee_confidence min_of min_by_rank legacy_fee erase quantize round_mag sub add exact_add
    drop_digits min decimal_text place show_ℕ show_ℤ assess with_statuses record_statuses
    stale_limit quoted_fee_status quoted_fee_provenance quoted_match_status parse_decimal or_else
    to_risk_snapshot error_rate failures liquidity_change reachable probe_ok seconds_between
    latest_value quantile quantile_index nth_value sort_values insert_value values set_heartbeat
    set_quality_status normalize_signing_state record_gas record_db_latency record_rpc_probe
    trim_all trim_series trim_routes push new_collector div_half_up new_manager date_of evaluate
    evaluate_route run_guards static_guards dynamic_guards trim_route trim put_stats stats_of
    pause_guards health_guards confidence_guards market_guards size_guards route_guards mode_guards
    shadow_guards live_guards venue_tokens venue_tokens_of no_venue_paused fee_status
    required_fee_status quote_match_status required_quote_status balance_status
    required_balance_status gas_baseline pool_share_ok cooldown_over lookup get_or insert contains
    normalize_fee_confidence normalize_balance_confidence balance_body normalize_quote_match_status
    at_least fee_confidence_at_least balance_confidence_at_least quote_match_status_at_least rank
    rank_table norm lower strip split_arrow le lt scale_up div mul abs fix exact_mul quotient digits
    div_half_even with_sign ◌*ℤ◌ ◌+ℤ◌
rich_is_assessed = refl

gain_test : le (dec 150 0) rich_quote.modeled_net_edge_bps ≡ true
unfolding rich_quote quote_route_hyper quote_between price_hyper finish_hyper pools_of fees_of
    metadata_hyper quote_match_hyper deviation_within estimate_dex_fee_cost estimate_gas_usdc
    quote_with to_bps_down apply_bps cost_total calculate dex_fee_status update_persistence
    min_fee_confidence min_of min_by_rank legacy_fee erase quantize round_mag sub add exact_add
    drop_digits min decimal_text place show_ℕ show_ℤ assess with_statuses record_statuses
    stale_limit quoted_fee_status quoted_fee_provenance quoted_match_status parse_decimal or_else
    to_risk_snapshot error_rate failures liquidity_change reachable probe_ok seconds_between
    latest_value quantile quantile_index nth_value sort_values insert_value values set_heartbeat
    set_quality_status normalize_signing_state record_gas record_db_latency record_rpc_probe
    trim_all trim_series trim_routes push new_collector div_half_up new_manager date_of evaluate
    evaluate_route run_guards static_guards dynamic_guards trim_route trim put_stats stats_of
    pause_guards health_guards confidence_guards market_guards size_guards route_guards mode_guards
    shadow_guards live_guards venue_tokens venue_tokens_of no_venue_paused fee_status
    required_fee_status quote_match_status required_quote_status balance_status
    required_balance_status gas_baseline pool_share_ok cooldown_over lookup get_or insert contains
    normalize_fee_confidence normalize_balance_confidence balance_body normalize_quote_match_status
    at_least fee_confidence_at_least balance_confidence_at_least quote_match_status_at_least rank
    rank_table norm lower strip split_arrow le lt scale_up div mul abs fix exact_mul quotient digits
    div_half_even with_sign ◌*ℤ◌ ◌+ℤ◌
gain_test = refl

depeg_blocks_paper_example :
    (decided (evaluate ended (request_or rich_assessment) live_manager).0).tradable ≡ false
unfolding rich_quote quote_route_hyper quote_between price_hyper finish_hyper pools_of fees_of
    metadata_hyper quote_match_hyper deviation_within estimate_dex_fee_cost estimate_gas_usdc
    quote_with to_bps_down apply_bps cost_total calculate dex_fee_status update_persistence
    min_fee_confidence min_of min_by_rank legacy_fee erase quantize round_mag sub add exact_add
    drop_digits min decimal_text place show_ℕ show_ℤ assess with_statuses record_statuses
    stale_limit quoted_fee_status quoted_fee_provenance quoted_match_status parse_decimal or_else
    to_risk_snapshot error_rate failures liquidity_change reachable probe_ok seconds_between
    latest_value quantile quantile_index nth_value sort_values insert_value values set_heartbeat
    set_quality_status normalize_signing_state record_gas record_db_latency record_rpc_probe
    trim_all trim_series trim_routes push new_collector div_half_up new_manager date_of evaluate
    evaluate_route run_guards static_guards dynamic_guards trim_route trim put_stats stats_of
    pause_guards health_guards confidence_guards market_guards size_guards route_guards mode_guards
    shadow_guards live_guards venue_tokens venue_tokens_of no_venue_paused fee_status
    required_fee_status quote_match_status required_quote_status balance_status
    required_balance_status gas_baseline pool_share_ok cooldown_over lookup get_or insert contains
    normalize_fee_confidence normalize_balance_confidence balance_body normalize_quote_match_status
    at_least fee_confidence_at_least balance_confidence_at_least quote_match_status_at_least rank
    rank_table norm lower strip split_arrow le lt scale_up div mul abs fix exact_mul quotient digits
    div_half_even with_sign ◌*ℤ◌ ◌+ℤ◌
depeg_blocks_paper_example =
    depeg_blocks_paper ended on_chain live_route paper (dec 1000 0) "good" ("wallet_verified", "")
      rich_quote evidence (request_or rich_assessment) live_manager rich_is_assessed refl refl refl
      refl (still_decides ended (request_or rich_assessment) live_manager)
