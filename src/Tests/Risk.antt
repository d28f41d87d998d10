-- ===== src/Tests/Risk.antt =====
-- The theorems on the risk manager at concrete states and requests.
use arbitrage_bot.Risk.Blocks.{evaluate_blocks_first}
use arbitrage_bot.Risk.Conditions.{FirstUnmet, conditions}
use arbitrage_bot.Base.{
  filter, leb, ap, arith, some, sym, ◌*◌, ◌++◌, ◌+◌, ◌-◌, ◌↔◌, ◌∙◌, contains, nat_eq, refl,
  string_eq, [], false, true, ℕ, ◌∷◌, ◌≡◌,
}
use arbitrage_bot.Base.Dict.{set_add, get_or, insert, lookup}
use arbitrage_bot.Risk.{
  mark_failure, mark_success, pause_route, second, date_of, put_stats, stats_of, trim, Manager,
  new_manager,
}
use arbitrage_bot.Risk.Decision.{evaluate_permits, evaluate_total}
use arbitrage_bot.Risk.Failures.{
  failure_outlasts_cooldown, fatal_failure_blocks, forgives, releases,
}
use arbitrage_bot.Risk.Permit.{Permitted}
use arbitrage_bot.Risk.Window.{InOrder, mark_success_window}
use arbitrage_bot.Risk.Runs.{Op, run}
use arbitrage_bot.Base.Int.{◌*ℤ◌, ◌+ℤ◌, pos}
use arbitrage_bot.Base.Result.{Result, err, ok}
use arbitrage_bot.Base.Text.{lower, split_arrow, strip}
use arbitrage_bot.Confidence.{
  at_least, balance_body, balance_confidence_at_least, fee_confidence_at_least, norm,
  normalize_balance_confidence, normalize_fee_confidence, normalize_quote_match_status,
  quote_match_status_at_least, rank, rank_table,
}
use arbitrage_bot.Decimal.{
  digits, div, div_half_even, exact_mul, fix, le, lt, mul, quotient, scale_up, with_sign, abs, dec,
}
use arbitrage_bot.Risk.Evaluate.{
  trim_route, dynamic_guards, evaluate, evaluate_route, run_guards, static_guards,
}
use arbitrage_bot.Risk.Guards.{
  balance_status, confidence_guards, cooldown_over, fee_status, gas_baseline, health_guards,
  live_guards, market_guards, mode_guards, no_venue_paused, pause_guards, pool_share_ok,
  required_balance_status, required_fee_status, required_quote_status, route_guards, shadow_guards,
  size_guards, venue_tokens, venue_tokens_of, HealthSnapshot, Request, quote_match_status,
}
use arbitrage_bot.Quote.{OpportunityDecision, RouteQuote}
use arbitrage_bot.Settings.{default_settings, paper}

abbrev pub market_quote : RouteQuote
market_quote = record {
  route_id = "route-1";
  strategy = "hyperevm_dex_dex";
  pair = "USDC/USDt0";
  direction = "forward";
  initial_amount = dec 100 0;
  final_amount = dec 102 0;
  raw_spread_amount = dec 2 0;
  raw_edge_bps = dec 200 0;
  modeled_net_edge_amount = dec 2 0;
  modeled_net_edge_bps = dec 200 0;
  expected_slippage_bps = dec 1 0;
  gas_cost_usdc = dec 1 2;
  quote_age_seconds = dec 1 0;
  all_costs = dec 5 1;
  persisted_seconds = dec 30 0;
  status = "candidate";
  blocked_reason = "";
  metadata = ("pool_health", "true") ∷ ("venues", "ramses->hybra") ∷ [];
}

abbrev good_health : HealthSnapshot
good_health = record {
  rpc_error_rate_5m = dec 0 0;
  gas_now = dec 1 0;
  gas_p90 = dec 1 0;
  liquidity_change_pct = dec 0 0;
  quote_stale_seconds = dec 0 0;
  health_age_seconds = dec 1 0;
  alert_failures = 0;
  db_reachable = true;
  db_known = true;
  rpc_reachable = true;
  rpc_known = true;
  signing_ok = true;
  signing_known = true;
  fee_known = true;
  fee_known_status = "chain_verified";
  fee_provenance = "chain";
  quote_match = true;
  quote_match_known = true;
  quote_match_status = "matched";
  balance_match = true;
  balance_match_known = true;
  balance_match_status = "wallet_verified";
  balance_failure_reason = "";
  clock_skew_ok = true;
  contract_revert_rate = dec 0 0;
}

abbrev pub request : Request
request = record {
  quote = market_quote;
  mode = paper;
  quote_freshness_limit = pos 5;
  health = good_health;
  wallet_balance_usdc = dec 1000 0;
  reference_deviation_bps = dec 0 0;
  depeg_detected = false;
  smaller_pool_liquidity_usdc = dec 1000000 0;
}

-- noon of a day, in microseconds
abbrev pub noon : ℕ
noon = 63_900_000_000_000_000

unfoldable pub manager : Manager
manager = new_manager default_settings noon

-- the decision on the request, with no checks where the call raises
abbrev pub decided : Result OpportunityDecision → OpportunityDecision
decided (ok d) = d
decided (err e) = record { tradable = false; blocked_reason = "raised"; checks = [] }

-- a decision is what the call returns
pub still_decides :
    (now : ℕ) (r : Request) (m : Manager) → (evaluate now r m).0 ≡ ok (decided (evaluate now r m).0)
still_decides now r m = let (d, e) = evaluate_total now r m in e ∙ ap (λ x. ok (decided x)) (sym e)

decides : (evaluate noon request manager).0 ≡ ok (decided (evaluate noon request manager).0)
unfolding manager new_manager date_of evaluate evaluate_route run_guards static_guards
    dynamic_guards trim_route trim put_stats stats_of pause_guards health_guards confidence_guards
    market_guards size_guards route_guards mode_guards shadow_guards live_guards venue_tokens
    venue_tokens_of no_venue_paused fee_status required_fee_status quote_match_status
    required_quote_status balance_status required_balance_status gas_baseline pool_share_ok
    cooldown_over lookup get_or insert contains normalize_fee_confidence
    normalize_balance_confidence balance_body normalize_quote_match_status at_least
    fee_confidence_at_least balance_confidence_at_least quote_match_status_at_least rank rank_table
    norm lower strip split_arrow le lt scale_up div mul abs fix exact_mul quotient digits
    div_half_even with_sign ◌*ℤ◌ ◌+ℤ◌
decides = refl

tradable_test : (decided (evaluate noon request manager).0).tradable ≡ true
unfolding manager new_manager date_of evaluate evaluate_route run_guards static_guards
    dynamic_guards trim_route trim put_stats stats_of pause_guards health_guards confidence_guards
    market_guards size_guards route_guards mode_guards shadow_guards live_guards venue_tokens
    venue_tokens_of no_venue_paused fee_status required_fee_status quote_match_status
    required_quote_status balance_status required_balance_status gas_baseline pool_share_ok
    cooldown_over lookup get_or insert contains normalize_fee_confidence
    normalize_balance_confidence balance_body normalize_quote_match_status at_least
    fee_confidence_at_least balance_confidence_at_least quote_match_status_at_least rank rank_table
    norm lower strip split_arrow le lt scale_up div mul abs fix exact_mul quotient digits
    div_half_even with_sign ◌*ℤ◌ ◌+ℤ◌
tradable_test = refl

evaluate_total_example : (d : OpportunityDecision) × ((evaluate noon request manager).0 ≡ ok d)
evaluate_total_example = evaluate_total noon request manager

evaluate_permits_example :
    ((decided (evaluate noon request manager).0).tradable ≡ true) ↔ Permitted noon manager request
evaluate_permits_example = evaluate_permits noon request manager decides

-- the same state with the route paused
paused : Manager
paused = pause_route "route-1" manager

paused_decides : (evaluate noon request paused).0 ≡ ok (decided (evaluate noon request paused).0)
unfolding manager new_manager date_of evaluate evaluate_route run_guards static_guards
    dynamic_guards trim_route trim put_stats stats_of pause_guards health_guards confidence_guards
    market_guards size_guards route_guards mode_guards shadow_guards live_guards venue_tokens
    venue_tokens_of no_venue_paused fee_status required_fee_status quote_match_status
    required_quote_status balance_status required_balance_status gas_baseline pool_share_ok
    cooldown_over lookup get_or insert contains normalize_fee_confidence
    normalize_balance_confidence balance_body normalize_quote_match_status at_least
    fee_confidence_at_least balance_confidence_at_least quote_match_status_at_least rank rank_table
    norm lower strip split_arrow le lt scale_up div mul abs fix exact_mul quotient digits
    div_half_even with_sign ◌*ℤ◌ ◌+ℤ◌ paused pause_route set_add
paused_decides = refl

paused_blocks : (decided (evaluate noon request paused).0).tradable ≡ false
unfolding manager new_manager date_of evaluate evaluate_route run_guards static_guards
    dynamic_guards trim_route trim put_stats stats_of pause_guards health_guards confidence_guards
    market_guards size_guards route_guards mode_guards shadow_guards live_guards venue_tokens
    venue_tokens_of no_venue_paused fee_status required_fee_status quote_match_status
    required_quote_status balance_status required_balance_status gas_baseline pool_share_ok
    cooldown_over lookup get_or insert contains normalize_fee_confidence
    normalize_balance_confidence balance_body normalize_quote_match_status at_least
    fee_confidence_at_least balance_confidence_at_least quote_match_status_at_least rank rank_table
    norm lower strip split_arrow le lt scale_up div mul abs fix exact_mul quotient digits
    div_half_even with_sign ◌*ℤ◌ ◌+ℤ◌ paused pause_route set_add
paused_blocks = refl

evaluate_blocks_first_example :
    FirstUnmet
      (decided (evaluate noon request paused).0).blocked_reason
      (conditions noon paused request)
evaluate_blocks_first_example =
    evaluate_blocks_first noon request paused paused_decides paused_blocks

manager-InOrder : InOrder noon manager
unfolding manager new_manager stats_of get_or lookup
manager-InOrder = λ route_id. tt

mark_success_window_example :
    (stats_of "route-1" (mark_success noon "route-1" (dec 1 0) manager)).executions
    ≡ filter (leb (noon - 600000000)) (stats_of "route-1" manager).executions ++ noon ∷ []
mark_success_window_example = mark_success_window noon "route-1" (dec 1 0) manager manager-InOrder

-- an hour after a revert, the cooldown cleared
after_revert : Manager
after_revert =
    run ((noon, Op.clear (some "route-1")) ∷ [])
      (mark_failure noon "route-1" "revert" "execution reverted" manager)

abbrev hour_later : ℕ
hour_later = noon + 3600 * second

after_revert_decides :
    (evaluate hour_later request after_revert).0
    ≡ ok (decided (evaluate hour_later request after_revert).0)
after_revert_decides = still_decides hour_later request after_revert

fatal_failure_blocks_example :
    (decided (evaluate hour_later request after_revert).0).tradable ≡ false
unfolding releases after_revert contains
fatal_failure_blocks_example =
    fatal_failure_blocks noon hour_later "route-1" "revert" "execution reverted" manager
      ((noon, Op.clear (some "route-1")) ∷ []) request refl (refl, tt) refl after_revert_decides

-- an hour after a timeout, whose cooldown is five minutes
after_timeout : Manager
after_timeout =
    run ((hour_later, Op.kill false) ∷ [])
      (mark_failure noon "route-1" "timeout" "no answer" manager)

after_timeout_decides :
    (evaluate hour_later request after_timeout).0
    ≡ ok (decided (evaluate hour_later request after_timeout).0)
after_timeout_decides = still_decides hour_later request after_timeout

failure_outlasts_cooldown_example :
    (decided (evaluate hour_later request after_timeout).0).tradable ≡ false
unfolding forgives after_timeout manager new_manager
failure_outlasts_cooldown_example =
    failure_outlasts_cooldown noon hour_later "route-1" "timeout" "no answer" manager
      ((hour_later, Op.kill false) ∷ []) request (omega arith) (refl, tt) refl after_timeout_decides
