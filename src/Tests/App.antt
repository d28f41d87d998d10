-- ===== src/Tests/App.antt =====
-- The theorems on the whole program at concrete states.
use arbitrage_bot.Repository.{
  ensure_route_runtime_states, edit_latest, get_runtime_control, set_global_pause, set_mode,
  write_config_audit, write_kill_switch_event, is_newest, latest_control, Database, Route,
  RuntimeControl,
}
use arbitrage_bot.Risk.{
  hydrate_route_state, resume_route, add_seconds, set_global_kill, should_stop_for_daily_dd,
  mark_failure, date_of, mark_success, new_manager, reset_daily_if_needed, stats_of, trim, Manager,
  new_stats, put_stats,
}
use arbitrage_bot.Settings.{Settings, default_settings, paper}
use arbitrage_bot.App.{add_alert, hydrate_all, persist_route_state, send, App, Env, restart}
use arbitrage_bot.App.Control.{
  handle_stop_all, mode_value, apply_mode, execute, handle_switch, run_mode, stop_all, switch_live,
  switch_mode, ApiRequest, Command, handle,
}
use arbitrage_bot.App.Scan.{
  check_drawdown, enter_round, begin_round, conclude, report_attempt, is_kept, scan_one,
}
use mathlib.Core.Bool.{true≢false}
use arbitrage_bot.App.Arming.{Arms, armed_only_in_live, handle-Arms}
use arbitrage_bot.App.Lockout.{fatal_lock, losses_lock}
use arbitrage_bot.App.Recovery.{persist_restart}
use arbitrage_bot.App.Refines.{execute-view}
use arbitrage_bot.App.Restores.{operator_restores, recovery, requests}
use arbitrage_bot.App.Shown.{Shows}
use arbitrage_bot.App.Stopping.{halt_blocks}
use arbitrage_bot.App.View.{command_spec, mode_of}
use arbitrage_bot.Base.{
  some, sym, ℕ, ◌+◌, ◌<◌, ◌==◌, arith, contains, nat_eq, string_eq, [], false, none, refl, true,
  ◌∷◌, ◌≡◌,
}
use arbitrage_bot.Execution.{arm_live, paper_realized, new_engine}
use arbitrage_bot.Risk.Permit.{Running}
use arbitrage_bot.Risk.State.{get_route_state}
use arbitrage_bot.Base.Dict.{get_or, insert, lookup}
use arbitrage_bot.Base.Int.{◌*ℤ◌, ◌+ℤ◌, pos}
use arbitrage_bot.Base.Text.{lower, split_arrow, strip}
use arbitrage_bot.Confidence.{
  at_least, balance_body, balance_confidence_at_least, fee_confidence_at_least, norm,
  normalize_balance_confidence, normalize_fee_confidence, normalize_quote_match_status,
  quote_match_status_at_least, rank, rank_table,
}
use arbitrage_bot.Decimal.{
  abs, add, digits, div, div_half_even, drop_digits, exact_add, exact_mul, fix, le, lt, mul, neg,
  quotient, scale_up, sub, with_sign, dec,
}
use arbitrage_bot.Risk.Evaluate.{
  dynamic_guards, evaluate_route, run_guards, static_guards, trim_route, evaluate,
}
use arbitrage_bot.Risk.Guards.{
  balance_status, confidence_guards, cooldown_over, fee_status, gas_baseline, health_guards,
  live_guards, market_guards, mode_guards, no_venue_paused, pause_guards, pool_share_ok,
  quote_match_status, required_balance_status, required_fee_status, required_quote_status,
  route_guards, shadow_guards, size_guards, venue_tokens, venue_tokens_of, Request,
}
use arbitrage_bot.Runner.{attempt, is_failed, paper_outcome, settle, settle_attempt, settle_outcome}
use arbitrage_bot.App.Steps.{Step, Steps}
use arbitrage_bot.Tests.Risk.{decided, manager, market_quote, noon, request, still_decides}

abbrev env : Env
env = record { now = noon; post_error = none }

abbrev pub only_route : Route
only_route = record {
  id = "route-1";
  strategy = "hyperevm_dex_dex";
  name = "ramses to hybra";
  pair = "USDC/USDt0";
  direction = "forward";
  venue_a = "ramses";
  venue_b = "hybra";
  pool_a = "a";
  pool_b = "b";
  quoter_fee_tier_a = pos 500;
  quoter_fee_tier_b = pos 500;
  pool_fee_tier_a = pos 500;
  pool_fee_tier_b = pos 500;
  economic_fee_bps_a = pos 5;
  economic_fee_bps_b = pos 5;
  max_notional_usdc = dec 100 0;
  enabled = true;
  kill_switch = false;
}

abbrev in_paper : RuntimeControl
in_paper = record { mode = "paper"; global_pause = false; updated_at = noon }

abbrev tables : Database
tables = record {
  controls = in_paper ∷ [];
  routes = only_route ∷ [];
  runtime_states = [];
  kill_events = [];
  audits = [];
  alerts = [];
}

abbrev app_of : Manager → App
app_of m = record {
  manager = m;
  live = new_engine;
  database = tables;
  alerts = record { has_webhook = true; failure_count = 0 };
  scanning = true;
}

app : App
app = app_of manager

-- a route that has lost once, and a quote that loses on paper
once_lost : Manager
once_lost = put_stats "route-1" (record new_stats { consecutive_losses = 1 }) manager

abbrev losing : Request
losing = record request { quote = record market_quote { modeled_net_edge_amount = dec 1 2 } }

abbrev request_of : Command → ApiRequest
request_of c = record { token = "change-me"; command = c }

-- after the second loss, a cleared cooldown and a restart
abbrev twice_lost : App
twice_lost = scan_one noon env "ramses to hybra" losing none (app_of once_lost)

abbrev after_losses : App
after_losses = restart env (handle env (request_of (Command.clear_cooldown none)) twice_lost).1

losing_keeps : is_kept paper (decided (evaluate noon losing once_lost).0) ≡ true
unfolding once_lost manager new_manager date_of evaluate evaluate_route run_guards static_guards
    dynamic_guards trim_route trim put_stats stats_of pause_guards health_guards confidence_guards
    market_guards size_guards route_guards mode_guards shadow_guards live_guards venue_tokens
    venue_tokens_of no_venue_paused fee_status required_fee_status quote_match_status
    required_quote_status balance_status required_balance_status gas_baseline pool_share_ok
    cooldown_over lookup get_or insert contains normalize_fee_confidence
    normalize_balance_confidence balance_body normalize_quote_match_status at_least
    fee_confidence_at_least balance_confidence_at_least quote_match_status_at_least rank rank_table
    norm lower strip split_arrow le lt scale_up div mul abs fix exact_mul quotient digits
    div_half_even with_sign ◌*ℤ◌ ◌+ℤ◌ is_kept
losing_keeps = refl

second_loss : (stats_of "route-1" twice_lost.manager).consecutive_losses ≡ 2
unfolding once_lost manager new_manager date_of evaluate evaluate_route run_guards static_guards
    dynamic_guards trim_route trim put_stats stats_of pause_guards health_guards confidence_guards
    market_guards size_guards route_guards mode_guards shadow_guards live_guards venue_tokens
    venue_tokens_of no_venue_paused fee_status required_fee_status quote_match_status
    required_quote_status balance_status required_balance_status gas_baseline pool_share_ok
    cooldown_over lookup get_or insert contains normalize_fee_confidence
    normalize_balance_confidence balance_body normalize_quote_match_status at_least
    fee_confidence_at_least balance_confidence_at_least quote_match_status_at_least rank rank_table
    norm lower strip split_arrow le lt scale_up div mul abs fix exact_mul quotient digits
    div_half_even with_sign ◌*ℤ◌ ◌+ℤ◌ is_kept scan_one conclude report_attempt send
    persist_route_state settle settle_attempt settle_outcome attempt paper_outcome paper_realized
    is_failed mark_success reset_daily_if_needed sub add exact_add drop_digits neg
second_loss = refl

losses_lock_example : (decided (evaluate noon request after_losses.manager).0).tradable ≡ false
unfolding once_lost manager new_manager put_stats
losses_lock_example =
    losses_lock noon env "ramses to hybra" losing none (app_of once_lost) after_losses noon request
      refl (still_decides noon losing once_lost) losing_keeps (rw second_loss (omega arith))
      (Steps.next
        (Steps.next Steps.here
          (Step.request env (request_of (Command.clear_cooldown none)) twice_lost refl))
        (Step.crash env _))
      refl (still_decides noon request after_losses.manager)

-- a quote that is missing blocks with a fatal category; then the cooldown is cleared
abbrev unquoted : Request
unquoted = record request {
  quote = record market_quote { metadata = ("quote_unavailable", "true") ∷ [] };
}

blocked_reason : (decided (evaluate noon unquoted manager).0).blocked_reason ≡ "quote_unavailable"
unfolding manager new_manager date_of evaluate evaluate_route run_guards static_guards
    dynamic_guards trim_route trim put_stats stats_of pause_guards health_guards confidence_guards
    market_guards size_guards route_guards mode_guards shadow_guards live_guards venue_tokens
    venue_tokens_of no_venue_paused fee_status required_fee_status quote_match_status
    required_quote_status balance_status required_balance_status gas_baseline pool_share_ok
    cooldown_over lookup get_or insert contains normalize_fee_confidence
    normalize_balance_confidence balance_body normalize_quote_match_status at_least
    fee_confidence_at_least balance_confidence_at_least quote_match_status_at_least rank rank_table
    norm lower strip split_arrow le lt scale_up div mul abs fix exact_mul quotient digits
    div_half_even with_sign ◌*ℤ◌ ◌+ℤ◌ is_kept
blocked_reason = refl

not_tradable : (decided (evaluate noon unquoted manager).0).tradable ≡ false
unfolding manager new_manager date_of evaluate evaluate_route run_guards static_guards
    dynamic_guards trim_route trim put_stats stats_of pause_guards health_guards confidence_guards
    market_guards size_guards route_guards mode_guards shadow_guards live_guards venue_tokens
    venue_tokens_of no_venue_paused fee_status required_fee_status quote_match_status
    required_quote_status balance_status required_balance_status gas_baseline pool_share_ok
    cooldown_over lookup get_or insert contains normalize_fee_confidence
    normalize_balance_confidence balance_body normalize_quote_match_status at_least
    fee_confidence_at_least balance_confidence_at_least quote_match_status_at_least rank rank_table
    norm lower strip split_arrow le lt scale_up div mul abs fix exact_mul quotient digits
    div_half_even with_sign ◌*ℤ◌ ◌+ℤ◌ is_kept
not_tradable = refl

abbrev after_block : App
after_block = scan_one noon env "ramses to hybra" unquoted none (app_of manager)

fatal_lock_example :
    (decided
      (evaluate noon request
        (handle env (request_of (Command.clear_cooldown none)) after_block).1.manager).0).tradable
    ≡ false
fatal_lock_example =
    fatal_lock noon env "ramses to hybra" unquoted none (app_of manager)
      (handle env (request_of (Command.clear_cooldown none)) after_block).1 noon request refl
      (still_decides noon unquoted manager)
      (unfold is_kept in rw (not_tradable, blocked_reason) (unfold contains in refl))
      (rw (not_tradable, blocked_reason) (unfold contains in refl))
      (Steps.next Steps.here
        (Step.request env (request_of (Command.clear_cooldown none)) after_block refl))
      refl (still_decides noon request _)

-- a route with a failure and a cooldown
failed : Manager
failed = mark_failure noon "route-1" "timeout" "tx_status=failed" manager

cooling : (finish : ℕ) → lookup "route-1" failed.cooldown_until ≡ some finish → noon + 1 < finish
unfolding failed mark_failure manager new_manager put_stats lookup insert contains add_seconds
cooling finish e = ground (arith, e)

persist_restart_example :
    get_route_state
      (noon + 2)
      "route-1"
      (restart
        record { now = noon + 1; post_error = none }
        (persist_route_state noon "route-1" (app_of failed))).manager
    ≡ get_route_state (noon + 2) "route-1" failed
persist_restart_example =
    persist_restart noon (noon + 2) record { now = noon + 1; post_error = none } "route-1"
      (app_of failed) refl cooling

execute-view_example : Shows (execute env stop_all app).1 (
    command_spec default_settings stop_all
      record { mode = "paper"; paused = false; killed = false; armed = false })
unfolding app manager new_manager latest_control is_newest
execute-view_example = execute-view env stop_all app refl

-- a request with both tokens
abbrev live_settings : Settings
live_settings = record default_settings { live_enable_flag = true; live_confirmation_token = "go" }

abbrev ready : App
ready = app_of (new_manager live_settings noon)

abbrev to_live : ApiRequest
to_live = request_of (switch_mode "LIVE" (some "go"))

is_armed : (handle env to_live ready).1.live.runtime_armed ≡ true
unfolding new_manager handle execute handle_switch switch_live arm_live apply_mode send run_mode
    lower
is_armed = refl

handle-Arms_example :
    ((to_live.token == ready.manager.settings.control_api_token) ≡ true)
    × Arms ready.manager.settings to_live.command
unfolding new_manager
handle-Arms_example = handle-Arms env to_live ready refl refl is_armed

armed_only_in_live_example : mode_of (handle env to_live ready).1.database.controls ≡ "live"
armed_only_in_live_example =
    armed_only_in_live ready (handle env to_live ready).1 refl (λ on. absurd (true≢false (sym on)))
      (Steps.next Steps.here (Step.request env to_live ready refl)) is_armed

-- a stop, a restart and the head of a round
abbrev stopped_app : App
stopped_app = (execute env stop_all app).1

abbrev new_round : App
new_round = begin_round env (dec 1000 0) (restart env stopped_app)

in_round : new_round.scanning ≡ true
unfolding app manager new_manager begin_round restart execute handle_stop_all send set_mode
    set_global_pause get_runtime_control latest_control edit_latest is_newest hydrate_all
    enter_round check_drawdown run_mode should_stop_for_daily_dd set_global_kill add_alert
    write_config_audit write_kill_switch_event mode_value le div neg ensure_route_runtime_states
    hydrate_route_state resume_route put_stats
in_round = refl

halt_blocks_example : (decided (evaluate noon request new_round.manager).0).tradable ≡ false
halt_blocks_example =
    halt_blocks env stop_all app new_round noon request (unfold app in refl) refl
      (Steps.next (Steps.next Steps.here (Step.crash env stopped_app))
        (Step.begin env (dec 1000 0) (restart env stopped_app)))
      in_round (still_decides noon request new_round.manager)

operator_restores_example :
    Running (requests env "change-me" (recovery market_quote) (app_of failed)).manager request
    × ((stats_of "route-1"
          (requests env "change-me"
            (recovery market_quote)
            (app_of failed)).manager).consecutive_failures
        ≡ 0)
    × (lookup "route-1"
          (requests env "change-me" (recovery market_quote) (app_of failed)).manager.cooldown_until
        ≡ none)
unfolding failed mark_failure manager new_manager put_stats contains
operator_restores_example = operator_restores env (app_of failed) request refl refl
