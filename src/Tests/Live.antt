-- ===== src/Tests/Live.antt =====
-- The theorems on the contract client, the live engine, the health collector and the edge.
use arbitrage_bot.Base.{
  List, String, ℕ, [], any, arith, contains, false, nat_eq, none, refl, some, string_eq, true, ◌-◌,
  ◌↔◌, ◌∷◌, ◌≡◌,
}
use arbitrage_bot.Decimal.{Decimal, le, scale_up, dec}
use arbitrage_bot.Edge.Persistence.{Quoted, after, run_start, update_persistence_lem}
use arbitrage_bot.Health.Windows.{IsWindow, record_probe-IsWindow, stamps}
use arbitrage_bot.Base.Dict.{get_or, lookup}
use arbitrage_bot.Metrics.{MetricsStore, record_metric, record_metric-IsWindow}
use arbitrage_bot.Base.Int.{pos, ◌*ℤ◌}
use arbitrage_bot.Base.Text.{lower, split_comma, strip}
use arbitrage_bot.Contracts.{
  ArbRouteCall, Callable, Web3, addresses_ok, dry_run, dry_run_iff, validate_allowlist,
  validate_chain,
}
use arbitrage_bot.Edge.{update_persistence}
use arbitrage_bot.Execution.{
  arm, arms, calls, execute_live, execute_live_blocks, new_engine, since_disarm,
}
use arbitrage_bot.Health.{
  Collector, new_collector, push, record_execution_result, record_rpc_probe, trim_all, trim_series,
}
use arbitrage_bot.Risk.Window.{IsOrdered}
use arbitrage_bot.Settings.{
  allowlist_items, allowlisted_routers_set, allowlisted_tokens_set, default_settings,
}

-- a node on the configured chain that takes every text for an address
abbrev node : Web3
node = record { chain_id = some (pos 999); is_address = λ a. true }

abbrev route_call : ArbRouteCall
route_call = record {
  router_a = "0x0000000000000000000000000000000000000010";
  router_b = "0x0000000000000000000000000000000000000010";
  token_start = "0x0000000000000000000000000000000000000001";
  token_mid = "0x0000000000000000000000000000000000000002";
  amount_in = pos 100;
  min_amount_out_final = pos 100;
  deadline = pos 1700000000;
}

dry_run_iff_example :
    (dry_run default_settings node route_call ≡ (true, "ok"))
    ↔ Callable default_settings node route_call
dry_run_iff_example = dry_run_iff default_settings node route_call

dry_run_test : dry_run default_settings node route_call ≡ (true, "ok")
unfolding dry_run validate_chain validate_allowlist addresses_ok allowlisted_routers_set
    allowlisted_tokens_set allowlist_items contains split_comma lower strip
dry_run_test = refl

execute_live_blocks_example :
    let e = calls default_settings (arm "DISABLED" ∷ []) new_engine in
    let reason = (execute_live default_settings e).blocked_reason in
    (e.runtime_armed ≡ any (arms default_settings) (since_disarm [] (arm "DISABLED" ∷ [])))
    × ((execute_live default_settings e).ok ≡ false)
    × ((reason ≡ "live_flag_off") ↔ (false ≡ false))
    × ((reason ≡ "live_not_armed") ↔ ((false ≡ true) × (e.runtime_armed ≡ false)))
    × ((reason ≡ "live_execution_disabled")
        ↔ ((false ≡ true) × (e.runtime_armed ≡ true) × (false ≡ false)))
    × ((reason ≡ "live_submit_not_implemented")
        ↔ ((false ≡ true) × (e.runtime_armed ≡ true) × (false ≡ true)))
execute_live_blocks_example = execute_live_blocks default_settings (arm "DISABLED" ∷ [])

-- a collector after one probe of the node
probed : Collector
probed = record_rpc_probe 1000 (dec 5 0) true (new_collector 0)

record_probe-IsWindow_example :
    (IsWindow 2000
        (2000 - 300000000)
        (dec 5 0)
        probed.rpc_latency
        (record_rpc_probe 2000 (dec 5 0) false probed).rpc_latency
      × IsOrdered 2000 (stamps (record_rpc_probe 2000 (dec 5 0) false probed).rpc_latency))
    × (IsWindow 2000
          (2000 - 300000000)
          false
          probed.rpc_results
          (record_rpc_probe 2000 (dec 5 0) false probed).rpc_results
        × IsOrdered 2000 (stamps (record_rpc_probe 2000 (dec 5 0) false probed).rpc_results))
    × (IsWindow 2000
          (2000 - 300000000)
          false
          probed.execution_results
          (record_execution_result 2000 "reverted" probed).execution_results
        × IsOrdered 2000
            (stamps (record_execution_result 2000 "reverted" probed).execution_results))
unfolding probed record_rpc_probe trim_all trim_series push new_collector
record_probe-IsWindow_example =
    record_probe-IsWindow 2000 (dec 5 0) false "reverted" probed (omega arith, tt, tt)
      (omega arith, tt, tt) tt

abbrev quoted_at : ℕ → String → Decimal → Quoted
quoted_at now route_id edge = record {
  now = now;
  route_id = route_id;
  threshold = dec 30 0;
  edge = edge;
}

-- another route drops below the threshold during the run
abbrev earlier_quotes : List Quoted
earlier_quotes =
    quoted_at 25 "route-2" (dec 1 0)
    ∷ quoted_at 20 "route-1" (dec 35 0)
    ∷ quoted_at 10 "route-1" (dec 5 0)
    ∷ []

update_persistence_lem_example :
    (update_persistence 30 "route-1" (dec 30 0) (dec 40 0) (after earlier_quotes [])).0
    ≡ elim (run_start "route-1" (quoted_at 30 "route-1" (dec 40 0) ∷ earlier_quotes)) [
      | none ↦ 0
      | some start ↦ 30 - start
    ]
unfolding lookup
update_persistence_lem_example =
    update_persistence_lem (quoted_at 30 "route-1" (dec 40 0)) earlier_quotes [] refl

run_start_test : run_start "route-1" (quoted_at 30 "route-1" (dec 40 0) ∷ earlier_quotes) ≡ some 20
unfolding run_start le scale_up ◌*ℤ◌
run_start_test = refl

abbrev gas_store : MetricsStore
gas_store =
    ("gas_now", record { ts = 5; value = dec 7 0 } ∷ record { ts = 9; value = dec 3 1 } ∷ []) ∷ []

gas_order : IsOrdered 90000000000 (stamps (get_or "gas_now" [] gas_store))
unfolding get_or lookup
gas_order = (omega arith, (omega arith, tt), (omega arith, tt, tt))

record_metric-IsWindow_example :
    IsWindow 90000000000
      (90000000000 - 86400000000)
      (dec 4 0)
      (get_or "gas_now" [] gas_store)
      (get_or "gas_now" [] (record_metric 90000000000 "gas_now" (dec 4 0) gas_store))
    × IsOrdered 90000000000
        (stamps (get_or "gas_now" [] (record_metric 90000000000 "gas_now" (dec 4 0) gas_store)))
record_metric-IsWindow_example =
    record_metric-IsWindow 90000000000 "gas_now" (dec 4 0) gas_store gas_order
