-- ===== src/Tests/Scan.antt =====
-- The theorems on the scan of a route at concrete requests.
use arbitrage_bot.Base.{
  List, String, contains, nat_eq, string_eq, [], agree, false, inr, none, refl, some, sym, true, ℕ,
  ◌*◌, ◌+◌, ◌∷◌, ◌≡◌,
}
use arbitrage_bot.Base.Int.{◌*ℤ◌, ◌+ℤ◌}
use arbitrage_bot.Base.Text.{lower, strip}
use arbitrage_bot.Confidence.{balance_body, norm, normalize_balance_confidence}
use arbitrage_bot.Decimal.{
  abs, add, dec, digits, div, div_half_even, drop_digits, exact_add, fix, le, lt, max, quotient,
  scale_up, sub, with_sign,
}
use arbitrage_bot.Runner.Backing.{IsBacked, probe_balance-IsBacked}
use arbitrage_bot.Runner.Balance.{
  Balance, after_inventory, compare_inventory, db_wallet, latest_total, needs_wallet,
  probe_balance_status, rows_of, verified_as, violates, wallet_status, within_balance_tolerance,
}
use arbitrage_bot.Settings.{Settings, default_settings, live}
use arbitrage_bot.Base.Result.{ok}
use arbitrage_bot.Quote.{OpportunityDecision}
use arbitrage_bot.Risk.{Manager, second, stats_of}
use arbitrage_bot.Risk.Evaluate.{evaluate}
use arbitrage_bot.Risk.Guards.{Request}
use arbitrage_bot.Risk.Runs.{Op, run}
use arbitrage_bot.Runner.{scan_route, settle}
use arbitrage_bot.Runner.Scan.{Fails, scan_failure_blocks, scan_route_isolated}
use arbitrage_bot.Tests.Risk.{decided, manager, market_quote, noon, request, still_decides}
use mathlib.Core.Bool.{true≢false}
use arbitrage_bot.Risk.Failures.{releases}

abbrev hour_on : ℕ
hour_on = noon + 3600 * second

abbrev live_request : Request
live_request = record request { mode = live }

abbrev go_ahead : OpportunityDecision
go_ahead = record { tradable = true; blocked_reason = ""; checks = [] }

-- the dry run found another chain, and an hour later the cooldown was cleared
after_scan : Manager
after_scan =
    run ((hour_on, Op.clear (some "route-1")) ∷ [])
      (settle noon live market_quote (some false) go_ahead manager)

scan_failure_blocks_example : (decided (evaluate hour_on request after_scan).0).tradable ≡ false
unfolding releases after_scan Fails
scan_failure_blocks_example =
    scan_failure_blocks noon hour_on live_request (some false) go_ahead manager
      ((hour_on, Op.clear (some "route-1")) ∷ []) request (inr (refl, refl, refl)) (refl, tt) refl
      (still_decides hour_on request after_scan)

scan_route_isolated_example :
    (after : Manager) × (scan_route noon noon request none manager ≡ ok after)
    × (stats_of "route-2" after ≡ stats_of "route-2" manager)
scan_route_isolated_example =
    scan_route_isolated noon noon request none manager "route-2"
      (λ e. absurd (true≢false (sym (agree "route-2" "route-1" e))))

abbrev wallet_row : Balance
wallet_row = record {
  venue = "hyperevm_wallet";
  token = "USDC";
  available = dec 900 0;
  reserved = dec 100 0;
  total = dec 1000 0;
}

abbrev wallet_settings : Settings
wallet_settings = record default_settings { hyperevm_wallet_address = "0x01" }

probe_test :
    probe_balance_status wallet_settings "hyperevm_dex_dex"
      (some (wallet_row ∷ []))
      none
      (some (dec 1001 0))
    ≡ ok ("wallet_verified", "")
unfolding probe_balance_status rows_of compare_inventory latest_total after_inventory needs_wallet
    wallet_status db_wallet verified_as violates within_balance_tolerance
    normalize_balance_confidence balance_body contains norm lower strip lt le scale_up abs sub add
    max div exact_add fix digits quotient div_half_even with_sign drop_digits ◌+ℤ◌ ◌*ℤ◌
probe_test = refl

probe_balance-IsBacked_example :
    (answer : String × String) × (probe_balance_status wallet_settings "hyperevm_dex_dex"
        (some (wallet_row ∷ []))
        none
        (some (dec 1001 0))
      ≡ ok answer)
    × (answer.0 ≡ "wallet_verified"
        → (bals : List Balance) × (some (wallet_row ∷ []) ≡ some bals)
          × IsBacked wallet_settings "hyperevm_dex_dex" bals (rows_of none) (some (dec 1001 0)))
probe_balance-IsBacked_example =
    probe_balance-IsBacked wallet_settings "hyperevm_dex_dex" (some (wallet_row ∷ [])) none
      (some (dec 1001 0))
