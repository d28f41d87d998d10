-- ===== src/Backtest/Counts.antt =====
-- The figures of a replay agree with each other and with its trades, whatever the rows are.
use arbitrage_bot.Backtest.{Penalties, Trade}
use arbitrage_bot.Backtest.Tally.{
  Tally, bump, count_blocked, count_eligible, count_pnl, count_statuses, empty_tally, write_trade,
}
use arbitrage_bot.Base.{
  Bool, List, String, [], arith, count_if, false, length, nat_eq, not, refl, string_eq, suc, ℕ, ◌+◌,
  ◌==◌, ◌∷◌, ◌≡◌, ◌≤◌,
}
use arbitrage_bot.Base.Dict.{Dict, get_or, insert, lookup}
use arbitrage_bot.Decimal.{Decimal}

-- the sum of the values
unfoldable pub sum_values : Dict ℕ → ℕ
sum_values [] = 0
sum_values ((k, n) ∷ d) = n + sum_values d

sum_values-insert :
    (k : String) (n : ℕ) (d : Dict ℕ) → sum_values (insert k n d) + get_or k 0 d ≡ sum_values d + n
unfolding sum_values insert get_or lookup
sum_values-insert k n [] = omega arith
sum_values-insert k n ((j, w) ∷ d) = ground (arith, sum_values-insert k n d)

pub sum_values-bump : (k : String) (d : Dict ℕ) → sum_values (bump k d) ≡ sum_values d + 1
unfolding bump
sum_values-bump k d = omega (arith, sum_values-insert k (get_or k 0 d + 1) d)

-- how many trades carry a reason
unfoldable pub blocked_trades : List Trade → ℕ
blocked_trades = count_if (λ trade. not (trade.blocked_reason == ""))

-- What holds of the figures after `n` rows.
pub record Counted (n : ℕ) (t : Tally) : Type 0 where
  pub rows : n ≡ t.eligible_count + t.blocked_count
  pub reasons : sum_values t.blocked_reasons ≡ t.blocked_count
  pub fees : sum_values t.fee_distribution ≡ n
  pub balances : sum_values t.balance_distribution ≡ n
  pub missed : t.missed ≤ t.blocked_count
  pub hits : t.positive_fills ≤ t.eligible_count
  pub worst : t.worst_sequence ≤ t.eligible_count
  pub losing : t.current_losing ≤ t.worst_sequence
  pub unknown : t.stale_unknown_health_events ≤ n
  pub written : length t.trades ≡ n
  pub reasoned : blocked_trades t.trades ≡ t.blocked_count

pub empty-Counted : Counted 0 empty_tally
unfolding sum_values blocked_trades
empty-Counted = record {
  rows = refl;
  reasons = refl;
  fees = refl;
  balances = refl;
  missed = omega arith;
  hits = omega arith;
  worst = omega arith;
  losing = omega arith;
  unknown = omega arith;
  written = refl;
  reasoned = refl;
}

module _ (n : ℕ) (t : Tally) (c : Counted n t) where
  pub blocked-Counted :
      (fee balance reason : String) (unknown was : Bool) (trade : Trade)
      → trade.blocked_reason ≡ reason
      → (reason == "") ≡ false
      → Counted
          (suc n)
          (write_trade trade (count_blocked reason was (count_statuses fee balance unknown t)))
  unfolding write_trade count_blocked count_statuses blocked_trades
  blocked-Counted fee balance reason unknown was trade same some_reason = record {
    rows = omega (arith, c.rows);
    reasons = omega (arith, sum_values-bump reason t.blocked_reasons, c.reasons);
    fees = omega (arith, sum_values-bump fee t.fee_distribution, c.fees);
    balances = omega (arith, sum_values-bump balance t.balance_distribution, c.balances);
    missed = ground (arith, c.missed);
    hits = c.hits;
    worst = c.worst;
    losing = c.losing;
    unknown = ground (arith, c.unknown);
    written = omega (arith, c.written);
    reasoned = ground (arith, c.reasoned, same, some_reason);
  }

  pub eligible-Counted :
      (fee balance : String) (unknown : Bool) (edge pnl : Decimal) (p : Penalties) (trade : Trade)
      → trade.blocked_reason ≡ ""
      → Counted
          (suc n)
          (write_trade trade (count_eligible edge pnl p (count_statuses fee balance unknown t)))
  unfolding write_trade count_eligible count_pnl count_statuses blocked_trades
  eligible-Counted fee balance unknown edge pnl p trade same = record {
    rows = omega (arith, c.rows);
    reasons = c.reasons;
    fees = omega (arith, sum_values-bump fee t.fee_distribution, c.fees);
    balances = omega (arith, sum_values-bump balance t.balance_distribution, c.balances);
    missed = c.missed;
    hits = ground (arith, c.hits);
    worst = ground (arith, c.worst, c.losing);
    losing = ground (arith, c.losing);
    unknown = ground (arith, c.unknown);
    written = omega (arith, c.written);
    reasoned = rw same c.reasoned;
  }
