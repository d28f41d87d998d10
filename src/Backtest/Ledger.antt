-- ===== src/Backtest/Ledger.antt =====
-- What the trades of a replay, latest first, say about its result: the account of the fills alone.
use arbitrage_bot.Backtest.{Penalties, Trade}
use arbitrage_bot.Backtest.Tally.{
  Tally, count_blocked, count_eligible, count_pnl, count_statuses, empty_tally, write_trade,
}
use arbitrage_bot.Base.{
  Bool, List, String, [], arith, count_if, if◌then◌else◌, length, ltb, nat_eq, refl, string_eq, ℕ,
  ◌+◌, ◌==◌, ◌∷◌, ◌≡◌,
}
use arbitrage_bot.Decimal.{Decimal, add, dec, lt, max, sub}

-- the results of the trades that were not blocked
unfoldable pub fills : List Trade → List Decimal
fills [] = []
fills (trade ∷ trades) =
    let rest = fills trades in
    if trade.blocked_reason == "" then trade.simulated_pnl ∷ rest else rest

-- what the fills have earned
unfoldable pub earned : List Decimal → Decimal
earned [] = dec 0 0
earned (pnl ∷ pnls) = add (earned pnls) pnl

-- the most that they had earned at any time, 0 at the least
unfoldable pub high : List Decimal → Decimal
unfolding earned
high [] = dec 0 0
high (pnl ∷ pnls) = max (high pnls) (earned (pnl ∷ pnls))

-- the deepest fall from the high at the time, 0 at the least
unfoldable pub deepest : List Decimal → Decimal
unfolding earned high
deepest [] = dec 0 0
deepest (pnl ∷ pnls) = max (deepest pnls) (sub (high (pnl ∷ pnls)) (earned (pnl ∷ pnls)))

-- the losing fills since the last one that did not lose
unfoldable pub streak : List Decimal → ℕ
streak [] = 0
streak (pnl ∷ pnls) = let rest = streak pnls in if lt pnl (dec 0 0) then rest + 1 else 0

unfoldable pub longest : List Decimal → ℕ
unfolding streak
longest [] = 0
longest (pnl ∷ pnls) =
    if ltb (longest pnls) (streak (pnl ∷ pnls)) then streak (pnl ∷ pnls) else longest pnls

unfoldable pub hits : List Decimal → ℕ
hits = count_if (lt (dec 0 0))

-- The figures of a tally are those of these fills.
pub record Kept (pnls : List Decimal) (t : Tally) : Type 0 where
  pub filled : t.eligible_count ≡ length pnls
  pub cumulative : t.cumulative ≡ earned pnls
  pub realized : t.realized_like_sum ≡ earned pnls
  pub peak : t.peak ≡ high pnls
  pub drawdown : t.max_drawdown ≡ deepest pnls
  pub losing : t.current_losing ≡ streak pnls
  pub worst : t.worst_sequence ≡ longest pnls
  pub won : t.positive_fills ≡ hits pnls

pub empty-Kept : Kept [] empty_tally
unfolding earned high deepest streak longest hits
empty-Kept = record {
  filled = refl;
  cumulative = refl;
  realized = refl;
  peak = refl;
  drawdown = refl;
  losing = refl;
  worst = refl;
  won = refl;
}

module _ (pnls : List Decimal) (t : Tally) (k : Kept pnls t) where
  pub blocked-Kept :
      (fee balance reason : String) (unknown was : Bool) (trade : Trade)
      → Kept pnls
          (write_trade trade (count_blocked reason was (count_statuses fee balance unknown t)))
  unfolding write_trade count_blocked count_statuses
  blocked-Kept fee balance reason unknown was trade = record {
    filled = k.filled;
    cumulative = k.cumulative;
    realized = k.realized;
    peak = k.peak;
    drawdown = k.drawdown;
    losing = k.losing;
    worst = k.worst;
    won = k.won;
  }

  pub eligible-Kept :
      (fee balance : String) (unknown : Bool) (edge pnl : Decimal) (p : Penalties) (trade : Trade)
      → Kept
          (pnl ∷ pnls)
          (write_trade trade (count_eligible edge pnl p (count_statuses fee balance unknown t)))
  unfolding write_trade count_eligible count_pnl count_statuses earned high deepest streak longest
      hits max
  eligible-Kept fee balance unknown edge pnl p trade = record {
    filled = omega (arith, k.filled);
    cumulative = rw k.cumulative refl;
    realized = rw k.realized refl;
    peak = rw (k.cumulative, k.peak) refl;
    drawdown = rw (k.cumulative, k.peak, k.drawdown) refl;
    losing = rw k.losing refl;
    worst = rw (k.worst, k.losing) refl;
    won = ground (arith, k.won);
  }
