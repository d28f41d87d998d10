-- ===== src/Backtest/Sound.antt =====
-- The invariant of the replay loops: the counts agree, and the result is the account of the trades.
use arbitrage_bot.Backtest.{Penalties, Trade}
use arbitrage_bot.Backtest.Counts.{Counted, blocked-Counted, eligible-Counted, empty-Counted}
use arbitrage_bot.Backtest.Ledger.{Kept, blocked-Kept, eligible-Kept, empty-Kept, fills}
use arbitrage_bot.Backtest.Tally.{
  Tally, count_blocked, count_eligible, count_pnl, count_statuses, empty_tally, write_trade,
}
use arbitrage_bot.Base.{Bool, List, String, false, nat_eq, refl, string_eq, suc, ℕ, ◌==◌, ◌∷◌, ◌≡◌}
use arbitrage_bot.Decimal.{Decimal}
use mathlib.Core.Path.{subst}

pub record Sound (n : ℕ) (t : Tally) : Type 0 where
  pub counted : Counted n t
  pub kept : Kept (fills t.trades) t

pub empty-Sound : Sound 0 empty_tally
unfolding fills
empty-Sound = record { counted = empty-Counted; kept = empty-Kept }

fills-skip :
    (trade : Trade) (trades : List Trade)
    → (trade.blocked_reason == "") ≡ false
    → fills trades ≡ fills (trade ∷ trades)
unfolding fills
fills-skip trade trades h = rw h refl

fills-take :
    (trade : Trade) (trades : List Trade)
    → trade.blocked_reason ≡ ""
    → trade.simulated_pnl ∷ fills trades ≡ fills (trade ∷ trades)
unfolding fills
fills-take trade trades h = rw h refl

module _ (n : ℕ) (t : Tally) (s : Sound n t) where
  pub blocked-Sound :
      (fee balance reason : String) (unknown was : Bool) (trade : Trade)
      → trade.blocked_reason ≡ reason
      → (reason == "") ≡ false
      → Sound
          (suc n)
          (write_trade trade (count_blocked reason was (count_statuses fee balance unknown t)))
  blocked-Sound fee balance reason unknown was trade same reasoned = record {
    counted = blocked-Counted n t s.counted fee balance reason unknown was trade same reasoned;
    kept =
        let after =
          write_trade trade (count_blocked reason was (count_statuses fee balance unknown t)) in
        unfold write_trade count_blocked count_statuses in
        subst (λ pnls. Kept pnls after) (fills-skip trade t.trades (rw same reasoned))
          (blocked-Kept (fills t.trades) t s.kept fee balance reason unknown was trade);
  }

  pub eligible-Sound :
      (fee balance : String) (unknown : Bool) (edge : Decimal) (p : Penalties) (trade : Trade)
      → trade.blocked_reason ≡ ""
      → Sound (suc n) (
          write_trade trade
            (count_eligible edge trade.simulated_pnl p (count_statuses fee balance unknown t)))
  eligible-Sound fee balance unknown edge p trade same = record {
    counted =
        eligible-Counted n t s.counted fee balance unknown edge trade.simulated_pnl p trade same;
    kept =
        let after =
          write_trade trade
            (count_eligible edge trade.simulated_pnl p (count_statuses fee balance unknown t)) in
        unfold write_trade count_eligible count_pnl count_statuses in
        subst (λ pnls. Kept pnls after) (fills-take trade t.trades same)
          (eligible-Kept (fills t.trades) t s.kept fee balance unknown edge trade.simulated_pnl p
            trade);
  }
