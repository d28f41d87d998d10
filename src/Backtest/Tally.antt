-- ===== src/Backtest/Tally.antt =====
-- app/backtest/engine.py: the running figures of both replay loops, their updates, and
-- `_finalize_outcome`.
use arbitrage_bot.Backtest.{Penalties, Trade, add_penalties, no_penalties}
use arbitrage_bot.Base.{Bool, List, String, [], if◌then◌else◌, ltb, ℕ, ◌+◌, ◌∷◌}
use arbitrage_bot.Base.Dict.{Dict, get_or, insert}
use arbitrage_bot.Base.Result.{Result, ok, ◌>>=◌}
use arbitrage_bot.Decimal.{Decimal, add, dec, div, lt, of_ℕ, sub}
use arbitrage_bot.Risk.Guards.{balance_status, fee_status}

-- the local variables that a loop updates, and the trades written so far, latest first
pub record Tally : Type 0 where
  pub eligible_count : ℕ
  pub blocked_count : ℕ
  pub blocked_reasons : Dict ℕ
  pub cumulative : Decimal
  pub peak : Decimal
  pub max_drawdown : Decimal
  pub worst_sequence : ℕ
  pub current_losing : ℕ
  pub positive_fills : ℕ
  pub modeled_edge_sum : Decimal
  pub realized_like_sum : Decimal
  pub missed : ℕ
  pub stale_unknown_health_events : ℕ
  pub fee_distribution : Dict ℕ
  pub balance_distribution : Dict ℕ
  pub penalty_totals : Penalties
  pub trades : List Trade

abbrev pub empty_tally : Tally
empty_tally = record {
  eligible_count = 0;
  blocked_count = 0;
  blocked_reasons = [];
  cumulative = dec 0 0;
  peak = dec 0 0;
  max_drawdown = dec 0 0;
  worst_sequence = 0;
  current_losing = 0;
  positive_fills = 0;
  modeled_edge_sum = dec 0 0;
  realized_like_sum = dec 0 0;
  missed = 0;
  stale_unknown_health_events = 0;
  fee_distribution = [];
  balance_distribution = [];
  penalty_totals = no_penalties;
  trades = [];
}

-- `d[k] = d.get(k, 0) + 1`
unfoldable pub bump : String → Dict ℕ → Dict ℕ
bump k d = insert k (get_or k 0 d + 1) d

-- the distributions and the unknown events, for every row
unfoldable pub count_statuses : String → String → Bool → Tally → Tally
unfolding bump
count_statuses fee_status balance_status unknown t = record t {
  fee_distribution = bump fee_status t.fee_distribution;
  balance_distribution = bump balance_status t.balance_distribution;
  stale_unknown_health_events =
      if unknown then t.stale_unknown_health_events + 1 else t.stale_unknown_health_events;
}

-- a blocked row; `was_eligible` tells that the bot had recorded it as eligible
unfoldable pub count_blocked : String → Bool → Tally → Tally
unfolding bump
count_blocked reason was_eligible t = record t {
  blocked_count = t.blocked_count + 1;
  blocked_reasons = bump reason t.blocked_reasons;
  missed = if was_eligible then t.missed + 1 else t.missed;
}

-- a fill: the statements from `cumulative += simulated_pnl` to the end of the branch
unfoldable pub count_pnl : Decimal → Tally → Tally
count_pnl pnl t =
    let cumulative = add t.cumulative pnl in
    let peak = if lt t.peak cumulative then cumulative else t.peak in
    let drawdown = sub peak cumulative in
    let losing = if lt pnl (dec 0 0) then t.current_losing + 1 else 0 in
    record t {
      cumulative = cumulative;
      peak = peak;
      max_drawdown = if lt t.max_drawdown drawdown then drawdown else t.max_drawdown;
      current_losing = losing;
      worst_sequence = if ltb t.worst_sequence losing then losing else t.worst_sequence;
    }

-- an eligible row with its simulated result
unfoldable pub count_eligible : Decimal → Decimal → Penalties → Tally → Tally
unfolding count_pnl
count_eligible edge pnl penalties t = count_pnl pnl (record t {
  eligible_count = t.eligible_count + 1;
  penalty_totals = add_penalties t.penalty_totals penalties;
  positive_fills = if lt (dec 0 0) pnl then t.positive_fills + 1 else t.positive_fills;
  modeled_edge_sum = add t.modeled_edge_sum edge;
  realized_like_sum = add t.realized_like_sum pnl;
})

unfoldable pub write_trade : Trade → Tally → Tally
write_trade trade t = record t { trades = trade ∷ t.trades }

-- the dict that a replay returns; `penalty_totals` are decimals here, `str` of them there
pub record Outcome : Type 0 where
  pub signals : ℕ
  pub tally : Tally
  pub hit_rate : Decimal
  pub avg_modeled_edge_bps : Decimal
  pub avg_realized_like_pnl : Decimal

-- `_finalize_outcome`: the averages where there is a fill, and 0 else
unfoldable pub finalize_outcome : ℕ → Tally → Result Outcome
finalize_outcome signals t =
    if ltb 0 t.eligible_count
    then (div (of_ℕ t.positive_fills) (of_ℕ t.eligible_count) >>= λ hit_rate.
        div t.modeled_edge_sum (of_ℕ t.eligible_count) >>= λ avg_edge.
        div t.realized_like_sum (of_ℕ t.eligible_count) >>= λ avg_realized_like. ok (record {
          signals = signals;
          tally = t;
          hit_rate = hit_rate;
          avg_modeled_edge_bps = avg_edge;
          avg_realized_like_pnl = avg_realized_like;
        }))
    else ok (record {
      signals = signals;
      tally = t;
      hit_rate = dec 0 0;
      avg_modeled_edge_bps = dec 0 0;
      avg_realized_like_pnl = dec 0 0;
    })
