-- ===== src/Backtest/Totals.antt =====
-- The figures of `run_backtest` agree, in every replay mode.
use arbitrage_bot.Backtest.Counts.{Counted}
use arbitrage_bot.Backtest.Ledger.{Kept, fills}
use arbitrage_bot.Backtest.Sound.{Sound, blocked-Sound, eligible-Sound, empty-Sound}
use arbitrage_bot.Backtest.Run.{
  report, run_backtest, Defaults, Rows, candidates, completed, defaults_of,
  evaluate_market_snapshot_rows, evaluate_rows, replay_snapshots, settle_snapshot,
  simulate_snapshot, step_snapshot,
}
use arbitrage_bot.Base.Result.{bind-ok, ok-cancel, Result, err, ok}
use arbitrage_bot.Backtest.{ReplayMode, market_snapshots, opportunities, opportunities_legacy}
use arbitrage_bot.Backtest.Opportunities.{
  Limits, Opportunity, Verdict, evaluate_opportunity_rows, limits_of, recompute_blocked_reason,
  replay_opportunities, settle_opportunity, simulate_opportunity,
}
use arbitrage_bot.Backtest.Snapshots.{
  Cursor, Figures, RouteHealth, Snapshot, Statuses, advance, figures, row_statuses, snapshot_reason,
  sort_health,
}
use arbitrage_bot.Backtest.Tally.{Outcome, Tally, empty_tally, finalize_outcome}
use arbitrage_bot.Base.{
  Bool, Bool-cases, List, String, [], ap, arith, false, inl, inr, length, ltb, nat_eq, none, refl,
  string_eq, suc, sym, true, ℕ, ◌+◌, ◌==◌, ◌∷◌, ◌≡◌,
}
use arbitrage_bot.Base.Dict.{Dict}
use arbitrage_bot.Decimal.{Decimal, div, of_ℕ}
use arbitrage_bot.Json.{Json}
use mathlib.Core.Path.{subst}

settle_opportunity-Sound :
    (params : Dict Json) (row : Opportunity) (v : Verdict) (n : ℕ) (t : Tally) {next : Tally}
    → Sound n t
    → settle_opportunity params row v t ≡ ok next
    → Sound (suc n) next
unfolding settle_opportunity
settle_opportunity-Sound params row v n t {next} c h = elim (Bool-cases (v.reason == "")) [
  | inl fine ↦
      let (out, e, k) = bind-ok (simulate_opportunity params row v) _ (rw fine at h) in
      subst (Sound (suc n)) (ok-cancel k) (eligible-Sound n t c _ _ _ _ _ _ refl)
  | inr reasoned ↦
      subst (Sound (suc n)) (ok-cancel (rw reasoned at h))
        (blocked-Sound n t c _ _ _ _ _ _ refl reasoned)
]

replay_opportunities-Sound :
    (params : Dict Json) (limits : Limits) (legacy : Bool) (rows : List Opportunity) (n : ℕ)
    (t : Tally) {out : Tally}
    → Sound n t
    → replay_opportunities params limits legacy rows t ≡ ok out
    → Sound (length rows + n) out
unfolding replay_opportunities
replay_opportunities-Sound params limits legacy [] n t {out} c h =
    subst (λ k. Sound k out) (omega arith) (subst (Sound n) (ok-cancel h) c)
replay_opportunities-Sound params limits legacy (row ∷ rows) n t {out} c h =
    let (v, _, h₁) = bind-ok (recompute_blocked_reason params limits legacy row) _ h in
    let (next, s, h₂) = bind-ok (settle_opportunity params row v t) _ h₁ in
    let rest =
      replay_opportunities-Sound params limits legacy rows (suc n) next
        (settle_opportunity-Sound params row v n t c s) h₂ in
    subst (λ k. Sound k out) (omega arith) rest

settle_snapshot-Sound :
    (params : Dict Json) (gas : Decimal) (row : Snapshot) (s : Statuses) (f : Figures)
    (reason : String) (n : ℕ) (t : Tally) {next : Tally}
    → Sound n t
    → settle_snapshot params gas row s f reason t ≡ ok next
    → Sound (suc n) next
unfolding settle_snapshot
settle_snapshot-Sound params gas row s f reason n t {next} c h = elim (Bool-cases (reason == "")) [
  | inl fine ↦
      let (out, e, k) = bind-ok (simulate_snapshot params gas row s f) _ (rw fine at h) in
      subst (Sound (suc n)) (ok-cancel k) (eligible-Sound n t c _ _ _ _ _ _ refl)
  | inr reasoned ↦
      subst (Sound (suc n)) (ok-cancel (rw reasoned at h))
        (blocked-Sound n t c _ _ _ _ false _ refl reasoned)
]

replay_snapshots-Sound :
    (params : Dict Json) (limits : Limits) (defaults : Defaults) (rows : List Snapshot)
    (cursor : Cursor) (n : ℕ) (t : Tally) {out : Tally}
    → Sound n t
    → replay_snapshots params limits defaults rows cursor t ≡ ok out
    → Sound (length rows + n) out
unfolding replay_snapshots step_snapshot
replay_snapshots-Sound params limits defaults [] cursor n t {out} c h =
    subst (λ k. Sound k out) (omega arith) (subst (Sound n) (ok-cancel h) c)
replay_snapshots-Sound params limits defaults (row ∷ rows) cursor n t {out} c h =
    let moved = advance row.timestamp cursor in
    let s = row_statuses moved.0 row.payload in
    let (next, e, h₁) = bind-ok (step_snapshot params limits defaults moved.0 row t) _ h in
    let (f, _, e₁) = bind-ok (figures defaults.slippage row) _ e in
    let (reason, _, e₂) = bind-ok (snapshot_reason params limits s f row.payload) _ e₁ in
    let rest =
      replay_snapshots-Sound params limits defaults rows moved (suc n) next
        (settle_snapshot-Sound params defaults.gas_cost row s f reason n t c e₂) h₁ in
    subst (λ k. Sound k out) (omega arith) rest

-- the averages leave the figures
finalize-tally :
    (n : ℕ) (t : Tally) {out : Outcome}
    → finalize_outcome n t ≡ ok out
    → (out.signals ≡ n) × (out.tally ≡ t)
unfolding finalize_outcome
finalize-tally n t {out} h = elim (Bool-cases (ltb 0 t.eligible_count)) [
  | inl filled ↦
      let (a, _, h₁) =
        bind-ok (div (of_ℕ t.positive_fills) (of_ℕ t.eligible_count)) _ (rw filled at h) in
      let (b, _, h₂) = bind-ok (div t.modeled_edge_sum (of_ℕ t.eligible_count)) _ h₁ in
      let (c, _, h₃) = bind-ok (div t.realized_like_sum (of_ℕ t.eligible_count)) _ h₂ in
      (ap (λ o. o.signals) (sym (ok-cancel h₃)), ap (λ o. o.tally) (sym (ok-cancel h₃)))
  | inr empty ↦ (
    ap (λ o. o.signals) (sym (ok-cancel (rw empty at h))),
    ap (λ o. o.tally) (sym (ok-cancel (rw empty at h))),
  )
]

-- What an outcome reports is sound for its number of signals.
abbrev Agrees : Outcome → Type 0
Agrees out = Sound out.signals out.tally

finished :
    (n : ℕ) (t : Tally) {out : Outcome} → Sound n t → finalize_outcome n t ≡ ok out → Agrees out
finished n t {out} c h =
    let (p, q) = finalize-tally n t h in
    subst (λ k. Sound k out.tally) (sym p) (subst (Sound n) (sym q) c)

opportunities-Agrees :
    (params : Dict Json) (legacy : Bool) (rows : List Opportunity) {out : Outcome}
    → evaluate_opportunity_rows params legacy rows ≡ ok out
    → Agrees out
unfolding evaluate_opportunity_rows
opportunities-Agrees params legacy rows h =
    let (limits, _, h₁) = bind-ok (limits_of params) _ h in
    let (t, e, h₂) = bind-ok (replay_opportunities params limits legacy rows empty_tally) _ h₁ in
    finished (length rows) t
      (subst (λ k. Sound k t) (omega arith)
        (replay_opportunities-Sound params limits legacy rows 0 empty_tally empty-Sound e))
      h₂

snapshots-Agrees :
    (params : Dict Json) (health : List RouteHealth) (rows : List Snapshot) {out : Outcome}
    → evaluate_market_snapshot_rows params health rows ≡ ok out
    → Agrees out
unfolding evaluate_market_snapshot_rows
snapshots-Agrees params health rows h =
    let (limits, _, h₁) = bind-ok (limits_of params) _ h in
    let (defaults, _, h₂) = bind-ok (defaults_of params) _ h₁ in
    let (t, e, h₃) =
      bind-ok
        (replay_snapshots params limits defaults (candidates rows) (none, sort_health health)
          empty_tally)
        _ h₂ in
    finished (length (candidates rows)) t
      (subst (λ k. Sound k t) (omega arith)
        (replay_snapshots-Sound params limits defaults (candidates rows) _ 0 empty_tally empty-Sound
          e))
      h₃

evaluate_rows-Agrees :
    (mode : ReplayMode) (params : Dict Json) (rows : Rows) {out : Outcome}
    → evaluate_rows mode params rows ≡ ok out
    → Agrees out
unfolding evaluate_rows
evaluate_rows-Agrees market_snapshots params rows h = snapshots-Agrees params _ _ h
evaluate_rows-Agrees opportunities_legacy params rows h = opportunities-Agrees params true _ h
evaluate_rows-Agrees opportunities params rows h = opportunities-Agrees params false _ h

reported :
    (given : ReplayMode) (r : Result Outcome) {mode : ReplayMode} {out : Outcome}
    → report given r ≡ completed mode out
    → (o : Outcome) × (r ≡ ok o) × (o ≡ out)
unfolding report
reported given (ok o) h = (o, refl, cc)
reported given (err e) h = cc

run_backtest-Sound :
    (replay_mode : String) (params : Dict Json) (rows : Rows) {mode : ReplayMode} {out : Outcome}
    → run_backtest replay_mode params rows ≡ completed mode out
    → Agrees out
unfolding run_backtest
run_backtest-Sound replay_mode params rows h =
    let (o, e, same) = reported _ _ h in subst Agrees same (evaluate_rows-Agrees _ params rows e)

-- What a completed run reports is consistent, in each of the three modes and on any rows: signals are
-- the eligible and the blocked rows, the reasons sum up to the blocked ones, each distribution sums up
-- to the signals, one trade is written for each signal and the blocked ones are those with a reason,
-- and the missed ones, the hits, the unknown events and the losing streaks stay within their counts.
pub run_backtest-Counted :
    (replay_mode : String) (params : Dict Json) (rows : Rows) {mode : ReplayMode} {out : Outcome}
    → run_backtest replay_mode params rows ≡ completed mode out
    → Counted out.signals out.tally
run_backtest-Counted replay_mode params rows h =
    (run_backtest-Sound replay_mode params rows h).counted

-- The result of a completed run is the account of the trades that it writes, in each mode: eligible
-- rows, profit, peak, deepest fall from the peak at the time, current and longest losing streak and
-- hits are those of the fills in their order.
pub run_backtest-Kept :
    (replay_mode : String) (params : Dict Json) (rows : Rows) {mode : ReplayMode} {out : Outcome}
    → run_backtest replay_mode params rows ≡ completed mode out
    → Kept (fills out.tally.trades) out.tally
run_backtest-Kept replay_mode params rows h = (run_backtest-Sound replay_mode params rows h).kept
