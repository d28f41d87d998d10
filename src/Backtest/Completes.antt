-- ===== src/Backtest/Completes.antt =====
-- A replay of readable rows completes.
use arbitrage_bot.Backtest.{to_bps}
use arbitrage_bot.Backtest.Opportunities.{
  Limits, Opportunity, Verdict, first_reason, recompute_blocked_reason, replay_opportunities,
  settle_opportunity, simulate_opportunity, size_reason,
}
use arbitrage_bot.Backtest.Returns.{
  ReadableOpportunity, ReadableParams, ReadableSnapshot, div_positive, penalties-Returns,
}
use arbitrage_bot.Backtest.Run.{
  Defaults, replay_snapshots, settle_snapshot, simulate_snapshot, step_snapshot,
}
use arbitrage_bot.Backtest.Snapshots.{
  Cursor, Figures, RouteHealth, Snapshot, Statuses, advance, figures, row_statuses, share_reason,
  snapshot_figure_reason, snapshot_reason, snapshot_status_reason,
}
use arbitrage_bot.Backtest.Tally.{Tally}
use arbitrage_bot.Base.{
  All, Bool, Bool-cases, List, Option, String, [], false, if◌then◌else◌, inl, inr, nat_eq, none,
  refl, some, string_eq, true, ◌==◌, ◌∷◌, ◌≡◌,
}
use arbitrage_bot.Base.Dict.{Dict, get_or}
use arbitrage_bot.Base.Result.{Result, Returns, bind-Returns, ok}
use arbitrage_bot.Confidence.Rank.{at_least-preorders}
use arbitrage_bot.Decimal.{Decimal, dec, div, le, lt, sub}
use arbitrage_bot.Json.{Json, parse_decimal}

module _ (params : Dict Json) (readable : ReadableParams params) (limits : Limits) where
  size-Returns :
      (row : Opportunity) → ReadableOpportunity row → Returns (size_reason limits row.payload)
  unfolding size_reason
  size-Returns row (a, l) =
      bind-Returns (parse_decimal (get_or "initial_amount" "0" row.payload)) _ a (λ amount.
        elim (Bool-cases (le amount (dec 0 0))) [
          | inl b ↦ rw b (_, refl)
          | inr b ↦ rw b (
              bind-Returns (parse_decimal (get_or "smaller_pool_liquidity_usdc" "0" row.payload)) _
                l
                (λ liq. elim (Bool-cases (le liq (dec 0 0))) [
                  | inl c ↦ rw c (_, refl)
                  | inr c ↦
                      rw c (
                        bind-Returns (div amount liq) _ (div_positive amount liq c)
                          (λ s. (_, refl)))
                ]))
        ])

  first-Returns :
      (row : Opportunity) (s c : Option (String × Bool))
      → ReadableOpportunity row
      → Returns (first_reason limits row s c)
  unfolding first_reason
  first-Returns row (some r) c a = (_, refl)
  first-Returns row none (some r) a = (_, refl)
  first-Returns row none none a = size-Returns row a

  recompute-Returns :
      (legacy : Bool) (row : Opportunity)
      → ReadableOpportunity row
      → Returns (recompute_blocked_reason params limits legacy row)
  unfolding recompute_blocked_reason
  recompute-Returns legacy row a = bind-Returns _ _ (at_least-preorders.1.0 _ _) (λ f.
      bind-Returns _ _ (at_least-preorders.2.0 _ _)
        (λ b. bind-Returns _ _ (first-Returns row _ _ a) (λ o. (_, refl))))

  settle-Returns :
      (row : Opportunity) (v : Verdict) (t : Tally)
      → ReadableOpportunity row
      → Returns (settle_opportunity params row v t)
  unfolding settle_opportunity simulate_opportunity
  settle-Returns row v t a = elim (Bool-cases (v.reason == "")) [
    | inl b ↦ rw b (
        bind-Returns (simulate_opportunity params row v) _
          (bind-Returns _ _ a.0 (λ amount.
            bind-Returns _ _ (penalties-Returns amount _ _ _ params readable) (λ p. (_, refl))))
          (λ out. (_, refl)))
    | inr b ↦ rw b (_, refl)
  ]

  pub replay-Returns :
      (legacy : Bool) (rows : List Opportunity) (t : Tally)
      → All ReadableOpportunity rows
      → Returns (replay_opportunities params limits legacy rows t)
  unfolding replay_opportunities
  replay-Returns legacy [] t a = (_, refl)
  replay-Returns legacy (row ∷ rows) t (a, every) =
      bind-Returns _ _ (recompute-Returns legacy row a) (λ v.
        bind-Returns _ _ (settle-Returns row v t a) (λ next. replay-Returns legacy rows next every))

module _ (params : Dict Json) (readable : ReadableParams params) (limits : Limits) where
  figures-Returns :
      (slippage : Decimal) (row : Snapshot) → ReadableSnapshot row → Returns (figures slippage row)
  unfolding figures
  figures-Returns slippage row (a, b, c, d, e) = bind-Returns _ _ (a row.amount_in) (λ given.
      bind-Returns _ _ (b row.quoted_amount_out) (λ final.
        let initial = if le given (dec 0 0) then dec 0 0 else given in
        bind-Returns _ _ (bps-Returns (sub final initial) initial) (λ edge.
          bind-Returns _ _ (c slippage)
            (λ slip. bind-Returns _ _ (d row.liquidity_usd) (λ liq. (_, refl))))))
    where
      bps-Returns : (n d : Decimal) → Returns (to_bps n d)
      bps-Returns n d =
          unfold to_bps in
          elim (Bool-cases (le d (dec 0 0))) [
            | inl b ↦ rw b (_, refl)
            | inr b ↦ rw b (bind-Returns _ _ (div_positive n d b) (λ q. (_, refl)))
          ]

  share-Returns :
      (f : Figures) → le f.smaller_liq (dec 0 0) ≡ false → Returns (share_reason limits f)
  unfolding share_reason
  share-Returns f h = elim (Bool-cases (lt (dec 0 0) f.initial_amount)) [
    | inl b ↦
        rw b (bind-Returns _ _ (div_positive f.initial_amount f.smaller_liq h) (λ q. (_, refl)))
    | inr b ↦ rw b (_, refl)
  ]

  if-Returns :
      (b : Bool) (reason : String) (rest : Result String)
      → (b ≡ false → Returns rest)
      → Returns (if b then ok reason else rest)
  if-Returns true reason rest r = (_, refl)
  if-Returns false reason rest r = r refl

  figure-Returns : (f : Figures) → Returns (snapshot_figure_reason limits f)
  unfolding snapshot_figure_reason
  figure-Returns f = if-Returns (lt f.modeled_edge_bps limits.min_edge) _ _ (λ _.
      if-Returns (lt limits.max_slippage f.slippage_bps) _ _ (λ _.
        if-Returns (lt limits.max_quote_age f.quote_age) _ _
          (λ _. if-Returns (le f.smaller_liq (dec 0 0)) _ _ (λ h. share-Returns f h))))

  reason-Returns :
      (s : Statuses) (f : Figures) (payload : Dict String)
      → Returns (snapshot_reason params limits s f payload)
  unfolding snapshot_reason
  reason-Returns s f payload = bind-Returns _ _ (at_least-preorders.1.0 _ _) (λ fe.
      bind-Returns _ _ (at_least-preorders.2.0 _ _) (λ be.
        elim (Bool-cases (snapshot_status_reason fe be s payload == "")) [
          | inl b ↦ rw b (figure-Returns f)
          | inr b ↦ rw b (_, refl)
        ]))

  step-Returns :
      (defaults : Defaults) (health : Option RouteHealth) (row : Snapshot) (t : Tally)
      → ReadableSnapshot row
      → Returns (step_snapshot params limits defaults health row t)
  unfolding step_snapshot settle_snapshot simulate_snapshot
  step-Returns defaults health row t a =
      let s = row_statuses health row.payload in
      bind-Returns _ _ (figures-Returns defaults.slippage row a) (λ f.
        bind-Returns _ _ (reason-Returns s f row.payload) (λ reason.
          elim (Bool-cases (reason == "")) [
            | inl b ↦ rw b (
                bind-Returns (simulate_snapshot params defaults.gas_cost row s f) _
                  (bind-Returns _ _
                    (penalties-Returns f.initial_amount f.expected_pnl _ _ params readable)
                    (λ p. bind-Returns _ _ (a.4 defaults.gas_cost) (λ g. (_, refl))))
                  (λ out. (_, refl)))
            | inr b ↦ rw b (_, refl)
          ]))

  pub walk-Returns :
      (defaults : Defaults) (rows : List Snapshot) (cursor : Cursor) (t : Tally)
      → All ReadableSnapshot rows
      → Returns (replay_snapshots params limits defaults rows cursor t)
  unfolding replay_snapshots
  walk-Returns defaults [] cursor t a = (_, refl)
  walk-Returns defaults (row ∷ rows) cursor t (a, every) =
      let moved = advance row.timestamp cursor in
      bind-Returns _ _ (step-Returns defaults moved.0 row t a)
        (λ next. walk-Returns defaults rows moved next every)
