-- ===== src/Health/Evidence.antt =====
-- What the health evidence of a tradable decision is, and that the snapshot can always be made.
use arbitrage_bot.Base.{
  Option, none, Bool, Bool-cases, List, String, [], agree, and_left, and_right, ap, arith, contains,
  eq_iff, false, inl, inr, last?, length, lt→ltb, nat_eq, not, refl, some, string_eq, sym, true, ℕ,
  ◌==◌, ◌∙◌, ◌∷◌, ◌≡◌, ◌≢◌,
}
use arbitrage_bot.Health.Risk.{
  probe_ok, error_rate, liquidity_change, quantile, reachable, seconds_between, to_risk_snapshot,
}
use arbitrage_bot.Base.Dict.{get_or}
use arbitrage_bot.Base.Result.{Returns, bind-Returns, bind-ok, ok, ok-cancel}
use arbitrage_bot.Decimal.{Decimal, dec, lt}
use arbitrage_bot.Decimal.Compare.{div_pos}
use arbitrage_bot.Decimal.Order.{lt-of_ℕ}
use arbitrage_bot.Health.{Collector, Timed}
use arbitrage_bot.Quote.{OpportunityDecision}
use arbitrage_bot.Risk.{Manager}
use arbitrage_bot.Risk.Decision.{evaluate_permits}
use arbitrage_bot.Risk.Evaluate.{evaluate}
use arbitrage_bot.Risk.Guards.{HealthSnapshot, Request}
use mathlib.Core.Bool.{true≢false}

error_rate-Returns : (xs : List (Timed Bool)) → Returns (error_rate xs)
unfolding error_rate
error_rate-Returns [] = (_, refl)
error_rate-Returns (x ∷ xs) = div_pos _ _ (lt-of_ℕ (length (x ∷ xs)) (lt→ltb _ _ (omega arith)))

liquidity_change-Returns : (xs : List (Timed Decimal)) → Returns (liquidity_change xs)
unfolding liquidity_change
liquidity_change-Returns xs = elim (Bool-cases (lt (dec 0 0) (quantile xs (dec 50 2)))) [
  | inl b ↦ rw b (div_pos _ _ b)
  | inr b ↦ rw b (_, refl)
]

-- The snapshot for the risk manager can be made of every state of the collector, at every instant and
-- for every route: no window is divided by its length when it is empty.
pub to_risk_snapshot_total :
    (now : ℕ) (route_id : String) (c : Collector)
    → (h : HealthSnapshot) × (to_risk_snapshot now route_id c ≡ ok h)
unfolding to_risk_snapshot
to_risk_snapshot_total now route_id c = bind-Returns _ _ (error_rate-Returns c.rpc_results) (λ a.
    bind-Returns _ _ (error_rate-Returns c.alert_results) (λ b.
      bind-Returns _ _ (error_rate-Returns c.execution_results) (λ d.
        bind-Returns _ _ (liquidity_change-Returns (get_or route_id [] c.route_liquidity))
          (λ e. bind-Returns _ _ (error_rate-Returns c.db_results) (λ f. (_, refl))))))

-- the last probe of a window succeeded, and fewer than half of them failed
pub record Answers (xs : List (Timed Bool)) : Type 0 where
  pub last_ok : (x : Timed Bool) × (last? xs ≡ some x) × (x.value ≡ true)
  pub mostly : (rate : Decimal) × (error_rate xs ≡ ok rate) × (lt rate (dec 5 1) ≡ true)

-- what the collector has seen when a decision is tradable
pub record Seen (now : ℕ) (c : Collector) : Type 0 where
  pub db : Answers c.db_results
  pub rpc : Answers c.rpc_results
  pub signing : c.signing_state ≡ "good"
  pub fee : c.quality_fee_status ≢ "unknown"
  pub quote : c.quality_quote_match_status ≢ "unknown"
  pub balance : (c.quality_balance_status ≢ "unknown") × (c.quality_balance_status ≢ "mismatch")
  pub heartbeat : lt (seconds_between now c.heartbeat_ts) (dec 10 0) ≡ true

reachable-Answers :
    (xs : List (Timed Bool)) (rate : Decimal)
    → error_rate xs ≡ ok rate
    → reachable xs rate ≡ true
    → Answers xs
unfolding reachable probe_ok
reachable-Answers xs rate e h = go (last? xs) refl h
  where
    go : (o : Option (Timed Bool)) → last? xs ≡ o → probe_ok o rate ≡ true → Answers xs
    go none s k = absurd (true≢false (sym k))
    go (some x) s k = record {
      last_ok = (x, s, and_left _ _ k);
      mostly = (rate, e, and_right _ _ k);
    }

-- The parts of a snapshot that the guards of health read.
snapshot_parts :
    (now : ℕ) (route_id : String) (c : Collector) {h : HealthSnapshot}
    → to_risk_snapshot now route_id c ≡ ok h
    → (rpc_rate db_rate : Decimal) × (error_rate c.rpc_results ≡ ok rpc_rate)
      × (error_rate c.db_results ≡ ok db_rate)
      × (h.db_reachable ≡ reachable c.db_results db_rate)
      × (h.rpc_reachable ≡ reachable c.rpc_results rpc_rate)
      × (h.signing_ok ≡ (c.signing_state == "good"))
      × (h.fee_known ≡ not (c.quality_fee_status == "unknown"))
      × (h.quote_match_known ≡ not (c.quality_quote_match_status == "unknown"))
      × (h.balance_match ≡ not (contains c.quality_balance_status ("unknown" ∷ "mismatch" ∷ [])))
      × (h.clock_skew_ok ≡ lt (seconds_between now c.heartbeat_ts) (dec 10 0))
unfolding to_risk_snapshot
snapshot_parts now route_id c h =
    let (a, e₁, h₁) = bind-ok (error_rate c.rpc_results) _ h in
    let (b, e₂, h₂) = bind-ok (error_rate c.alert_results) _ h₁ in
    let (d, e₃, h₃) = bind-ok (error_rate c.execution_results) _ h₂ in
    let (e, e₄, h₄) = bind-ok (liquidity_change (get_or route_id [] c.route_liquidity)) _ h₃ in
    let (f, e₅, h₅) = bind-ok (error_rate c.db_results) _ h₄ in
    let made = sym (ok-cancel h₅) in
    (
      a,
      f,
      e₁,
      e₅,
      ap (λ x. x.db_reachable) made,
      ap (λ x. x.rpc_reachable) made,
      ap (λ x. x.signing_ok) made,
      ap (λ x. x.fee_known) made,
      ap (λ x. x.quote_match_known) made,
      ap (λ x. x.balance_match) made,
      ap (λ x. x.clock_skew_ok) made,
    )

-- A decision on the collector's own snapshot is tradable only on positive evidence: the last probes of
-- the database and of the node succeeded and fewer than half of the recent ones failed, the signer is
-- good, fees and quotes are known, the balance is known and matches, and the heartbeat is younger than
-- ten seconds. A collector that has recorded nothing permits nothing.
pub tradable-Seen :
    (now : ℕ) (route_id : String) (c : Collector) (r : Request) (m : Manager)
    {d : OpportunityDecision}
    → to_risk_snapshot now route_id c ≡ ok r.health
    → (evaluate now r m).0 ≡ ok d
    → d.tradable ≡ true
    → Seen now c
tradable-Seen now route_id c r m snap decided tradable =
    let p = (evaluate_permits now r m decided).0 tradable in
    let (a, f, rpc, db, db_ok, rpc_ok, signed, fee, quote, balance, skew) =
      snapshot_parts now route_id c snap in
    let s = sym signed ∙ p.healthy.signing.1 in
    let k = sym fee ∙ p.trusted.fee.0 in
    let q = sym quote ∙ p.trusted.quote.0 in
    let b = sym balance ∙ p.trusted.balance_matches.0 in
    record {
      db = reachable-Answers c.db_results f db (sym db_ok ∙ p.healthy.db.1);
      rpc = reachable-Answers c.rpc_results a rpc (sym rpc_ok ∙ p.healthy.rpc.1);
      signing = (eq_iff c.signing_state "good").0 s;
      fee = λ e. absurd (true≢false (sym k ∙ not-false' _ (agree _ _ e)));
      quote = λ e. absurd (true≢false (sym q ∙ not-false' _ (agree _ _ e)));
      balance =
          unfold contains in
          let u = eq_iff c.quality_balance_status "unknown" in
          let v = eq_iff c.quality_balance_status "mismatch" in (ground arith, ground arith);
      heartbeat = sym skew ∙ p.calm.clock;
    }
  where
    not-false' : (b : Bool) → b ≡ true → not b ≡ false
    not-false' true h = refl
    not-false' false h = sym h
