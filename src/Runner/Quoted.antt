-- ===== src/Runner/Quoted.antt =====
-- What a tradable decision says of the quote: `_scan_loop` from the quote of a route to the decision.
use arbitrage_bot.Base.{
  Bool-cases, inl, inr, refl, List, arith, contains, false, nat_eq, string_eq, ◌∷◌, String, [], ap,
  none, some, sym, ℕ, ◌∙◌, ◌≡◌,
}
use arbitrage_bot.Base.Dict.{lookup, get_or-insert, insert, get_or}
use arbitrage_bot.Base.Text.{strip}
use arbitrage_bot.Decimal.{dec, Decimal}
use arbitrage_bot.Health.Evidence.{to_risk_snapshot_total}
use arbitrage_bot.Risk.Decision.{evaluate_permits, evaluate_total}
use arbitrage_bot.Runner.Quoting.{
  build_unavailable_quote, probe_venues, record_unavailable, stale_limit, quoted_fee_provenance,
  record_quote, assess, quoted_fee_status, quoted_match_status, record_statuses, with_statuses,
}
use arbitrage_bot.Base.Result.{Error, err, bind-ok, ok, ok-cancel}
use arbitrage_bot.Confidence.{
  fee_confidence_order, quote_match_order, normalize_fee_confidence, normalize_quote_match_status,
}
use arbitrage_bot.Confidence.Canonical.{
  IsCanonical, normalize_fee-canonical, normalize_fee_confidence-IsCanonical,
  normalize_quote-canonical, normalize_quote_match_status-IsCanonical,
}
use arbitrage_bot.Quote.{OpportunityDecision, RouteQuote}
use arbitrage_bot.Risk.{Manager}
use arbitrage_bot.Risk.Evaluate.{evaluate}
use arbitrage_bot.Health.{Collector, set_quality_status}
use arbitrage_bot.Health.Risk.{error_rate, liquidity_change, to_risk_snapshot}
use arbitrage_bot.Json.{parse_decimal}
use arbitrage_bot.Repository.{Route}
use arbitrage_bot.Risk.Guards.{HealthSnapshot, Request, fee_status, quote_match_status}
use arbitrage_bot.Settings.{RunMode, Settings}

-- The statuses of a snapshot are those of the collector.
snapshot_statuses :
    (now : ℕ) (route_id : String) (c : Collector) {h : HealthSnapshot}
    → to_risk_snapshot now route_id c ≡ ok h
    → (h.fee_known_status ≡ c.quality_fee_status)
      × (h.quote_match_status ≡ c.quality_quote_match_status)
unfolding to_risk_snapshot
snapshot_statuses now route_id c h =
    let (_, _, h₁) = bind-ok (error_rate c.rpc_results) _ h in
    let (_, _, h₂) = bind-ok (error_rate c.alert_results) _ h₁ in
    let (_, _, h₃) = bind-ok (error_rate c.execution_results) _ h₂ in
    let (_, _, h₄) = bind-ok (liquidity_change (get_or route_id [] c.route_liquidity)) _ h₃ in
    let (_, _, h₅) = bind-ok (error_rate c.db_results) _ h₄ in
    let made = sym (ok-cancel h₅) in
    (ap (λ x. x.fee_known_status) made, ap (λ x. x.quote_match_status) made)

pub quoted_fee-IsCanonical :
    (q : RouteQuote) → IsCanonical fee_confidence_order (quoted_fee_status q)
unfolding quoted_fee_status
quoted_fee-IsCanonical q = normalize_fee_confidence-IsCanonical _ none

pub quoted_match-IsCanonical :
    (q : RouteQuote) → IsCanonical quote_match_order (quoted_match_status q)
unfolding quoted_match_status
quoted_match-IsCanonical q = normalize_quote_match_status-IsCanonical _

-- the keys that the statuses are written under
abbrev pub written : List String
written =
    "balance_failure_reason" ∷ "balance_match_status" ∷ "quote_match_status" ∷ "fee_provenance"
    ∷ "fee_known_status" ∷ []

-- the other metadata of a quote are as before
pub metadata-with_statuses :
    (j default : String) (balance : String × String) (q : RouteQuote)
    → contains j written ≡ false
    → get_or j default (with_statuses balance q).metadata ≡ get_or j default q.metadata
unfolding with_statuses contains
metadata-with_statuses j default (status, reason) q apart =
    let d₁ = insert "fee_known_status" (quoted_fee_status q) q.metadata in
    let d₂ = insert "fee_provenance" (quoted_fee_provenance q) d₁ in
    let d₃ = insert "quote_match_status" (quoted_match_status q) d₂ in
    let d₄ = insert "balance_match_status" status d₃ in
    ground (
      arith,
      apart,
      get_or-insert j "balance_failure_reason" reason default d₄,
      get_or-insert j "balance_match_status" status default d₃,
      get_or-insert j "quote_match_status" (quoted_match_status q) default d₂,
      get_or-insert j "fee_provenance" (quoted_fee_provenance q) default d₁,
      get_or-insert j "fee_known_status" (quoted_fee_status q) default q.metadata,
    )

module _ (now : ℕ) (s : Settings) (route : Route) (mode : RunMode) (wallet : Decimal)
    (signing_status : String) (balance : String × String) (q : RouteQuote) (c : Collector)
    {r : Request}
    (assessed : assess now s route mode wallet signing_status balance q c ≡ ok r) where
  pub assess_parts :
      (r.quote ≡ with_statuses balance q)
      × (r.mode ≡ mode)
      × (r.reference_deviation_bps ≡ q.raw_edge_bps)
      × (r.health.fee_known_status ≡ normalize_fee_confidence (some (quoted_fee_status q)) none)
      × (r.health.quote_match_status ≡ normalize_quote_match_status (some (quoted_match_status q)))
  unfolding assess record_statuses set_quality_status
  assess_parts =
      let (h, e, h₁) = bind-ok (to_risk_snapshot now route.id _) _ assessed in
      let (_, _, h₂) = bind-ok (parse_decimal _) _ h₁ in
      let made = sym (ok-cancel h₂) in
      let (fee, matched) = snapshot_statuses now route.id _ e in
      (
        ap (λ x. x.quote) made,
        ap (λ x. x.mode) made,
        ap (λ x. x.reference_deviation_bps) made ∙ unfold with_statuses in refl,
        ap (λ x. x.health.fee_known_status) made ∙ fee,
        ap (λ x. x.health.quote_match_status) made ∙ matched,
      )

  -- the statuses that the guards read
  pub fee_status-assessed : fee_status r ≡ quoted_fee_status q
  unfolding fee_status
  fee_status-assessed =
      let (_, _, _, fee, _) = assess_parts in
      rw fee (
        normalize_fee-canonical _ none (normalize_fee_confidence-IsCanonical _ none)
        ∙ normalize_fee-canonical _ none (quoted_fee-IsCanonical q))

  pub quote_match_status-assessed : quote_match_status r ≡ quoted_match_status q
  unfolding quote_match_status
  quote_match_status-assessed =
      let (_, _, _, _, matched) = assess_parts in
      rw matched (
        normalize_quote-canonical _ (normalize_quote_match_status-IsCanonical _)
        ∙ normalize_quote-canonical _ (quoted_match-IsCanonical q))

-- A route whose quote raises an exception is assessed all the same, and the decision on it is made and
-- is not tradable, in every mode, state and configuration.
pub unavailable_blocks :
    (now later : ℕ) (latency_ms : Decimal) (text_of : Error → String) (s : Settings) (route : Route)
    (mode : RunMode) (e : Error) (wallet : Decimal) (signing_status : String)
    (balance : String × String) (c : Collector) (m : Manager)
    → let (q, recorded) = record_quote now latency_ms text_of route mode (err e) c in
      (r : Request) × (assess later s route mode wallet signing_status balance q recorded ≡ ok r)
      × (d : OpportunityDecision) × ((evaluate later r m).0 ≡ ok d)
      × (d.tradable ≡ false)
unfolding record_quote record_unavailable assess
unavailable_blocks now later latency_ms text_of s route mode e wallet signing_status balance c m =
    let q = build_unavailable_quote route mode (text_of e) in
    let recorded = probe_venues now latency_ms route q.quote_age_seconds false c in
    let (h, snap) =
      to_risk_snapshot_total later route.id
        (record_statuses later signing_status balance q recorded) in
    let pool : get_or "smaller_pool_liquidity_usdc" "0" (with_statuses balance q).metadata ≡ "0" =
      metadata-with_statuses "smaller_pool_liquidity_usdc" "0" balance q (unfold contains in refl)
      ∙ unfold build_unavailable_quote get_or lookup in refl in
    let r : Request = record {
      quote = with_statuses balance q;
      mode = mode;
      quote_freshness_limit = stale_limit s route;
      health = h;
      wallet_balance_usdc = wallet;
      reference_deviation_bps = (with_statuses balance q).raw_edge_bps;
      depeg_detected = false;
      smaller_pool_liquidity_usdc = dec 0 0;
    } in
    let (d, decides) = evaluate_total later r m in
    (
      r,
      rw (snap, pool) (unfold parse_decimal strip in refl),
      d,
      decides,
      blocked balance r d refl decides,
    )
  where
    unquoted :
        (balance : String × String)
        → get_or "quote_unavailable" "false"
            (with_statuses balance (build_unavailable_quote route mode (text_of e))).metadata
          ≡ "true"
    unquoted balance =
        metadata-with_statuses "quote_unavailable" "false" balance
          (build_unavailable_quote route mode (text_of e)) (unfold contains in refl)
        ∙ unfold build_unavailable_quote get_or lookup in refl

    blocked :
        (balance : String × String) (r : Request) (d : OpportunityDecision)
        → r.quote ≡ with_statuses balance (build_unavailable_quote route mode (text_of e))
        → (evaluate later r m).0 ≡ ok d
        → d.tradable ≡ false
    blocked balance r d same decides = elim (Bool-cases d.tradable) [
      | inl t ↦ absurd (
          ((evaluate_permits later r m decides).0 t).healthy.quoted
            (ap (λ x. get_or "quote_unavailable" "false" x.metadata) same ∙ unquoted balance))
      | inr f ↦ f
    ]
