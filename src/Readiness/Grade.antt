-- ===== src/Readiness/Grade.antt =====
-- When a route is green, and when it is red.
use arbitrage_bot.Base.{
  String, agree, sym, ◌==◌, ◌∙◌, All, Bool, Bool-cases, List, [], any, ap, arith, contains, eq_iff,
  false, if◌then◌else◌, inl, inr, is_empty, nat_eq, refl, string_eq, true, ◌&&◌, ◌||◌, ◌↔◌, ◌∷◌,
  ◌≡◌, ◌≢◌, ◌≤◌,
}
use arbitrage_bot.Readiness.{
  grade_from_blockers, Evidence, Item, Verified, blockers_of, critical_blockers, is_shadow, items,
}
use mathlib.Core.Bool.{true≢false}
use arbitrage_bot.Base.Result.{ok}
use arbitrage_bot.Confidence.{
  balance_confidence_at_least, fee_confidence_at_least, quote_match_status_at_least,
}
use arbitrage_bot.Decimal.{dec, lt}
use arbitrage_bot.Decimal.Compare.{lt-not-le}
use arbitrage_bot.Settings.{Settings}

-- What the critical blockers ask of a route, for its kind of route.
pub record Vetted (s : Settings) (e : Evidence) : Type 0 where
  pub supported : e.support_status ≡ "supported"
  pub fee :
      fee_confidence_at_least e.fee_status
        (if is_shadow e then s.shadow_min_fee_confidence_for_readiness else "venue_declared")
      ≡ ok true
  pub matches : e.balance_status ≢ "mismatch"
  pub balance :
      balance_confidence_at_least e.balance_status
        (if is_shadow e then s.shadow_min_balance_confidence_for_readiness else "wallet_verified")
      ≡ ok true
  pub quote :
      quote_match_status_at_least e.quote_match_status
        (if is_shadow e then s.shadow_min_quote_match_for_readiness else "matched")
      ≡ ok true
  pub replayed : 1 ≤ e.backtest_run_count
  pub not_fatal : e.fatal_paused ≡ false

-- What the other blockers ask.
pub record Observed (e : Evidence) : Type 0 where
  pub observations : 20 ≤ e.observation_count
  pub available : lt e.quote_unavailable_rate (dec 20 2) ≡ true
  pub cooled : e.cooldown_active ≡ false
  pub not_shadow : is_shadow e ≡ false

pub blockers_none :
    (is : List Item) → (is_empty (blockers_of is) ≡ true) ↔ All (λ i. i.applies ≡ false) is
unfolding blockers_of
blockers_none [] = ((λ h. tt), (λ h. refl))
blockers_none (i ∷ is) = elim (Bool-cases i.applies) [
  | inl b ↦ rw b ((λ h. cc), (λ h. cc))
  | inr b ↦ rw b ((λ h. (refl, (blockers_none is).0 h)), (λ h. (blockers_none is).1 h.1))
]

-- a critical blocker applies
unfoldable pub critical : Item → Bool
critical i = i.applies && contains i.blocker critical_blockers

pub critical-any :
    (is : List Item) → any (λ b. contains b critical_blockers) (blockers_of is) ≡ any critical is
unfolding blockers_of critical
critical-any [] = refl
critical-any (i ∷ is) = elim (Bool-cases i.applies) [
  | inl b ↦ rw b (ap (λ r. contains i.blocker critical_blockers || r) (critical-any is))
  | inr b ↦ rw b (critical-any is)
]

module _ (s : Settings) (e : Evidence) (v : Verified) where
  pub no_blocker_iff : All (λ i. i.applies ≡ false) (items e v) ↔ (
      (e.support_status ≡ "supported")
      × (v.fee ≡ true)
      × (e.balance_status ≢ "mismatch")
      × (v.balance ≡ true)
      × (v.quote ≡ true)
      × (1 ≤ e.backtest_run_count)
      × (e.fatal_paused ≡ false)
      × Observed e)
  unfolding items
  no_blocker_iff =
      let u = eq_iff e.support_status "supported" in
      let b = eq_iff e.balance_status "mismatch" in
      let r = lt-not-le e.quote_unavailable_rate (dec 20 2) in
      (
        (λ h. (
          ground arith,
          ground arith,
          ground arith,
          ground arith,
          ground arith,
          ground arith,
          ground arith,
          record {
            observations = ground arith;
            available = ground arith;
            cooled = ground arith;
            not_shadow = ground arith;
          },
        )),
        (λ (a, f, m, c, q, n, p, o).
            let o₁ = o.observations in
            let o₂ = o.available in let o₃ = o.cooled in let o₄ = o.not_shadow in ground arith),
      )

  pub critical_iff : (any critical (items e v) ≡ false) ↔ (
      (e.support_status ≡ "supported")
      × (v.fee ≡ true)
      × (e.balance_status ≢ "mismatch")
      × (v.balance ≡ true)
      × (v.quote ≡ true)
      × (1 ≤ e.backtest_run_count)
      × (e.fatal_paused ≡ false))
  unfolding items critical contains
  critical_iff =
      let u = eq_iff e.support_status "supported" in
      let b = eq_iff e.balance_status "mismatch" in
      (
        (λ h. (
          ground arith,
          ground arith,
          ground arith,
          ground arith,
          ground arith,
          ground arith,
          ground arith,
        )),
        (λ (a, f, m, c, q, n, p). ground arith),
      )

pub grade-green :
    (blockers : List String) → (grade_from_blockers blockers ≡ "green") ↔ (is_empty blockers ≡ true)
unfolding grade_from_blockers
grade-green blockers = elim (Bool-cases (is_empty blockers)) [
  | inl b ↦ rw b ((λ h. refl), (λ h. refl))
  | inr b ↦ elim (Bool-cases (any (λ x. contains x critical_blockers) blockers)) [
    | inl c ↦ rw (b, c) ((λ h. absurd (not_literal "red" "green" refl h)), (λ h. cc))
    | inr c ↦ rw (b, c) ((λ h. absurd (not_literal "yellow" "green" refl h)), (λ h. cc))
  ]
]
  where
    not_literal : (a b : String) → (a == b) ≡ false → ¬ (a ≡ b)
    not_literal a b d h = true≢false (sym (agree a b h) ∙ d)

pub grade-red :
    (blockers : List String)
    → (grade_from_blockers blockers ≡ "red")
      ↔ (any (λ x. contains x critical_blockers) blockers ≡ true)
unfolding grade_from_blockers
grade-red [] = ((λ h. absurd (true≢false (sym (agree "green" "red" h)))), (λ h. cc))
grade-red (x ∷ xs) = elim (Bool-cases (any (λ y. contains y critical_blockers) (x ∷ xs))) [
  | inl c ↦ rw c ((λ h. refl), (λ h. refl))
  | inr c ↦ rw c ((λ h. absurd (true≢false (sym (agree "yellow" "red" h)))), (λ h. cc))
]

pub grade-yellow :
    (blockers : List String)
    → (grade_from_blockers blockers ≡ "yellow")
      ↔ ((is_empty blockers ≡ false) × (any (λ x. contains x critical_blockers) blockers ≡ false))
unfolding grade_from_blockers
grade-yellow [] = ((λ h. absurd (true≢false (sym (agree "green" "yellow" h)))), (λ h. cc))
grade-yellow (x ∷ xs) = elim (Bool-cases (any (λ y. contains y critical_blockers) (x ∷ xs))) [
  | inl c ↦ rw c ((λ h. absurd (true≢false (sym (agree "red" "yellow" h)))), (λ h. cc))
  | inr c ↦ rw c ((λ h. (refl, refl)), (λ h. refl))
]
