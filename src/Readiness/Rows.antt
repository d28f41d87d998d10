-- ===== src/Readiness/Rows.antt =====
-- The grade of a readiness row, in terms of the evidence.
use arbitrage_bot.Base.{
  is_empty, List, Bool-cases, String, any, ap, false, if◌then◌else◌, inl, inr, refl, sym, true, ℕ,
  ◌↔◌, ◌∙◌, ◌≡◌, ◌≢◌, ◌≤◌,
}
use arbitrage_bot.Readiness.Grade.{
  grade-yellow, Observed, Vetted, blockers_none, critical, critical-any, critical_iff, grade-green,
  grade-red, no_blocker_iff,
}
use arbitrage_bot.Base.Result.{bind-Returns, bind-ok, ok, ok-cancel}
use arbitrage_bot.Confidence.{
  balance_confidence_at_least, fee_confidence_at_least, quote_match_status_at_least,
}
use arbitrage_bot.Confidence.Rank.{at_least-preorders}
use arbitrage_bot.Readiness.{
  Evidence, ReadinessRow, Records, Verified, blockers_of, build_blockers_and_actions, evidence_of,
  grade_from_blockers, is_shadow, items, readiness_row, verify,
}
use arbitrage_bot.Settings.{Settings}
use mathlib.Core.Bool.{true≢false}

-- the parts of a call of `_build_route_row`
row_parts :
    (s : Settings) (now : ℕ) (strategy : String) (r : Records) {row : ReadinessRow}
    → readiness_row s now strategy r ≡ ok row
    → (v : Verified) × (verify s row.evidence ≡ ok v)
      × (row.readiness_blockers ≡ blockers_of (items row.evidence v))
      × (row.readiness_grade ≡ grade_from_blockers (blockers_of (items row.evidence v)))
unfolding readiness_row build_blockers_and_actions
row_parts s now strategy r h =
    let e = evidence_of now strategy r in
    let (out, p, q) = bind-ok (build_blockers_and_actions s e) _ h in
    let (v, a, b) = bind-ok (verify s e) _ p in
    let given = sym (ok-cancel b) in
    let made = sym (ok-cancel q) in
    let same = ap (λ x. x.evidence) made in
    (
      v,
      rw same a,
      rw same (ap (λ x. x.readiness_blockers) made ∙ ap (λ x. x.0) given),
      rw same (ap (λ x. x.readiness_grade) made ∙ ap (λ x. grade_from_blockers x.0) given),
    )

-- what the three calls of `verify` say
verify_iff :
    (s : Settings) (e : Evidence) (v : Verified)
    → verify s e ≡ ok v
    → ((e.support_status ≡ "supported")
        × (v.fee ≡ true)
        × (e.balance_status ≢ "mismatch")
        × (v.balance ≡ true)
        × (v.quote ≡ true)
        × (1 ≤ e.backtest_run_count)
        × (e.fatal_paused ≡ false))
      ↔ Vetted s e
unfolding verify
verify_iff s e v h =
    let (f, pf, h₁) =
      bind-ok
        (fee_confidence_at_least e.fee_status
          (if is_shadow e then s.shadow_min_fee_confidence_for_readiness else "venue_declared"))
        _ h in
    let (b, pb, h₂) =
      bind-ok
        (balance_confidence_at_least e.balance_status (
          if is_shadow e then s.shadow_min_balance_confidence_for_readiness else "wallet_verified"))
        _ h₁ in
    let (q, pq, h₃) =
      bind-ok
        (quote_match_status_at_least e.quote_match_status
          (if is_shadow e then s.shadow_min_quote_match_for_readiness else "matched"))
        _ h₂ in
    let same = ok-cancel h₃ in
    let vf = ap (λ x. x.fee) same in
    let vb = ap (λ x. x.balance) same in
    let vq = ap (λ x. x.quote) same in
    (
      (λ (a, c, m, d, g, n, k). record {
        supported = a;
        fee = pf ∙ ap ok (vf ∙ c);
        matches = m;
        balance = pb ∙ ap ok (vb ∙ d);
        quote = pq ∙ ap ok (vq ∙ g);
        replayed = n;
        not_fatal = k;
      }),
      λ t. (
        t.supported,
        sym vf ∙ ok-cancel (sym pf ∙ t.fee),
        t.matches,
        sym vb ∙ ok-cancel (sym pb ∙ t.balance),
        sym vq ∙ ok-cancel (sym pq ∙ t.quote),
        t.replayed,
        t.not_fatal,
      ),
    )

-- A route is green exactly where nothing at all is held against it: it is vetted, it has 20
-- observations, fewer than a fifth of its quotes were unavailable, no cooldown runs, and it is no
-- shadow route.
pub readiness_row-green :
    (s : Settings) (now : ℕ) (strategy : String) (r : Records) {row : ReadinessRow}
    → readiness_row s now strategy r ≡ ok row
    → (row.readiness_grade ≡ "green") ↔ (Vetted s row.evidence × Observed row.evidence)
readiness_row-green s now strategy r {row} h =
    let (v, call, _, grade) = row_parts s now strategy r h in
    let (to, from) = grade-green (blockers_of (items row.evidence v)) in
    let (none_to, none_from) = blockers_none (items row.evidence v) in
    let (all_to, all_from) = no_blocker_iff s row.evidence v in
    let (vetted, unvetted) = verify_iff s row.evidence v call in
    (
      (λ g.
          let (a, b, c, d, e, f, k, o) = all_to (none_to (to (sym grade ∙ g))) in
          (vetted (a, b, c, d, e, f, k), o)),
      λ (t, o).
          let (a, b, c, d, e, f, k) = unvetted t in
          grade ∙ from (none_from (all_from (a, b, c, d, e, f, k, o))),
    )

-- A route is red exactly where it is not vetted: its support, the confidence of its fees, its balance
-- or its quotes falls short, no backtest has been run, or a fatal failure keeps it paused. It is yellow
-- exactly where it is vetted and another blocker applies: too few observations, too many unavailable
-- quotes, a cooldown, or a shadow route.
pub readiness_row-red :
    (s : Settings) (now : ℕ) (strategy : String) (r : Records) {row : ReadinessRow}
    → readiness_row s now strategy r ≡ ok row
    → ((row.readiness_grade ≢ "red") ↔ Vetted s row.evidence)
      × ((row.readiness_grade ≡ "yellow") ↔ (Vetted s row.evidence × (¬ Observed row.evidence)))
readiness_row-red s now strategy r {row} h =
    let (v, call, _, grade) = row_parts s now strategy r h in
    let bs = blockers_of (items row.evidence v) in
    let (to, from) = grade-red bs in
    let (yellow_to, yellow_from) = grade-yellow bs in
    let (none_to, none_from) = blockers_none (items row.evidence v) in
    let (all_to, all_from) = no_blocker_iff s row.evidence v in
    let same = critical-any (items row.evidence v) in
    let (crit_to, crit_from) = critical_iff s row.evidence v in
    let (vetted, unvetted) = verify_iff s row.evidence v call in
    (
      (
        (λ n. elim (Bool-cases (any critical (items row.evidence v))) [
          | inl c ↦ absurd (n (grade ∙ from (same ∙ c)))
          | inr c ↦ vetted (crit_to c)
        ]),
        λ t red. absurd (true≢false (sym (to (sym grade ∙ red)) ∙ (same ∙ crit_from (unvetted t)))),
      ),
      (
        (λ y.
            let (some_blocker, uncritical) = yellow_to (sym grade ∙ y) in
            let parts = crit_to (sym same ∙ uncritical) in
            let (a, b, c, d, e, f, k) = parts in
            (
              vetted parts,
              λ o. true≢false (sym (none_from (all_from (a, b, c, d, e, f, k, o))) ∙ some_blocker),
            )),
        λ (t, unobserved).
            let uncritical = same ∙ crit_from (unvetted t) in
            elim (Bool-cases (is_empty bs)) [
              | inl b ↦ let (_, _, _, _, _, _, _, o) = all_to (none_to b) in absurd (unobserved o)
              | inr b ↦ grade ∙ yellow_from (b, uncritical)
            ],
      ),
    )

-- Every route gets a row, whatever its records hold.
pub readiness_row_total :
    (s : Settings) (now : ℕ) (strategy : String) (r : Records)
    → (row : ReadinessRow) × (readiness_row s now strategy r ≡ ok row)
unfolding readiness_row build_blockers_and_actions verify
readiness_row_total s now strategy r =
    bind-Returns _ _
      (bind-Returns (verify s (evidence_of now strategy r)) _
        (bind-Returns _ _ (at_least-preorders.1.0 _ _) (λ f.
          bind-Returns _ _ (at_least-preorders.2.0 _ _)
            (λ b. bind-Returns _ _ (at_least-preorders.3.0 _ _) (λ q. (_, refl)))))
        (λ v. (_, refl)))
      (λ out. (_, refl))

-- the row of a route, with what its grade is made from
pub grade_of :
    (s : Settings) (now : ℕ) (strategy : String) (r : Records)
    → (row : ReadinessRow) × (readiness_row s now strategy r ≡ ok row)
      × (bs : List String) × (row.readiness_grade ≡ grade_from_blockers bs)
grade_of s now strategy r =
    let (row, h) = readiness_row_total s now strategy r in
    let (v, _, _, g) = row_parts s now strategy r h in
    (row, h, blockers_of (items row.evidence v), g)
