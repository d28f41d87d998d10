-- ===== src/Runner/Statuses.antt =====
-- Which statuses of fees and of quotes count as verified.
use arbitrage_bot.QuoteEngine.Hyper.{Pools, fees_of}
use arbitrage_bot.Settings.{Settings}
use arbitrage_bot.Base.{
  [], eq_iff, ◌∷◌, Bool-cases, ap, inl, inr, arith, Bool, String, agree, contains, false,
  if◌then◌else◌, nat_eq, none, not, refl, some, string_eq, sym, true, ◌&&◌, ◌==◌, ◌∙◌, ◌≡◌, ◌≢◌,
}
use arbitrage_bot.Base.Dict.{lookup}
use arbitrage_bot.Confidence.{
  fee_confidence_at_least, min_fee_confidence, at_least, norm, normalize_quote_match_status, rank,
  rank_table, quote_match_order, quote_match_status_at_least, fee_confidence_order,
  normalize_fee_confidence,
}
use arbitrage_bot.Confidence.Canonical.{
  normalize_fee_confidence-IsCanonical, contains_elim, IsCanonical, normalize_fee-canonical,
}
use arbitrage_bot.Confidence.Minimum.{min_fee_confidence_lem}
use arbitrage_bot.Confidence.Rank.{fee_confidence_at_least-top}
use arbitrage_bot.QuoteEngine.{source_type}
use mathlib.Core.Path.{subst}
use arbitrage_bot.Base.Int.{negsuc, leb_ℤ, ltb_ℤ, pos, ℤ}
use arbitrage_bot.Edge.{dex_fee_status}
use arbitrage_bot.Base.Result.{bind-ok, ok-cancel, ok}
use arbitrage_bot.Base.Text.{lower, strip}
use mathlib.Core.Bool.{true≢false}
use arbitrage_bot.Repository.{Route}

-- the one status of a pool's fee that is verified
weak :
    (n : String)
    → IsCanonical fee_confidence_order n
    → (n == "chain_verified") ≡ false
    → normalize_fee_confidence (some n) none ≢ "chain_verified"
weak n c apart h =
    true≢false (sym (agree n "chain_verified" (sym (normalize_fee-canonical n none c) ∙ h)) ∙ apart)

pub dex_status-verified :
    (tier configured : ℤ) (source : String)
    → normalize_fee_confidence (some (dex_fee_status tier configured source).0) none
      ≡ "chain_verified"
    → ((source == "mock") ≡ false)
      × (leb_ℤ tier (pos 0) ≡ false)
      × ((ltb_ℤ (pos 0) configured && not (leb_ℤ tier configured && leb_ℤ configured tier)) ≡ false)
unfolding dex_fee_status
dex_status-verified tier configured source h =
    go (source == "mock") (leb_ℤ tier (pos 0))
      (ltb_ℤ (pos 0) configured && not (leb_ℤ tier configured && leb_ℤ configured tier)) h
  where
    go :
        (mock low off : Bool)
        → let out : String × String =
            if mock
            then ("config_only", "mock_config")
            else if low
            then ("config_only", "config_only")
            else if off
            then ("unknown", "pool_fee_mismatch")
            else ("chain_verified", "chain_pool_fee") in
          normalize_fee_confidence (some out.0) none ≡ "chain_verified"
          → (mock ≡ false) × (low ≡ false) × (off ≡ false)
    go true low off h = absurd (weak "config_only" (unfold contains in refl) refl h)
    go false true off h = absurd (weak "config_only" (unfold contains in refl) refl h)
    go false false true h = absurd (weak "unknown" (unfold contains in refl) refl h)
    go false false false h = (refl, refl, refl)

-- two integers in both orders are one
pub same_ℤ : (a b : ℤ) → (leb_ℤ a b && leb_ℤ b a) ≡ true → a ≡ b
same_ℤ (pos m) (pos n) h = ground (arith, h)
same_ℤ (pos m) (negsuc n) h = ground (arith, h)
same_ℤ (negsuc m) (pos n) h = ground (arith, h)
same_ℤ (negsuc m) (negsuc n) h = ground (arith, h)

-- a status of the quotes that meets `matched`
pub match-verified :
    (status : String)
    → IsCanonical quote_match_order status
    → quote_match_status_at_least status "matched" ≡ ok true
    → status ≡ "matched"
unfolding quote_match_status_at_least at_least rank rank_table lookup normalize_quote_match_status
    norm strip lower contains
match-verified status c =
    contains_elim (λ n. quote_match_status_at_least n "matched" ≡ ok true → n ≡ "matched") status
      quote_match_order ((λ h. cc), ((λ h. cc), ((λ h. refl), tt))) c

-- the weakest of two fee statuses, as a quote carries it
pub weakest-verified :
    (s : Settings) (route : Route) (pools : Pools) {fees : String × String × String}
    → fees_of s route pools ≡ ok fees
    → IsCanonical fee_confidence_order fees.0
      × (fees.0 ≡ "chain_verified"
          → (normalize_fee_confidence
                (some (dex_fee_status pools.tier_a route.pool_fee_tier_a (source_type s)).0)
                none
              ≡ "chain_verified")
            × (normalize_fee_confidence
                  (some (dex_fee_status pools.tier_b route.pool_fee_tier_b (source_type s)).0)
                  none
                ≡ "chain_verified"))
unfolding fees_of
weakest-verified s route pools {fees} h =
    let sa = (dex_fee_status pools.tier_a route.pool_fee_tier_a (source_type s)).0 in
    let sb = (dex_fee_status pools.tier_b route.pool_fee_tier_b (source_type s)).0 in
    let (known, e, h₁) = bind-ok (min_fee_confidence (sa ∷ sb ∷ [])) _ h in
    let same : known ≡ fees.0 = ap (λ x. x.0) (ok-cancel h₁) in
    let (m, f, occurs, (low_a, (low_b, _))) = min_fee_confidence_lem sa (sb ∷ []) in
    let least : m ≡ fees.0 = ok-cancel (sym f ∙ e) ∙ same in
    (
      subst (IsCanonical fee_confidence_order) least (canonical sa sb m occurs),
      (λ top. (
        fee_confidence_at_least-top sa
            (subst (λ x. fee_confidence_at_least sa x ≡ ok true) (least ∙ top) low_a),
        fee_confidence_at_least-top sb
            (subst (λ x. fee_confidence_at_least sb x ≡ ok true) (least ∙ top) low_b),
      )),
    )
  where
    canonical :
        (sa sb m : String)
        → contains m
            (normalize_fee_confidence (some sa) none ∷ normalize_fee_confidence (some sb) none ∷ [])
          ≡ true
        → IsCanonical fee_confidence_order m
    canonical sa sb m occurs =
        unfold contains in
        elim (Bool-cases (m == normalize_fee_confidence (some sa) none)) [
          | inl e ↦ rw ((eq_iff _ _).0 e) (normalize_fee_confidence-IsCanonical (some sa) none)
          | inr e ↦
              rw
                ((eq_iff m (normalize_fee_confidence (some sb) none)).0 (ground (arith, e, occurs)))
                (normalize_fee_confidence-IsCanonical (some sb) none)
        ]

pub named-fee : (n : String) → IsCanonical fee_confidence_order n → (n == "") ≡ false
named-fee n =
    contains_elim (λ m. (m == "") ≡ false) n fee_confidence_order
      (refl, (refl, (refl, (refl, (refl, (refl, tt))))))
