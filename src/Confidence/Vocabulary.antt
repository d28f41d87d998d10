-- ===== src/Confidence/Vocabulary.antt =====
-- The four vocabularies of statuses from the weakest name to the strongest, and the comparisons on them.
use arbitrage_bot.Base.{
  All, Bool, List, String, [], contains, false, nat_eq, none, refl, some, string_eq, sym, true, ◌∷◌,
  ◌≡◌,
}
use arbitrage_bot.Base.Dict.{lookup}
use arbitrage_bot.Base.Text.{lower, strip}
use arbitrage_bot.Confidence.{
  at_least, balance_body, balance_confidence_at_least, balance_confidence_order,
  fee_confidence_at_least, fee_confidence_order, norm, normalize_balance_confidence,
  normalize_fee_confidence, normalize_quote_match_status, normalize_support_status,
  quote_match_order, quote_match_status_at_least, rank, rank_table, support_status_at_least,
  support_status_order,
}
use arbitrage_bot.Confidence.Canonical.{
  IsCanonical, normalize_balance-canonical, normalize_balance_confidence-IsCanonical,
  normalize_fee-canonical, normalize_fee_confidence-IsCanonical, normalize_quote-canonical,
  normalize_quote_match_status-IsCanonical, normalize_support-canonical,
  normalize_support_status-IsCanonical,
}
use arbitrage_bot.Confidence.Rank.{IsTotalPreorder, at_least-preorders, at_least_refl}
use mathlib.Core.Path.{subst}
use arbitrage_bot.Base.Result.{Result, ok}

-- of two names the later one is stronger, and not the other way round
abbrev pub Ascends : (String → String → Result Bool) → List String → Type 0
Ascends R [] = Unit
Ascends R (n ∷ ns) = All (λ k. (R k n ≡ ok true) × (R n k ≡ ok false)) ns × Ascends R ns

-- The comparison `R a b`, whether `a` is at least as strong as `b`, never raises, is total and transitive,
-- orders the names as they are listed, and every text is as strong as one of them.
pub record Orders (names : List String) (R : String → String → Result Bool) : Type 0 where
  pub preorder : IsTotalPreorder R
  pub ascends : Ascends R names
  pub named :
      (a : String)
      → (n : String) × (contains n names ≡ true) × (R a n ≡ ok true) × (R n a ≡ ok true)

support-Ascends : Ascends support_status_at_least support_status_order
unfolding support_status_at_least normalize_support_status norm strip lower contains at_least rank
    rank_table lookup
support-Ascends = (((refl, refl), ((refl, refl), tt)), (((refl, refl), tt), (tt, tt)))

quote-Ascends : Ascends quote_match_status_at_least quote_match_order
unfolding quote_match_status_at_least normalize_quote_match_status norm strip lower contains
    at_least rank rank_table lookup
quote-Ascends = (((refl, refl), ((refl, refl), tt)), (((refl, refl), tt), (tt, tt)))

fee-Ascends : Ascends fee_confidence_at_least fee_confidence_order
unfolding fee_confidence_at_least normalize_fee_confidence norm strip lower contains at_least rank
    rank_table lookup
fee-Ascends = (
  ((refl, refl), ((refl, refl), ((refl, refl), ((refl, refl), ((refl, refl), tt))))),
  (
    ((refl, refl), ((refl, refl), ((refl, refl), ((refl, refl), tt)))),
    (
      ((refl, refl), ((refl, refl), ((refl, refl), tt))),
      (((refl, refl), ((refl, refl), tt)), (((refl, refl), tt), (tt, tt))),
    ),
  ),
)

balance-Ascends : Ascends balance_confidence_at_least balance_confidence_order
unfolding balance_confidence_at_least normalize_balance_confidence balance_body norm strip lower
    contains at_least rank rank_table lookup
balance-Ascends = (
  ((refl, refl), ((refl, refl), ((refl, refl), ((refl, refl), ((refl, refl), tt))))),
  (
    ((refl, refl), ((refl, refl), ((refl, refl), ((refl, refl), tt)))),
    (
      ((refl, refl), ((refl, refl), ((refl, refl), tt))),
      (((refl, refl), ((refl, refl), tt)), (((refl, refl), tt), (tt, tt))),
    ),
  ),
)

-- a text is as strong as its normal form
as_normal :
    (order : List String) (f : String → String)
    → ((s : String) → IsCanonical order (f s))
    → ((s : String) → IsCanonical order s → f s ≡ s)
    → (a : String)
    → (n : String) × (contains n order ≡ true)
      × (at_least order (f a) (f n) ≡ ok true)
      × (at_least order (f n) (f a) ≡ ok true)
as_normal order f canonical same a =
    let again = at_least_refl order (f a) (canonical a) in
    (
      f a,
      canonical a,
      subst (λ n. at_least order (f a) n ≡ ok true) (sym (same (f a) (canonical a))) again,
      subst (λ n. at_least order n (f a) ≡ ok true) (sym (same (f a) (canonical a))) again,
    )

-- Each of the four `*_at_least` comparisons never raises a `KeyError`, is total and transitive on
-- arbitrary texts, ranks the names of its vocabulary strictly as they are listed here from the weakest
-- on, and takes every text for one of these names.
pub at_least-Orders :
    Orders ("unknown" ∷ "unsupported" ∷ "supported" ∷ []) support_status_at_least
    × Orders
        ("unknown" ∷ "fallback_only" ∷ "config_only" ∷ "venue_declared" ∷ "acct_verified"
          ∷ "chain_verified" ∷ [])
        fee_confidence_at_least
    × Orders
        ("unknown" ∷ "mismatch" ∷ "internal_ok" ∷ "db_inventory_ok" ∷ "wallet_verified"
          ∷ "venue_verified" ∷ [])
        balance_confidence_at_least
    × Orders ("unknown" ∷ "mismatch" ∷ "matched" ∷ []) quote_match_status_at_least
unfolding support_status_at_least fee_confidence_at_least balance_confidence_at_least
    quote_match_status_at_least
at_least-Orders =
    let (support, fee, balance, quote) = at_least-preorders in
    (
      record {
        preorder = support;
        ascends = support-Ascends;
        named =
            as_normal support_status_order (λ s. normalize_support_status (some s))
              (λ s. normalize_support_status-IsCanonical (some s)) normalize_support-canonical;
      },
      record {
        preorder = fee;
        ascends = fee-Ascends;
        named =
            as_normal fee_confidence_order (λ s. normalize_fee_confidence (some s) none)
              (λ s. normalize_fee_confidence-IsCanonical (some s) none)
              (λ s. normalize_fee-canonical s none);
      },
      record {
        preorder = balance;
        ascends = balance-Ascends;
        named =
            as_normal balance_confidence_order (λ s. normalize_balance_confidence (some s) none)
              (λ s. normalize_balance_confidence-IsCanonical (some s) none)
              (λ s. normalize_balance-canonical s none);
      },
      record {
        preorder = quote;
        ascends = quote-Ascends;
        named =
            as_normal quote_match_order (λ s. normalize_quote_match_status (some s))
              (λ s. normalize_quote_match_status-IsCanonical (some s)) normalize_quote-canonical;
      },
    )
