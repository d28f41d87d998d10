-- ===== src/Confidence/Rank.antt =====
-- Ranks exist for every canonical name, so the comparisons never raise, and they are total preorders.
use arbitrage_bot.Base.{
  ℕ, suc, ◌≡◌, refl, ◌⊎◌, inl, inr, Bool, true, ◌==◌, string_eq, leb, String, none, some, List, [],
  ◌∷◌, contains, arith, Bool-cases,
}
use arbitrage_bot.Base.Dict.{lookup}
use arbitrage_bot.Base.Result.{Result, ok}
use arbitrage_bot.Confidence.{
  support_status_order, fee_confidence_order, balance_confidence_order, quote_match_order,
  rank_table, rank, at_least, normalize_support_status, normalize_fee_confidence,
  normalize_balance_confidence, normalize_quote_match_status, support_status_at_least,
  fee_confidence_at_least, balance_confidence_at_least, quote_match_status_at_least,
}
use arbitrage_bot.Confidence.Canonical.{
  IsCanonical, normalize_support_status-IsCanonical, normalize_fee_confidence-IsCanonical,
  normalize_balance_confidence-IsCanonical, normalize_quote_match_status-IsCanonical,
  normalize_fee-canonical, contains_elim,
}

lookup-rank_table :
    (i : ℕ) (order : List String) (n : String)
    → contains n order ≡ true
    → (r : ℕ) × (lookup n (rank_table i order) ≡ some r)
unfolding lookup rank_table contains
lookup-rank_table i [] n c = cc
lookup-rank_table i (x ∷ xs) n c = elim (Bool-cases (n == x)) [
  | inl e ↦ (i, rw e)
  | inr ne ↦ let (r, found) = lookup-rank_table (suc i) xs n (ground arith) in (r, rw ne found)
]

-- `RANK[name]` finds every canonical name.
pub rank_total :
    (order : List String) (n : String) → IsCanonical order n → (r : ℕ) × (rank order n ≡ ok r)
unfolding rank
rank_total order n c = let (r, found) = lookup-rank_table 0 order n c in (r, rw found)

-- On canonical names the comparison is that of two ranks.
pub at_least_ranks :
    (order : List String) (a b : String)
    → IsCanonical order a
    → IsCanonical order b
    → (i : ℕ) × (j : ℕ) × (rank order a ≡ ok i)
      × (rank order b ≡ ok j)
      × (at_least order a b ≡ ok (leb j i))
unfolding at_least
at_least_ranks order a b ca cb =
    let (i, p) = rank_total order a ca in
    let (j, q) = rank_total order b cb in (i, j, p, q, rw (p, q))

pub at_least_total :
    (order : List String) (a b : String)
    → IsCanonical order a
    → IsCanonical order b
    → (at_least order a b ≡ ok true) ⊎ (at_least order b a ≡ ok true)
unfolding at_least
at_least_total order a b ca cb = ground (arith, rank_total order a ca, rank_total order b cb)

pub at_least_refl :
    (order : List String) (a : String) → IsCanonical order a → at_least order a a ≡ ok true
unfolding at_least
at_least_refl order a ca = ground (arith, rank_total order a ca)

pub at_least_trans :
    (order : List String) (a b c : String)
    → at_least order a b ≡ ok true
    → at_least order b c ≡ ok true
    → at_least order a c ≡ ok true
unfolding at_least
at_least_trans order a b c h k = ground arith

-- A comparison that raises on no pair of texts, and is total and transitive.
abbrev pub IsTotalPreorder : (String → String → Result Bool) → Type 0
IsTotalPreorder R =
    ((a b : String) → (holds : Bool) × (R a b ≡ ok holds))
    × ((a b : String) → (R a b ≡ ok true) ⊎ (R b a ≡ ok true))
    × ((a b c : String) → R a b ≡ ok true → R b c ≡ ok true → R a c ≡ ok true)

-- A comparison by rank after a canonical normalisation is a total preorder.
by_rank_preorder :
    (order : List String) (f : String → String)
    → ((s : String) → IsCanonical order (f s))
    → IsTotalPreorder (λ a b. at_least order (f a) (f b))
by_rank_preorder order f canonical = (
  λ a b.
      let (i, j, p, q, e) = at_least_ranks order (f a) (f b) (canonical a) (canonical b) in
      (leb j i, e),
  λ a b. at_least_total order (f a) (f b) (canonical a) (canonical b),
  λ a b c. at_least_trans order (f a) (f b) (f c),
)

-- All four `*_at_least` comparisons are total preorders on arbitrary texts: none of them raises a
-- `KeyError`, any two texts compare one way or the other, and the comparison is transitive.
pub at_least-preorders :
    IsTotalPreorder support_status_at_least
    × IsTotalPreorder fee_confidence_at_least
    × IsTotalPreorder balance_confidence_at_least
    × IsTotalPreorder quote_match_status_at_least
unfolding support_status_at_least fee_confidence_at_least balance_confidence_at_least
    quote_match_status_at_least
at_least-preorders = (
  by_rank_preorder support_status_order (λ s. normalize_support_status (some s))
      (λ s. normalize_support_status-IsCanonical (some s)),
  by_rank_preorder fee_confidence_order (λ s. normalize_fee_confidence (some s) none)
      (λ s. normalize_fee_confidence-IsCanonical (some s) none),
  by_rank_preorder balance_confidence_order (λ s. normalize_balance_confidence (some s) none)
      (λ s. normalize_balance_confidence-IsCanonical (some s) none),
  by_rank_preorder quote_match_order (λ s. normalize_quote_match_status (some s))
      (λ s. normalize_quote_match_status-IsCanonical (some s)),
)

chain-IsCanonical : IsCanonical fee_confidence_order "chain_verified"
unfolding contains
chain-IsCanonical = refl

-- A canonical name that ranks with the last name of the fee vocabulary is that name.
fee_rank_top :
    (n : String)
    → IsCanonical fee_confidence_order n
    → at_least fee_confidence_order n "chain_verified" ≡ ok true
    → n ≡ "chain_verified"
unfolding at_least rank rank_table lookup
fee_rank_top n c =
    contains_elim
      (λ m. at_least fee_confidence_order m "chain_verified" ≡ ok true → m ≡ "chain_verified") n
      fee_confidence_order
      ((λ h. cc), ((λ h. cc), ((λ h. cc), ((λ h. cc), ((λ h. cc), ((λ h. refl), tt)))))) c

-- Only evidence that normalises to `chain_verified` meets the live default `chain_verified`.
pub fee_confidence_at_least-top :
    (actual : String)
    → fee_confidence_at_least actual "chain_verified" ≡ ok true
    → normalize_fee_confidence (some actual) none ≡ "chain_verified"
unfolding fee_confidence_at_least
fee_confidence_at_least-top actual h =
    fee_rank_top _ (normalize_fee_confidence-IsCanonical (some actual) none)
      (rw (normalize_fee-canonical "chain_verified" none chain-IsCanonical) at h)
