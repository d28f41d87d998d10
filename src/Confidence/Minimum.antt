-- ===== src/Confidence/Minimum.antt =====
-- The weakest of several statuses: `min` by rank.
use arbitrage_bot.Base.{
  map, none, some, ℕ, ◌≡◌, refl, inl, inr, true, false, string_eq, ltb, String, List, [], ◌∷◌,
  contains, All, arith, eq_iff, Bool-cases,
}
use arbitrage_bot.Confidence.{
  fee_confidence_at_least, fee_confidence_order, min_fee_confidence, min_of,
  normalize_fee_confidence, rank, at_least, min_by_rank,
}
use arbitrage_bot.Confidence.Canonical.{
  normalize_fee-canonical, normalize_fee_confidence-IsCanonical, IsCanonical,
}
use arbitrage_bot.Base.Result.{ok}
use arbitrage_bot.Confidence.Rank.{rank_total, at_least_refl, at_least_trans}

-- `min` of a list of canonical names: it exists, occurs in the list, and no name ranks below it.
abbrev IsMinimum : List String → List String → String → Type 0
IsMinimum order names m =
    IsCanonical order m × (contains m names ≡ true) × All (λ n. at_least order n m ≡ ok true) names

module _ (order : List String) where
  step_keep :
      (best name m : String) (names : List String)
      → at_least order name best ≡ ok true
      → IsMinimum order (best ∷ names) m
      → IsMinimum order (best ∷ name ∷ names) m
  unfolding contains
  step_keep best name m names h (c, occurs, (low, lows)) =
      (c, ground arith, (low, (at_least_trans order name best m h low, lows)))

  step_swap :
      (best name m : String) (names : List String)
      → at_least order best name ≡ ok true
      → IsMinimum order (name ∷ names) m
      → IsMinimum order (best ∷ name ∷ names) m
  unfolding contains
  step_swap best name m names h (c, occurs, (low, lows)) =
      (c, ground arith, (at_least_trans order best name m h low, (low, lows)))

  self : (n : String) → contains n (n ∷ []) ≡ true
  unfolding contains
  self n = ground (arith, eq_iff n n)

  ranked :
      (a b : String) (i j : ℕ)
      → rank order a ≡ ok i
      → rank order b ≡ ok j
      → ltb j i ≡ true
      → at_least order a b ≡ ok true
  unfolding at_least
  ranked a b i j p q h = ground arith

  ranked_not :
      (a b : String) (i j : ℕ)
      → rank order a ≡ ok i
      → rank order b ≡ ok j
      → ltb j i ≡ false
      → at_least order b a ≡ ok true
  unfolding at_least
  ranked_not a b i j p q h = ground arith

  min_by_rank_lem :
      (best : String) (names : List String)
      → IsCanonical order best
      → All (IsCanonical order) names
      → (m : String) × (min_by_rank order best names ≡ ok m) × IsMinimum order (best ∷ names) m
  unfolding min_by_rank
  min_by_rank_lem best [] cb cs = (best, refl, (cb, self best, (at_least_refl order best cb, tt)))
  min_by_rank_lem best (name ∷ names) cb cs =
      let (b, p) = rank_total order best cb in
      let (n, q) = rank_total order name cs.0 in
      elim (Bool-cases (ltb n b)) [
        | inl less ↦
            let (m, e, low) = min_by_rank_lem name names cs.0 cs.1 in
            (m, rw (p, q, less) e, step_swap best name m names (ranked best name b n p q less) low)
        | inr more ↦
            let (m, e, low) = min_by_rank_lem best names cb cs.1 in
            (
              m,
              rw (p, q, more) e,
              step_keep best name m names (ranked_not best name b n p q more) low,
            )
      ]

-- The statuses compare with the minimum of their normal forms.
fee_lows :
    (m : String) (statuses : List String)
    → IsCanonical fee_confidence_order m
    → All
        (λ n. at_least fee_confidence_order n m ≡ ok true)
        (map (λ s. normalize_fee_confidence (some s) none) statuses)
    → All (λ s. fee_confidence_at_least s m ≡ ok true) statuses
unfolding fee_confidence_at_least
fee_lows m [] c h = tt
fee_lows m (s ∷ ss) c h = (rw (normalize_fee-canonical m none c) h.0, fee_lows m ss c h.1)

fee-IsCanonical :
    (statuses : List String)
    → All
        (IsCanonical fee_confidence_order)
        (map (λ s. normalize_fee_confidence (some s) none) statuses)
fee-IsCanonical [] = tt
fee-IsCanonical (s ∷ ss) = (normalize_fee_confidence-IsCanonical (some s) none, fee-IsCanonical ss)

-- The combined fee status of one or more statuses exists, is the normal form of one of them, and
-- every one of them is at least as strong.
pub min_fee_confidence_lem :
    (status : String) (statuses : List String)
    → (m : String) × (min_fee_confidence (status ∷ statuses) ≡ ok m)
      × (contains m (map (λ s. normalize_fee_confidence (some s) none) (status ∷ statuses)) ≡ true)
      × All (λ s. fee_confidence_at_least s m ≡ ok true) (status ∷ statuses)
unfolding min_fee_confidence min_of
min_fee_confidence_lem status statuses =
    let names = fee-IsCanonical (status ∷ statuses) in
    let (m, e, (c, occurs, lows)) = min_by_rank_lem fee_confidence_order _ _ names.0 names.1 in
    (m, e, occurs, fee_lows m (status ∷ statuses) c lows)
