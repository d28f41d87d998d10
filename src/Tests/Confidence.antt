-- ===== src/Tests/Confidence.antt =====
-- The theorems on the confidence statuses at concrete texts.
use arbitrage_bot.Base.{
  All, String, [], contains, map, nat_eq, none, refl, some, string_eq, true, ◌∷◌, ◌≡◌,
}
use arbitrage_bot.Base.Dict.{lookup}
use arbitrage_bot.Base.Result.{ok}
use arbitrage_bot.Base.Text.{lower, strip}
use arbitrage_bot.Confidence.{
  at_least, fee_confidence_at_least, min_by_rank, min_fee_confidence, min_of, norm,
  normalize_fee_confidence, rank, rank_table,
}
use arbitrage_bot.Confidence.Minimum.{min_fee_confidence_lem}

verified : fee_confidence_at_least "chain_pool_fee" "chain_verified" ≡ ok true
unfolding fee_confidence_at_least at_least rank rank_table lookup normalize_fee_confidence norm
    contains lower strip
verified = refl

min_fee_confidence_lem_example :
    (m : String) × (min_fee_confidence ("chain_verified" ∷ "fallback" ∷ []) ≡ ok m)
    × (contains m
          (map (λ s. normalize_fee_confidence (some s) none) ("chain_verified" ∷ "fallback" ∷ []))
        ≡ true)
    × All (λ s. fee_confidence_at_least s m ≡ ok true) ("chain_verified" ∷ "fallback" ∷ [])
min_fee_confidence_lem_example = min_fee_confidence_lem "chain_verified" ("fallback" ∷ [])

min_fee_test : min_fee_confidence ("chain_verified" ∷ "fallback" ∷ []) ≡ ok "fallback_only"
unfolding min_fee_confidence min_of min_by_rank rank rank_table lookup normalize_fee_confidence norm
    contains lower strip
min_fee_test = refl
