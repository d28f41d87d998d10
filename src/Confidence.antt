-- ===== src/Confidence.antt =====
-- app/utils/confidence.py: the ordered status vocabularies, the normalisation of raw and legacy
-- values into them, and the comparisons `*_at_least` by rank.
pub mod Canonical
pub mod Rank
pub mod Vocabulary
pub mod Minimum
use arbitrage_bot.Base.{
  nat_eq, ℕ, suc, ◌≡◌, refl, Bool, true, ◌||◌, ◌==◌, string_eq, if◌then◌else◌, leb, ltb, String,
  Option, none, some, List, [], ◌∷◌, map, contains,
}
use arbitrage_bot.Base.Text.{strip, lower}
use arbitrage_bot.Base.Dict.{Dict, lookup}
use arbitrage_bot.Base.Result.{Result, ok, err, key_error, or_raise, ◌>>=◌}

abbrev pub support_status_order : List String
support_status_order = "unknown" ∷ "unsupported" ∷ "supported" ∷ []

abbrev pub fee_confidence_order : List String
fee_confidence_order =
    "unknown" ∷ "fallback_only" ∷ "config_only" ∷ "venue_declared" ∷ "acct_verified"
    ∷ "chain_verified" ∷ []

abbrev pub balance_confidence_order : List String
balance_confidence_order =
    "unknown" ∷ "mismatch" ∷ "internal_ok" ∷ "db_inventory_ok" ∷ "wallet_verified"
    ∷ "venue_verified" ∷ []

abbrev pub quote_match_order : List String
quote_match_order = "unknown" ∷ "mismatch" ∷ "matched" ∷ []

-- `{name: idx for idx, name in enumerate(order)}`, from the index `i` on
unfoldable pub rank_table : ℕ → List String → Dict ℕ
rank_table i [] = []
rank_table i (name ∷ names) = (name, i) ∷ rank_table (suc i) names

-- `RANK[name]`
unfoldable pub rank : List String → String → Result ℕ
unfolding rank_table lookup
rank order name = or_raise (lookup name (rank_table 0 order)) key_error

-- `_norm`
unfoldable pub norm : Option String → String
norm none = ""
norm (some raw) = lower (strip raw)

unfoldable pub normalize_support_status : Option String → String
normalize_support_status raw =
    let value = norm raw in
    if contains value support_status_order
    then value
    else if contains value ("good" ∷ "ok" ∷ "true" ∷ "1" ∷ "yes" ∷ [])
    then "supported"
    else if contains value ("bad" ∷ "false" ∷ "0" ∷ "no" ∷ [])
    then "unsupported"
    else "unknown"

-- what a legacy positive flag is worth, by its provenance hint
unfoldable pub legacy_fee : String → String
legacy_fee hint =
    if contains hint ("chain_verified" ∷ "chain_pool_fee" ∷ [])
    then "chain_verified"
    else if contains hint ("acct_verified" ∷ "account_verified" ∷ [])
    then "acct_verified"
    else if contains hint
        ("venue_declared" ∷ "venue_default" ∷ "venue_specific" ∷ "symbol_override" ∷ [])
    then "venue_declared"
    else if contains hint ("fallback" ∷ "fallback_only" ∷ [])
    then "fallback_only"
    else "config_only"

unfoldable pub normalize_fee_confidence : Option String → Option String → String
normalize_fee_confidence raw provenance_hint =
    let value = norm raw in
    let hint = norm provenance_hint in
    if contains value fee_confidence_order
    then value
    else if contains value ("fallback" ∷ "fallback_fee" ∷ "fallback_only" ∷ [])
        || contains hint ("fallback" ∷ "fallback_only" ∷ [])
    then "fallback_only"
    else if contains value
        ("config" ∷ "configured" ∷ "config_only" ∷ "configured_economic_fee" ∷ [])
    then "config_only"
    else if contains value
        ("venue_declared" ∷ "venue_default" ∷ "venue_specific" ∷ "symbol_override" ∷ [])
    then "venue_declared"
    else if contains value ("acct_verified" ∷ "account_verified" ∷ [])
    then "acct_verified"
    else if contains value ("chain_verified" ∷ "chain_pool_fee" ∷ [])
    then "chain_verified"
    else if contains value ("true" ∷ "1" ∷ "yes" ∷ "good" ∷ [])
    then legacy_fee hint
    else if contains value ("false" ∷ "0" ∷ "no" ∷ "bad" ∷ [])
    then "unknown"
    else "unknown"

-- A legacy positive flag with a hint normalises the hint by itself; `hinted` is that call's result.
unfoldable pub legacy_balance : String → String → String → String
legacy_balance value hint hinted =
    if contains value ("true" ∷ "1" ∷ "yes" ∷ "good" ∷ [])
    then (if contains hint
          ("wallet_verified" ∷ "venue_verified" ∷ "db_inventory_ok" ∷ "internal_ok" ∷ [])
        then hinted
        else "internal_ok")
    else if contains value ("false" ∷ "0" ∷ "no" ∷ "bad" ∷ [])
    then (if contains hint ("inventory_drift" ∷ "wallet_balance_mismatch" ∷ "mismatch" ∷ [])
        then "mismatch"
        else "unknown")
    else "unknown"

-- The body, over the result of the recursive call `normalize_balance_confidence(hint)`.
unfoldable pub balance_body : Option String → Option String → String → String
balance_body raw evidence_hint hinted =
    let value = norm raw in
    let hint = norm evidence_hint in
    if contains value balance_confidence_order
    then value
    else if contains value ("wallet_verified" ∷ "wallet" ∷ [])
        || contains hint ("wallet_verified" ∷ "wallet" ∷ [])
    then "wallet_verified"
    else if contains value ("venue_verified" ∷ "venue" ∷ [])
        || contains hint ("venue_verified" ∷ "venue" ∷ [])
    then "venue_verified"
    else if contains value ("db_inventory_ok" ∷ "db_inventory" ∷ "inventory" ∷ [])
        || contains hint ("db_inventory_ok" ∷ "db_inventory" ∷ "inventory" ∷ [])
    then "db_inventory_ok"
    else if contains value ("internal_ok" ∷ "internal" ∷ [])
        || contains hint ("internal_ok" ∷ "internal" ∷ [])
    then "internal_ok"
    else if contains value ("mismatch" ∷ "inventory_drift" ∷ "wallet_balance_mismatch" ∷ [])
    then "mismatch"
    else legacy_balance value hint hinted

-- The recursive call has a canonical text and no hint, so it makes no further call that is read.
unfoldable pub normalize_balance_confidence : Option String → Option String → String
normalize_balance_confidence raw evidence_hint =
    balance_body raw evidence_hint (balance_body (some (norm evidence_hint)) none "unknown")

unfoldable pub normalize_quote_match_status : Option String → String
normalize_quote_match_status raw =
    let value = norm raw in
    if contains value quote_match_order
    then value
    else if contains value ("true" ∷ "1" ∷ "yes" ∷ "good" ∷ [])
    then "matched"
    else if contains value ("false" ∷ "0" ∷ "no" ∷ "bad" ∷ [])
    then "mismatch"
    else "unknown"

-- `RANK[actual] >= RANK[required]` on two normalised names
unfoldable pub at_least : List String → String → String → Result Bool
at_least order actual required = do a ← rank order actual; r ← rank order required; ok (leb r a)

unfoldable pub support_status_at_least : String → String → Result Bool
support_status_at_least actual required =
    at_least support_status_order (normalize_support_status (some actual))
      (normalize_support_status (some required))

unfoldable pub fee_confidence_at_least : String → String → Result Bool
fee_confidence_at_least actual required =
    at_least fee_confidence_order (normalize_fee_confidence (some actual) none)
      (normalize_fee_confidence (some required) none)

unfoldable pub balance_confidence_at_least : String → String → Result Bool
balance_confidence_at_least actual required =
    at_least balance_confidence_order (normalize_balance_confidence (some actual) none)
      (normalize_balance_confidence (some required) none)

unfoldable pub quote_match_status_at_least : String → String → Result Bool
quote_match_status_at_least actual required =
    at_least quote_match_order (normalize_quote_match_status (some actual))
      (normalize_quote_match_status (some required))

-- `min(names, key=rank)` over `best ∷ names`: the first name of least rank
unfoldable pub min_by_rank : List String → String → List String → Result String
min_by_rank order best [] = ok best
min_by_rank order best (name ∷ names) = do
  b ← rank order best
  n ← rank order name
  min_by_rank order (if ltb n b then name else best) names

unfoldable pub min_of : List String → List String → Result String
min_of order [] = ok "unknown"
min_of order (name ∷ names) = min_by_rank order name names

unfoldable pub min_fee_confidence : List String → Result String
min_fee_confidence statuses =
    min_of fee_confidence_order (map (λ s. normalize_fee_confidence (some s) none) statuses)

unfoldable pub min_balance_confidence : List String → Result String
min_balance_confidence statuses =
    min_of balance_confidence_order (map (λ s. normalize_balance_confidence (some s) none) statuses)
