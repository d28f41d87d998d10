-- ===== src/Runner/Balance.antt =====
-- app/jobs/runner.py: `_probe_balance_status`, with the repository's and the wallet's answers as
-- arguments. `lower` stands for `upper` in the test of a token's name.
use arbitrage_bot.Base.{
  Bool, List, Option, String, [], any, false, if◌then◌else◌, nat_eq, none, not, some, string_eq,
  true, ◌&&◌, ◌==◌, ◌||◌, ◌∷◌,
}
use arbitrage_bot.Base.Result.{Result, ok, ◌>>=◌}
use arbitrage_bot.Base.Text.{lower, strip}
use arbitrage_bot.Confidence.{normalize_balance_confidence}
use arbitrage_bot.Decimal.{Decimal, abs, add, dec, div, le, lt, max, sub}
use arbitrage_bot.Settings.{Settings}

-- the columns of `Balance` and `InventorySnapshot` that are read
pub record Balance : Type 0 where
  pub venue : String
  pub token : String
  pub available : Decimal
  pub reserved : Decimal
  pub total : Decimal

pub record Inventory : Type 0 where
  pub venue : String
  pub token : String
  pub total : Decimal

unfoldable pub within_balance_tolerance : Settings → Decimal → Decimal → Result Bool
within_balance_tolerance s lhs rhs =
    let diff = abs (sub lhs rhs) in
    if le diff s.balance_verify_tolerance_abs
    then ok true
    else div diff (max (max (abs lhs) (abs rhs)) (dec 1 0)) >>= λ q.
        ok (le q s.balance_verify_tolerance_ratio)

unfoldable pub violates : Balance → Bool
violates b =
    lt b.available (dec 0 0)
    || lt b.reserved (dec 0 0)
    || lt b.total (dec 0 0)
    || lt b.total (add b.available b.reserved)

-- the entry of `latest_inventory_totals`: of the rows of a key the first one stays
unfoldable pub latest_total : List Inventory → String → String → Option Decimal
latest_total [] venue token = none
latest_total (r ∷ rs) venue token =
    let rest = latest_total rs venue token in
    if r.venue == venue && r.token == token then some r.total else rest

-- the loop that compares: none at a drift, else the variable `compared`
unfoldable pub compare_inventory :
    Settings → List Inventory → Bool → List Balance → Result (Option Bool)
compare_inventory s rows compared [] = ok (some compared)
compare_inventory s rows compared (b ∷ bs) = elim (latest_total rows b.venue b.token) [
  | none ↦ compare_inventory s rows compared bs
  | some total ↦ within_balance_tolerance s b.total total >>= λ near. elim near [
    | true ↦ compare_inventory s rows true bs
    | false ↦ ok none
  ]
]

-- `next(…)` over the balances
unfoldable pub db_wallet : List Balance → Option Decimal
db_wallet [] = none
db_wallet (b ∷ bs) =
    let rest = db_wallet bs in
    if b.venue == "hyperevm_wallet" && lower b.token == "usdc" then some b.total else rest

-- the answer: a status, and the reason of a failure
unfoldable pub verified_as : String → Result (String × String)
verified_as status = ok (normalize_balance_confidence (some status) none, "")

-- the part about the wallet, where its balance is known
unfoldable pub wallet_status : Settings → List Balance → Decimal → Result (String × String)
wallet_status s bals w = elim (db_wallet bals) [
  | none ↦ ok ("unknown", "wallet_balance_unavailable")
  | some t ↦ within_balance_tolerance s t w >>= λ near.
      if near then verified_as "wallet_verified" else ok ("mismatch", "wallet_balance_mismatch")
]

unfoldable pub needs_wallet : Settings → String → Bool
needs_wallet s strategy =
    strategy == "hyperevm_dex_dex" && not (strip s.hyperevm_wallet_address == "")

-- what follows the comparison with the inventory
unfoldable pub after_inventory :
    Settings → String → List Balance → Option Decimal → Option Bool → Result (String × String)
after_inventory s strategy bals wallet none = ok ("mismatch", "inventory_drift")
after_inventory s strategy bals wallet (some compared) =
    if needs_wallet s strategy
    then elim wallet [
      | none ↦ ok ("unknown", "wallet_balance_unavailable")
      | some w ↦ wallet_status s bals w
    ]
    else verified_as (if compared then "db_inventory_ok" else "internal_ok")

-- a failed query of the inventory counts as no rows
unfoldable pub rows_of : Option (List Inventory) → List Inventory
rows_of none = []
rows_of (some rows) = rows

unfoldable pub probe_balance_status :
    Settings
    → String
    → Option (List Balance)
    → Option (List Inventory)
    → Option Decimal
    → Result (String × String)
probe_balance_status s strategy none inventory wallet = ok ("unknown", "balance_probe_failed")
probe_balance_status s strategy (some []) inventory wallet =
    ok ("unknown", "balance_records_missing")
probe_balance_status s strategy (some (b ∷ bs)) inventory wallet =
    if any violates (b ∷ bs)
    then ok ("mismatch", "internal_constraint_violation")
    else compare_inventory s (rows_of inventory) false (b ∷ bs)
      >>= after_inventory s strategy (b ∷ bs) wallet
