-- ===== src/Runner/Backing.antt =====
-- What a verified wallet balance rests on: the balances, the inventory and the wallet on the chain.
use mathlib.Core.Bool.{true≢false}
use arbitrage_bot.Base.{
  Bool-cases, [], agree, and_intro, and_left, and_right, any, ap, arith, eq_iff, false, inl, inr,
  nat_eq, not-true, refl, string_eq, sym, true, ◌&&◌, ◌==◌, ◌∙◌, ◌∷◌, ◌≢◌, ◌⊎◌, All, List, Option,
  String, some, ◌≡◌,
}
use arbitrage_bot.Base.Result.{bind-ok, ok, ok-cancel}
use arbitrage_bot.Base.Text.{lower, strip}
use arbitrage_bot.Decimal.{Decimal, abs, add, dec, div, le, max, sub}
use arbitrage_bot.Decimal.Compare.{lt-not-le}
use arbitrage_bot.Runner.Balance.{
  Balance, Inventory, db_wallet, latest_total, needs_wallet, probe_balance_status, rows_of,
  violates, within_balance_tolerance,
}
use arbitrage_bot.Runner.Probed.{IsConsistent, Tested, probe_balance-Tested}
use arbitrage_bot.Settings.{Settings}
use mathlib.Core.Path.{subst}

-- the first element of which something holds
abbrev pub First : {A : Type 0} → (A → Type 0) → List A → A → Type 0
First P [] a = ⊥
First P (x ∷ xs) a = (P x × (x ≡ a)) ⊎ ((¬ P x) × First P xs a)

-- no part of a balance is negative, and what is available and what is reserved fit the total
pub record IsSound (b : Balance) : Type 0 where
  pub available : le (dec 0 0) b.available ≡ true
  pub reserved : le (dec 0 0) b.reserved ≡ true
  pub total : le (dec 0 0) b.total ≡ true
  pub parts : le (add b.available b.reserved) b.total ≡ true

-- The difference of two amounts is at most the absolute tolerance, or its share of the larger amount,
-- or of 1 where both are smaller, is at most the tolerated ratio.
abbrev pub IsNear : Settings → Decimal → Decimal → Type 0
IsNear s x y =
    (le (abs (sub x y)) s.balance_verify_tolerance_abs ≡ true)
    ⊎ ((q : Decimal) × (div (abs (sub x y)) (max (max (abs x) (abs y)) (dec 1 0)) ≡ ok q)
        × (le q s.balance_verify_tolerance_ratio ≡ true))

-- the rows of a balance in the inventory, and the balances of the wallet
abbrev pub SameKey : Balance → Inventory → Type 0
SameKey b r = (r.venue ≡ b.venue) × (r.token ≡ b.token)

abbrev pub InWallet : Balance → Type 0
InWallet b = (b.venue ≡ "hyperevm_wallet") × (lower b.token ≡ "usdc")

-- what the balances, the rows of the inventory from the latest on, and the chain say
pub record IsBacked (s : Settings) (strategy : String) (bals : List Balance)
    (inventory : List Inventory) (wallet : Option Decimal) : Type 0 where
  pub on_chain : strategy ≡ "hyperevm_dex_dex"
  pub configured : strip s.hyperevm_wallet_address ≢ ""
  pub sound : All IsSound bals
  pub consistent :
      All (λ b. (r : Inventory) → First (SameKey b) inventory r → IsNear s b.total r.total) bals
  pub held : Balance
  pub is_held : First InWallet bals held
  pub seen : Decimal
  pub is_seen : wallet ≡ some seen
  pub near : IsNear s held.total seen

violates-IsSound : (b : Balance) → violates b ≡ false → IsSound b
unfolding violates
violates-IsSound b h =
    let available = lt-not-le b.available (dec 0 0) in
    let reserved = lt-not-le b.reserved (dec 0 0) in
    let total = lt-not-le b.total (dec 0 0) in
    let parts = lt-not-le b.total (add b.available b.reserved) in
    record {
      available = ground arith;
      reserved = ground arith;
      total = ground arith;
      parts = ground arith;
    }

any-IsSound : (bals : List Balance) → any violates bals ≡ false → All IsSound bals
any-IsSound [] h = tt
any-IsSound (b ∷ bs) h = (violates-IsSound b (ground arith), any-IsSound bs (ground arith))

within-IsNear :
    (s : Settings) (x y : Decimal) → within_balance_tolerance s x y ≡ ok true → IsNear s x y
unfolding within_balance_tolerance
within-IsNear s x y h = elim (Bool-cases (le (abs (sub x y)) s.balance_verify_tolerance_abs)) [
  | inl b ↦ inl b
  | inr b ↦
      let (q, e, k) =
        bind-ok (div (abs (sub x y)) (max (max (abs x) (abs y)) (dec 1 0))) _ (rw b at h) in
      inr (q, e, ok-cancel k)
]

-- the loop over the inventory keeps the first row of a key
latest_total-First :
    (b : Balance) (rows : List Inventory) (r : Inventory)
    → First (SameKey b) rows r
    → latest_total rows b.venue b.token ≡ some r.total
unfolding latest_total
latest_total-First b [] r h = absurd h
latest_total-First b (x ∷ rows) r (inl ((v, t), e)) =
    rw (agree x.venue b.venue v, agree x.token b.token t) (ap (λ y. some y.total) e)
latest_total-First b (x ∷ rows) r (inr (n, h)) =
    elim (Bool-cases (x.venue == b.venue && x.token == b.token)) [
      | inl k ↦ absurd (
          n (
            (eq_iff x.venue b.venue).0 (and_left _ _ k),
            (eq_iff x.token b.token).0 (and_right _ _ k),
          ))
      | inr k ↦ rw k (latest_total-First b rows r h)
    ]

db_wallet-First :
    (bals : List Balance) {t : Decimal}
    → db_wallet bals ≡ some t
    → (b : Balance) × First InWallet bals b × (b.total ≡ t)
unfolding db_wallet
db_wallet-First [] h = cc
db_wallet-First (b ∷ bs) h =
    elim (Bool-cases (b.venue == "hyperevm_wallet" && lower b.token == "usdc")) [
      | inl k ↦ (
        b,
        inl (
          (
            (eq_iff b.venue "hyperevm_wallet").0 (and_left _ _ k),
            (eq_iff (lower b.token) "usdc").0 (and_right _ _ k),
          ),
          refl,
        ),
        (let found = rw k at h in cc),
      )
      | inr k ↦
          let (held, first, same) = db_wallet-First bs (rw k at h) in
          (
            held,
            inr (
              (λ (v, t).
                  true≢false
                    (sym (and_intro _ _ (agree b.venue _ v) (agree (lower b.token) _ t)) ∙ k)),
              first,
            ),
            same,
          )
    ]

-- what has passed the tests is backed
Tested-IsBacked :
    (s : Settings) (strategy : String) (bals : List Balance) (inventory : List Inventory)
    (wallet : Option Decimal)
    → Tested s strategy bals inventory wallet
    → IsBacked s strategy bals inventory wallet
unfolding needs_wallet
Tested-IsBacked s strategy bals inventory wallet t =
    let (held, first, same) = db_wallet-First bals t.is_held in
    record {
      on_chain = (eq_iff strategy "hyperevm_dex_dex").0 (and_left _ _ t.needed);
      configured = λ e. true≢false (
          sym (agree (strip s.hyperevm_wallet_address) "" e) ∙ not-true _ (and_right _ _ t.needed));
      sound = any-IsSound bals t.sound;
      consistent = every bals t.consistent;
      held = held;
      is_held = first;
      seen = t.seen;
      is_seen = t.is_seen;
      near = subst (λ x. IsNear s x t.seen) (sym same) (within-IsNear s t.held t.seen t.near);
    }
  where
    every :
        (bs : List Balance)
        → All (IsConsistent s inventory) bs
        → All (λ b. (r : Inventory) → First (SameKey b) inventory r → IsNear s b.total r.total) bs
    every [] h = tt
    every (b ∷ bs) (h, hs) = (
      λ r first.
          within-IsNear s b.total r.total (h r.total (latest_total-First b inventory r first)),
      every bs hs,
    )

-- The balance probe always answers, and it says that the wallet is verified only for a route on the
-- chain with a wallet address and on evidence: no part of a balance is negative, available and reserved
-- fit the total, each balance is near the first row of the inventory with its venue and token, if there
-- is one, and the first balance of the wallet in USDC is near the one seen on the chain. Near means that
-- the difference is within the absolute tolerance, or its share of the larger amount, at least 1, within
-- the tolerated ratio.
pub probe_balance-IsBacked :
    (s : Settings) (strategy : String) (balances : Option (List Balance))
    (inventory : Option (List Inventory)) (wallet : Option Decimal)
    → (answer : String × String) × (probe_balance_status s strategy balances inventory wallet
        ≡ ok answer)
      × (answer.0 ≡ "wallet_verified"
          → (bals : List Balance) × (balances ≡ some bals)
            × IsBacked s strategy bals (rows_of inventory) wallet)
probe_balance-IsBacked s strategy balances inventory wallet =
    let (answer, e, tested) = probe_balance-Tested s strategy balances inventory wallet in
    (
      answer,
      e,
      λ v.
          let (bals, same, t) = tested v in
          (bals, same, Tested-IsBacked s strategy bals (rows_of inventory) wallet t),
    )
