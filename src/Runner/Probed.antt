-- ===== src/Runner/Probed.antt =====
-- Which tests the balance probe has passed where it says that the wallet is verified.
use arbitrage_bot.Base.{
  contains, nat_eq, string_eq, ◌≢◌, agree, arith, if◌then◌else◌, sym, ◌∙◌, All, Bool, Bool-cases,
  List, Option, String, [], all, any, false, inl, inr, none, refl, some, true, ◌∷◌, ◌≡◌,
}
use arbitrage_bot.Base.Text.{lower, strip}
use arbitrage_bot.Confidence.{balance_body, norm, normalize_balance_confidence}
use arbitrage_bot.Runner.Balance.{
  probe_balance_status, rows_of, after_inventory, verified_as, wallet_status, compare_inventory,
  db_wallet, latest_total, needs_wallet, violates, within_balance_tolerance, Balance, Inventory,
}
use arbitrage_bot.Base.Result.{Result, Returns, ok}
use arbitrage_bot.Decimal.Compare.{lt-not-le, div_pos}
use arbitrage_bot.Decimal.Order.{le_trans}
use arbitrage_bot.Decimal.{Decimal, abs, dec, le, lt, max, scale_up, sub}
use arbitrage_bot.Settings.{Settings}
use mathlib.Core.Bool.{true≢false}

-- the balance agrees with the latest row of the inventory, if there is one
abbrev pub IsConsistent : Settings → List Inventory → Balance → Type 0
IsConsistent s rows b =
    (t : Decimal)
    → latest_total rows b.venue b.token ≡ some t
    → within_balance_tolerance s b.total t ≡ ok true

-- `wallet_verified` is backed by the balances, the inventory and the wallet
pub record Tested (s : Settings) (strategy : String) (bals : List Balance)
    (inventory : List Inventory) (wallet : Option Decimal) : Type 0 where
  pub needed : needs_wallet s strategy ≡ true
  pub sound : any violates bals ≡ false
  pub consistent : All (IsConsistent s inventory) bals
  pub held : Decimal
  pub seen : Decimal
  pub is_held : db_wallet bals ≡ some held
  pub is_seen : wallet ≡ some seen
  pub near : within_balance_tolerance s held seen ≡ ok true

one_pos : lt (dec 0 0) (dec 1 0) ≡ true
unfolding lt scale_up
one_pos = refl

one_above : le (dec 1 0) (dec 0 0) ≡ false
unfolding le scale_up
one_above = refl

above : (a : Decimal) → lt a (dec 1 0) ≡ false → le (dec 1 0) a ≡ true
above a h = let e = lt-not-le a (dec 1 0) in ground arith

-- the baseline of a ratio is positive
baseline-pos : (a : Decimal) → lt (dec 0 0) (max a (dec 1 0)) ≡ true
unfolding max
baseline-pos a = elim (Bool-cases (lt a (dec 1 0))) [
  | inl h ↦ rw h one_pos
  | inr h ↦ rw h (elim (Bool-cases (le a (dec 0 0))) [
    | inl k ↦ absurd (true≢false (sym (le_trans (dec 1 0) a (dec 0 0) (above a h) k) ∙ one_above))
    | inr k ↦ lt-not-le (dec 0 0) a ∙ rw k refl
  ])
]

pub within_total : (s : Settings) (a b : Decimal) → Returns (within_balance_tolerance s a b)
unfolding within_balance_tolerance
within_total s a b = elim (Bool-cases (le (abs (sub a b)) s.balance_verify_tolerance_abs)) [
  | inl h ↦ (true, rw h refl)
  | inr h ↦
      let (q, e) = div_pos (abs (sub a b)) _ (baseline-pos (max (abs a) (abs b))) in
      (le q s.balance_verify_tolerance_ratio, rw (h, e) refl)
]

-- the comparison returns, and where it finds no drift every balance is consistent
abbrev Compares : Settings → List Inventory → Bool → List Balance → Type 0
Compares s rows c bals =
    (o : Option Bool) × (compare_inventory s rows c bals ≡ ok o)
    × ((x : Bool) → o ≡ some x → All (IsConsistent s rows) bals)

module _ (s : Settings) (rows : List Inventory) (c : Bool) (b : Balance) (bs : List Balance)
    (ih : (c' : Bool) → Compares s rows c' bs) where
  compare_near :
      (t : Decimal) (n : Bool)
      → latest_total rows b.venue b.token ≡ some t
      → within_balance_tolerance s b.total t ≡ ok n
      → Compares s rows c (b ∷ bs)
  unfolding compare_inventory
  compare_near t true e h =
      let (o, k, all) = ih true in
      (
        o,
        rw (e, h, compare_inventory) k,
        λ x p. ((λ u q. let same : u ≡ t = cc in rw same h), all x p),
      )
  compare_near t false e h = (none, rw (e, h, compare_inventory) refl, λ x p. cc)

  compare_found :
      (found : Option Decimal)
      → latest_total rows b.venue b.token ≡ found
      → Compares s rows c (b ∷ bs)
  unfolding compare_inventory
  compare_found none e =
      let (o, k, all) = ih c in (o, rw (e, compare_inventory) k, λ x p. ((λ u q. cc), all x p))
  compare_found (some t) e = let (n, h) = within_total s b.total t in compare_near t n e h

compare_lem :
    (s : Settings) (rows : List Inventory) (c : Bool) (bals : List Balance) → Compares s rows c bals
unfolding compare_inventory
compare_lem s rows c [] = (some c, refl, λ x h. tt)
compare_lem s rows c (b ∷ bs) =
    compare_found s rows c b bs (λ k. compare_lem s rows k bs) (latest_total rows b.venue b.token)
      refl

-- without a wallet the status is another one
plain_status :
    (c : Bool)
    → normalize_balance_confidence (some (if c then "db_inventory_ok" else "internal_ok")) none
      ≢ "wallet_verified"
unfolding normalize_balance_confidence balance_body contains norm lower strip
plain_status true v = true≢false (sym (agree _ _ v))
plain_status false v = true≢false (sym (agree _ _ v))

-- an answer that is backed where it says so
abbrev Backs :
    Settings
    → String
    → List Balance
    → List Inventory
    → Option Decimal
    → Result (String × String)
    → Type 0
Backs s strategy bals inventory wallet result =
    (answer : String × String) × (result ≡ ok answer)
    × (answer.0 ≡ "wallet_verified" → Tested s strategy bals inventory wallet)

module _ (s : Settings) (strategy : String) (bals : List Balance) (inventory : List Inventory)
    (sound : any violates bals ≡ false) (all : All (IsConsistent s inventory) bals) where
  near_backed :
      (w t : Decimal) (n : Bool)
      → needs_wallet s strategy ≡ true
      → db_wallet bals ≡ some t
      → within_balance_tolerance s t w ≡ ok n
      → Backs s strategy bals inventory (some w) (wallet_status s bals w)
  unfolding wallet_status verified_as
  near_backed w t true needed held h = (
    (normalize_balance_confidence (some "wallet_verified") none, ""),
    rw (held, h, wallet_status) refl,
    λ v. record {
      needed = needed;
      sound = sound;
      consistent = all;
      held = t;
      seen = w;
      is_held = held;
      is_seen = refl;
      near = h;
    },
  )
  near_backed w t false needed held h = (
    ("mismatch", "wallet_balance_mismatch"),
    rw (held, h, wallet_status) refl,
    λ v. absurd (true≢false (sym (agree _ _ v))),
  )

  wallet_backed :
      (w : Decimal) (found : Option Decimal)
      → needs_wallet s strategy ≡ true
      → db_wallet bals ≡ found
      → Backs s strategy bals inventory (some w) (wallet_status s bals w)
  unfolding wallet_status
  wallet_backed w none needed held = (
    ("unknown", "wallet_balance_unavailable"),
    rw (held, wallet_status) refl,
    λ v. absurd (true≢false (sym (agree _ _ v))),
  )
  wallet_backed w (some t) needed held =
      let (n, h) = within_total s t w in near_backed w t n needed held h

  wallet_given :
      (wallet : Option Decimal)
      → needs_wallet s strategy ≡ true
      → Backs s strategy bals inventory wallet (elim wallet [
        | none ↦ ok ("unknown", "wallet_balance_unavailable")
        | some w ↦ wallet_status s bals w
      ])
  wallet_given none h = (
    ("unknown", "wallet_balance_unavailable"),
    refl,
    λ v. absurd (true≢false (sym (agree _ _ v))),
  )
  wallet_given (some w) h = wallet_backed w (db_wallet bals) h refl

  after_backed :
      (wallet : Option Decimal) (c : Bool)
      → Backs s strategy bals inventory wallet (after_inventory s strategy bals wallet (some c))
  unfolding after_inventory verified_as
  after_backed wallet c = elim (Bool-cases (needs_wallet s strategy)) [
    | inl h ↦ rw h (wallet_given wallet h)
    | inr h ↦ rw h (_, refl, λ v. absurd (plain_status c v))
  ]

after_compared :
    (s : Settings) (strategy : String) (bals : List Balance) (inventory : List Inventory)
    (wallet : Option Decimal) (o : Option Bool)
    → any violates bals ≡ false
    → ((x : Bool) → o ≡ some x → All (IsConsistent s inventory) bals)
    → Backs s strategy bals inventory wallet (after_inventory s strategy bals wallet o)
unfolding after_inventory
after_compared s strategy bals inventory wallet none sound all =
    (("mismatch", "inventory_drift"), refl, λ v. absurd (true≢false (sym (agree _ _ v))))
after_compared s strategy bals inventory wallet (some c) sound all =
    after_backed s strategy bals inventory sound (all c refl) wallet c

-- The probe always answers, and each of its tests has passed where it says that the wallet is verified.
pub probe_balance-Tested :
    (s : Settings) (strategy : String) (balances : Option (List Balance))
    (inventory : Option (List Inventory)) (wallet : Option Decimal)
    → (answer : String × String) × (probe_balance_status s strategy balances inventory wallet
        ≡ ok answer)
      × (answer.0 ≡ "wallet_verified"
          → (bals : List Balance) × (balances ≡ some bals)
            × Tested s strategy bals (rows_of inventory) wallet)
unfolding probe_balance_status
probe_balance-Tested s strategy none inventory wallet =
    (("unknown", "balance_probe_failed"), refl, λ v. absurd (true≢false (sym (agree _ _ v))))
probe_balance-Tested s strategy (some []) inventory wallet =
    (("unknown", "balance_records_missing"), refl, λ v. absurd (true≢false (sym (agree _ _ v))))
probe_balance-Tested s strategy (some (b ∷ bs)) inventory wallet =
    elim (Bool-cases (any violates (b ∷ bs))) [
      | inl h ↦ (
        ("mismatch", "internal_constraint_violation"),
        rw h refl,
        λ v. absurd (true≢false (sym (agree _ _ v))),
      )
      | inr h ↦
          let (o, k, all) = compare_lem s (rows_of inventory) false (b ∷ bs) in
          let (answer, e, back) =
            after_compared s strategy (b ∷ bs) (rows_of inventory) wallet o h all in
          (answer, rw (h, k) e, λ v. (b ∷ bs, refl, back v))
    ]
