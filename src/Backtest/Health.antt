-- ===== src/Backtest/Health.antt =====
-- Which health row a row of the snapshot replay sees: the latest one that is not newer.
use arbitrage_bot.Backtest.Pointer.{
  All-later, IsSorted, advance-last, last_or, sort_health-IsSorted, until, until-none, walk,
  walk-advance,
}
use arbitrage_bot.Base.{
  sym, ◌<◌, ◌⊎◌, leb→le, All, Bool-cases, List, Option, [], ap, arith, inl, inr, leb, none, refl,
  some, suc, ℕ, ◌∙◌, ◌∷◌, ◌≡◌, ◌≤◌,
}
use mathlib.Core.Path.{subst}
use arbitrage_bot.Backtest.Snapshots.{RouteHealth, advance, insert_health, sort_health}

-- a row is one of the list
abbrev pub Among : RouteHealth → List RouteHealth → Type 0
Among h [] = ⊥
Among h (g ∷ gs) = (g ≡ h) ⊎ Among h gs

-- The row is one of the list and not newer than `now`, and no other such row is newer; no row is right
-- where all are newer than `now`.
abbrev pub IsLatest : ℕ → List RouteHealth → Option RouteHealth → Type 0
IsLatest now rows none = All (λ g. now < g.timestamp) rows
IsLatest now rows (some h) =
    Among h rows
    × (h.timestamp ≤ now)
    × All (λ g. g.timestamp ≤ now → g.timestamp ≤ h.timestamp) rows

-- the insertion and the sort lose no row and invent none
insert-All :
    (P : RouteHealth → Type 0) (h : RouteHealth) (hs : List RouteHealth)
    → All P (insert_health h hs)
    → P h × All P hs
unfolding insert_health
insert-All P h [] (p, ps) = (p, tt)
insert-All P h (g ∷ gs) a = elim (Bool-cases (leb h.timestamp g.timestamp)) [
  | inl b ↦ rw b at a
  | inr b ↦ let (p, ps) = (rw b at a) in let (q, qs) = insert-All P h gs ps in (q, (p, qs))
]

sort-All : (P : RouteHealth → Type 0) (hs : List RouteHealth) → All P (sort_health hs) → All P hs
unfolding sort_health
sort-All P [] a = tt
sort-All P (h ∷ hs) a = let (p, ps) = insert-All P h (sort_health hs) a in (p, sort-All P hs ps)

insert-Among :
    (k h : RouteHealth) (hs : List RouteHealth)
    → Among k (insert_health h hs)
    → (h ≡ k) ⊎ Among k hs
unfolding insert_health
insert-Among k h [] a = a
insert-Among k h (g ∷ gs) a = elim (Bool-cases (leb h.timestamp g.timestamp)) [
  | inl b ↦ rw b at a
  | inr b ↦ elim (rw b at a) [
    | inl e ↦ inr (inl e)
    | inr i ↦ elim (insert-Among k h gs i) [ inl e ↦ inl e | inr j ↦ inr (inr j) ]
  ]
]

sort-Among : (k : RouteHealth) (hs : List RouteHealth) → Among k (sort_health hs) → Among k hs
unfolding sort_health
sort-Among k [] a = a
sort-Among k (h ∷ hs) a = elim (insert-Among k h (sort_health hs) a) [
  | inl e ↦ inl e
  | inr i ↦ inr (sort-Among k hs i)
]

sort-IsLatest :
    (now : ℕ) (rows : List RouteHealth) (o : Option RouteHealth)
    → IsLatest now (sort_health rows) o
    → IsLatest now rows o
sort-IsLatest now rows none a = sort-All (λ g. now < g.timestamp) rows a
sort-IsLatest now rows (some h) (i, early, a) = (
  sort-Among h rows i,
  early,
  sort-All (λ g. g.timestamp ≤ now → g.timestamp ≤ h.timestamp) rows a,
)

-- a later row replaces an earlier one
last_or-some :
    (h : RouteHealth) (hs : List RouteHealth)
    → last_or (some h) hs ≡ elim (last_or none hs) [ none ↦ some h | some g ↦ some g ]
unfolding last_or
last_or-some h [] = refl
last_or-some h (g ∷ gs) = rw (last_or-some g gs) (kept (last_or none gs))
  where
    kept :
        (o : Option RouteHealth)
        → let later : Option RouteHealth = elim o [ none ↦ some g | some k ↦ some k ] in
          later ≡ elim later [ none ↦ some h | some k ↦ some k ]
    kept none = refl
    kept (some k) = refl

All-Among :
    (P : RouteHealth → Type 0) (k : RouteHealth) (hs : List RouteHealth)
    → All P hs
    → Among k hs
    → P k
All-Among P k [] a i = absurd i
All-Among P k (h ∷ hs) (p, ps) (inl e) = subst P e p
All-Among P k (h ∷ hs) (p, ps) (inr i) = All-Among P k hs ps i

All-newer :
    (now limit : ℕ) (hs : List RouteHealth)
    → All (λ g. now < g.timestamp) hs
    → All (λ g. g.timestamp ≤ now → g.timestamp ≤ limit) hs
All-newer now limit [] a = tt
All-newer now limit (h ∷ hs) (p, ps) = ((λ q. omega arith), All-newer now limit hs ps)

last-IsLatest :
    (now : ℕ) (hs : List RouteHealth) → IsSorted hs → IsLatest now hs (last_or none (until now hs))
unfolding until last_or
last-IsLatest now [] s = tt
last-IsLatest now (h ∷ hs) (every, s) = elim (Bool-cases (leb h.timestamp now)) [
  | inl b ↦
      rw (b, last_or-some h (until now hs))
        (seen (leb→le _ _ b) (last_or none (until now hs)) (last-IsLatest now hs s))
  | inr b ↦
      let newer = All-later (suc now) h.timestamp hs (ground arith) every in
      rw (b, until-none now hs newer) (ground arith, newer)
]
  where
    seen :
        h.timestamp ≤ now
        → (o : Option RouteHealth) → IsLatest now hs o
        → IsLatest now (h ∷ hs) (elim o [ none ↦ some h | some g ↦ some g ])
    seen old none a = (inl refl, old, ((λ q. omega arith), All-newer now h.timestamp hs a))
    seen old (some g) (i, early, a) =
        (inr i, early, ((λ q. All-Among (λ x. h.timestamp ≤ x.timestamp) g hs every i), a))

-- A snapshot row sees the latest health row that is not newer than itself: a row of the list that no
-- other such row is newer than, or none where all are newer, whatever order the health rows come in, and
-- whatever rows at earlier or equal times the loop has gone through before.
pub walk-IsLatest :
    (instants : List ℕ) (now : ℕ) (health_rows : List RouteHealth)
    → All (λ t. t ≤ now) instants
    → IsLatest now health_rows (advance now (walk instants (none, sort_health health_rows))).0
walk-IsLatest instants now health_rows every =
    let sorted = sort_health health_rows in
    subst (IsLatest now health_rows)
      (sym (
        ap (λ c. c.0) (walk-advance instants now (none, sorted) every)
        ∙ advance-last now none sorted (sort_health-IsSorted health_rows)))
      (sort-IsLatest now health_rows (last_or none (until now sorted))
        (last-IsLatest now sorted (sort_health-IsSorted health_rows)))
