-- ===== src/Backtest/Pointer.antt =====
-- The pointer walk over the health rows of `_evaluate_market_snapshot_rows`.
use arbitrage_bot.Base.{
  leb→le, le→leb, All, Bool-cases, List, Option, [], arith, if◌then◌else◌, inl, inr, leb, refl,
  some, suc, ℕ, ◌∙◌, ◌∷◌, ◌≡◌, ◌≤◌,
}
use arbitrage_bot.Backtest.Snapshots.{Cursor, RouteHealth, advance, insert_health, sort_health}

-- in order of time
abbrev pub IsSorted : List RouteHealth → Type 0
IsSorted [] = Unit
IsSorted (h ∷ hs) = All (λ g. h.timestamp ≤ g.timestamp) hs × IsSorted hs

pub All-later :
    (a b : ℕ) (hs : List RouteHealth)
    → a ≤ b
    → All (λ g. b ≤ g.timestamp) hs
    → All (λ g. a ≤ g.timestamp) hs
All-later a b [] ord every = tt
All-later a b (h ∷ hs) ord (p, ps) = (omega arith, All-later a b hs ord ps)

All-insert :
    (t : ℕ) (h : RouteHealth) (hs : List RouteHealth)
    → t ≤ h.timestamp
    → All (λ g. t ≤ g.timestamp) hs
    → All (λ g. t ≤ g.timestamp) (insert_health h hs)
unfolding insert_health
All-insert t h [] ord every = (ord, tt)
All-insert t h (g ∷ gs) ord (p, ps) = elim (Bool-cases (leb h.timestamp g.timestamp)) [
  | inl b ↦ rw b (ord, (p, ps))
  | inr b ↦ rw b (p, All-insert t h gs ord ps)
]

insert_health-IsSorted :
    (h : RouteHealth) (hs : List RouteHealth) → IsSorted hs → IsSorted (insert_health h hs)
unfolding insert_health
insert_health-IsSorted h [] s = (tt, tt)
insert_health-IsSorted h (g ∷ gs) (every, s) = elim (Bool-cases (leb h.timestamp g.timestamp)) [
  | inl b ↦
      rw b ((leb→le _ _ b, All-later h.timestamp g.timestamp gs (leb→le _ _ b) every), (every, s))
  | inr b ↦ rw b (All-insert g.timestamp h gs (ground arith) every, insert_health-IsSorted h gs s)
]

pub sort_health-IsSorted : (hs : List RouteHealth) → IsSorted (sort_health hs)
unfolding sort_health
sort_health-IsSorted [] = tt
sort_health-IsSorted (h ∷ hs) = insert_health-IsSorted h (sort_health hs) (sort_health-IsSorted hs)

-- the rows up to an instant
unfoldable pub until : ℕ → List RouteHealth → List RouteHealth
until now [] = []
until now (h ∷ hs) = let rest = until now hs in if leb h.timestamp now then h ∷ rest else rest

-- the last element, and the given one where there is none
unfoldable pub last_or : Option RouteHealth → List RouteHealth → Option RouteHealth
last_or current [] = current
last_or current (h ∷ hs) = last_or (some h) hs

pub until-none :
    (now : ℕ) (hs : List RouteHealth) → All (λ g. suc now ≤ g.timestamp) hs → until now hs ≡ []
unfolding until
until-none now [] every = refl
until-none now (h ∷ hs) (p, ps) = ground (arith, until-none now hs ps)

pub advance-last :
    (now : ℕ) (current : Option RouteHealth) (hs : List RouteHealth)
    → IsSorted hs
    → (advance now (current, hs)).0 ≡ last_or current (until now hs)
unfolding advance last_or until
advance-last now current [] s = refl
advance-last now current (h ∷ hs) (every, s) = elim (Bool-cases (leb h.timestamp now)) [
  | inl b ↦ rw b (advance-last now (some h) hs s)
  | inr b ↦ rw (b, until-none now hs (All-later (suc now) h.timestamp hs (ground arith) every)) refl
]

-- A later instant may be reached by way of an earlier one.
advance-advance :
    (early late : ℕ) (current : Option RouteHealth) (hs : List RouteHealth)
    → early ≤ late
    → advance late (advance early (current, hs)) ≡ advance late (current, hs)
unfolding advance
advance-advance early late current [] ord = refl
advance-advance early late current (h ∷ hs) ord = elim (Bool-cases (leb h.timestamp early)) [
  | inl b ↦
      rw b
        (rw (le→leb h.timestamp late (ground arith)) (advance-advance early late (some h) hs ord))
  | inr b ↦ rw b refl
]

-- the cursor after the rows at these instants
unfoldable pub walk : List ℕ → Cursor → Cursor
walk [] cursor = cursor
walk (now ∷ later) cursor = walk later (advance now cursor)

-- each instant is at most `now`
pub walk-advance :
    (instants : List ℕ) (now : ℕ) (cursor : Cursor)
    → All (λ t. t ≤ now) instants
    → advance now (walk instants cursor) ≡ advance now cursor
unfolding walk
walk-advance [] now cursor every = refl
walk-advance (t ∷ ts) now (current, hs) (p, ps) =
    walk-advance ts now (advance t (current, hs)) ps ∙ advance-advance t now current hs p
