-- ===== src/Risk/Window.antt =====
-- The executions of the last ten minutes: `trim` over a list in order of time, and the rate limit.
use arbitrage_bot.Base.{
  false, filter, filter-All, filter-append_one, le→leb, true, All, Bool-cases, List, String, [],
  arith, inl, inr, leb, ltb, refl, ℕ, ◌++◌, ◌-◌, ◌∙◌, ◌∷◌, ◌≡◌, ◌≤◌,
}
use arbitrage_bot.Risk.Stats.{stats-mark_success}
use text.Mathlib.TextPositions.{eq_refl}
use arbitrage_bot.Decimal.{Decimal}
use arbitrage_bot.Risk.{Manager, mark_success, stats_of, ten_minutes, trim}

-- in order of time, with no entry after `now`
abbrev pub IsOrdered : ℕ → List ℕ → Type 0
IsOrdered now [] = Unit
IsOrdered now (t ∷ ts) = (t ≤ now) × All (λ u. t ≤ u) ts × IsOrdered now ts

-- whatever is not older than a recent entry is recent
All-recent :
    (cutoff t : ℕ) (ts : List ℕ)
    → cutoff ≤ t
    → All (λ u. t ≤ u) ts
    → All (λ u. leb cutoff u ≡ true) ts
All-recent cutoff t [] h a = tt
All-recent cutoff t (u ∷ ts) h (p, a) = (le→leb cutoff u (omega arith), All-recent cutoff t ts h a)

-- On a list in order of time, the loop leaves exactly the entries that are not too old.
pub trim-filter :
    (now cutoff : ℕ) (ts : List ℕ) → IsOrdered now ts → trim cutoff ts ≡ filter (leb cutoff) ts
unfolding trim filter
trim-filter now cutoff [] h = refl
trim-filter now cutoff (t ∷ ts) (a, b, c) = elim (Bool-cases (ltb t cutoff)) [
  | inl old ↦
      let out : leb cutoff t ≡ false = ground arith in rw (old, out) (trim-filter now cutoff ts c)
  | inr new ↦
      let kept : leb cutoff t ≡ true = ground arith in
      let every = filter-All (leb cutoff) ts (All-recent cutoff t ts (ground arith) b) in
      rw (new, kept, every) refl
]

pub trim-IsOrdered :
    (now cutoff : ℕ) (ts : List ℕ) → IsOrdered now ts → IsOrdered now (trim cutoff ts)
unfolding trim
trim-IsOrdered now cutoff [] h = tt
trim-IsOrdered now cutoff (t ∷ ts) h = elim (Bool-cases (ltb t cutoff)) [
  | inl old ↦ rw old (trim-IsOrdered now cutoff ts h.2)
  | inr new ↦ rw new h
]

-- Time passes, and a new entry at the present instant goes last.
pub IsOrdered-later :
    (now later : ℕ) (ts : List ℕ) → now ≤ later → IsOrdered now ts → IsOrdered later ts
IsOrdered-later now later [] h o = tt
IsOrdered-later now later (t ∷ ts) h (a, b, c) = (omega arith, b, IsOrdered-later now later ts h c)

All-append-now :
    (t now : ℕ) (ts : List ℕ) → t ≤ now → All (λ u. t ≤ u) ts → All (λ u. t ≤ u) (ts ++ now ∷ [])
All-append-now t now [] h a = (h, tt)
All-append-now t now (u ∷ ts) h a = (a.0, All-append-now t now ts h a.1)

pub IsOrdered-append : (now : ℕ) (ts : List ℕ) → IsOrdered now ts → IsOrdered now (ts ++ now ∷ [])
IsOrdered-append now [] o = (omega arith, tt, tt)
IsOrdered-append now (t ∷ ts) (a, b, c) =
    (a, All-append-now t now ts a b, IsOrdered-append now ts c)

-- Every route's executions are in order of time.
abbrev pub InOrder : ℕ → Manager → Type 0
InOrder now m = (route_id : String) → IsOrdered now (stats_of route_id m).executions

pub executions-mark_success :
    (now : ℕ) (route_id : String) (pnl : Decimal) (m : Manager)
    → (stats_of route_id (mark_success now route_id pnl m)).executions
      ≡ trim (now - ten_minutes) ((stats_of route_id m).executions ++ now ∷ [])
executions-mark_success now route_id pnl m = simp (stats-mark_success, eq_refl)

-- A success is counted once: where the executions of every route are in order of time, the route's list
-- holds afterwards those of the last ten minutes, 600,000,000 microseconds, in their order, and last this
-- one.
pub mark_success_window :
    (now : ℕ) (route_id : String) (pnl : Decimal) (m : Manager)
    → InOrder now m
    → (stats_of route_id (mark_success now route_id pnl m)).executions
      ≡ filter (leb (now - 600000000)) (stats_of route_id m).executions ++ now ∷ []
mark_success_window now route_id pnl m order =
    executions-mark_success now route_id pnl m
    ∙ trim-filter now (now - ten_minutes) _ (IsOrdered-append now _ (order route_id))
    ∙ filter-append_one (leb (now - ten_minutes)) (stats_of route_id m).executions now
        (le→leb _ _ (omega arith))
