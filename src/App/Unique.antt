-- ===== src/App/Unique.antt =====
-- The states of the routes have one row for each route, and a write of a state keeps that.
use arbitrage_bot.Base.{
  ◌++◌, Bool, Bool-cases, List, String, [], agree, ap, arith, eq_iff, false, inl, inr, nat_eq, not,
  refl, string_eq, sym, true, ℕ, ◌&&◌, ◌==◌, ◌||◌, ◌∙◌, ◌∷◌, ◌≡◌,
}
use arbitrage_bot.Repository.{Route, ensure_states, new_state, RouteRuntimeState, upsert}
use mathlib.Core.Bool.{true≢false}
use arbitrage_bot.App.Lock.{HoldsFor, HoldsRow, has_row}

abbrev pub is_unique : List RouteRuntimeState → Bool
is_unique [] = true
is_unique (r ∷ rs) = not (has_row r.route_id rs) && is_unique rs

pub found-upsert :
    (row : RouteRuntimeState) (rows : List RouteRuntimeState)
    → has_row row.route_id (upsert row rows) ≡ true
unfolding upsert
found-upsert row [] = rw (agree row.route_id row.route_id refl) refl
found-upsert row (r ∷ rs) =
    ground (arith, found-upsert row rs, agree row.route_id row.route_id refl)

-- whether a route has a row after a write
has_row-upsert_iff :
    (k : String) (row : RouteRuntimeState) (rows : List RouteRuntimeState)
    → has_row k (upsert row rows) ≡ (row.route_id == k || has_row k rows)
unfolding upsert
has_row-upsert_iff k row [] = ground arith
has_row-upsert_iff k row (r ∷ rs) = ground (
  arith,
  has_row-upsert_iff k row rs,
  eq_iff r.route_id row.route_id,
  eq_iff r.route_id k,
  eq_iff row.route_id k,
)

pub is_unique-upsert :
    (row : RouteRuntimeState) (rows : List RouteRuntimeState)
    → is_unique rows ≡ true
    → is_unique (upsert row rows) ≡ true
unfolding upsert
is_unique-upsert row [] h = refl
is_unique-upsert row (r ∷ rs) h = ground (
  arith,
  is_unique-upsert row rs,
  has_row-upsert_iff r.route_id row rs,
  eq_iff r.route_id row.route_id,
  eq_iff row.route_id r.route_id,
  has_row_eq r.route_id row.route_id rs,
)
  where
    has_row_eq :
        (j k : String) (rs : List RouteRuntimeState) → (j == k) ≡ true → has_row j rs ≡ has_row k rs
    has_row_eq j k rs e = ap (λ x. has_row x rs) ((eq_iff j k).0 e)

-- no row of a route that has none
HoldsFor-none :
    (P : Bool → ℕ → Type 0) (k : String) (rows : List RouteRuntimeState)
    → has_row k rows ≡ false
    → HoldsFor P k rows
HoldsFor-none P k [] h = tt
HoldsFor-none P k (r ∷ rs) h = elim (Bool-cases (r.route_id == k)) [
  | inl e ↦ absurd (true≢false (ground (arith, e, h)))
  | inr e ↦ (
    (λ same. absurd (true≢false (sym (agree r.route_id k same) ∙ e))),
    HoldsFor-none P k rs (rw e at h),
  )
]

-- the row that is written is the route's only one
pub HoldsFor-written :
    (P : Bool → ℕ → Type 0) (row : RouteRuntimeState) (rows : List RouteRuntimeState)
    → is_unique rows ≡ true
    → HoldsRow P row
    → HoldsFor P row.route_id (upsert row rows)
unfolding upsert
HoldsFor-written P row [] h p = ((λ _. p), tt)
HoldsFor-written P row (r ∷ rs) h p = elim (Bool-cases (r.route_id == row.route_id)) [
  | inl e ↦
      let lone : has_row row.route_id rs ≡ false =
        ap (λ x. has_row x rs) (sym ((eq_iff _ _).0 e)) ∙ ground (arith, h) in
      rw e ((λ _. p), HoldsFor-none P row.route_id rs lone)
  | inr e ↦ rw e (
    (λ same. absurd (true≢false (sym (agree r.route_id row.route_id same) ∙ e))),
    HoldsFor-written P row rs (ground (arith, h)) p,
  )
]

-- the rows that a start adds are of other routes than those that have one
has_row-snoc :
    (k : String) (rows : List RouteRuntimeState) (row : RouteRuntimeState)
    → has_row k (rows ++ row ∷ []) ≡ (has_row k rows || row.route_id == k)
has_row-snoc k [] row = ground arith
has_row-snoc k (r ∷ rs) row = ground (arith, has_row-snoc k rs row)

-- A property of the rows is kept by a start where it is kept by adding a row of another route.
pub ensure-invariant {κ} :
    (Q : List RouteRuntimeState → Type κ) (k : String)
    → ((rows : List RouteRuntimeState) (j : String)
        → (j == k) ≡ false
        → Q rows
        → Q (rows ++ new_state j ∷ []))
    → (rs : List Route) (rows : List RouteRuntimeState) → has_row k rows ≡ true
    → Q rows
    → Q (ensure_states rs rows) × (has_row k (ensure_states rs rows) ≡ true)
unfolding ensure_states
ensure-invariant Q k grow [] rows found q = (q, found)
ensure-invariant Q k grow (r ∷ rs) rows found q = elim (Bool-cases (has_row r.id rows)) [
  | inl e ↦ rw e (ensure-invariant Q k grow rs rows found q)
  | inr e ↦
      let apart : (r.id == k) ≡ false = elim (Bool-cases (r.id == k)) [
        | inl same ↦
            absurd
              (true≢false (sym found ∙ ap (λ x. has_row x rows) (sym ((eq_iff _ _).0 same)) ∙ e))
        | inr e ↦ e
      ] in
      rw e (
        ensure-invariant Q k grow rs (rows ++ new_state r.id ∷ [])
          (has_row-snoc k rows (new_state r.id) ∙ rw found refl) (grow rows r.id apart q))
]

pub HoldsFor-snoc :
    (P : Bool → ℕ → Type 0) (k : String) (rows : List RouteRuntimeState) (j : String)
    → (j == k) ≡ false
    → HoldsFor P k rows
    → HoldsFor P k (rows ++ new_state j ∷ [])
HoldsFor-snoc P k [] j e h = ((λ same. absurd (true≢false (sym (agree j k same) ∙ e))), tt)
HoldsFor-snoc P k (r ∷ rs) j e (p, ps) = (p, HoldsFor-snoc P k rs j e ps)
