-- ===== src/App/Lock.antt =====
-- What keeps a route locked, over every step of the program. A lock is a property of the route's
-- pause and of its count of losses that blocks trading; the program keeps it in the manager and in
-- the database, whence a restart reads it.
use arbitrage_bot.Base.{
  agree, if◌then◌else◌, sym, ◌∙◌, All, Bool, Bool-cases, List, String, [], any, arith, contains,
  eq_iff, inl, inr, nat_eq, string_eq, true, ℕ, ◌==◌, ◌∷◌, ◌≡◌, ◌⊎◌,
}
use arbitrage_bot.Base.Dict.{contains-set_add, contains-set_discard}
use arbitrage_bot.Risk.{
  hydrate_route_state, pause_route, put_stats, resume_route, Manager, stats_of,
}
use arbitrage_bot.Risk.Stats.{stats-hydrate}
use mathlib.Core.Bool.{true≢false}
use arbitrage_bot.App.{hydrate, hydrate_all, App}
use arbitrage_bot.Base.Int.{pos_part}
use arbitrage_bot.Repository.{upsert, RouteRuntimeState}

-- the two facts of a route that a lock reads
abbrev pub Holds : (Bool → ℕ → Type 0) → String → Manager → Type 0
Holds P k m = P (contains k m.route_paused) (stats_of k m).consecutive_losses

abbrev pub HoldsRow : (Bool → ℕ → Type 0) → RouteRuntimeState → Type 0
HoldsRow P row = P row.paused (pos_part row.consecutive_losses)

-- the row of the route, if it is one
abbrev pub HoldsFor : (Bool → ℕ → Type 0) → String → List RouteRuntimeState → Type 0
HoldsFor P k = All (λ row. row.route_id ≡ k → HoldsRow P row)

abbrev pub has_row : String → List RouteRuntimeState → Bool
has_row k rows = any (λ row. row.route_id == k) rows

-- the lock in the manager and in the database
pub record IsLocked (P : Bool → ℕ → Type 0) (k : String) (a : App) : Type 0 where
  pub live : Holds P k a.manager
  pub stored : HoldsFor P k a.database.runtime_states
  pub found : has_row k a.database.runtime_states ≡ true

-- the pause that a hydration leaves
pub paused-hydrate :
    (now : ℕ) (k : String) (row : RouteRuntimeState) (m : Manager)
    → contains k (hydrate now row m).route_paused
      ≡ (if k == row.route_id then row.paused else contains k m.route_paused)
unfolding hydrate hydrate_route_state put_stats pause_route resume_route
paused-hydrate now k row m = elim (Bool-cases row.paused) [
  | inl p ↦ rw p (contains-set_add k row.route_id m.route_paused)
  | inr p ↦ rw p (contains-set_discard k row.route_id m.route_paused)
]

losses-hydrate :
    (now : ℕ) (k : String) (row : RouteRuntimeState) (m : Manager)
    → (stats_of k (hydrate now row m)).consecutive_losses ≡ (
        if k == row.route_id
        then pos_part row.consecutive_losses
        else (stats_of k m).consecutive_losses)
unfolding hydrate
losses-hydrate now k row m = ground (
  arith,
  stats-hydrate now k row.route_id row.paused row.cooldown_until row.last_failure_category
      row.last_failure_reason row.last_failure_fatal row.last_failure_at row.consecutive_failures
      row.consecutive_losses m,
)

module _ (P : Bool → ℕ → Type 0) (k : String) where
  pub HoldsFor-upsert :
      (row : RouteRuntimeState) (rows : List RouteRuntimeState)
      → (row.route_id ≡ k → HoldsRow P row)
      → HoldsFor P k rows
      → HoldsFor P k (upsert row rows)
  unfolding upsert
  HoldsFor-upsert row [] h a = (h, tt)
  HoldsFor-upsert row (r ∷ rs) h (p, ps) = elim (Bool-cases (r.route_id == row.route_id)) [
    | inl e ↦ rw e (h, ps)
    | inr e ↦ rw e (p, HoldsFor-upsert row rs h ps)
  ]

  pub has_row-upsert :
      (row : RouteRuntimeState) (rows : List RouteRuntimeState)
      → has_row k rows ≡ true
      → has_row k (upsert row rows) ≡ true
  unfolding upsert
  has_row-upsert row [] h = cc
  has_row-upsert row (r ∷ rs) h = ground (
    arith,
    has_row-upsert row rs,
    eq_iff r.route_id row.route_id,
    eq_iff r.route_id k,
    eq_iff row.route_id k,
  )

  Holds-hydrate :
      (now : ℕ) (row : RouteRuntimeState) (m : Manager)
      → (row.route_id ≡ k → HoldsRow P row)
      → Holds P k m ⊎ (row.route_id ≡ k)
      → Holds P k (hydrate now row m)
  Holds-hydrate now row m h given = elim (Bool-cases (k == row.route_id)) [
    | inl e ↦
        rw (paused-hydrate now k row m, losses-hydrate now k row m, e)
          (h (sym ((eq_iff k row.route_id).0 e)))
    | inr e ↦
        rw (paused-hydrate now k row m, losses-hydrate now k row m, e)
          (elim given [
            | inl p ↦ p
            | inr same ↦ absurd (true≢false (sym (agree k row.route_id (sym same)) ∙ e))
          ])
  ]

  -- a restart reads the lock back
  pub Holds-hydrate_all :
      (now : ℕ) (rows : List RouteRuntimeState) (m : Manager)
      → HoldsFor P k rows
      → Holds P k m ⊎ (has_row k rows ≡ true)
      → Holds P k (hydrate_all now rows m)
  unfolding hydrate_all
  Holds-hydrate_all now [] m ps given = elim given [ inl h ↦ h | inr h ↦ cc ]
  Holds-hydrate_all now (row ∷ rows) m (p, ps) given = elim (Bool-cases (row.route_id == k)) [
    | inl e ↦
        Holds-hydrate_all now rows (hydrate now row m) ps
          (inl (Holds-hydrate now row m p (inr ((eq_iff _ _).0 e))))
    | inr e ↦
        Holds-hydrate_all now rows (hydrate now row m) ps
          (elim given [ inl h ↦ inl (Holds-hydrate now row m p (inl h)) | inr h ↦ inr (rw e at h) ])
  ]
