-- ===== src/App/Ops.antt =====
-- How the operations on the manager act on a lock of a route.
use arbitrage_bot.Risk.{
  clear_cooldown, pause_strategy, resume_strategy, fatal_failure_categories, mark_failure,
  mark_success, pause_route, pause_venue, put_stats, reset_daily_if_needed, resume_route,
  resume_venue, set_global_kill, stats_of, Manager,
}
use arbitrage_bot.Base.{
  sym, Bool, Bool-cases, Option, String, ap, arith, contains, eq_iff, false, if◌then◌else◌, inl,
  inr, nat_eq, none, refl, some, string_eq, true, ℕ, ◌&&◌, ◌==◌, ◌≡◌,
}
use arbitrage_bot.Base.Dict.{contains-set_add, contains-set_discard}
use arbitrage_bot.Decimal.{Decimal}
use arbitrage_bot.Risk.Evaluate.{evaluate, trim_route}
use arbitrage_bot.Risk.Guards.{Request}
use arbitrage_bot.Risk.Runs.{evaluate-state}
use arbitrage_bot.Risk.Stats.{
  stats-clear_all, stats-clear_route, stats-mark_failure, stats-mark_success, stats-trim_route,
}
use arbitrage_bot.App.Lock.{Holds}

module _ (P : Bool → ℕ → Type 0) (k : String) where
  pub Holds-same :
      (m m' : Manager)
      → contains k m'.route_paused ≡ contains k m.route_paused
      → (stats_of k m').consecutive_losses ≡ (stats_of k m).consecutive_losses
      → Holds P k m
      → Holds P k m'
  Holds-same m m' same losses h = rw (same, losses) h

  pub Holds-kill : (b : Bool) (m : Manager) → Holds P k m → Holds P k (set_global_kill b m)
  unfolding set_global_kill stats_of
  Holds-kill b m h = h

  pub Holds-pause_strategy :
      (s : String) (m : Manager) → Holds P k m → Holds P k (pause_strategy s m)
  unfolding pause_strategy stats_of
  Holds-pause_strategy s m h = h

  pub Holds-resume_strategy :
      (s : String) (m : Manager) → Holds P k m → Holds P k (resume_strategy s m)
  unfolding resume_strategy stats_of
  Holds-resume_strategy s m h = h

  pub Holds-pause_venue : (v : String) (m : Manager) → Holds P k m → Holds P k (pause_venue v m)
  unfolding pause_venue stats_of
  Holds-pause_venue v m h = h

  pub Holds-resume_venue : (v : String) (m : Manager) → Holds P k m → Holds P k (resume_venue v m)
  unfolding resume_venue stats_of
  Holds-resume_venue v m h = h

  Holds-clear_all : (m : Manager) → Holds P k m → Holds P k (clear_cooldown none m)
  Holds-clear_all m h =
      Holds-same m (clear_cooldown none m) (unfold clear_cooldown in refl)
        (ap (λ s. s.consecutive_losses) (stats-clear_all k m)) h

  pub Holds-clear : (j : Option String) (m : Manager) → Holds P k m → Holds P k (clear_cooldown j m)
  Holds-clear none m h = Holds-clear_all m h
  Holds-clear (some j) m h = elim (Bool-cases (j == "")) [
    | inl e ↦
        let same : clear_cooldown (some j) m ≡ clear_cooldown none m =
          unfold clear_cooldown in rw e refl in
        rw same (Holds-clear_all m h)
    | inr e ↦
        Holds-same m (clear_cooldown (some j) m) (unfold clear_cooldown put_stats in rw e refl)
          (ground (arith, stats-clear_route k j m, eq_iff k j)) h
  ]

  pub Holds-trim :
      (now : ℕ) (j : String) (m : Manager) → Holds P k m → Holds P k (trim_route now j m)
  Holds-trim now j m h =
      Holds-same m (trim_route now j m) (unfold trim_route put_stats in refl)
        (ground (arith, stats-trim_route now k j m, eq_iff k j)) h

  pub Holds-judge :
      (now : ℕ) (r : Request) (m : Manager) → Holds P k m → Holds P k (evaluate now r m).1
  Holds-judge now r m h = elim (evaluate-state now r m) [
    | inl e ↦ rw e h
    | inr e ↦ rw e (Holds-trim now r.quote.route_id m h)
  ]

  -- a success on another route
  pub Holds-success :
      (now : ℕ) (j : String) (pnl : Decimal) (m : Manager)
      → (k == j) ≡ false
      → Holds P k m
      → Holds P k (mark_success now j pnl m)
  Holds-success now j pnl m e h =
      Holds-same m (mark_success now j pnl m)
        (unfold mark_success put_stats reset_daily_if_needed in ground arith)
        (ground (arith, stats-mark_success now k j pnl m)) h

  -- the operations that may pause the route
  module _ (raise : (p : Bool) (l : ℕ) → P p l → P true l) where
    Holds-or :
        (m m' : Manager) (b : Bool)
        → contains k m'.route_paused ≡ (if b then true else contains k m.route_paused)
        → (stats_of k m').consecutive_losses ≡ (stats_of k m).consecutive_losses
        → Holds P k m
        → Holds P k m'
    Holds-or m m' true same losses h = rw (same, losses) (raise _ _ h)
    Holds-or m m' false same losses h = rw (same, losses) h

    pub Holds-pause : (j : String) (m : Manager) → Holds P k m → Holds P k (pause_route j m)
    Holds-pause j m h =
        Holds-or m (pause_route j m) (k == j)
          (unfold pause_route in contains-set_add k j m.route_paused)
          (unfold pause_route stats_of in refl) h

    pub Holds-failure :
        (now : ℕ) (j category reason : String) (m : Manager)
        → Holds P k m
        → Holds P k (mark_failure now j category reason m)
    Holds-failure now j category reason m h =
        Holds-or m (mark_failure now j category reason m)
          (contains category fatal_failure_categories && k == j)
          (unfold mark_failure pause_route put_stats in
            ground (arith, contains-set_add k j m.route_paused))
          (ground (arith, stats-mark_failure now k j category reason m, eq_iff k j)) h

  -- the operation that may take the route off the pause list
  pub Holds-resume :
      (j : String) (m : Manager)
      → ((p : Bool) (l : ℕ) → j ≡ k → P p l → P false l)
      → Holds P k m
      → Holds P k (resume_route j m)
  Holds-resume j m leave h =
      let listed : contains k (resume_route j m).route_paused
          ≡ (if k == j then false else contains k m.route_paused) =
        unfold resume_route in contains-set_discard k j m.route_paused in
      let losses : (stats_of k (resume_route j m)).consecutive_losses
          ≡ (stats_of k m).consecutive_losses =
        unfold resume_route stats_of in refl in
      elim (Bool-cases (k == j)) [
        | inl e ↦ rw (listed, losses, e) (leave _ _ (sym ((eq_iff k j).0 e)) h)
        | inr e ↦ rw (listed, losses, e) h
      ]
