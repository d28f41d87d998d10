-- ===== src/App/Recovery.antt =====
-- What a restart reads back of the state of a route.
use arbitrage_bot.App.Unique.{ensure-invariant, found-upsert, is_unique, is_unique-upsert}
use arbitrage_bot.Base.{
  ◌++◌, Bool, Bool-cases, List, Option, String, [], agree, arith, contains, eq_iff, false,
  if◌then◌else◌, inl, inr, ltb, nat_eq, none, refl, some, string_eq, sym, true, ℕ, ◌-◌, ◌/◌, ◌<◌,
  ◌==◌, ◌∙◌, ◌∷◌, ◌≡◌,
}
use arbitrage_bot.Repository.{
  Route, ensure_route_runtime_states, ensure_states, new_state, RouteRuntimeState, upsert,
  upsert_route_runtime_state,
}
use arbitrage_bot.App.Lock.{paused-hydrate, has_row}
use arbitrage_bot.App.{App, Env, hydrate, hydrate_all, persist_route_state, restart, runtime_row}
use arbitrage_bot.App.Held.{send-manager}
use arbitrage_bot.Base.Dict.{Dict, lookup, lookup-erase, lookup-insert}
use arbitrage_bot.Risk.{
  Manager, RouteStats, as_utc, cooldown_remaining_seconds, hydrate_route_state, hydrated_cooldown,
  new_manager, new_stats, pause_route, put_stats, resume_route, second, stats_of,
}
use arbitrage_bot.Risk.State.{RouteState, fromisoformat, get_route_state, isoformat}
use arbitrage_bot.Risk.Stats.{after_hydration, stats-hydrate}

abbrev state_of : ℕ → String → Bool → RouteStats → Option ℕ → RouteState
state_of later k paused stats finish = record {
  route_id = k;
  consecutive_failures = stats.consecutive_failures;
  consecutive_losses = stats.consecutive_losses;
  last_failure_category = stats.last_failure_category;
  last_failure_reason = stats.last_failure_reason;
  last_failure_fatal = stats.last_failure_fatal;
  last_failure_at = isoformat stats.last_failure_at;
  cooldown_until = isoformat finish;
  cooldown_remaining_seconds = elim finish [ none ↦ 0 | some t ↦ (t - later) / second ];
  route_paused = paused;
}

-- The state of a route is read off three facts of the manager.
state-facts :
    (later : ℕ) (k : String) (m : Manager) (paused : Bool) (stats : RouteStats) (finish : Option ℕ)
    → contains k m.route_paused ≡ paused
    → stats_of k m ≡ stats
    → lookup k m.cooldown_until ≡ finish
    → get_route_state later k m ≡ state_of later k paused stats finish
unfolding get_route_state cooldown_remaining_seconds
state-facts later k m paused stats finish p s c = rw (p, s, c, cooldown_remaining_seconds) refl

-- the end of a cooldown that a hydration keeps
abbrev hydrated_end : ℕ → Option ℕ → Option ℕ
hydrated_end now none = none
hydrated_end now (some finish) = if ltb now finish then some finish else none

cooldown-hydrated :
    (now : ℕ) (j k : String) (finish : Option ℕ) (d : Dict ℕ)
    → lookup j (hydrated_cooldown now k finish d)
      ≡ (if j == k then hydrated_end now finish else lookup j d)
unfolding hydrated_cooldown
cooldown-hydrated now j k none d = lookup-erase j k d
cooldown-hydrated now j k (some finish) d =
    ground (arith, lookup-erase j k d, lookup-insert j k finish d)

cooldown-hydrate :
    (now : ℕ) (k : String) (row : RouteRuntimeState) (m : Manager)
    → lookup k (hydrate now row m).cooldown_until ≡ (
        if k == row.route_id
        then hydrated_end now (as_utc row.cooldown_until)
        else lookup k m.cooldown_until)
unfolding hydrate hydrate_route_state put_stats pause_route resume_route
cooldown-hydrate now k row m =
    ground
      (arith, cooldown-hydrated now k row.route_id (as_utc row.cooldown_until) m.cooldown_until)

stats-hydrate_row :
    (now : ℕ) (k : String) (row : RouteRuntimeState) (m : Manager)
    → stats_of k (hydrate now row m) ≡ (
        if k == row.route_id
        then after_hydration row.last_failure_category row.last_failure_reason
            row.last_failure_fatal row.last_failure_at row.consecutive_failures
            row.consecutive_losses
            (stats_of row.route_id m)
        else stats_of k m)
unfolding hydrate
stats-hydrate_row now k row m =
    stats-hydrate now k row.route_id row.paused row.cooldown_until row.last_failure_category
      row.last_failure_reason row.last_failure_fatal row.last_failure_at row.consecutive_failures
      row.consecutive_losses m

-- the state that a row gives
abbrev row_state : ℕ → ℕ → RouteRuntimeState → RouteState
row_state now later row =
    state_of later row.route_id row.paused
      (after_hydration row.last_failure_category row.last_failure_reason row.last_failure_fatal
        row.last_failure_at row.consecutive_failures row.consecutive_losses new_stats)
      (hydrated_end now (as_utc row.cooldown_until))

state-hydrate :
    (now later : ℕ) (row : RouteRuntimeState) (m : Manager)
    → get_route_state later row.route_id (hydrate now row m) ≡ row_state now later row
state-hydrate now later row m =
    let k = row.route_id in
    let same = agree k k refl in
    state-facts later k (hydrate now row m) row.paused
      (after_hydration row.last_failure_category row.last_failure_reason row.last_failure_fatal
        row.last_failure_at row.consecutive_failures row.consecutive_losses (stats_of k m))
      (hydrated_end now (as_utc row.cooldown_until)) (paused-hydrate now k row m ∙ rw same refl)
      (stats-hydrate_row now k row m ∙ rw same refl) (cooldown-hydrate now k row m ∙ rw same refl)

state-hydrate_other :
    (now later : ℕ) (k : String) (row : RouteRuntimeState) (m : Manager)
    → (k == row.route_id) ≡ false
    → get_route_state later k (hydrate now row m) ≡ get_route_state later k m
state-hydrate_other now later k row m apart =
    state-facts later k (hydrate now row m) (contains k m.route_paused) (stats_of k m)
      (lookup k m.cooldown_until) (paused-hydrate now k row m ∙ rw apart refl)
      (stats-hydrate_row now k row m ∙ rw apart refl) (cooldown-hydrate now k row m ∙ rw apart refl)
    ∙ sym (state-facts later k m _ _ _ refl refl refl)

state-hydrate_none :
    (now later : ℕ) (k : String) (rows : List RouteRuntimeState) (m : Manager)
    → has_row k rows ≡ false
    → get_route_state later k (hydrate_all now rows m) ≡ get_route_state later k m
unfolding hydrate_all
state-hydrate_none now later k [] m h = refl
state-hydrate_none now later k (row ∷ rows) m h =
    state-hydrate_none now later k rows (hydrate now row m) (ground (arith, h))
    ∙ state-hydrate_other now later k row m
        (ground (arith, h, eq_iff k row.route_id, eq_iff row.route_id k))

-- the loop over the rows ends in the state that the row of the route gives
state-hydrate_all :
    (now later : ℕ) (row : RouteRuntimeState) (rows : List RouteRuntimeState) (m : Manager)
    → is_unique (upsert row rows) ≡ true
    → get_route_state later row.route_id (hydrate_all now (upsert row rows) m)
      ≡ row_state now later row
unfolding hydrate_all upsert
state-hydrate_all now later row [] m h = state-hydrate now later row m
state-hydrate_all now later row (r ∷ rs) m h = elim (Bool-cases (r.route_id == row.route_id)) [
  | inl e ↦
      let lone = rw (e, upsert) at h in
      rw (e, upsert)
        (state-hydrate_none now later row.route_id rs (hydrate now row m) (ground (arith, lone))
          ∙ state-hydrate now later row m)
  | inr e ↦
      let tail = rw (e, upsert) at h in
      rw (e, upsert) (state-hydrate_all now later row rs (hydrate now r m) (ground (arith, tail)))
]

hydrate_all-snoc :
    (now : ℕ) (rows : List RouteRuntimeState) (row : RouteRuntimeState) (m : Manager)
    → hydrate_all now (rows ++ row ∷ []) m ≡ hydrate now row (hydrate_all now rows m)
unfolding hydrate_all
hydrate_all-snoc now [] row m = refl
hydrate_all-snoc now (r ∷ rs) row m = hydrate_all-snoc now rs row (hydrate now r m)

-- the rows that a start adds do not matter to the route
state-ensure :
    (now later : ℕ) (k : String) (rs : List Route) (rows : List RouteRuntimeState) (m : Manager)
    → has_row k rows ≡ true
    → get_route_state later k (hydrate_all now (ensure_states rs rows) m)
      ≡ get_route_state later k (hydrate_all now rows m)
state-ensure now later k rs rows m found =
    (ensure-invariant
      (λ x.
        get_route_state later k (hydrate_all now x m)
        ≡ get_route_state later k (hydrate_all now rows m))
      k
      (λ x j e h.
        rw (hydrate_all-snoc now x (new_state j) m)
          (state-hydrate_other now later k (new_state j) (hydrate_all now x m) (flip j e) ∙ h))
      rs rows found refl).0
  where
    flip : (j : String) → (j == k) ≡ false → (k == j) ≡ false
    flip j e = ground (arith, e, eq_iff j k, eq_iff k j)

utc-read : (t : Option ℕ) → as_utc (fromisoformat (isoformat t)) ≡ t
unfolding as_utc fromisoformat isoformat
utc-read none = refl
utc-read (some t) = refl

-- the row that is made of a state gives that state, where its cooldown has not run out
row_state-runtime_row :
    (t now later : ℕ) (k : String) (m : Manager)
    → hydrated_end now (lookup k m.cooldown_until) ≡ lookup k m.cooldown_until
    → row_state now later (runtime_row t k m) ≡ get_route_state later k m
unfolding runtime_row get_route_state cooldown_remaining_seconds
row_state-runtime_row t now later k m ahead =
    rw (utc-read (stats_of k m).last_failure_at, utc-read (lookup k m.cooldown_until), ahead) refl

-- A state that is kept before a restart is read back: whatever the program shows of the route
-- afterwards is what it would have shown without the restart, where the cooldown of the route has
-- not run out at the restart and the table of the routes' states has one row for each route.
pub persist_restart :
    (t later : ℕ) (env : Env) (k : String) (a : App)
    → is_unique a.database.runtime_states ≡ true
    → ((finish : ℕ) → lookup k a.manager.cooldown_until ≡ some finish → env.now < finish)
    → get_route_state later k (restart env (persist_route_state t k a)).manager
      ≡ get_route_state later k a.manager
unfolding restart persist_route_state upsert_route_runtime_state runtime_row
    ensure_route_runtime_states
persist_restart t later env k a unique ahead =
    let row = runtime_row t k a.manager in
    let start = new_manager a.manager.settings env.now in
    let rows = is_unique-upsert row a.database.runtime_states unique in
    rw (send-manager env) (
      state-ensure env.now later k a.database.routes (upsert row a.database.runtime_states) start
        (found-upsert row a.database.runtime_states)
      ∙ state-hydrate_all env.now later row a.database.runtime_states start rows
      ∙ row_state-runtime_row t env.now later k a.manager
          (go (lookup k a.manager.cooldown_until) ahead))
  where
    go :
        (end : Option ℕ)
        → ((finish : ℕ) → end ≡ some finish → env.now < finish)
        → hydrated_end env.now end ≡ end
    go none h = refl
    go (some finish) h = let before = h finish refl in ground (arith, before)
