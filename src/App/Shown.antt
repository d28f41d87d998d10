-- ===== src/App/Shown.antt =====
-- How the parts of the handlers act on the switches.
use arbitrage_bot.App.Control.{on_manager, persist_all}
use arbitrage_bot.Base.{
  nat_eq, string_eq, Bool, List, String, [], ap, false, refl, true, ℕ, ◌∙◌, ◌∷◌, ◌≡◌,
}
use arbitrage_bot.Execution.{disarm_live}
use arbitrage_bot.App.View.{View, controls-set_mode, controls-set_pause, is_single, view}
use arbitrage_bot.Repository.{Route, set_global_pause, set_mode, upsert_route_runtime_state}
use arbitrage_bot.Risk.{set_global_kill}
use arbitrage_bot.App.{App, Env, persist_route_state, send}
use arbitrage_bot.App.Held.{send-database, send-manager}

-- the switches and the shape of the control rows
abbrev pub Shows : App → View → Type 0
Shows a v = (is_single a.database.controls ≡ true) × (view a ≡ v)

-- switches that are the same
pub view-same :
    (a b : App)
    → b.database.controls ≡ a.database.controls
    → b.manager.global_kill_switch ≡ a.manager.global_kill_switch
    → b.live ≡ a.live
    → is_single a.database.controls ≡ true
    → Shows b (view a)
view-same a b rows kill engine single = rw (rows, kill, engine) (single, refl)

pub view-send :
    (env : Env) (level category message : String) (a : App)
    → is_single a.database.controls ≡ true
    → Shows (send env level category message a) (view a)
view-send env level category message a single =
    let (_, rows, engine, _) = send-database env level category message a in
    view-same a (send env level category message a) rows
      (ap (λ m. m.global_kill_switch) (send-manager env level category message a)) engine single

pub view-persist :
    (now : ℕ) (k : String) (a : App)
    → is_single a.database.controls ≡ true
    → Shows (persist_route_state now k a) (view a)
unfolding persist_route_state upsert_route_runtime_state
view-persist now k a single = (single, refl)

pub view-persist_all :
    (now : ℕ) (rs : List Route) (a : App)
    → is_single a.database.controls ≡ true
    → Shows (persist_all now rs a) (view a)
unfolding persist_all
view-persist_all now [] a single = (single, refl)
view-persist_all now (r ∷ rs) a single =
    let (s, e) = view-persist now r.id a single in
    let (t, f) = view-persist_all now rs (persist_route_state now r.id a) s in (t, f ∙ e)

-- the last step of most handlers
pub after-send :
    (env : Env) (level category message : String) (a : App) (v : View)
    → Shows a v
    → Shows (send env level category message a) v
after-send env level category message a v (single, e) =
    let (s, f) = view-send env level category message a single in (s, f ∙ e)

pub seen-pause :
    (now : ℕ) (b : Bool) (a : App) (v : View)
    → Shows a v
    → Shows (record a { database = set_global_pause now b a.database }) (record v { paused = b })
seen-pause now b a v (single, e) =
    let (s, m, p) = controls-set_pause now b a.database single in
    (s, rw (m, p) (ap (λ (w : View). record w { paused = b }) e))

pub seen-mode :
    (now : ℕ) (mode : String) (a : App) (v : View)
    → Shows a v
    → Shows (record a { database = set_mode now mode a.database }) (record v { mode = mode })
seen-mode now mode a v (single, e) =
    let (s, m, p) = controls-set_mode now mode a.database single in
    (s, rw (m, p) (ap (λ (w : View). record w { mode = mode }) e))

pub seen-kill :
    (b : Bool) (a : App) (v : View)
    → Shows a v
    → Shows (on_manager (set_global_kill b) a) (record v { killed = b })
unfolding set_global_kill
seen-kill b a v (single, e) = (single, ap (λ (w : View). record w { killed = b }) e)

pub seen-disarm :
    (a : App) (v : View)
    → Shows a v
    → Shows (record a { live = disarm_live a.live }) (record v { armed = false })
unfolding disarm_live
seen-disarm a v (single, e) = (single, ap (λ (w : View). record w { armed = false }) e)
