-- ===== src/App/Held.antt =====
-- Every step of the program keeps a lock.
use arbitrage_bot.Repository.{
  get_runtime_control, set_global_pause, set_mode, set_route_enabled, write_config_audit, Database,
  Route, upsert_route_runtime_state,
}
use arbitrage_bot.App.Control.{persist_all}
use arbitrage_bot.Base.{Bool, List, String, [], arith, nat_eq, string_eq, sym, ℕ, ◌∷◌, ◌≡◌}
use arbitrage_bot.Risk.State.{get_route_state}
use mathlib.Core.Path.{subst}
use arbitrage_bot.App.{App, Env, persist_route_state, runtime_row, send, add_alert}
use arbitrage_bot.App.Lock.{Holds, HoldsFor-upsert, IsLocked, has_row-upsert}

pub send-manager :
    (env : Env) (level category message : String) (a : App)
    → (send env level category message a).manager ≡ a.manager
unfolding send
send-manager env level category message a = ground arith

pub send-database :
    (env : Env) (level category message : String) (a : App)
    → ((send env level category message a).database.runtime_states ≡ a.database.runtime_states)
      × ((send env level category message a).database.controls ≡ a.database.controls)
      × ((send env level category message a).live ≡ a.live)
      × ((send env level category message a).scanning ≡ a.scanning)
unfolding send add_alert
send-database env level category message a =
    (ground arith, ground arith, ground arith, ground arith)

module _ (P : Bool → ℕ → Type 0) (k : String) where
  -- a change that leaves the rows alone
  pub Locked-changed :
      (a b : App)
      → b.database.runtime_states ≡ a.database.runtime_states
      → (Holds P k a.manager → Holds P k b.manager)
      → IsLocked P k a
      → IsLocked P k b
  Locked-changed a b same keep h = record {
    live = keep h.live;
    stored = rw same h.stored;
    found = rw same h.found;
  }

  pub Locked-persist :
      (now : ℕ) (j : String) (a : App) → IsLocked P k a → IsLocked P k (persist_route_state now j a)
  unfolding persist_route_state upsert_route_runtime_state
  Locked-persist now j a h =
      let row = runtime_row now j a.manager in
      record {
        live = h.live;
        stored =
            HoldsFor-upsert P k row a.database.runtime_states
              (λ e.
                unfold runtime_row get_route_state in
                subst (λ x. Holds P x a.manager) (sym (unfold runtime_row in e)) h.live)
              h.stored;
        found = has_row-upsert P k row a.database.runtime_states h.found;
      }

  pub Locked-persist_all :
      (now : ℕ) (rs : List Route) (a : App) → IsLocked P k a → IsLocked P k (persist_all now rs a)
  unfolding persist_all
  Locked-persist_all now [] a h = h
  Locked-persist_all now (r ∷ rs) a h =
      Locked-persist_all now rs (persist_route_state now r.id a) (Locked-persist now r.id a h)

-- the tables that a lock reads are left by the other writes
pub states-set_pause :
    (now : ℕ) (b : Bool) (db : Database)
    → (set_global_pause now b db).runtime_states ≡ db.runtime_states
unfolding set_global_pause get_runtime_control
states-set_pause now b db = ground arith

pub states-set_mode :
    (now : ℕ) (mode : String) (db : Database)
    → (set_mode now mode db).runtime_states ≡ db.runtime_states
unfolding set_mode get_runtime_control write_config_audit
states-set_mode now mode db = ground arith

pub states-enabled :
    (j : String) (b : Bool) (db : Database)
    → (set_route_enabled j b db).1.runtime_states ≡ db.runtime_states
unfolding set_route_enabled write_config_audit
states-enabled j b db = ground arith

pub states-control :
    (now : ℕ) (db : Database) → (get_runtime_control now db).1.runtime_states ≡ db.runtime_states
unfolding get_runtime_control
states-control now db = ground arith
