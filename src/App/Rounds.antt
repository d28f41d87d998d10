-- ===== src/App/Rounds.antt =====
-- The head of a round and the switches.
use mathlib.Core.Bool.{true≢false}
use Prim.Native.String.{◌++◌ as ◌<>◌}
use arbitrage_bot.App.{App, Env}
use arbitrage_bot.App.Control.{on_database, on_manager, run_mode}
use arbitrage_bot.App.Held.{send-database}
use arbitrage_bot.App.Scan.{
  abort_round, begin_round, check_drawdown, enter_round, stop_for_drawdown,
}
use arbitrage_bot.App.Shown.{after-send, seen-kill, seen-pause, view-send}
use arbitrage_bot.App.View.{View, controls-read, is_single, view}
use arbitrage_bot.Base.{Bool, Option, String, ap, false, none, refl, some, sym, true, ◌∙◌, ◌≡◌}
use arbitrage_bot.Base.Result.{Result, err, ok}
use arbitrage_bot.Decimal.{Decimal}
use arbitrage_bot.Repository.{get_runtime_control, set_global_pause, write_kill_switch_event}
use arbitrage_bot.Risk.{set_global_kill, should_stop_for_daily_dd}
use arbitrage_bot.Settings.{RunMode}

-- what the head of a round does to the switches: it reads the pause into the kill switch, and may
-- pause
pub record Entered (a b : App) : Type 0 where
  pub single : is_single b.database.controls ≡ true
  pub mode_same : (view b).mode ≡ (view a).mode
  pub armed_same : (view b).armed ≡ (view a).armed
  pub still_paused : (view a).paused ≡ true → (view b).paused ≡ true
  pub halted : b.scanning ≡ true → (view a).paused ≡ true → (view b).killed ≡ true

Entered-abort :
    (env : Env) (exc : String) (a : App)
    → is_single a.database.controls ≡ true
    → Entered a (abort_round env exc a)
unfolding abort_round
Entered-abort env exc a single =
    let b : App = record a { scanning = false } in
    let (s, e) = view-send env "ERROR" "scan_loop" ("scan loop failure: " <> exc) b single in
    let off = (send-database env "ERROR" "scan_loop" ("scan loop failure: " <> exc) b).3 in
    record {
      single = s;
      mode_same = ap (λ (w : View). w.mode) e;
      armed_same = ap (λ (w : View). w.armed) e;
      still_paused = λ h. ap (λ (w : View). w.paused) e ∙ h;
      halted = λ on. absurd (true≢false (sym on ∙ off));
    }

Entered-drawdown :
    (env : Env) (a : App)
    → is_single a.database.controls ≡ true
    → Entered a (stop_for_drawdown env a)
unfolding stop_for_drawdown write_kill_switch_event
Entered-drawdown env a single =
    let killed = on_manager (set_global_kill true) a in
    let b =
      on_database
        (λ db.
          write_kill_switch_event "global" "global" "trigger" "daily_dd_stop"
            (set_global_pause env.now true db))
        killed in
    let (s, e) =
      after-send env "WARN" "daily_dd_stop" "daily drawdown threshold reached; new entries stopped"
        b _ (seen-pause env.now true killed _ (seen-kill true a (view a) (single, refl))) in
    record {
      single = s;
      mode_same = ap (λ (w : View). w.mode) e;
      armed_same = ap (λ (w : View). w.armed) e;
      still_paused = λ h. ap (λ (w : View). w.paused) e;
      halted = λ on h. ap (λ (w : View). w.killed) e;
    }

Entered-check :
    (env : Env) (stop : Result Bool) (a : App)
    → is_single a.database.controls ≡ true
    → ((view a).paused ≡ true → (view a).killed ≡ true)
    → Entered a (check_drawdown env stop a)
unfolding check_drawdown
Entered-check env (err e) a single h = Entered-abort env "decimal" a single
Entered-check env (ok true) a single h = Entered-drawdown env a single
Entered-check env (ok false) a single h = record {
  single = single;
  mode_same = refl;
  armed_same = refl;
  still_paused = λ p. p;
  halted = λ on p. h p;
}

-- the switches of the database are those before
Entered-from :
    (a b c : App)
    → (view b).mode ≡ (view a).mode
    → (view b).armed ≡ (view a).armed
    → (view b).paused ≡ (view a).paused
    → Entered b c
    → Entered a c
Entered-from a b c mode armed paused h = record {
  single = h.single;
  mode_same = h.mode_same ∙ mode;
  armed_same = h.armed_same ∙ armed;
  still_paused = λ p. h.still_paused (paused ∙ p);
  halted = λ on p. h.halted on (paused ∙ p);
}

pub Entered-begin :
    (env : Env) (wallet : Decimal) (a : App)
    → is_single a.database.controls ≡ true
    → Entered a (begin_round env wallet a)
unfolding begin_round
Entered-begin env wallet a single =
    let (ctrl, db) = get_runtime_control env.now a.database in
    let (s, m, p, _, q) = controls-read env.now a.database single in
    let b : App = record a { database = db; scanning = true } in
    Entered-from a b _ m refl p (go ctrl.global_pause (run_mode ctrl.mode) b s (q ∙ sym p))
  where
    go :
        (t : Bool) (mode : Option RunMode) (b : App)
        → is_single b.database.controls ≡ true
        → t ≡ (view b).paused
        → Entered b (enter_round env wallet t mode b)
    go t none b s e = unfold enter_round in Entered-abort env "invalid mode" b s
    go t (some mode) b s e =
        let set = on_manager (set_global_kill t) b in
        unfold enter_round in
        Entered-from b set _ refl refl refl (
          Entered-check env (should_stop_for_daily_dd wallet set.manager) set s
            (λ p. unfold set_global_kill in e ∙ p))
