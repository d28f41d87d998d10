-- ===== src/App/View.antt =====
-- The switches of the program as an operator sees them: the mode and the pause of the control row,
-- the kill switch of the manager and the arming of the live engine. A specification says what each
-- command does to them.
use arbitrage_bot.Repository.{
  set_mode, write_config_audit, Database, RuntimeControl, edit_latest, get_runtime_control,
  is_newest, latest_control, set_global_pause,
}
use mathlib.Core.Bool.{true≢false}
use arbitrage_bot.App.{App}
use arbitrage_bot.App.Control.{
  Command, disable_route, disable_venue, enable_route, enable_venue, pause, resume, run_mode,
  stop_all, switch_mode,
}
use arbitrage_bot.Base.{
  Bool, List, Option, String, [], false, if◌then◌else◌, nat_eq, none, not, refl, some, string_eq,
  sym, true, ℕ, ◌&&◌, ◌==◌, ◌||◌, ◌∷◌, ◌≡◌,
}
use arbitrage_bot.Base.Text.{lower}
use arbitrage_bot.Settings.{RunMode, Settings, live, paper, stopped}

pub record View : Type 0 where
  pub mode : String
  pub paused : Bool
  pub killed : Bool
  pub armed : Bool

-- one control row, or none yet
abbrev pub is_single : List RuntimeControl → Bool
is_single [] = true
is_single (c ∷ []) = true
is_single (c ∷ d ∷ cs) = false

-- the mode and the pause that the program reads
abbrev pub mode_of : List RuntimeControl → String
mode_of cs = elim (latest_control cs) [ none ↦ "paper" | some c ↦ c.mode ]

abbrev pub pause_of : List RuntimeControl → Bool
pause_of cs = elim (latest_control cs) [ none ↦ false | some c ↦ c.global_pause ]

abbrev pub view : App → View
view a = record {
  mode = mode_of a.database.controls;
  paused = pause_of a.database.controls;
  killed = a.manager.global_kill_switch;
  armed = a.live.runtime_armed;
}

-- what a switch of the mode does, with the settings
abbrev pub switch_spec : Settings → Option String → Option RunMode → View → View
switch_spec s token none v = v
switch_spec s token (some stopped) v = record v { mode = "stopped"; paused = true; armed = false }
switch_spec s token (some paper) v = record v { mode = "paper"; armed = false }
switch_spec s none (some live) v = v
switch_spec s (some token) (some live) v =
    if s.live_enable_flag
      && (not (token == "") && (s.allow_live_without_token || token == s.live_confirmation_token))
    then record v { mode = "live"; armed = true }
    else v

abbrev pub command_spec : Settings → Command → View → View
command_spec s pause v = record v { paused = true; killed = true }
command_spec s resume v = record v { paused = false; killed = false }
command_spec s stop_all v = record { mode = "stopped"; paused = true; killed = true; armed = false }
command_spec s (switch_mode target token) v = switch_spec s token (run_mode (lower target)) v
command_spec s (disable_route k) v = v
command_spec s (enable_route k) v = v
command_spec s (disable_venue n) v = v
command_spec s (enable_venue n) v = v
command_spec s (Command.pause_strategy n) v = v
command_spec s (Command.resume_strategy n) v = v
command_spec s (Command.clear_cooldown k) v = v

-- the control rows after a write
pub controls-set_pause :
    (now : ℕ) (b : Bool) (db : Database)
    → is_single db.controls ≡ true
    → let cs = (set_global_pause now b db).controls in
      (is_single cs ≡ true) × (mode_of cs ≡ mode_of db.controls) × (pause_of cs ≡ b)
controls-set_pause now b db single = go db.controls single db refl
  where
    go :
        (cs : List RuntimeControl)
        → is_single cs ≡ true
        → (db : Database) → db.controls ≡ cs
        → let ds = (set_global_pause now b db).controls in
          (is_single ds ≡ true) × (mode_of ds ≡ mode_of cs) × (pause_of ds ≡ b)
    go [] h db e =
        unfold set_global_pause get_runtime_control latest_control edit_latest is_newest in
        rw (e, latest_control) (refl, refl, refl)
    go (c ∷ []) h db e =
        unfold set_global_pause get_runtime_control latest_control edit_latest is_newest in
        rw (e, latest_control) (refl, refl, refl)
    go (c ∷ d ∷ cs) h db e = absurd (true≢false (sym h))

pub controls-set_mode :
    (now : ℕ) (mode : String) (db : Database)
    → is_single db.controls ≡ true
    → let cs = (set_mode now mode db).controls in
      (is_single cs ≡ true) × (mode_of cs ≡ mode) × (pause_of cs ≡ pause_of db.controls)
controls-set_mode now mode db single = go db.controls single db refl
  where
    go :
        (cs : List RuntimeControl)
        → is_single cs ≡ true
        → (db : Database) → db.controls ≡ cs
        → let ds = (set_mode now mode db).controls in
          (is_single ds ≡ true) × (mode_of ds ≡ mode) × (pause_of ds ≡ pause_of cs)
    go [] h db e =
        unfold set_mode write_config_audit get_runtime_control latest_control edit_latest
          is_newest in
        rw (e, latest_control) (refl, refl, refl)
    go (c ∷ []) h db e =
        unfold set_mode write_config_audit get_runtime_control latest_control edit_latest
          is_newest in
        rw (e, latest_control) (refl, refl, refl)
    go (c ∷ d ∷ cs) h db e = absurd (true≢false (sym h))

-- reading the row may add it
pub controls-read :
    (now : ℕ) (db : Database)
    → is_single db.controls ≡ true
    → let (c, db') = get_runtime_control now db in
      (is_single db'.controls ≡ true)
      × (mode_of db'.controls ≡ mode_of db.controls)
      × (pause_of db'.controls ≡ pause_of db.controls)
      × (c.mode ≡ mode_of db.controls)
      × (c.global_pause ≡ pause_of db.controls)
controls-read now db single = go db.controls single db refl
  where
    go :
        (cs : List RuntimeControl)
        → is_single cs ≡ true
        → (db : Database) → db.controls ≡ cs
        → let (c, db') = get_runtime_control now db in
          (is_single db'.controls ≡ true)
          × (mode_of db'.controls ≡ mode_of cs)
          × (pause_of db'.controls ≡ pause_of cs)
          × (c.mode ≡ mode_of cs)
          × (c.global_pause ≡ pause_of cs)
    go [] h db e =
        unfold get_runtime_control latest_control is_newest in
        rw (e, latest_control) (refl, refl, refl, refl, refl)
    go (c ∷ []) h db e =
        unfold get_runtime_control latest_control is_newest in
        rw (e, latest_control) (refl, refl, refl, refl, refl)
    go (c ∷ d ∷ cs) h db e = absurd (true≢false (sym h))
