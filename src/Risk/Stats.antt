-- ===== src/Risk/Stats.antt =====
-- The statistics that each operation leaves, route by route.
use arbitrage_bot.Risk.Evaluate.{trim_route}
use arbitrage_bot.Base.Dict.{erase, get_or, lookup, Dict, get_or-insert}
use arbitrage_bot.Risk.{
  clear_entry, DateTime, as_utc, clear_cooldown, hydrate_route_state, resume_route, Manager,
  RouteStats, fatal_failure_categories, mark_failure, mark_success, new_stats, pause_route,
  put_stats, reset_daily_if_needed, stats_of, ten_minutes, trim, without_failure,
}
use arbitrage_bot.Base.{
  Bool, Option, false, map, none, Bool-cases, List, inl, inr, refl, ◌∙◌, String, [], arith,
  contains, if◌then◌else◌, nat_eq, some, string_eq, ℕ, ◌++◌, ◌+◌, ◌-◌, ◌==◌, ◌∷◌, ◌≡◌,
}
use arbitrage_bot.Base.Int.{pos_part, ℤ}
use arbitrage_bot.Decimal.{add, Decimal, dec, lt}

pub stats-put_stats :
    (j k : String) (stats : RouteStats) (m : Manager)
    → stats_of j (put_stats k stats m) ≡ (if j == k then stats else stats_of j m)
unfolding stats_of put_stats
stats-put_stats j k stats m = get_or-insert j k stats new_stats m.route_stats

pub stats-reset_daily :
    (now : ℕ) (j : String) (m : Manager) → stats_of j (reset_daily_if_needed now m) ≡ stats_of j m
unfolding reset_daily_if_needed stats_of
stats-reset_daily now j m = ground arith

-- The other fields do not matter.
pub stats-with_pnl :
    (j : String) (p : Decimal) (m : Manager)
    → stats_of j (record m { daily_realized_pnl = p }) ≡ stats_of j m
unfolding stats_of
stats-with_pnl j p m = refl

pub stats-with_cooldown :
    (j : String) (c : Dict ℕ) (m : Manager)
    → stats_of j (record m { cooldown_until = c }) ≡ stats_of j m
unfolding stats_of
stats-with_cooldown j c m = refl

pub stats-with_paused :
    (j : String) (p : List String) (m : Manager)
    → stats_of j (record m { route_paused = p }) ≡ stats_of j m
unfolding stats_of
stats-with_paused j p m = refl

-- the statistics that a success leaves
abbrev pub after_success : ℕ → Decimal → RouteStats → RouteStats
after_success now pnl stats = record (without_failure stats) {
  consecutive_losses = if lt pnl (dec 0 0) then stats.consecutive_losses + 1 else 0;
  executions = trim (now - ten_minutes) (stats.executions ++ now ∷ []);
}

pub stats-mark_success :
    (now : ℕ) (j k : String) (pnl : Decimal) (m : Manager)
    → stats_of j (mark_success now k pnl m)
      ≡ (if j == k then after_success now pnl (stats_of k m) else stats_of j m)
unfolding mark_success
stats-mark_success now j k pnl m = simp stats-put_stats (
    simp stats-reset_daily (
      rw (
        stats-with_pnl j (add (reset_daily_if_needed now m).daily_realized_pnl pnl)
            (reset_daily_if_needed now m),
        stats-reset_daily now j m,
      )))

-- the statistics that a failure leaves
abbrev pub after_failure : ℕ → String → String → RouteStats → RouteStats
after_failure now category reason stats = record stats {
  consecutive_failures = stats.consecutive_failures + 1;
  last_failure_category = category;
  last_failure_reason = reason;
  last_failure_at = some now;
  last_failure_fatal = contains category fatal_failure_categories;
}

pub stats-mark_failure :
    (now : ℕ) (j k category reason : String) (m : Manager)
    → stats_of j (mark_failure now k category reason m)
      ≡ (if j == k then after_failure now category reason (stats_of k m) else stats_of j m)
unfolding mark_failure pause_route
stats-mark_failure now j k category reason m =
    elim (Bool-cases (contains category fatal_failure_categories)) [
      | inl fatal ↦
          rw fatal (stats-with_paused j _ _ ∙ stats-with_cooldown j _ _ ∙ stats-put_stats j k _ m)
      | inr soft ↦ rw soft (stats-with_cooldown j _ _ ∙ stats-put_stats j k _ m)
    ]

-- Clearing forgets failures alone: losses and executions stay.
without-map :
    (j : String) (d : Dict RouteStats)
    → get_or j new_stats (map clear_entry d) ≡ without_failure (get_or j new_stats d)
unfolding get_or lookup
without-map j [] = refl
without-map j ((k, s) ∷ d) = ground (arith, without-map j d)

pub stats-clear_all :
    (j : String) (m : Manager) → stats_of j (clear_cooldown none m) ≡ without_failure (stats_of j m)
unfolding clear_cooldown stats_of
stats-clear_all j m = without-map j m.route_stats

pub stats-clear_route :
    (j k : String) (m : Manager)
    → (k == "") ≡ false
    → stats_of j (clear_cooldown (some k) m)
      ≡ (if j == k then without_failure (stats_of k m) else stats_of j m)
unfolding clear_cooldown
stats-clear_route j k m e =
    rw e (stats-put_stats j k _ _ ∙ rw (stats-with_cooldown j (erase k m.cooldown_until) m))

-- the statistics that a hydration leaves
abbrev pub after_hydration :
    String → String → Bool → Option DateTime → ℤ → ℤ → RouteStats → RouteStats
after_hydration category reason fatal failure_at failures losses stats = record stats {
  consecutive_failures = pos_part failures;
  consecutive_losses = pos_part losses;
  last_failure_category = category;
  last_failure_reason = reason;
  last_failure_fatal = fatal;
  last_failure_at = as_utc failure_at;
}

pub stats-hydrate :
    (now : ℕ) (j k : String) (paused : Bool) (cooldown : Option DateTime) (category reason : String)
    (fatal : Bool) (failure_at : Option DateTime) (failures losses : ℤ) (m : Manager)
    → stats_of j (
        hydrate_route_state now k paused cooldown category reason fatal failure_at failures losses
          m)
      ≡ (if j == k
          then after_hydration category reason fatal failure_at failures losses (stats_of k m)
          else stats_of j m)
unfolding hydrate_route_state pause_route resume_route
stats-hydrate now j k paused cooldown category reason fatal failure_at failures losses m =
    elim (Bool-cases paused) [
      | inl on ↦
          rw on (stats-with_cooldown j _ _ ∙ stats-with_paused j _ _ ∙ stats-put_stats j k _ m)
      | inr off ↦
          rw off (stats-with_cooldown j _ _ ∙ stats-with_paused j _ _ ∙ stats-put_stats j k _ m)
    ]

pub stats-trim_route :
    (now : ℕ) (j k : String) (m : Manager)
    → stats_of j (trim_route now k m) ≡ (
        if j == k
        then record (stats_of k m) {
          executions = trim (now - ten_minutes) (stats_of k m).executions;
        }
        else stats_of j m)
unfolding trim_route
stats-trim_route now j k m = stats-put_stats j k _ m
