-- ===== src/Execution.antt =====
-- app/execution/live.py: `LiveDryRunExecutionEngine`, app/execution/paper.py: `PaperExecutionEngine`.
-- The texts of amounts in the returned dicts are left out.
use arbitrage_bot.Base.{
  agree, sym, ◌∙◌, Bool, List, Option, String, [], any, arith, false, if◌then◌else◌, nat_eq, none,
  not, refl, some, string_eq, true, ◌==◌, ◌||◌, ◌↔◌, ◌∷◌, ◌≡◌,
}
use mathlib.Core.Bool.{true≢false}
use arbitrage_bot.Decimal.{Decimal, dec, sub}
use arbitrage_bot.Quote.{RouteQuote}
use arbitrage_bot.Settings.{Settings}

-- the engine's state; the settings and the client do not change
pub record LiveEngine : Type 0 where
  pub runtime_armed : Bool

abbrev pub new_engine : LiveEngine
new_engine = record { runtime_armed = false }

unfoldable pub arm_live : Settings → String → LiveEngine → Bool × LiveEngine
arm_live s confirmation_token e =
    if s.allow_live_without_token || confirmation_token == s.live_confirmation_token
    then (true, record { runtime_armed = true })
    else (false, e)

unfoldable pub disarm_live : LiveEngine → LiveEngine
disarm_live e = record { runtime_armed = false }

-- the dict that an operation returns: `ok` and `blocked_reason`
pub record Answer : Type 0 where
  pub ok : Bool
  pub blocked_reason : String

abbrev pub blocked : String → Answer
blocked reason = record { ok = false; blocked_reason = reason }

-- `execute`
unfoldable pub execute_live : Settings → LiveEngine → Answer
execute_live s e =
    if not s.live_enable_flag
    then blocked "live_flag_off"
    else if not e.runtime_armed
    then blocked "live_not_armed"
    else if not s.live_execution_enabled
    then blocked "live_execution_disabled"
    else blocked "live_submit_not_implemented"

-- `dry_run`, with the answer of the client's `validate_chain` where there is a client
unfoldable pub dry_run_live : Option Bool → Answer
dry_run_live none = record { ok = true; blocked_reason = "" }
dry_run_live (some chain_ok) =
    if chain_ok then record { ok = true; blocked_reason = "" } else blocked "chain_id_mismatch"

-- the realized result of a paper execution
unfoldable pub paper_realized : RouteQuote → Decimal
paper_realized q = sub q.modeled_net_edge_amount (dec 2 2)

-- the calls on a live engine, in any order
pub data Call : Type 0 where
  arm : String → Call
  disarm : Call

unfoldable pub call : Settings → Call → LiveEngine → LiveEngine
unfolding arm_live disarm_live
call s (arm token) e = (arm_live s token e).1
call s disarm e = disarm_live e

unfoldable pub calls : Settings → List Call → LiveEngine → LiveEngine
unfolding call
calls s [] e = e
calls s (c ∷ cs) e = calls s cs (call s c e)

-- the calls of the run that come after its last disarming
unfoldable pub since_disarm : List Call → List Call → List Call
since_disarm seen [] = seen
since_disarm seen (disarm ∷ cs) = since_disarm [] cs
since_disarm seen (arm token ∷ cs) = since_disarm (arm token ∷ seen) cs

-- whether a call arms
unfoldable pub arms : Settings → Call → Bool
arms s disarm = false
arms s (arm token) = s.allow_live_without_token || token == s.live_confirmation_token

calls-armed :
    (s : Settings) (cs seen : List Call) (e : LiveEngine)
    → e.runtime_armed ≡ any (arms s) seen
    → (calls s cs e).runtime_armed ≡ any (arms s) (since_disarm seen cs)
unfolding calls call since_disarm
calls-armed s [] seen e h = h
calls-armed s (disarm ∷ cs) seen e h =
    calls-armed s cs [] (disarm_live e) (unfold disarm_live in refl)
calls-armed s (arm token ∷ cs) seen e h =
    calls-armed s cs (arm token ∷ seen) (arm_live s token e).1
      (unfold arm_live arms in ground arith)

-- two texts that are told apart
other : (a b : String) → a ≡ b → (a == b) ≡ false → ⊥
other a b h d = true≢false (sym (agree a b h) ∙ d)

-- the reason of an execution, for each state of the flag, the arming and the setting
reason_iff :
    (s : Settings) (e : LiveEngine)
    → let reason = (execute_live s e).blocked_reason in
      ((reason ≡ "live_flag_off") ↔ (s.live_enable_flag ≡ false))
      × ((reason ≡ "live_not_armed") ↔ ((s.live_enable_flag ≡ true) × (e.runtime_armed ≡ false)))
      × ((reason ≡ "live_execution_disabled") ↔ (
          (s.live_enable_flag ≡ true)
          × (e.runtime_armed ≡ true)
          × (s.live_execution_enabled ≡ false)))
      × ((reason ≡ "live_submit_not_implemented") ↔ (
          (s.live_enable_flag ≡ true)
          × (e.runtime_armed ≡ true)
          × (s.live_execution_enabled ≡ true)))
unfolding execute_live
reason_iff s e = go s.live_enable_flag e.runtime_armed s.live_execution_enabled
  where
    go :
        (flag armed enabled : Bool)
        → let reason =
            (if not flag
              then blocked "live_flag_off"
              else if not armed
              then blocked "live_not_armed"
              else if not enabled
              then blocked "live_execution_disabled"
              else blocked "live_submit_not_implemented").blocked_reason in
          ((reason ≡ "live_flag_off") ↔ (flag ≡ false))
          × ((reason ≡ "live_not_armed") ↔ ((flag ≡ true) × (armed ≡ false)))
          × ((reason ≡ "live_execution_disabled")
              ↔ ((flag ≡ true) × (armed ≡ true) × (enabled ≡ false)))
          × ((reason ≡ "live_submit_not_implemented")
              ↔ ((flag ≡ true) × (armed ≡ true) × (enabled ≡ true)))
    go false armed enabled = (
      ((λ h. refl), (λ h. refl)),
      ((λ h. absurd (other _ _ h refl)), (λ h. cc)),
      ((λ h. absurd (other _ _ h refl)), (λ h. cc)),
      ((λ h. absurd (other _ _ h refl)), (λ h. cc)),
    )
    go true false enabled = (
      ((λ h. absurd (other _ _ h refl)), (λ h. cc)),
      ((λ h. (refl, refl)), (λ h. refl)),
      ((λ h. absurd (other _ _ h refl)), (λ h. cc)),
      ((λ h. absurd (other _ _ h refl)), (λ h. cc)),
    )
    go true true false = (
      ((λ h. absurd (other _ _ h refl)), (λ h. cc)),
      ((λ h. absurd (other _ _ h refl)), (λ h. cc)),
      ((λ h. (refl, refl, refl)), (λ h. refl)),
      ((λ h. absurd (other _ _ h refl)), (λ h. cc)),
    )
    go true true true = (
      ((λ h. absurd (other _ _ h refl)), (λ h. cc)),
      ((λ h. absurd (other _ _ h refl)), (λ h. cc)),
      ((λ h. absurd (other _ _ h refl)), (λ h. cc)),
      ((λ h. (refl, refl, refl)), (λ h. refl)),
    )

-- The live engine is armed exactly where a call after the last disarming gave the confirmation token,
-- or no token is needed. Whatever the calls before and the settings are, an execution is never
-- acknowledged, and its reason is: the flag is off; the flag is on and the engine is not armed; both hold
-- and the execution is disabled; all three hold and there is no submission. Each reason is given exactly
-- in its case.
pub execute_live_blocks :
    (s : Settings) (cs : List Call)
    → let e = calls s cs new_engine in
      let reason = (execute_live s e).blocked_reason in
      (e.runtime_armed ≡ any (arms s) (since_disarm [] cs))
      × ((execute_live s e).ok ≡ false)
      × ((reason ≡ "live_flag_off") ↔ (s.live_enable_flag ≡ false))
      × ((reason ≡ "live_not_armed") ↔ ((s.live_enable_flag ≡ true) × (e.runtime_armed ≡ false)))
      × ((reason ≡ "live_execution_disabled") ↔ (
          (s.live_enable_flag ≡ true)
          × (e.runtime_armed ≡ true)
          × (s.live_execution_enabled ≡ false)))
      × ((reason ≡ "live_submit_not_implemented") ↔ (
          (s.live_enable_flag ≡ true)
          × (e.runtime_armed ≡ true)
          × (s.live_execution_enabled ≡ true)))
execute_live_blocks s cs =
    let (flag, arming, setting, submission) = reason_iff s (calls s cs new_engine) in
    (
      calls-armed s cs [] new_engine refl,
      unfold execute_live in ground arith,
      flag,
      arming,
      setting,
      submission,
    )
