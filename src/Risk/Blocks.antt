-- ===== src/Risk/Blocks.antt =====
-- A blocked decision names the first condition that is not met.
use arbitrage_bot.Quote.{OpportunityDecision}
use arbitrage_bot.Risk.{put_stats, Manager}
use arbitrage_bot.Risk.Conditions.{
  conditions, route_conditions, Conditions, FirstUnmet, confidence_conditions, health_conditions,
  live_conditions, market_conditions, pause_conditions, shadow_conditions, size_conditions,
}
use arbitrage_bot.Risk.Decision.{evaluate-FailsFirst}
use arbitrage_bot.Risk.Evaluate.{dynamic_guards, evaluate, static_guards, trim_route}
use arbitrage_bot.Risk.Guards.{
  route_guards, Guard, Request, balance_reason, confidence_guards, health_guards, live_guards,
  market_guards, mode_guards, pause_guards, shadow_guards, size_guards, venue_tokens,
}
use arbitrage_bot.Risk.Permit.Match.{
  stats-trim_route, cooldown-trim_route, settings-trim_route, share_iff, venues_iff,
}
use mathlib.Core.Path.{subst}
use arbitrage_bot.Base.{
  Bool, Bool-cases, List, String, [], agree, ap, arith, eq_iff, false, if◌then◌else◌, inl, inr,
  nat_eq, not, refl, string_eq, suc, true, ℕ, ◌&&◌, ◌++◌, ◌==◌, ◌↔◌, ◌∙◌, ◌∷◌, ◌≡◌, ◌≢◌,
}
use arbitrage_bot.Base.Int.{ltb_ℤ, pos, ℤ, ◌≤ℤ◌}
use arbitrage_bot.Base.Result.{Result, ok, ok-cancel}
use arbitrage_bot.Settings.{is_live}
use arbitrage_bot.Risk.Order.{FailsFirst}

-- the guards are the conditions, one by one: the same reason, and the test passes where it is met
abbrev Matches : List Guard → Conditions → Type 0
Matches [] [] = Unit
Matches [] (c ∷ cs) = ⊥
Matches (g ∷ gs) [] = ⊥
Matches (g ∷ gs) ((name, C) ∷ cs) = (g.reason ≡ name) × ((g.passed ≡ ok true) ↔ C) × Matches gs cs

Matches-append :
    (gs hs : List Guard) (cs ds : Conditions)
    → Matches gs cs
    → Matches hs ds
    → Matches (gs ++ hs) (cs ++ ds)
Matches-append [] hs [] ds a b = b
Matches-append [] hs (c ∷ cs) ds a b = absurd a
Matches-append (g ∷ gs) hs [] ds a b = absurd a
Matches-append (g ∷ gs) hs ((name, C) ∷ cs) ds (e, i, a) b = (e, i, Matches-append gs hs cs ds a b)

FirstUnmet-guards :
    (reason : String) (gs : List Guard) (cs : Conditions)
    → Matches gs cs
    → FailsFirst reason gs
    → FirstUnmet reason cs
FirstUnmet-guards reason [] cs a f = absurd f
FirstUnmet-guards reason (g ∷ gs) [] a f = absurd a
FirstUnmet-guards reason (g ∷ gs) ((name, C) ∷ cs) (e, (to, from), a) (inl (out, same)) =
    inl (same ∙ e, (λ c. let passed = from c in cc))
FirstUnmet-guards reason (g ∷ gs) ((name, C) ∷ cs) (e, (to, from), a) (inr (passed, f)) =
    inr (to passed, FirstUnmet-guards reason gs cs a f)

-- tests and conditions
holds : (b : Bool) → (ok b ≡ ok true) ↔ (b ≡ true)
holds b = ((λ h. ok-cancel h), (λ h. ap ok h))

fails : (b : Bool) → (ok (not b) ≡ ok true) ↔ (b ≡ false)
fails b = ((λ h. ground arith), (λ h. ground arith))

equals : (x y : String) → (ok (x == y) ≡ ok true) ↔ (x ≡ y)
equals x y = ((λ h. (eq_iff x y).0 (ok-cancel h)), (λ h. ap ok (agree x y h)))

differs : (x y : String) → (ok (not (x == y)) ≡ ok true) ↔ (x ≢ y)
differs x y = ((λ h. ground (arith, eq_iff x y)), (λ n. ground (arith, eq_iff x y)))

known : (b : Bool) (x y : String) → (ok (b && not (x == y)) ≡ ok true) ↔ ((b ≡ true) × (x ≢ y))
known b x y =
    ((λ h. (ground arith, ground (arith, eq_iff x y))), (λ (p, n). ground (arith, eq_iff x y)))

same_call : (o : Result Bool) → (o ≡ ok true) ↔ (o ≡ ok true)
same_call o = ((λ h. h), (λ h. h))

below : (n : ℕ) (limit : ℤ) → (ok (ltb_ℤ (pos n) limit) ≡ ok true) ↔ (pos (suc n) ≤ℤ limit)
below n limit = ((λ h. ground arith), (λ h. ground arith))

if_needed :
    (x y : String) (b : Bool) → (ok (if x == y then b else true) ≡ ok true) ↔ (x ≡ y → b ≡ true)
if_needed x y b = ((λ h e. ground (arith, eq_iff x y)), (λ h. ground (arith, eq_iff x y)))

module _ (m : Manager) (r : Request) where
  pause-Matches : Matches (pause_guards m r) (pause_conditions m r)
  unfolding pause_guards
  pause-Matches = (
    refl,
    fails _,
    (
      refl,
      fails _,
      (
        refl,
        fails _,
        (
          refl,
          fails _,
          (
            refl,
            (
              (λ h. (venues_iff m (venue_tokens r.quote)).0 (ok-cancel h)),
              (λ a. ap ok ((venues_iff m (venue_tokens r.quote)).1 a)),
            ),
            tt,
          ),
        ),
      ),
    ),
  )

  health-Matches : Matches (health_guards m r) (health_conditions m r)
  unfolding health_guards
  health-Matches = (
    refl,
    differs _ _,
    (
      refl,
      holds _,
      (
        refl,
        holds _,
        (refl, holds _, (refl, holds _, (refl, holds _, (refl, holds _, (refl, holds _, tt))))),
      ),
    ),
  )

  confidence-Matches : Matches (confidence_guards m r) (confidence_conditions m r)
  unfolding confidence_guards balance_reason
  confidence-Matches = (
    refl,
    holds _,
    (
      refl,
      differs _ _,
      (
        refl,
        same_call _,
        (
          refl,
          known _ _ _,
          (
            refl,
            same_call _,
            (
              refl,
              if_needed _ _ _,
              (refl, known _ _ _, (refl, known _ _ _, (refl, same_call _, tt))),
            ),
          ),
        ),
      ),
    ),
  )

  market-Matches : Matches (market_guards m r) (market_conditions m r)
  unfolding market_guards
  market-Matches = (
    refl,
    holds _,
    (
      refl,
      holds _,
      (
        refl,
        below _ _,
        (
          refl,
          holds _,
          (
            refl,
            equals _ _,
            (
              refl,
              holds _,
              (refl, holds _, (refl, holds _, (refl, (λ h. ground arith, λ h. ground arith), tt))),
            ),
          ),
        ),
      ),
    ),
  )

  size-Matches : Matches (size_guards m r) (size_conditions m r)
  unfolding size_guards
  size-Matches = (refl, holds _, (refl, holds _, (refl, share_iff m r, (refl, holds _, tt))))

  mode-Matches :
      Matches
        (mode_guards m r)
        (if is_live r.mode then live_conditions m r else shadow_conditions m r)
  unfolding mode_guards live_guards shadow_guards
  mode-Matches = elim (Bool-cases (is_live r.mode)) [
    | inl l ↦
        rw l (refl, holds _, (refl, holds _, (refl, holds _, (refl, holds _, (refl, holds _, tt)))))
    | inr l ↦ rw l (refl, holds _, (refl, holds _, (refl, holds _, tt)))
  ]

  static-Matches : Matches (static_guards m r) (
      pause_conditions m r
      ++ (health_conditions m r
          ++ (confidence_conditions m r ++ (market_conditions m r ++ size_conditions m r))))
  unfolding static_guards
  static-Matches = Matches-append _ _ _ _ pause-Matches (
      Matches-append _ _ _ _ health-Matches (
        Matches-append _ _ _ _ confidence-Matches
          (Matches-append _ _ _ _ market-Matches size-Matches)))

  -- the statistics are those after the trimming
  route-Matches :
      (now : ℕ)
      → Matches (route_guards now (trim_route now r.quote.route_id m) r) (route_conditions now m r)
  unfolding route_guards
  route-Matches now =
      let stats = stats-trim_route now r.quote.route_id m in
      let settings = settings-trim_route now r.quote.route_id m in
      let cooldown = cooldown-trim_route now r.quote.route_id m in
      (
        refl,
        ((λ h. ground arith), (λ h. ground arith)),
        (
          refl,
          ((λ h. ground arith), (λ h. ground arith)),
          (
            refl,
            ((λ h. ground arith), (λ h. ground arith)),
            (refl, ((λ h. ground arith), (λ h. ground arith)), tt),
          ),
        ),
      )

  trimmed-Matches :
      (now : ℕ)
      → Matches
          (mode_guards (trim_route now r.quote.route_id m) r)
          (if is_live r.mode then live_conditions m r else shadow_conditions m r)
  unfolding trim_route put_stats mode_guards live_guards shadow_guards
  trimmed-Matches now =
      let same : mode_guards m r ≡ mode_guards (trim_route now r.quote.route_id m) r = refl in
      subst
        (λ gs. Matches gs (if is_live r.mode then live_conditions m r else shadow_conditions m r))
        same mode-Matches

-- A blocked decision names the first condition, in the order of the code, that the request does not
-- meet: the reason is the one listed with it, the condition does not hold, and every condition before it
-- holds.
pub evaluate_blocks_first :
    (now : ℕ) (r : Request) (m : Manager) {d : OpportunityDecision}
    → (evaluate now r m).0 ≡ ok d
    → d.tradable ≡ false
    → FirstUnmet d.blocked_reason (conditions now m r)
unfolding dynamic_guards
evaluate_blocks_first now r m {d} h blocked =
    FirstUnmet-guards d.blocked_reason _ (conditions now m r)
      (Matches-append _ _ _ _ (static-Matches m r)
        (Matches-append _ _ _ _ (route-Matches m r now) (trimmed-Matches m r now)))
      (evaluate-FailsFirst now r m h blocked)
