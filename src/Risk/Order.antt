-- ===== src/Risk/Order.antt =====
-- What a run over a list of guards shows of the guards.
use arbitrage_bot.Base.{
  inl, inr, arith, All, Bool, List, Option, String, [], false, none, refl, some, true, ◌++◌, ◌∷◌,
  ◌≡◌, ◌⊎◌,
}
use arbitrage_bot.Base.Dict.{Dict, insert}
use arbitrage_bot.Base.Result.{ok}
use arbitrage_bot.Risk.Evaluate.{run_guards}
use arbitrage_bot.Risk.Guards.{Guard}

abbrev pub Passes : Guard → Type 0
Passes g = g.passed ≡ ok true

-- No test raises as long as all earlier ones pass.
abbrev pub Safe : List Guard → Type 0
Safe [] = Unit
Safe (g ∷ gs) = (b : Bool) × (g.passed ≡ ok b) × (b ≡ true → Safe gs)

-- The first guard that fails is one of the list: `reason` is its reason, and all before it passed.
abbrev pub FailsFirst : String → List Guard → Type 0
FailsFirst reason [] = ⊥
FailsFirst reason (g ∷ gs) =
    ((g.passed ≡ ok false) × (reason ≡ g.reason)) ⊎ (Passes g × FailsFirst reason gs)

pub Safe-append : (gs hs : List Guard) → Safe gs → (All Passes gs → Safe hs) → Safe (gs ++ hs)
Safe-append [] hs s t = t tt
Safe-append (g ∷ gs) hs (b, e, s) t = (b, e, λ p. Safe-append gs hs (s p) (λ a. t (rw (← p) e, a)))

pub All-Passes-append : (gs hs : List Guard) → All Passes (gs ++ hs) → All Passes gs × All Passes hs
All-Passes-append [] hs a = (tt, a)
All-Passes-append (g ∷ gs) hs (p, a) = let (b, c) = All-Passes-append gs hs a in ((p, b), c)

-- A run of safe guards ends without an exception.
pub run_guards-Safe :
    (checks : Dict Bool) (gs : List Guard)
    → Safe gs
    → (out : Option String × Dict Bool) × (run_guards checks gs ≡ ok out)
unfolding run_guards
run_guards-Safe checks [] s = ((none, checks), refl)
run_guards-Safe checks (g ∷ gs) (true, e, s) =
    let (out, p) = run_guards-Safe (insert g.name true checks) gs (s refl) in
    (out, rw (e, run_guards) p)
run_guards-Safe checks (g ∷ gs) (false, e, s) =
    ((some g.reason, insert g.name false checks), rw (e, run_guards))

-- A run that names no reason has passed every guard, and so the other way round.
pub run_guards-none :
    (checks : Dict Bool) (gs : List Guard) {after : Dict Bool}
    → run_guards checks gs ≡ ok (none, after)
    → All Passes gs
unfolding run_guards
run_guards-none checks [] h = tt
run_guards-none checks (g ∷ gs) {after} h =
    ground (arith, run_guards-none (insert g.name true checks) gs {after = after})

pub run_guards-pass :
    (checks : Dict Bool) (gs : List Guard)
    → All Passes gs
    → (after : Dict Bool) × (run_guards checks gs ≡ ok (none, after))
unfolding run_guards
run_guards-pass checks [] a = (checks, refl)
run_guards-pass checks (g ∷ gs) (p, a) =
    let (after, q) = run_guards-pass (insert g.name true checks) gs a in
    (after, rw (p, run_guards) q)

-- A run that names a reason names that of the first guard that fails.
pub run_guards-some :
    (checks : Dict Bool) (gs : List Guard) {reason : String} {after : Dict Bool}
    → run_guards checks gs ≡ ok (some reason, after)
    → FailsFirst reason gs
unfolding run_guards
run_guards-some checks [] h = cc
run_guards-some checks (g ∷ gs) {reason} {after} h =
    ground (arith, run_guards-some (insert g.name true checks) gs {reason = reason} {after = after})

-- The first failing guard of a list stays first before more guards, and after guards that pass.
pub FailsFirst-left :
    (reason : String) (gs hs : List Guard) → FailsFirst reason gs → FailsFirst reason (gs ++ hs)
FailsFirst-left reason [] hs f = absurd f
FailsFirst-left reason (g ∷ gs) hs (inl f) = inl f
FailsFirst-left reason (g ∷ gs) hs (inr (p, f)) = inr (p, FailsFirst-left reason gs hs f)

pub FailsFirst-right :
    (reason : String) (gs hs : List Guard)
    → All Passes gs
    → FailsFirst reason hs
    → FailsFirst reason (gs ++ hs)
FailsFirst-right reason [] hs a f = f
FailsFirst-right reason (g ∷ gs) hs (p, a) f = inr (p, FailsFirst-right reason gs hs a f)

-- Where every guard passes, none fails first.
pub FailsFirst-not : (reason : String) (gs : List Guard) → All Passes gs → ¬ FailsFirst reason gs
FailsFirst-not reason [] a f = f
FailsFirst-not reason (g ∷ gs) (p, a) (inl (q, e)) = cc
FailsFirst-not reason (g ∷ gs) (p, a) (inr (q, f)) = FailsFirst-not reason gs a f
