-- ===== src/Edge/Persistence.antt =====
-- How long an edge has lasted: `_update_persistence` over the quotes of all routes.
use mathlib.Core.Bool.{true≢false}
use arbitrage_bot.Base.{
  Bool-cases, agree, differ, eq_iff, inl, inr, nat_eq, string_eq, sym, ◌==◌, ◌∙◌, List, Option,
  String, [], arith, if◌then◌else◌, none, some, ℕ, ◌-◌, ◌∷◌, ◌≡◌,
}
use arbitrage_bot.Base.Dict.{Dict, lookup, lookup-erase, lookup-insert}
use arbitrage_bot.Decimal.{Decimal, le}
use arbitrage_bot.Edge.{update_persistence}
use text.Mathlib.TextPositions.{eq_refl}

-- A quote of a route: the instant, the threshold of its profile and the modeled edge.
pub record Quoted : Type 0 where
  pub now : ℕ
  pub route_id : String
  pub threshold : Decimal
  pub edge : Decimal

-- the state after the quotes, of any routes, latest first
unfoldable pub after : List Quoted → Dict ℕ → Dict ℕ
after [] started = started
after (q ∷ quotes) started =
    (update_persistence q.now q.route_id q.threshold q.edge (after quotes started)).1

-- The instant at which the route's present run of quotes at or above the threshold began, if there is a
-- run. The quotes of other routes do not count.
unfoldable pub run_start : String → List Quoted → Option ℕ
run_start route_id [] = none
run_start route_id (q ∷ quotes) =
    let earlier = run_start route_id quotes in
    if q.route_id == route_id
    then (if le q.threshold q.edge
        then elim earlier [ none ↦ some q.now | some start ↦ some start ]
        else none)
    else earlier

lookup-after :
    (route_id : String) (quotes : List Quoted) (started : Dict ℕ)
    → lookup route_id started ≡ none
    → lookup route_id (after quotes started) ≡ run_start route_id quotes
unfolding after run_start update_persistence
lookup-after route_id [] started h = h
lookup-after route_id (q ∷ quotes) started h =
    let earlier = lookup-after route_id quotes started h in
    elim (Bool-cases (q.route_id == route_id)) [
      | inl b ↦
          let same = (eq_iff q.route_id route_id).0 b in
          let put = lookup-insert route_id route_id q.now (after quotes started) in
          let gone = lookup-erase route_id route_id (after quotes started) in
          rw same (ground (arith, eq_refl route_id))
      | inr b ↦
          let put = lookup-insert route_id q.route_id q.now (after quotes started) in
          let gone = lookup-erase route_id q.route_id (after quotes started) in
          let other = differ route_id q.route_id (λ e. true≢false (sym (agree _ _ (sym e)) ∙ b)) in
          ground arith
    ]

-- The persistence of an edge is the time since the present unbroken run of the route's quotes at or
-- above the threshold began: it starts at 0, a quote of the route below the threshold ends the run, and
-- the next run starts at 0 again. The quotes of other routes come in between in any number and order.
pub update_persistence_lem :
    (q : Quoted) (quotes : List Quoted) (started : Dict ℕ)
    → lookup q.route_id started ≡ none
    → (update_persistence q.now q.route_id q.threshold q.edge (after quotes started)).0
      ≡ elim (run_start q.route_id (q ∷ quotes)) [ none ↦ 0 | some start ↦ q.now - start ]
unfolding run_start update_persistence
update_persistence_lem q quotes started h =
    let earlier = lookup-after q.route_id quotes started h in ground (arith, eq_refl q.route_id)
