-- ===== src/App/Restores.antt =====
-- What the operator can restore by requests.
use arbitrage_bot.Risk
use arbitrage_bot.Base.Dict.{lookup-erase, contains-set_discard, lookup}
use arbitrage_bot.Risk.{
  clear_cooldown, put_stats, Manager, resume_route, resume_venue, set_global_kill, stats_of,
}
use arbitrage_bot.Risk.Guards.{Request, venue_tokens}
use arbitrage_bot.Risk.Permit.{Running}
use arbitrage_bot.Risk.Stats.{stats-clear_route}
use mathlib.Core.Path.{subst}
use arbitrage_bot.App.{App, Env}
use arbitrage_bot.App.Control.{Command, enable_route, enable_venue, handle, resume}
use arbitrage_bot.App.Effects.{execute-manager, manager_effect}
use arbitrage_bot.App.Fixed.{settings-effect}
use arbitrage_bot.Base.{
  All, List, String, [], agree, ap, arith, contains, false, nat_eq, none, refl, some, string_eq,
  sym, ◌==◌, ◌∙◌, ◌∷◌, ◌≡◌,
}
use arbitrage_bot.Quote.{RouteQuote}

-- requests with the same token
unfoldable pub requests : Env → String → List Command → App → App
requests env token [] a = a
requests env token (c ∷ cs) a =
    requests env token cs (handle env record { token = token; command = c } a).1

abbrev effects : List Command → Manager → Manager
effects [] m = m
effects (c ∷ cs) m = effects cs (manager_effect c m)

requests-manager :
    (env : Env) (token : String) (cs : List Command) (a : App)
    → token ≡ a.manager.settings.control_api_token
    → (requests env token cs a).manager ≡ effects cs a.manager
unfolding requests
requests-manager env token [] a e = refl
requests-manager env token (c ∷ cs) a e =
    let b = (handle env record { token = token; command = c } a).1 in
    let same : b.manager ≡ manager_effect c a.manager =
      unfold handle in
      rw (agree token a.manager.settings.control_api_token e) (execute-manager env c a) in
    requests-manager env token cs b (
      e
      ∙ sym (
          ap (λ m. m.settings.control_api_token) same
          ∙ ap (λ s. s.control_api_token) (settings-effect c a.manager)))
    ∙ ap (effects cs) same

-- the requests that enable venues
abbrev pub enable_all : List String → List Command
enable_all [] = []
enable_all (v ∷ vs) = enable_venue v ∷ enable_all vs

-- the requests that undo what keeps a route from trading
abbrev pub recovery : RouteQuote → List Command
recovery q =
    resume
    ∷ enable_route q.route_id
    ∷ Command.resume_strategy q.strategy
    ∷ Command.clear_cooldown (some q.route_id)
    ∷ enable_all (venue_tokens q)

-- enabling venues changes the paused venues alone, and leaves none of these paused
enabled-venues :
    (vs : List String) (m : Manager)
    → effects (enable_all vs) m
      ≡ record m { venue_paused = (effects (enable_all vs) m).venue_paused }
unfolding resume_venue
enabled-venues [] m = refl
enabled-venues (v ∷ vs) m = enabled-venues vs (Risk.resume_venue v m)

still-enabled :
    (j : String) (vs : List String) (m : Manager)
    → contains j m.venue_paused ≡ false
    → contains j (effects (enable_all vs) m).venue_paused ≡ false
unfolding resume_venue
still-enabled j [] m h = h
still-enabled j (v ∷ vs) m h =
    still-enabled j vs (Risk.resume_venue v m)
      (ground (arith, contains-set_discard j v m.venue_paused, h))

venues-enabled :
    (vs : List String) (m : Manager)
    → All (λ v. contains v (effects (enable_all vs) m).venue_paused ≡ false) vs
unfolding resume_venue
venues-enabled [] m = tt
venues-enabled (v ∷ vs) m = (
  still-enabled v vs (Risk.resume_venue v m)
      (ground (arith, contains-set_discard v v m.venue_paused, agree v v refl)),
  venues-enabled vs (Risk.resume_venue v m),
)

-- the manager after the first four requests
abbrev cleared : RouteQuote → Manager → Manager
cleared q m =
    Risk.clear_cooldown (some q.route_id)
      (Risk.resume_strategy q.strategy (Risk.resume_route q.route_id (set_global_kill false m)))

cleared-facts :
    (q : RouteQuote) (m : Manager)
    → (q.route_id == "") ≡ false
    → let n = cleared q m in
      (n.global_kill_switch ≡ false)
      × (contains q.strategy n.strategy_paused ≡ false)
      × (contains q.route_id n.route_paused ≡ false)
      × (n.pair_paused ≡ m.pair_paused)
      × ((stats_of q.route_id n).consecutive_failures ≡ 0)
      × (lookup q.route_id n.cooldown_until ≡ none)
unfolding set_global_kill resume_route clear_cooldown Risk.resume_strategy put_stats
cleared-facts q m e =
    let n =
      Risk.resume_strategy q.strategy (Risk.resume_route q.route_id (set_global_kill false m)) in
    (
      rw e refl,
      rw e (
          contains-set_discard q.strategy q.strategy m.strategy_paused
          ∙ rw (agree q.strategy q.strategy refl) refl),
      rw e (
          contains-set_discard q.route_id q.route_id m.route_paused
          ∙ rw (agree q.route_id q.route_id refl) refl),
      rw e refl,
      ap (λ s. s.consecutive_failures) (stats-clear_route q.route_id q.route_id n e)
          ∙ rw (agree q.route_id q.route_id refl) refl,
      rw e (
          lookup-erase q.route_id q.route_id m.cooldown_until
          ∙ rw (agree q.route_id q.route_id refl) refl),
    )

-- With the control token, the operator can always take a route out of every pause that the program
-- sets: after `resume`, `enable_route`, `resume_strategy`, `clear_cooldown` and the enabling of the
-- venues of a quote, no switch and no pause applies to it, the route has no failures and no cooldown.
-- The route's name is not empty and its pair is not paused, which no request does.
pub operator_restores :
    (env : Env) (a : App) (r : Request)
    → (r.quote.route_id == "") ≡ false
    → contains r.quote.pair a.manager.pair_paused ≡ false
    → let z = requests env a.manager.settings.control_api_token (recovery r.quote) a in
      Running z.manager r
      × ((stats_of r.quote.route_id z.manager).consecutive_failures ≡ 0)
      × (lookup r.quote.route_id z.manager.cooldown_until ≡ none)
operator_restores env a r named pair =
    let q = r.quote in
    let (kill, strategy, route, same, failing, cooldown) = cleared-facts q a.manager named in
    let n = cleared q a.manager in
    let vs = venue_tokens q in
    let z =
      requests-manager env a.manager.settings.control_api_token (recovery q) a refl
      ∙ enabled-venues vs n in
    let paused = (effects (enable_all vs) n).venue_paused in
    subst
      (λ m.
        Running m r
        × ((stats_of q.route_id m).consecutive_failures ≡ 0)
        × (lookup q.route_id m.cooldown_until ≡ none))
      (sym z)
      (
        record {
          switch_off = kill;
          strategy_on = strategy;
          route_on = route;
          pair_on = ap (contains q.pair) same ∙ pair;
          venues_on = venues-enabled vs n;
        },
        unfold stats_of in failing,
        cooldown,
      )
