-- ===== src/Risk/Permit/Match.antt =====
-- Each group of guards passes exactly where its part of `Permitted` holds.
use arbitrage_bot.Risk.Permit.{Calm, Healthy, Rested, Running, Sized, Trusted, Worthwhile}
use arbitrage_bot.Base.{
  Bool-cases, inl, inr, ap, nat_eq, string_eq, All, List, String, [], and_intro, and_left,
  and_right, arith, contains, eq_iff, false, not-false, not-true, refl, true, ℕ, ◌-◌, ◌↔◌, ◌∷◌, ◌≡◌,
}
use arbitrage_bot.Base.Dict.{get_or-insert, get_or}
use arbitrage_bot.Base.Result.{Result, err, ◌>>=◌, ok}
use arbitrage_bot.Risk.{put_stats, Manager, stats_of, ten_minutes, trim}
use arbitrage_bot.Risk.Evaluate.{trim_route}
use arbitrage_bot.Risk.Guards.{
  confidence_guards, live_guards, market_guards, mode_guards, pool_share_ok, route_guards,
  shadow_guards, size_guards, Request, balance_status, fee_status, health_guards, no_venue_paused,
  pause_guards, quote_match_status, required_quote_status, venue_tokens,
}
use text.Mathlib.TextPositions.{eq_refl}
use arbitrage_bot.Decimal.{Decimal, div, le}
use arbitrage_bot.Risk.Order.{Passes}
use arbitrage_bot.Settings.{is_live}

-- The venues that are not paused, as a test and as a predicate.
pub venues_iff :
    (m : Manager) (vs : List String)
    → (no_venue_paused m vs ≡ true) ↔ All (λ v. contains v m.venue_paused ≡ false) vs
unfolding no_venue_paused
venues_iff m [] = ((λ h. tt), (λ h. refl))
venues_iff m (v ∷ vs) =
    let (to, from) = venues_iff m vs in
    (
      (λ h. (not-true _ (and_left _ _ h), to (and_right _ _ h))),
      (λ h. and_intro _ _ (not-false _ h.0) (from h.1)),
    )

pub pause_iff : (m : Manager) (r : Request) → All Passes (pause_guards m r) ↔ Running m r
unfolding pause_guards
pause_iff m r = (
  λ (a : All Passes (pause_guards m r)). record {
    switch_off = ground arith;
    strategy_on = ground arith;
    route_on = ground arith;
    pair_on = ground arith;
    venues_on = (venues_iff m (venue_tokens r.quote)).0 (ground arith);
  },
  λ (p : Running m r).
      let venues = (venues_iff m (venue_tokens r.quote)).1 p.venues_on in ground arith,
)

pub health_iff : (m : Manager) (r : Request) → All Passes (health_guards m r) ↔ Healthy m r
unfolding health_guards
health_iff m r = (
  λ (a : All Passes (health_guards m r)). record {
    quoted = ground (arith, eq_iff (get_or "quote_unavailable" "false" r.quote.metadata) "true");
    fresh = ground arith;
    db = ground arith;
    rpc = ground arith;
    signing = ground arith;
  },
  λ (p : Healthy m r).
      ground (arith, eq_iff (get_or "quote_unavailable" "false" r.quote.metadata) "true"),
)

pub confidence_iff : (m : Manager) (r : Request) → All Passes (confidence_guards m r) ↔ Trusted m r
unfolding confidence_guards
confidence_iff m r = (
  λ (a : All Passes (confidence_guards m r)). record {
    fee = ground (arith, eq_iff (fee_status r) "unknown");
    fee_verified = ground arith;
    quote = ground (arith, eq_iff (quote_match_status r) "unknown");
    quote_verified = ground arith;
    quote_matches = λ e. ground (arith, eq_iff (required_quote_status m r) "matched");
    balance = ground (arith, eq_iff (balance_status r) "unknown");
    balance_matches = ground (arith, eq_iff (balance_status r) "mismatch");
    balance_verified = ground arith;
  },
  λ (p : Trusted m r). ground (
    arith,
    eq_iff (fee_status r) "unknown",
    eq_iff (quote_match_status r) "unknown",
    eq_iff (required_quote_status m r) "matched",
    eq_iff (balance_status r) "unknown",
    eq_iff (balance_status r) "mismatch",
  ),
)

pub market_iff : (m : Manager) (r : Request) → All Passes (market_guards m r) ↔ Calm m r
unfolding market_guards
market_iff m r = (
  λ (a : All Passes (market_guards m r)). record {
    clock = ground arith;
    reverts = ground arith;
    alerts = ground arith;
    quote_fresh = ground arith;
    pool = ground (arith, eq_iff (get_or "pool_health" "false" r.quote.metadata) "true");
    rpc_errors = ground arith;
    gas = ground arith;
    liquidity = ground arith;
    peg = ground arith;
  },
  λ (p : Calm m r). ground (arith, eq_iff (get_or "pool_health" "false" r.quote.metadata) "true"),
)

-- The share test passes where the quotient is within the limit.
pub share_iff :
    (m : Manager) (r : Request)
    → (pool_share_ok m r ≡ ok true) ↔ (
        (q : Decimal) × (div r.quote.initial_amount r.smaller_pool_liquidity_usdc ≡ ok q)
        × (le q m.settings.live_max_notional_pct_of_smaller_pool ≡ true))
unfolding pool_share_ok
share_iff m r = (
  λ h. go (div r.quote.initial_amount r.smaller_pool_liquidity_usdc) refl h,
  λ (q, e, small). rw e (ap ok small),
)
  where
    go :
        (o : Result Decimal)
        → div r.quote.initial_amount r.smaller_pool_liquidity_usdc ≡ o
        → (o >>= λ q. ok (le q m.settings.live_max_notional_pct_of_smaller_pool)) ≡ ok true
        → (q : Decimal) × (div r.quote.initial_amount r.smaller_pool_liquidity_usdc ≡ ok q)
          × (le q m.settings.live_max_notional_pct_of_smaller_pool ≡ true)
    go (ok q) e h = (q, e, ground arith)
    go (err x) e h = cc

pub size_iff : (m : Manager) (r : Request) → All Passes (size_guards m r) ↔ Sized m r
unfolding size_guards
size_iff m r = (
  λ (a : All Passes (size_guards m r)). record {
    notional = ground arith;
    liquid = ground arith;
    share = (share_iff m r).0 a.1.1.0;
    funded = ground arith;
  },
  λ (p : Sized m r). let share = (share_iff m r).1 p.share in ground arith,
)

-- The statistics of a route after the trimming.
pub stats-trim_route :
    (now : ℕ) (route_id : String) (m : Manager)
    → stats_of route_id (trim_route now route_id m) ≡ record (stats_of route_id m) {
      executions = trim (now - ten_minutes) (stats_of route_id m).executions;
    }
unfolding trim_route put_stats stats_of
stats-trim_route now route_id m = simp (get_or-insert, eq_refl)

-- The trimming touches the statistics alone.
pub cooldown-trim_route :
    (now : ℕ) (route_id : String) (m : Manager)
    → (trim_route now route_id m).cooldown_until ≡ m.cooldown_until
unfolding trim_route put_stats
cooldown-trim_route now route_id m = refl

pub settings-trim_route :
    (now : ℕ) (route_id : String) (m : Manager) → (trim_route now route_id m).settings ≡ m.settings
unfolding trim_route put_stats
settings-trim_route now route_id m = refl

pub route_iff :
    (now : ℕ) (m : Manager) (r : Request)
    → All Passes (route_guards now (trim_route now r.quote.route_id m) r) ↔ Rested now m r
unfolding route_guards
route_iff now m r = (
  λ (a : All Passes (route_guards now (trim_route now r.quote.route_id m) r)). record {
    rate = ground (
      arith,
      stats-trim_route now r.quote.route_id m,
      settings-trim_route now r.quote.route_id m,
    );
    failures = ground (
      arith,
      stats-trim_route now r.quote.route_id m,
      settings-trim_route now r.quote.route_id m,
    );
    losses = ground (
      arith,
      stats-trim_route now r.quote.route_id m,
      settings-trim_route now r.quote.route_id m,
    );
    cooled = ground (arith, cooldown-trim_route now r.quote.route_id m);
  },
  λ (p : Rested now m r). ground (
    arith,
    stats-trim_route now r.quote.route_id m,
    cooldown-trim_route now r.quote.route_id m,
    settings-trim_route now r.quote.route_id m,
  ),
)

-- In live mode, and in the other two.
live_iff :
    (m : Manager) (r : Request)
    → is_live r.mode ≡ true
    → All Passes (live_guards m r) ↔ Worthwhile m r
unfolding live_guards
live_iff m r l = (
  λ (a : All Passes (live_guards m r)). record {
    live_edge = λ _. ground arith;
    shadow_edge = λ s. cc;
  },
  λ (p : Worthwhile m r). let edge = p.live_edge l in ground arith,
)

shadow_iff :
    (m : Manager) (r : Request)
    → is_live r.mode ≡ false
    → All Passes (shadow_guards m r) ↔ Worthwhile m r
unfolding shadow_guards
shadow_iff m r s = (
  λ (a : All Passes (shadow_guards m r)). record {
    live_edge = λ l. cc;
    shadow_edge = λ _. ground arith;
  },
  λ (p : Worthwhile m r). let edge = p.shadow_edge s in ground arith,
)

pub mode_iff : (m : Manager) (r : Request) → All Passes (mode_guards m r) ↔ Worthwhile m r
unfolding mode_guards
mode_iff m r = elim (Bool-cases (is_live r.mode)) [
  | inl l ↦ rw l (live_iff m r l)
  | inr s ↦ rw s (shadow_iff m r s)
]
