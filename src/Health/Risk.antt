-- ===== src/Health/Risk.antt =====
-- app/health/collector.py: the statistics of `build_snapshot` that the risk manager reads, and
-- `to_risk_snapshot`.
use arbitrage_bot.Base.{
  Option, Bool, List, String, [], contains, false, if◌then◌else◌, is_empty, last?, length, ltb,
  nat_eq, none, not, some, string_eq, suc, zero, ℕ, ◌&&◌, ◌-◌, ◌==◌, ◌^◌, ◌∷◌,
}
use arbitrage_bot.Risk.Guards.{HealthSnapshot}
use arbitrage_bot.Base.Dict.{get_or}
use arbitrage_bot.Base.Int.{abs_ℕ, sub_ℕ}
use arbitrage_bot.Base.Result.{Result, ok, ◌>>=◌}
use arbitrage_bot.Decimal.{Decimal, dec, div, div_half_up, le, lt, mul, of_ℕ, sub}
use arbitrage_bot.Health.{Collector, Timed}

unfoldable pub values : List (Timed Decimal) → List Decimal
values [] = []
values (x ∷ xs) = x.value ∷ values xs

-- `_latest_value`
unfoldable pub latest_value : List (Timed Decimal) → Decimal
latest_value xs = elim (last? xs) [ none ↦ dec 0 0 | some x ↦ x.value ]

-- `sum(1 for x in dq if not x.ok)`
unfoldable pub failures : List (Timed Bool) → ℕ
failures [] = 0
failures (x ∷ xs) = let rest = failures xs in if x.value then rest else suc rest

-- `_error_rate`
unfoldable pub error_rate : List (Timed Bool) → Result Decimal
unfolding failures
error_rate [] = ok (dec 0 0)
error_rate (x ∷ xs) = div (of_ℕ (failures (x ∷ xs))) (of_ℕ (length (x ∷ xs)))

-- `sorted` of decimals, which is stable
unfoldable pub insert_value : Decimal → List Decimal → List Decimal
insert_value v [] = v ∷ []
insert_value v (w ∷ ws) = let later = insert_value v ws in if le v w then v ∷ w ∷ ws else w ∷ later

unfoldable pub sort_values : List Decimal → List Decimal
unfolding insert_value
sort_values [] = []
sort_values (v ∷ vs) = insert_value v (sort_values vs)

-- `values[idx]` of a list that has that many elements
unfoldable pub nth_value : ℕ → List Decimal → Decimal
nth_value i [] = dec 0 0
nth_value zero (v ∷ vs) = v
nth_value (suc i) (v ∷ vs) = nth_value i vs

-- `int((Decimal(len(values) - 1) * q).to_integral_value(rounding=ROUND_HALF_UP))`, at most the last
unfoldable pub quantile_index : ℕ → Decimal → ℕ
quantile_index n q =
    let place = mul (of_ℕ (n - 1)) q in
    let idx = div_half_up (abs_ℕ place.coef) (10 ^ place.scale) in
    if ltb (n - 1) idx then n - 1 else idx

-- `_quantile`
unfoldable pub quantile : List (Timed Decimal) → Decimal → Decimal
unfolding sort_values nth_value quantile_index values
quantile xs q = nth_value (quantile_index (length xs) q) (sort_values (values xs))

-- `(now - then).total_seconds()`, as a decimal
unfoldable pub seconds_between : ℕ → ℕ → Decimal
seconds_between now earlier = record { coef = sub_ℕ now earlier; scale = 6 }

-- the change of a route's liquidity against its median in the last hour
unfoldable pub liquidity_change : List (Timed Decimal) → Result Decimal
unfolding latest_value quantile
liquidity_change xs =
    let baseline = quantile xs (dec 50 2) in
    if lt (dec 0 0) baseline then div (sub (latest_value xs) baseline) baseline else ok (dec 0 0)

-- `results[-1].ok and rate < Decimal("0.5")`, where there is a last result
unfoldable pub probe_ok : Option (Timed Bool) → Decimal → Bool
probe_ok none rate = false
probe_ok (some x) rate = x.value && lt rate (dec 5 1)

-- `bool(results and results[-1].ok and rate < Decimal("0.5"))`
unfoldable pub reachable : List (Timed Bool) → Decimal → Bool
unfolding probe_ok
reachable xs rate = probe_ok (last? xs) rate

-- `to_risk_snapshot`, with the part of `build_snapshot` that it reads
unfoldable pub to_risk_snapshot : ℕ → String → Collector → Result HealthSnapshot
unfolding error_rate liquidity_change reachable seconds_between latest_value quantile failures
to_risk_snapshot now route_id c = error_rate c.rpc_results >>= λ rpc_error_rate.
    error_rate c.alert_results >>= λ alert_error_rate.
    error_rate c.execution_results >>= λ contract_revert_rate.
    liquidity_change (get_or route_id [] c.route_liquidity) >>= λ liquidity_change_pct.
    error_rate c.db_results >>= λ db_error_rate. ok (record {
      rpc_error_rate_5m = rpc_error_rate;
      gas_now = latest_value c.gas_series;
      gas_p90 = quantile c.gas_series (dec 90 2);
      liquidity_change_pct = liquidity_change_pct;
      quote_stale_seconds = latest_value c.quote_age;
      health_age_seconds = seconds_between now c.last_quality_update;
      alert_failures = failures c.alert_results;
      db_reachable = reachable c.db_results db_error_rate;
      db_known = not (is_empty c.db_results);
      rpc_reachable = reachable c.rpc_results rpc_error_rate;
      rpc_known = not (is_empty c.rpc_results);
      signing_ok = c.signing_state == "good";
      signing_known = not (c.signing_state == "unknown");
      fee_known = not (c.quality_fee_status == "unknown");
      fee_known_status = c.quality_fee_status;
      fee_provenance = c.quality_fee_provenance;
      quote_match = c.quality_quote_match_status == "matched";
      quote_match_known = not (c.quality_quote_match_status == "unknown");
      quote_match_status = c.quality_quote_match_status;
      balance_match = not (contains c.quality_balance_status ("unknown" ∷ "mismatch" ∷ []));
      balance_match_known = not (c.quality_balance_status == "unknown");
      balance_match_status = c.quality_balance_status;
      balance_failure_reason = c.quality_balance_failure_reason;
      clock_skew_ok = lt (seconds_between now c.heartbeat_ts) (dec 10 0);
      contract_revert_rate = contract_revert_rate;
    })
