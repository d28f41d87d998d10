-- ===== src/Health/Windows.antt =====
-- The rolling windows of the collector hold the last five minutes.
use arbitrage_bot.Base.{
  All, false, filter, filter-All, filter-append_one, leb, le→leb, true, ◌&&◌, ◌==◌, Bool,
  Bool-cases, List, String, [], ap, arith, contains, inl, inr, ltb, nat_eq, not, refl, string_eq,
  sym, ℕ, ◌++◌, ◌-◌, ◌∙◌, ◌∷◌, ◌≡◌, ◌≤◌,
}
use arbitrage_bot.Decimal.{Decimal}
use arbitrage_bot.Health.{
  Collector, Timed, five_minutes, push, record_execution_result, record_rpc_probe, trim_all,
  trim_series,
}
use arbitrage_bot.Risk.{trim}
use arbitrage_bot.Risk.Window.{IsOrdered, IsOrdered-append, trim-IsOrdered}
use mathlib.Core.Path.{subst}

module _ {ℓ} {A : Type ℓ} where
  -- the instants of a series
  abbrev pub stamps : List (Timed A) → List ℕ
  stamps [] = []
  stamps (x ∷ xs) = x.ts ∷ stamps xs

  stamps-trim_series :
      (cutoff : ℕ) (xs : List (Timed A)) → stamps (trim_series cutoff xs) ≡ trim cutoff (stamps xs)
  unfolding trim_series trim
  stamps-trim_series cutoff [] = refl
  stamps-trim_series cutoff (x ∷ xs) = elim (Bool-cases (ltb x.ts cutoff)) [
    | inl b ↦ rw b (stamps-trim_series cutoff xs)
    | inr b ↦ rw b refl
  ]

  stamps-push :
      (now : ℕ) (v : A) (xs : List (Timed A)) → stamps (push now v xs) ≡ stamps xs ++ now ∷ []
  unfolding push
  stamps-push now v [] = refl
  stamps-push now v (x ∷ xs) = ap (λ r. x.ts ∷ r) (stamps-push now v xs)

  stamps-window :
      (now cutoff : ℕ) (v : A) (xs : List (Timed A))
      → stamps (trim_series cutoff (push now v xs)) ≡ trim cutoff (stamps xs ++ now ∷ [])
  stamps-window now cutoff v xs =
      stamps-trim_series cutoff (push now v xs) ∙ ap (trim cutoff) (stamps-push now v xs)

  -- not older than the cutoff
  unfoldable pub is_recent : ℕ → Timed A → Bool
  is_recent cutoff x = leb cutoff x.ts

  All-is_recent :
      (cutoff t : ℕ) (xs : List (Timed A))
      → cutoff ≤ t
      → All (λ u. t ≤ u) (stamps xs)
      → All (λ x. is_recent cutoff x ≡ true) xs
  unfolding is_recent
  All-is_recent cutoff t [] h a = tt
  All-is_recent cutoff t (x ∷ xs) h (p, a) =
      (le→leb cutoff x.ts (omega arith), All-is_recent cutoff t xs h a)

  trim_series-filter :
      (now cutoff : ℕ) (xs : List (Timed A))
      → IsOrdered now (stamps xs)
      → trim_series cutoff xs ≡ filter (is_recent cutoff) xs
  unfolding trim_series filter is_recent
  trim_series-filter now cutoff [] h = refl
  trim_series-filter now cutoff (x ∷ xs) (a, b, c) = elim (Bool-cases (ltb x.ts cutoff)) [
    | inl old ↦
        let out : leb cutoff x.ts ≡ false = ground arith in
        rw (old, out) (trim_series-filter now cutoff xs c)
    | inr new ↦
        let kept : leb cutoff x.ts ≡ true = ground arith in
        let every =
          filter-All (is_recent cutoff) xs (All-is_recent cutoff x.ts xs (ground arith) b) in
        rw (new, kept, every) refl
  ]

  -- the series that a window should be: the recent entries in their order, and the new one
  abbrev pub IsWindow : ℕ → ℕ → A → List (Timed A) → List (Timed A) → Type ℓ
  IsWindow now cutoff v old new =
      new ≡ filter (is_recent cutoff) old ++ record { ts = now; value = v } ∷ []

  -- A series in order of time that gets a new entry and is trimmed keeps the recent entries and the new
  -- one, in order.
  pub push-IsWindow :
      (now cutoff : ℕ) (v : A) (xs : List (Timed A))
      → cutoff ≤ now
      → IsOrdered now (stamps xs)
      → IsWindow now cutoff v xs (trim_series cutoff (push now v xs))
        × IsOrdered now (stamps (trim_series cutoff (push now v xs)))
  unfolding push
  push-IsWindow now cutoff v xs late order =
      let all = IsOrdered-append now (stamps xs) order in
      (
        trim_series-filter now cutoff (push now v xs)
              (subst (IsOrdered now) (sym (stamps-push now v xs)) all)
            ∙ filter-append_one (is_recent cutoff) xs record { ts = now; value = v }
                (unfold is_recent in le→leb cutoff now late),
        subst (IsOrdered now) (sym (stamps-window now cutoff v xs))
            (trim-IsOrdered now cutoff (stamps xs ++ now ∷ []) all),
      )

not-failed :
    (status : String)
    → not (contains status ("reverted" ∷ "failed" ∷ []))
      ≡ (not (status == "reverted") && not (status == "failed"))
unfolding contains
not-failed status = ground arith

-- After a probe of the node, the windows of its latencies and of its results hold the entries of the
-- last five minutes, 300,000,000 microseconds, in their order, and last the latency and the result of
-- this probe at the present instant; and the window of executions likewise after an execution, which
-- counts as a failure where its status is "reverted" or "failed". The windows were in order of time, and
-- stay so.
pub record_probe-IsWindow :
    (now : ℕ) (latency : Decimal) (success : Bool) (tx_status : String) (c : Collector)
    → IsOrdered now (stamps c.rpc_latency)
    → IsOrdered now (stamps c.rpc_results)
    → IsOrdered now (stamps c.execution_results)
    → let probed = record_rpc_probe now latency success c in
      let executed = record_execution_result now tx_status c in
      (IsWindow now (now - 300000000) latency c.rpc_latency probed.rpc_latency
        × IsOrdered now (stamps probed.rpc_latency))
      × (IsWindow now (now - 300000000) success c.rpc_results probed.rpc_results
          × IsOrdered now (stamps probed.rpc_results))
      × (IsWindow now
            (now - 300000000)
            (not (tx_status == "reverted") && not (tx_status == "failed"))
            c.execution_results
            executed.execution_results
          × IsOrdered now (stamps executed.execution_results))
unfolding record_rpc_probe record_execution_result trim_all
record_probe-IsWindow now latency success tx_status c latencies rpc executions = (
  push-IsWindow now (now - five_minutes) latency c.rpc_latency (omega arith) latencies,
  push-IsWindow now (now - five_minutes) success c.rpc_results (omega arith) rpc,
  subst
      (λ v.
        IsWindow now (now - five_minutes) v c.execution_results
          (record_execution_result now tx_status c).execution_results
        × IsOrdered now (stamps (record_execution_result now tx_status c).execution_results))
      (not-failed tx_status)
      (push-IsWindow now (now - five_minutes)
        (not (contains tx_status ("reverted" ∷ "failed" ∷ []))) c.execution_results (omega arith)
        executions),
)
