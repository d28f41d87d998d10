-- ===== src/Metrics.antt =====
-- app/utils/metrics.py: `MetricsStore`, in which the job runner keeps the figures of its health loop.
-- An instant is in microseconds.
use arbitrage_bot.Health.Windows.{IsWindow, stamps, push-IsWindow}
use arbitrage_bot.Base.{
  zero, Bool-cases, List, Option, String, [], agree, arith, differ, if◌then◌else◌, inl, inr, length,
  ltb, nat_eq, none, refl, some, string_eq, suc, ℕ, ◌*◌, ◌-◌, ◌==◌, ◌∷◌, ◌≡◌, ◌≢◌, ◌≤◌,
}
use arbitrage_bot.Base.Dict.{get_or-insert, Dict, get_or, insert}
use arbitrage_bot.Decimal.{Decimal}
use arbitrage_bot.Risk.{second}
use arbitrage_bot.Risk.Window.{IsOrdered}
use arbitrage_bot.Health.{Timed, push, trim_series}

-- `_series`
abbrev pub MetricsStore : Type 0
MetricsStore = Dict (List (Timed Decimal))

abbrev pub one_day : ℕ
one_day = 24 * 3600 * second

unfoldable pub record_metric : ℕ → String → Decimal → MetricsStore → MetricsStore
record_metric now name value store =
    insert name (trim_series (now - one_day) (push now value (get_or name [] store))) store

-- `dq[-1].value` of a series that may be empty
unfoldable pub last_value : List (Timed Decimal) → Option Decimal
last_value [] = none
last_value (x ∷ []) = some x.value
last_value (x ∷ y ∷ xs) = last_value (y ∷ xs)

unfoldable pub latest : String → MetricsStore → Option Decimal
latest name store = last_value (get_or name [] store)

unfoldable pub drop_first : ℕ → List (Timed Decimal) → List (Timed Decimal)
drop_first zero xs = xs
drop_first (suc n) [] = []
drop_first (suc n) (x ∷ xs) = drop_first n xs

-- `list(dq)[-limit:]`: a limit of 0 asks for the slice from 0 on, which is everything
unfoldable pub get_series : String → ℕ → MetricsStore → List (Timed Decimal)
get_series name limit store =
    let xs = get_or name [] store in if limit == 0 then xs else drop_first (length xs - limit) xs

unfoldable pub snapshot : MetricsStore → Dict (Option Decimal)
snapshot [] = []
snapshot ((name, xs) ∷ store) = (name, last_value xs) ∷ snapshot store

last-push :
    (now : ℕ) (v : Decimal) (xs : List (Timed Decimal)) → last_value (push now v xs) ≡ some v
unfolding last_value push
last-push now v [] = refl
last-push now v (x ∷ []) = refl
last-push now v (x ∷ y ∷ xs) = last-push now v (y ∷ xs)

last-trim :
    (cutoff now : ℕ) (v : Decimal) (xs : List (Timed Decimal))
    → cutoff ≤ now
    → last_value (trim_series cutoff (push now v xs)) ≡ some v
unfolding last_value push trim_series
last-trim cutoff now v [] late = ground arith
last-trim cutoff now v (x ∷ xs) late = elim (Bool-cases (ltb x.ts cutoff)) [
  | inl b ↦ rw b (last-trim cutoff now v xs late)
  | inr b ↦ rw b (last-push now v (x ∷ xs))
]

-- After a figure is recorded it is the latest one of its name, and the latest figures of the other
-- names are as before.
pub record_metric-latest :
    (now : ℕ) (name key : String) (value : Decimal) (store : MetricsStore)
    → (latest name (record_metric now name value store) ≡ some value)
      × (key ≢ name → latest key (record_metric now name value store) ≡ latest key store)
unfolding latest record_metric
record_metric-latest now name key value store =
    let window = trim_series (now - one_day) (push now value (get_or name [] store)) in
    let found = get_or-insert name name window [] store in
    let kept = get_or-insert key name window [] store in
    (
      rw found (
          rw (agree name name refl)
            (last-trim (now - one_day) now value (get_or name [] store) (omega arith))),
      λ n. rw kept (rw (differ key name n) refl),
    )

-- The series of a name that is in order of time holds, after a figure is recorded, the entries of the
-- last 24 hours, 86,400,000,000 microseconds, in their order, and last the figure at the present instant; it stays in order of time.
pub record_metric-IsWindow :
    (now : ℕ) (name : String) (value : Decimal) (store : MetricsStore)
    → IsOrdered now (stamps (get_or name [] store))
    → IsWindow now
        (now - 86400000000)
        value
        (get_or name [] store)
        (get_or name [] (record_metric now name value store))
      × IsOrdered now (stamps (get_or name [] (record_metric now name value store)))
unfolding record_metric
record_metric-IsWindow now name value store order =
    let window = trim_series (now - one_day) (push now value (get_or name [] store)) in
    let found = get_or-insert name name window [] store in
    rw found (
      rw (agree name name refl)
        (push-IsWindow now (now - one_day) value (get_or name [] store) (omega arith) order))
