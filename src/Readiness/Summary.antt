-- ===== src/Readiness/Summary.antt =====
-- app/readiness/service.py: `route_readiness_rows` and `readiness_summary`.
use arbitrage_bot.Base.{
  arith, if◌then◌else◌, ◌∙◌, Bool, Bool-cases, List, Option, String, [], any, ap, contains,
  count_if, inl, inr, is_empty, length, nat_eq, none, refl, some, string_eq, suc, true, ℕ, ◌+◌,
  ◌==◌, ◌∷◌, ◌≡◌,
}
use arbitrage_bot.Base.Result.{Result, ok, ◌>>=◌}
use arbitrage_bot.Readiness.{
  ReadinessRow, Records, critical_blockers, grade_from_blockers, readiness_row,
}
use arbitrage_bot.Settings.{Settings}
use arbitrage_bot.Readiness.Rows.{grade_of}

-- a route as the repository lists it, with its records and the time at which its row is built
pub record StoredRoute : Type 0 where
  pub id : String
  pub strategy : String
  pub records : Records
  pub built_at : ℕ

-- `route_id is None or r.id == route_id`
unfoldable pub is_target : Option String → StoredRoute → Bool
is_target none r = true
is_target (some route_id) r = r.id == route_id

unfoldable pub target_routes : Option String → List StoredRoute → List StoredRoute
target_routes route_id [] = []
target_routes route_id (r ∷ rs) =
    let rest = target_routes route_id rs in if is_target route_id r then r ∷ rest else rest

unfoldable pub build_rows : Settings → List StoredRoute → Result (List ReadinessRow)
build_rows s [] = ok []
build_rows s (r ∷ rs) =
    let rest = build_rows s rs in
    readiness_row s r.built_at r.strategy r.records >>= λ row. rest >>= λ rows. ok (row ∷ rows)

unfoldable pub route_readiness_rows :
    Settings → Option String → List StoredRoute → Result (List ReadinessRow)
route_readiness_rows s route_id routes = build_rows s (target_routes route_id routes)

pub record ReadinessSummary : Type 0 where
  pub red_count : ℕ
  pub yellow_count : ℕ
  pub green_count : ℕ
  pub total_routes : ℕ
  pub latest_backtest_mode : Option String

-- the counts over the rows
abbrev pub summarize : Option String → List ReadinessRow → ReadinessSummary
summarize last_mode rows = record {
  red_count = count_if (λ r. r.readiness_grade == "red") rows;
  yellow_count = count_if (λ r. r.readiness_grade == "yellow") rows;
  green_count = count_if (λ r. r.readiness_grade == "green") rows;
  total_routes = length rows;
  latest_backtest_mode = last_mode;
}

unfoldable pub readiness_summary :
    Settings → List StoredRoute → Option String → Result ReadinessSummary
readiness_summary s routes last_mode =
    route_readiness_rows s none routes >>= λ rows. ok (summarize last_mode rows)

all_targets : (routes : List StoredRoute) → target_routes none routes ≡ routes
unfolding is_target target_routes
all_targets [] = refl
all_targets (r ∷ rs) = ap (λ x. r ∷ x) (all_targets rs)

abbrev Tallied : List ReadinessRow → Type 0
Tallied rows =
    count_if (λ r. r.readiness_grade == "red") rows
      + count_if (λ r. r.readiness_grade == "yellow") rows
      + count_if (λ r. r.readiness_grade == "green") rows
    ≡ length rows

tally_row :
    (row : ReadinessRow) (bs : List String) (rows : List ReadinessRow)
    → row.readiness_grade ≡ grade_from_blockers bs
    → Tallied rows
    → Tallied (row ∷ rows)
unfolding grade_from_blockers
tally_row row bs rows g t = elim (Bool-cases (is_empty bs)) [
  | inl b ↦ let h : row.readiness_grade ≡ "green" = g ∙ (rw b refl) in rw h (ground arith)
  | inr b ↦ elim (Bool-cases (any (λ b. contains b critical_blockers) bs)) [
    | inl c ↦ let h : row.readiness_grade ≡ "red" = g ∙ (rw (b, c) refl) in rw h (ground arith)
    | inr c ↦ let h : row.readiness_grade ≡ "yellow" = g ∙ (rw (b, c) refl) in rw h (ground arith)
  ]
]

build_rows_total :
    (s : Settings) (routes : List StoredRoute)
    → (rows : List ReadinessRow) × (build_rows s routes ≡ ok rows)
      × Tallied rows
      × (length rows ≡ length routes)
unfolding build_rows
build_rows_total s [] = ([], refl, refl, refl)
build_rows_total s (r ∷ rs) =
    let (row, h, bs, g) = grade_of s r.built_at r.strategy r.records in
    let (rows, k, t, n) = build_rows_total s rs in
    (row ∷ rows, rw h (rw k refl), tally_row row bs rows g t, ap suc n)

-- Every list of routes has a summary. Its red, yellow and green routes add up to its total, which is
-- the number of the routes.
pub readiness_summary_lem :
    (s : Settings) (routes : List StoredRoute) (last_mode : Option String)
    → (summary : ReadinessSummary) × (readiness_summary s routes last_mode ≡ ok summary)
      × (summary.red_count + summary.yellow_count + summary.green_count ≡ summary.total_routes)
      × (summary.total_routes ≡ length routes)
unfolding readiness_summary route_readiness_rows
readiness_summary_lem s routes last_mode =
    let (rows, h, t, n) = build_rows_total s routes in
    (summarize last_mode rows, rw (all_targets routes) (rw h refl), t, n)
