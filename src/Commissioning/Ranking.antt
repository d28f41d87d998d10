-- ===== src/Commissioning/Ranking.antt =====
-- The ranking is ordered by score, and it is a rearrangement of the rows.
use arbitrage_bot.Base.{
  All, Bool, Bool-cases, List, [], ap, arith, count_if, false, inl, inr, refl, sym, true, ℕ, ◌+◌,
  ◌∙◌, ◌∷◌, ◌≡◌,
}
use arbitrage_bot.Base.Result.{bind-ok, ok, ok-cancel}
use arbitrage_bot.Commissioning.Gate.{CommissioningRow}
use arbitrage_bot.Commissioning.Score.{
  Ranked, insert_scored, number_from, rank_rows, score_row, score_rows, sort_scored,
}
use arbitrage_bot.Decimal.{Decimal, le}
use arbitrage_bot.Decimal.Compare.{le_total}
use arbitrage_bot.Settings.{Settings}
use mathlib.Core.Path.{subst}
use mathlib.Core.Bool.{true≢false}

abbrev Scored : Type 0
Scored = Decimal × CommissioningRow

-- from the best score to the worst
abbrev pub IsRanked : List Ranked → Type 0
IsRanked [] = Unit
IsRanked (r ∷ []) = Unit
IsRanked (r ∷ q ∷ rs) = (le q.score r.score ≡ true) × IsRanked (q ∷ rs)

abbrev IsSorted : List Scored → Type 0
IsSorted [] = Unit
IsSorted (r ∷ []) = Unit
IsSorted (r ∷ q ∷ rs) = (le q.0 r.0 ≡ true) × IsSorted (q ∷ rs)

le-flip : (a b : Decimal) → le a b ≡ false → le b a ≡ true
le-flip a b h = elim (le_total a b) [ inl y ↦ absurd (true≢false (sym y ∙ h)) | inr y ↦ y ]

insert-IsSorted : (r : Scored) (rs : List Scored) → IsSorted rs → IsSorted (insert_scored r rs)
unfolding insert_scored
insert-IsSorted r [] s = tt
insert-IsSorted r (w ∷ []) s = elim (Bool-cases (le w.0 r.0)) [
  | inl b ↦ rw b (b, tt)
  | inr b ↦ rw b (le-flip w.0 r.0 b, tt)
]
insert-IsSorted r (w ∷ v ∷ ws) (p, s) = elim (Bool-cases (le w.0 r.0)) [
  | inl b ↦ rw b (b, (p, s))
  | inr b ↦ elim (Bool-cases (le v.0 r.0)) [
    | inl c ↦ rw (b, c) (le-flip w.0 r.0 b, (c, s))
    | inr c ↦ let rest = insert-IsSorted r (v ∷ ws) s in rw (b, c) (p, (rw c at rest))
  ]
]

sort-IsSorted : (rs : List Scored) → IsSorted (sort_scored rs)
unfolding sort_scored
sort-IsSorted [] = tt
sort-IsSorted (r ∷ rs) = insert-IsSorted r (sort_scored rs) (sort-IsSorted rs)

number-IsRanked : (n : ℕ) (rs : List Scored) → IsSorted rs → IsRanked (number_from n rs)
unfolding number_from
number-IsRanked n [] s = tt
number-IsRanked n (r ∷ []) s = tt
number-IsRanked n (r ∷ q ∷ rs) (p, s) = (p, number-IsRanked (n + 1) (q ∷ rs) s)

-- how often a row that passes a test occurs
count-insert :
    (p : CommissioningRow → Bool) (r : Scored) (rs : List Scored)
    → count_if (λ q. p q.1) (insert_scored r rs) ≡ count_if (λ q. p q.1) (r ∷ rs)
unfolding insert_scored
count-insert p r [] = refl
count-insert p r (w ∷ ws) = elim (Bool-cases (le w.0 r.0)) [
  | inl b ↦ rw b refl
  | inr b ↦ rw b (ground (arith, count-insert p r ws))
]

count-sort :
    (p : CommissioningRow → Bool) (rs : List Scored)
    → count_if (λ q. p q.1) (sort_scored rs) ≡ count_if (λ q. p q.1) rs
unfolding sort_scored
count-sort p [] = refl
count-sort p (r ∷ rs) = count-insert p r (sort_scored rs) ∙ ground (arith, count-sort p rs)

count-number :
    (p : CommissioningRow → Bool) (n : ℕ) (rs : List Scored)
    → count_if (λ q. p q.row) (number_from n rs) ≡ count_if (λ q. p q.1) rs
unfolding number_from
count-number p n [] = refl
count-number p n (r ∷ rs) = ground (arith, count-number p (n + 1) rs)

count-score :
    (s : Settings) (p : CommissioningRow → Bool) (rows : List CommissioningRow)
    {scored : List Scored}
    → score_rows s rows ≡ ok scored
    → count_if (λ q. p q.1) scored ≡ count_if p rows
unfolding score_rows
count-score s p [] h = ap (count_if (λ q. p q.1)) (sym (ok-cancel h))
count-score s p (row ∷ rows) h =
    let (score, _, h₁) = bind-ok (score_row s row) _ h in
    let (rest, e, h₂) = bind-ok (score_rows s rows) _ h₁ in
    ap (count_if (λ q. p q.1)) (sym (ok-cancel h₂)) ∙ ground (arith, count-score s p rows e)

-- every score is that of its row
score_rows-scored :
    (s : Settings) (rows : List CommissioningRow) {scored : List Scored}
    → score_rows s rows ≡ ok scored
    → All (λ r. score_row s r.1 ≡ ok r.0) scored
unfolding score_rows
score_rows-scored s [] h = subst (All (λ r. score_row s r.1 ≡ ok r.0)) (ok-cancel h) tt
score_rows-scored s (row ∷ rows) h =
    let (score, e, h₁) = bind-ok (score_row s row) _ h in
    let (rest, k, h₂) = bind-ok (score_rows s rows) _ h₁ in
    subst (All (λ r. score_row s r.1 ≡ ok r.0)) (ok-cancel h₂) (e, score_rows-scored s rows k)

module _ (P : Scored → Type 0) where
  insert-All : (r : Scored) (rs : List Scored) → P r → All P rs → All P (insert_scored r rs)
  unfolding insert_scored
  insert-All r [] p ps = (p, tt)
  insert-All r (w ∷ ws) p (q, qs) = elim (Bool-cases (le w.0 r.0)) [
    | inl b ↦ rw b (p, (q, qs))
    | inr b ↦ rw b (q, insert-All r ws p qs)
  ]

  sort-All : (rs : List Scored) → All P rs → All P (sort_scored rs)
  unfolding sort_scored
  sort-All [] ps = tt
  sort-All (r ∷ rs) (p, ps) = insert-All r (sort_scored rs) p (sort-All rs ps)

  number-All :
      (n : ℕ) (rs : List Scored) → All P rs → All (λ r. P (r.score, r.row)) (number_from n rs)
  unfolding number_from
  number-All n [] ps = tt
  number-All n (r ∷ rs) (p, ps) = (p, number-All (n + 1) rs ps)

-- the ranks from a number on
abbrev pub IsNumbered : ℕ → List Ranked → Type 0
IsNumbered n [] = Unit
IsNumbered n (r ∷ rs) = (r.rank_number ≡ n) × IsNumbered (n + 1) rs

number-IsNumbered : (n : ℕ) (rs : List Scored) → IsNumbered n (number_from n rs)
unfolding number_from
number-IsNumbered n [] = tt
number-IsNumbered n (r ∷ rs) = (refl, number-IsNumbered (n + 1) rs)

-- A ranking gives each row its own score, goes from the best score to the worst, numbers its rows from 1,
-- and holds each row as often as it is given: whatever property is counted, rows and ranking have the
-- same number of it.
pub rank_rows-IsRanked :
    (s : Settings) (rows : List CommissioningRow) {ranked : List Ranked}
    → rank_rows s rows ≡ ok ranked
    → All (λ r. score_row s r.row ≡ ok r.score) ranked
      × IsRanked ranked
      × IsNumbered 1 ranked
      × ((p : CommissioningRow → Bool) → count_if (λ r. p r.row) ranked ≡ count_if p rows)
unfolding rank_rows
rank_rows-IsRanked s rows {ranked} h =
    let (scored, e, h₁) = bind-ok (score_rows s rows) _ h in
    let made = ok-cancel h₁ in
    let P : Scored → Type 0 = λ r. score_row s r.1 ≡ ok r.0 in
    (
      subst (All (λ r. score_row s r.row ≡ ok r.score)) made
          (number-All P 1 (sort_scored scored) (sort-All P scored (score_rows-scored s rows e))),
      subst IsRanked made (number-IsRanked 1 (sort_scored scored) (sort-IsSorted scored)),
      subst (IsNumbered 1) made (number-IsNumbered 1 (sort_scored scored)),
      λ p.
          ap (count_if (λ r. p r.row)) (sym made)
          ∙ count-number p 1 (sort_scored scored)
          ∙ count-sort p scored
          ∙ count-score s p rows e,
    )
