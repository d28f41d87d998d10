-- ===== src/Readiness/Dedup.antt =====
-- The list of actions holds each action once.
use arbitrage_bot.Base.{
  Bool, Bool-cases, List, String, [], contains, eq_iff, false, inl, inr, nat_eq, not, refl,
  string_eq, true, ◌&&◌, ◌==◌, ◌∙◌, ◌∷◌, ◌≡◌,
}
use arbitrage_bot.Readiness.{dedup, dedup_from}
use text.Mathlib.TextPositions.{eq_refl}

-- no text occurs twice
abbrev pub NoDuplicates : List String → Type 0
NoDuplicates [] = Unit
NoDuplicates (x ∷ xs) = (contains x xs ≡ false) × NoDuplicates xs

dedup_from-members :
    (seen xs : List String) (y : String)
    → contains y (dedup_from seen xs) ≡ (contains y xs && not (contains y seen))
unfolding dedup_from contains
dedup_from-members seen [] y = refl
dedup_from-members seen (x ∷ xs) y = elim (Bool-cases (contains x seen)) [
  | inl b ↦ elim (Bool-cases (y == x)) [
    | inl c ↦
        let same = (eq_iff y x).0 c in
        rw (b, c) (dedup_from-members seen xs y ∙ rw (same, b) (and_false (contains x xs)))
    | inr c ↦ rw (b, c) (dedup_from-members seen xs y)
  ]
  | inr b ↦ elim (Bool-cases (y == x)) [
    | inl c ↦ let same = (eq_iff y x).0 c in rw (b, c) (rw (same, b) refl)
    | inr c ↦ rw (b, c) (dedup_from-members (x ∷ seen) xs y ∙ rw c refl)
  ]
]
  where
    and_false : (b : Bool) → (b && false) ≡ false
    and_false true = refl
    and_false false = refl

dedup_from-NoDuplicates : (seen xs : List String) → NoDuplicates (dedup_from seen xs)
unfolding dedup_from
dedup_from-NoDuplicates seen [] = tt
dedup_from-NoDuplicates seen (x ∷ xs) = elim (Bool-cases (contains x seen)) [
  | inl b ↦ rw b (dedup_from-NoDuplicates seen xs)
  | inr b ↦ rw b (
    dedup_from-members (x ∷ seen) xs x
        ∙ unfold contains in rw (eq_refl x) (and_false (contains x xs)),
    dedup_from-NoDuplicates (x ∷ seen) xs,
  )
]
  where
    and_false : (b : Bool) → (b && false) ≡ false
    and_false true = refl
    and_false false = refl

-- Removing repetitions leaves no repetition, and neither adds an action nor loses one.
pub dedup_lem :
    (xs : List String)
    → NoDuplicates (dedup xs) × ((y : String) → contains y (dedup xs) ≡ contains y xs)
unfolding dedup
dedup_lem xs = (
  dedup_from-NoDuplicates [] xs,
  λ y. dedup_from-members [] xs y ∙ unfold contains in and_true (contains y xs),
)
  where
    and_true : (b : Bool) → (b && true) ≡ b
    and_true true = refl
    and_true false = refl
