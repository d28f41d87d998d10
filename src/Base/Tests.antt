-- ===== src/Base/Tests.antt =====
-- Boolean tests, equality as an instance, and the conditional.
use Prim.Native.Nat.{ℕ, ◌≤◌, ◌<◌, compare, Ordering}
use Prim.Native.String.{String}
use mathlib.Core.Path.{◌≡◌, refl, sym}
use mathlib.Core.Logic.{◌↔◌, ◌⊎◌, inl, inr}
use mathlib.Core.Bool.{Bool, true, false, not, ◌&&◌}
use mathlib.Core.Option.{Option, none, some}
use native.Mathlib.Omega.{arith}
use text.Mathlib.Text.{◌==◌ as str_eq}
use text.Mathlib.TextEquality.{eq_iff}

abbrev pub ltb : ℕ → ℕ → Bool
ltb a b = elim (compare a b) [ Ordering.lt ↦ true | _ ↦ false ]

abbrev pub leb : ℕ → ℕ → Bool
leb a b = elim (compare a b) [ Ordering.gt ↦ false | _ ↦ true ]

-- Python's `==` on a type that the program compares: a test that finds out equality.
pub record Equality {ℓ} (V : Type ℓ) : Type ℓ where
  pub equals : V → V → Bool
  pub equals_iff : (v w : V) → (equals v w ≡ true) ↔ (v ≡ w)

instance abbrev pub string_eq : Equality String
string_eq = record { equals = str_eq; equals_iff = eq_iff }

abbrev equal_ℕ : ℕ → ℕ → Bool
equal_ℕ a b = elim (compare a b) [ Ordering.eq ↦ true | _ ↦ false ]

pub equal_ℕ_iff : (a b : ℕ) → (equal_ℕ a b ≡ true) ↔ (a ≡ b)
equal_ℕ_iff a b = ground arith

infix 1 if◌then◌else◌
abbrev pub if◌then◌else◌ {ℓ} : {A : Type ℓ} → Bool → A → A → A
if true then x else y = x
if false then x else y = y

infix 50 ◌==◌
abbrev pub ◌==◌ {ℓ} : {V : Type ℓ} ⦃same : Equality V⦄ → V → V → Bool
◌==◌ ⦃same⦄ v w = same.equals v w

instance abbrev pub nat_eq : Equality ℕ
nat_eq = record { equals_iff = equal_ℕ_iff; equals = equal_ℕ }

pub ltb→lt : (a b : ℕ) → ltb a b ≡ true → a < b
ltb→lt a b h = ground arith

pub leb→le : (a b : ℕ) → leb a b ≡ true → a ≤ b
leb→le a b h = ground arith

pub le→leb : (a b : ℕ) → a ≤ b → leb a b ≡ true
le→leb a b h = ground arith

pub lt→ltb : (a b : ℕ) → a < b → ltb a b ≡ true
lt→ltb a b h = ground arith

pub ruleset tests = (arith, ltb→lt, lt→ltb, leb→le, le→leb)

-- To split on a computed value and keep the equation.
pub Bool-cases : (b : Bool) → (b ≡ true) ⊎ (b ≡ false)
Bool-cases true = inl refl
Bool-cases false = inr refl

pub Option-cases {ℓ} : {A : Type ℓ} (o : Option A) → (o ≡ none) ⊎ ((a : A) × (o ≡ some a))
Option-cases none = inl refl
Option-cases (some a) = inr (a, refl)

pub not-true : (b : Bool) → not b ≡ true → b ≡ false
not-true true h = sym h
not-true false h = refl

pub not-false : (b : Bool) → b ≡ false → not b ≡ true
not-false true h = sym h
not-false false h = refl

pub and_left : (a b : Bool) → (a && b) ≡ true → a ≡ true
and_left true b h = refl
and_left false b h = h

pub and_right : (a b : Bool) → (a && b) ≡ true → b ≡ true
and_right true b h = h
and_right false b h = ground arith

pub and_intro : (a b : Bool) → a ≡ true → b ≡ true → (a && b) ≡ true
and_intro a b p q = ground arith

-- texts that differ, and one that is known, as tests
pub differ : (a b : String) → ¬ (a ≡ b) → (a == b) ≡ false
differ a b h = ground (arith, eq_iff a b)

pub agree : (a b : String) → a ≡ b → (a == b) ≡ true
agree a b h = (eq_iff a b).1 h
