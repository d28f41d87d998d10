-- ===== src/Base/Dict.antt =====
-- A Python dict keyed by texts, in insertion order, and a set of texts.
use arbitrage_bot.Base.{nat_eq}
use Prim.Native.String.{String}
use mathlib.Core.Path.{◌≡◌, refl}
use mathlib.Core.Bool.{true, false}
use mathlib.Core.List.{List, [], ◌∷◌}
use mathlib.Core.Option.{Option, none, some}
use native.Mathlib.Omega.{arith}
use text.Mathlib.TextEquality.{eq_iff}
use arbitrage_bot.Base.Tests.{◌==◌, string_eq, if◌then◌else◌}
use arbitrage_bot.Base.Lists.{contains}

abbrev pub Dict {ℓ} : Type ℓ → Type ℓ
Dict V = List (String × V)

module _ {ℓ} {V : Type ℓ} where
  unfoldable pub lookup : String → Dict V → Option V
  lookup k [] = none
  lookup k ((j, v) ∷ d) = if k == j then some v else lookup k d

  -- `d.get(k, default)`
  unfoldable pub get_or : String → V → Dict V → V
  get_or k default d = elim (lookup k d) [ none ↦ default | some v ↦ v ]

  -- `d[k] = v`
  unfoldable pub insert : String → V → Dict V → Dict V
  insert k v [] = (k, v) ∷ []
  insert k v ((j, w) ∷ d) = if k == j then (j, v) ∷ d else (j, w) ∷ insert k v d

  -- `d.pop(k, None)`; keys are distinct, so one entry goes
  unfoldable pub erase : String → Dict V → Dict V
  erase k [] = []
  erase k ((j, w) ∷ d) = let rest = erase k d in if k == j then rest else (j, w) ∷ rest

  pub lookup-insert :
      (j k : String) (v : V) (d : Dict V)
      → lookup j (insert k v d) ≡ (if j == k then some v else lookup j d)
  unfolding lookup insert
  lookup-insert j k v [] = refl
  lookup-insert j k v ((i, w) ∷ d) =
      ground (arith, eq_iff j k, eq_iff k i, eq_iff j i, lookup-insert j k v d)

  pub lookup-erase :
      (j k : String) (d : Dict V) → lookup j (erase k d) ≡ (if j == k then none else lookup j d)
  unfolding lookup erase
  lookup-erase j k [] = ground arith
  lookup-erase j k ((i, w) ∷ d) =
      ground (arith, eq_iff j k, eq_iff k i, eq_iff j i, lookup-erase j k d)

  pub get_or-insert :
      (j k : String) (v default : V) (d : Dict V)
      → get_or j default (insert k v d) ≡ (if j == k then v else get_or j default d)
  unfolding get_or
  get_or-insert j k v default d = ground (arith, lookup-insert j k v d)

-- `s.add(k)`
unfoldable pub set_add : String → List String → List String
unfolding contains
set_add k s = if contains k s then s else k ∷ s

-- `s.discard(k)`
unfoldable pub set_discard : String → List String → List String
set_discard k [] = []
set_discard k (j ∷ s) = let rest = set_discard k s in if k == j then rest else j ∷ rest

contains_congr : (j k : String) (s : List String) → (j == k) ≡ true → contains j s ≡ contains k s
contains_congr j k s e = rw ((eq_iff j k).0 e)

pub contains-set_add :
    (j k : String) (s : List String)
    → contains j (set_add k s) ≡ (if j == k then true else contains j s)
unfolding set_add
contains-set_add j k s = ground (arith, contains_congr j k s)

pub contains-set_discard :
    (j k : String) (s : List String)
    → contains j (set_discard k s) ≡ (if j == k then false else contains j s)
unfolding set_discard contains
contains-set_discard j k [] = ground arith
contains-set_discard j k (i ∷ s) =
    ground (arith, eq_iff j k, eq_iff k i, eq_iff j i, contains-set_discard j k s)
