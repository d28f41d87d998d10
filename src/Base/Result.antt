-- ===== src/Base/Result.antt =====
-- A call that may raise: the exceptions of the modelled code, as values.
use Prim.Native.String.{String}
use mathlib.Core.Path.{◌≡◌, refl}
use mathlib.Core.Option.{Option, none, some}

pub data Error : Type 0 where
  -- `decimal.DivisionByZero` and `decimal.InvalidOperation`
  division_by_zero invalid_operation : Error
  -- `KeyError` on a missing key
  key_error : Error
  -- `QuoteUnavailableError`, with its code and its message
  quote_unavailable : String → String → Error

pub data Result {ℓ} (A : Type ℓ) : Type ℓ where
  ok : A → Result A
  err : Error → Result A

infixl 5 ◌>>=◌
abbrev pub ◌>>=◌ {ℓ κ} : {A : Type ℓ} {B : Type κ} → Result A → (A → Result B) → Result B
ok a >>= f = f a
err e >>= f = err e

module _ {ℓ} {A : Type ℓ} where
  abbrev pub or_raise : Option A → Error → Result A
  or_raise none e = err e
  or_raise (some a) e = ok a

-- What a chain of calls gives is given by its first call and the rest.
pub bind-ok {ℓ κ} :
    {A : Type ℓ} {B : Type κ} (x : Result A) (f : A → Result B) {b : B}
    → (x >>= f) ≡ ok b
    → (a : A) × (x ≡ ok a) × (f a ≡ ok b)
bind-ok (ok a) f h = (a, refl, h)
bind-ok (err e) f h = cc

pub ok-cancel {ℓ} : {A : Type ℓ} {a b : A} → ok a ≡ ok b → a ≡ b
ok-cancel h = cc

-- A call that does not raise.
abbrev pub Returns {ℓ} : {A : Type ℓ} → Result A → Type ℓ
Returns {A = A} r = (a : A) × (r ≡ ok a)

pub bind-Returns {ℓ κ} :
    {A : Type ℓ} {B : Type κ} (x : Result A) (f : A → Result B)
    → Returns x
    → ((a : A) → Returns (f a))
    → Returns (x >>= f)
bind-Returns (ok a) f r g = g a
bind-Returns (err e) f (a, h) g = cc
