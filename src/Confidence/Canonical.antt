-- ===== src/Confidence/Canonical.antt =====
-- Every normalisation lands in its vocabulary, whatever text comes in.
use arbitrage_bot.Base.{
  ◌≡◌, refl, sym, true, ◌==◌, string_eq, String, Option, none, some, List, [], ◌∷◌, contains, All,
  arith, eq_iff, Bool-cases, inl, inr,
}
use arbitrage_bot.Base.Text.{strip, lower}
use mathlib.Core.Path.{subst}
use arbitrage_bot.Confidence.{
  support_status_order, fee_confidence_order, balance_confidence_order, quote_match_order, norm,
  normalize_support_status, legacy_fee, normalize_fee_confidence, legacy_balance, balance_body,
  normalize_balance_confidence, normalize_quote_match_status,
}

abbrev pub IsCanonical : List String → String → Type 0
IsCanonical order name = contains name order ≡ true

-- each name of the four vocabularies is canonical
support_names : All (IsCanonical support_status_order) support_status_order
unfolding contains
support_names = (refl, (refl, (refl, tt)))

fee_names : All (IsCanonical fee_confidence_order) fee_confidence_order
unfolding contains
fee_names = (refl, (refl, (refl, (refl, (refl, (refl, tt))))))

balance_names : All (IsCanonical balance_confidence_order) balance_confidence_order
unfolding contains
balance_names = (refl, (refl, (refl, (refl, (refl, (refl, tt))))))

quote_names : All (IsCanonical quote_match_order) quote_match_order
unfolding contains
quote_names = (refl, (refl, (refl, tt)))

pub normalize_support_status-IsCanonical :
    (raw : Option String) → IsCanonical support_status_order (normalize_support_status raw)
unfolding normalize_support_status
normalize_support_status-IsCanonical raw = ground (arith, support_names)

legacy_fee-IsCanonical : (hint : String) → IsCanonical fee_confidence_order (legacy_fee hint)
unfolding legacy_fee
legacy_fee-IsCanonical hint = ground (arith, fee_names)

pub normalize_fee_confidence-IsCanonical :
    (raw hint : Option String)
    → IsCanonical fee_confidence_order (normalize_fee_confidence raw hint)
unfolding normalize_fee_confidence
normalize_fee_confidence-IsCanonical raw hint =
    ground (arith, fee_names, legacy_fee-IsCanonical (norm hint))

legacy_balance-IsCanonical :
    (value hint hinted : String)
    → IsCanonical balance_confidence_order hinted
    → IsCanonical balance_confidence_order (legacy_balance value hint hinted)
unfolding legacy_balance
legacy_balance-IsCanonical value hint hinted h = ground (arith, balance_names)

balance_body-IsCanonical :
    (raw hint : Option String) (hinted : String)
    → IsCanonical balance_confidence_order hinted
    → IsCanonical balance_confidence_order (balance_body raw hint hinted)
unfolding balance_body
balance_body-IsCanonical raw hint hinted h =
    ground (arith, balance_names, legacy_balance-IsCanonical (norm raw) (norm hint) hinted h)

pub normalize_balance_confidence-IsCanonical :
    (raw hint : Option String)
    → IsCanonical balance_confidence_order (normalize_balance_confidence raw hint)
unfolding normalize_balance_confidence
normalize_balance_confidence-IsCanonical raw hint =
    balance_body-IsCanonical raw hint _
      (balance_body-IsCanonical (some (norm hint)) none "unknown" balance_names.0)

pub normalize_quote_match_status-IsCanonical :
    (raw : Option String) → IsCanonical quote_match_order (normalize_quote_match_status raw)
unfolding normalize_quote_match_status
normalize_quote_match_status-IsCanonical raw = ground (arith, quote_names)

-- What holds of each name of a vocabulary holds of a canonical name.
pub contains_elim {ℓ} :
    (P : String → Type ℓ) (n : String) (order : List String)
    → All P order
    → contains n order ≡ true
    → P n
unfolding contains
contains_elim P n [] h c = cc
contains_elim P n (x ∷ xs) h c = elim (Bool-cases (n == x)) [
  | inl e ↦ subst P (sym ((eq_iff n x).0 e)) h.0
  | inr ne ↦ contains_elim P n xs h.1 (ground arith)
]

-- A canonical name is its own normal form: no case and no space to strip.
abbrev IsNormal : String → Type 0
IsNormal n = norm (some n) ≡ n

norm_fee : (n : String) → IsCanonical fee_confidence_order n → norm (some n) ≡ n
unfolding norm strip lower
norm_fee n =
    contains_elim IsNormal n fee_confidence_order (refl, (refl, (refl, (refl, (refl, (refl, tt))))))

norm_balance : (n : String) → IsCanonical balance_confidence_order n → norm (some n) ≡ n
unfolding norm strip lower
norm_balance n =
    contains_elim IsNormal n balance_confidence_order
      (refl, (refl, (refl, (refl, (refl, (refl, tt))))))

norm_support : (n : String) → IsCanonical support_status_order n → norm (some n) ≡ n
unfolding norm strip lower
norm_support n = contains_elim IsNormal n support_status_order (refl, (refl, (refl, tt)))

norm_quote : (n : String) → IsCanonical quote_match_order n → norm (some n) ≡ n
unfolding norm strip lower
norm_quote n = contains_elim IsNormal n quote_match_order (refl, (refl, (refl, tt)))

-- Normalisation leaves a canonical name alone, whatever the hint.
pub normalize_fee-canonical :
    (n : String) (hint : Option String)
    → IsCanonical fee_confidence_order n
    → normalize_fee_confidence (some n) hint ≡ n
unfolding normalize_fee_confidence
normalize_fee-canonical n hint c = rw (norm_fee n c) (rw c)

pub normalize_balance-canonical :
    (n : String) (hint : Option String)
    → IsCanonical balance_confidence_order n
    → normalize_balance_confidence (some n) hint ≡ n
unfolding normalize_balance_confidence balance_body
normalize_balance-canonical n hint c = rw (norm_balance n c) (rw c)

pub normalize_support-canonical :
    (n : String) → IsCanonical support_status_order n → normalize_support_status (some n) ≡ n
unfolding normalize_support_status
normalize_support-canonical n c = rw (norm_support n c) (rw c)

pub normalize_quote-canonical :
    (n : String) → IsCanonical quote_match_order n → normalize_quote_match_status (some n) ≡ n
unfolding normalize_quote_match_status
normalize_quote-canonical n c = rw (norm_quote n c) (rw c)

-- Each of the four normalisations is canonical on every raw text and hint, and idempotent: a second
-- pass, with any hint, changes nothing.
pub normalize_idem :
    (raw hint hint' : Option String)
    → (normalize_support_status (some (normalize_support_status raw))
        ≡ normalize_support_status raw)
      × (normalize_fee_confidence (some (normalize_fee_confidence raw hint)) hint'
          ≡ normalize_fee_confidence raw hint)
      × (normalize_balance_confidence (some (normalize_balance_confidence raw hint)) hint'
          ≡ normalize_balance_confidence raw hint)
      × (normalize_quote_match_status (some (normalize_quote_match_status raw))
          ≡ normalize_quote_match_status raw)
normalize_idem raw hint hint' = (
  normalize_support-canonical _ (normalize_support_status-IsCanonical raw),
  normalize_fee-canonical _ hint' (normalize_fee_confidence-IsCanonical raw hint),
  normalize_balance-canonical _ hint' (normalize_balance_confidence-IsCanonical raw hint),
  normalize_quote-canonical _ (normalize_quote_match_status-IsCanonical raw),
)
