-- ===== src/Money/Convert.antt =====
-- web/src/lib/currency.ts: the two halves of a foreign amount, and when a save leaves them alone. A rate
-- is a number like an amount; the code refuses one that is not above 0, and so does the model 0.
use spen_drop.Base.{
  ℕ, zero, suc, Bool, false, not, ◌&&◌, ◌||◌, String, str_eq, Option, none, some, ◌==◌,
  if◌then◌else◌, ◌≡◌, refl, ap, ◌∙◌,
}
use spen_drop.Base.Int.{ℤ}
use spen_drop.Money.Round.{
  negate, abs, double_of, dollars_to_cents, round_to_preview, abs-negate, dollars_to_cents-negate,
}
use spen_drop.Money.Double.{quotient}

unfoldable pub apply_amount_sign : ℤ → Bool → ℤ
apply_amount_sign magnitude negative =
    if not negative || (abs magnitude == 0) then magnitude else negate magnitude

-- the money of a payload: `original_amount` and `original_currency` are there together or not at all
pub record Payload : Type 0 where
  pub amount : ℤ
  pub original : Option (ℤ × String)

pub data Converted : Type 0 where
  payload : (money : Payload) → Converted
  no_rate : (currency : String) → Converted

pub record EditedMoney : Type 0 where
  pub amount : ℤ
  pub currency : String

-- what a row carries
pub record StoredMoney : Type 0 where
  pub amount : ℤ
  pub original_amount : Option ℤ
  pub original_currency : Option String

-- `roundToPreview(amount / rate)`
abbrev pub base_value : ℤ → ℕ → ℤ
base_value amount rate =
    round_to_preview amount (quotient (double_of (abs amount)) (double_of rate))

-- `rate == null || rate <= 0`, and the division
unfoldable pub converted : EditedMoney → Option ℕ → Converted
unfolding round_to_preview quotient
converted m none = no_rate m.currency
converted m (some zero) = no_rate m.currency
converted m (some (suc r)) =
    payload
      (record { amount = base_value m.amount (suc r); original = some (m.amount, m.currency) })

unfoldable pub to_create_payload : EditedMoney → String → (String → Option ℕ) → Converted
unfolding converted
to_create_payload m base rate_for =
    if str_eq m.currency base
    then payload (record { amount = m.amount; original = none })
    else converted m (rate_for m.currency)

unfoldable pub edit_defaults : ℤ → Option ℤ → Option String → String → EditedMoney
edit_defaults amount (some original) (some code) base = record {
  amount = original;
  currency = code;
}
edit_defaults amount none code base = record { amount = amount; currency = base }
edit_defaults amount (some original) none base = record { amount = amount; currency = base }

unfoldable pub to_edit_defaults : StoredMoney → String → EditedMoney
unfolding edit_defaults
to_edit_defaults tx base = edit_defaults tx.amount tx.original_amount tx.original_currency base

unfoldable pub same_magnitude : Option ℤ → Option String → EditedMoney → Bool
unfolding dollars_to_cents
same_magnitude (some original) (some code) edited =
    str_eq edited.currency code
    && (abs (dollars_to_cents edited.amount) == abs (dollars_to_cents original))
same_magnitude none code edited = false
same_magnitude (some original) none edited = false

unfoldable pub foreign_magnitude_unchanged : StoredMoney → EditedMoney → String → Bool
unfolding same_magnitude
foreign_magnitude_unchanged stored edited base =
    not (str_eq edited.currency base)
    && same_magnitude stored.original_amount stored.original_currency edited

abs-dollars_to_cents-negate : (x : ℤ) → abs (dollars_to_cents (negate x)) ≡ abs (dollars_to_cents x)
abs-dollars_to_cents-negate x = ap abs (dollars_to_cents-negate x) ∙ abs-negate (dollars_to_cents x)

same_magnitude-negate :
    (original : Option ℤ) (code : Option String) (edited : EditedMoney)
    → same_magnitude original code (record edited { amount = negate edited.amount })
      ≡ same_magnitude original code edited
unfolding same_magnitude
same_magnitude-negate (some original) (some code) edited =
    rw (abs-dollars_to_cents-negate edited.amount) refl
same_magnitude-negate none code edited = refl
same_magnitude-negate (some original) none edited = refl

-- The Refund toggle never re-prices: whether the foreign money is the row's own does not depend on
-- the direction of the edit.
pub foreign_magnitude_unchanged-negate :
    (stored : StoredMoney) (edited : EditedMoney) (base : String)
    → foreign_magnitude_unchanged stored (record edited { amount = negate edited.amount }) base
      ≡ foreign_magnitude_unchanged stored edited base
unfolding foreign_magnitude_unchanged
foreign_magnitude_unchanged-negate stored edited base =
    rw (same_magnitude-negate stored.original_amount stored.original_currency edited) refl
