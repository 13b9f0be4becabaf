-- ===== src/Money/Tests.antt =====
-- Amounts in ten-thousandths: a household whose base is the dollar, and a currency at 90000 to it.
use spen_drop.Base.{ℕ, true, false, String, str_eq, Option, none, some, if◌then◌else◌, ◌≡◌, refl}
use spen_drop.Base.Int.{pos, negsuc}
use spen_drop.Money.Round.{round_to_preview, round_half_away_from_zero, dollars_to_cents}
use spen_drop.Money.Double.{doublings, halvings, half_even, nearest, product, quotient, math_round}
use spen_drop.Money.Convert.{
  base_value, EditedMoney, StoredMoney, payload, to_create_payload, converted,
  foreign_magnitude_unchanged, apply_amount_sign, edit_defaults, to_edit_defaults,
}
use spen_drop.Money.EditForm.{
  Transaction, Currencies, requested, edited, open_form, save, rehydrate,
}
use spen_drop.Money.Untouched.{opened, restated, untouched-base, untouched-foreign}

program : Unit {0}
unfolding doublings halvings half_even nearest product quotient math_round round_half_away_from_zero
    dollars_to_cents round_to_preview converted to_create_payload apply_amount_sign edit_defaults
    to_edit_defaults open_form rehydrate save
program = tt

abbrev rate_for : String → Option ℕ
rate_for code = if str_eq code "LBP" then some 900000000 else none

abbrev landed : Currencies
landed = record { base_code = "USD"; rate_for = rate_for; loading = false }

abbrev placeholder : Currencies
placeholder = record { base_code = "EUR"; rate_for = λ _. none; loading = true }

-- 150000 pounds come back
abbrev refund : EditedMoney
refund = record { amount = negsuc 1499999999; currency = "LBP" }

refund_priced :
    to_create_payload refund "USD" rate_for
    ≡ payload (record { amount = negsuc 16699; original = some (negsuc 1499999999, "LBP") })
unfolding program
refund_priced = refl

-- In doubles 0.29 / 58 * 100 is below a half, and 2.01 / 2 * 100 below a hundred and a half; half a cent
-- alone is rounded away from zero.
doubles :
    (base_value (pos 2900) 580000 ≡ pos 0)
    × (base_value (pos 20100) 20000 ≡ pos 10000)
    × (dollars_to_cents (negsuc 49) ≡ negsuc 0)
unfolding program
doubles = (refl, refl, refl)

abbrev text : ℕ → String
text n = "7"

abbrev parse_int : String → ℕ
parse_int s = 7

abbrev row : StoredMoney → Transaction
row money = record {
  id = 3;
  date = "2026-05-01";
  description = "taxi";
  category_id = 7;
  tags = none;
  money = money;
}

abbrev bought : StoredMoney
bought = record { amount = negsuc 124999; original_amount = none; original_currency = none }

abbrev bought_abroad : StoredMoney
bought_abroad = record {
  amount = negsuc 19999;
  original_amount = some (negsuc 1499999999);
  original_currency = some "LBP";
}

untouched-base_example :
    (save text parse_int
      (row bought)
      landed
      (opened text parse_int (row bought) placeholder landed)).1
    ≡ requested (
        restated text parse_int
          (row bought)
          placeholder
          landed
          (record { amount = negsuc 124999; original = none }))
untouched-base_example =
    untouched-base text parse_int (row bought) placeholder landed refl refl refl refl

untouched-foreign_example :
    let tx = row bought_abroad in
    let s = opened text parse_int tx placeholder landed in
    ((save text parse_int tx landed s).1
      ≡ requested (
          restated text parse_int tx placeholder landed (record {
            amount = base_value (negsuc 1499999999) 900000000;
            original = some (negsuc 1499999999, "LBP");
          })))
    × (foreign_magnitude_unchanged bought_abroad (edited s) "USD" ≡ true)
untouched-foreign_example =
    untouched-foreign text parse_int (row bought_abroad) placeholder landed (negsuc 1499999999)
      "LBP" 899999999 refl refl refl refl refl refl refl
