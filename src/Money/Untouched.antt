-- ===== src/Money/Untouched.antt =====
-- web/src/hooks/useTransactionEditForm.ts: what a save sends of money that the user did not touch, and
-- what becomes of money that the user typed.
use spen_drop.Base.{
  ℕ, suc, true, false, String, str_eq, str_eq_self, none, some, ◌==◌, ◌≡◌, refl, ap, ◌∙◌, arith,
}
use spen_drop.Base.Int.{ℤ, pos, negsuc}
use spen_drop.Money.Round.{abs, is_below_zero, dollars_to_cents}
use spen_drop.Money.Convert.{
  base_value, Payload, payload, StoredMoney, apply_amount_sign, converted, to_create_payload,
  edit_defaults, to_edit_defaults, same_magnitude, foreign_magnitude_unchanged,
}
use spen_drop.Money.EditForm.{
  Transaction, Currencies, EditForm, UpdateInput, requested, open_form, input_of, edited, save,
  rehydrate, text_or_empty,
}

-- The magnitude in the box and the toggle make up the money that they were split from.
apply_amount_sign-split : (x : ℤ) → apply_amount_sign (pos (abs x)) (is_below_zero x) ≡ x
unfolding apply_amount_sign
apply_amount_sign-split (pos n) = refl
apply_amount_sign-split (negsuc n) = ground arith

-- A row's own foreign money is unchanged money.
restated-unchanged :
    (money : StoredMoney) (base : String) (original : ℤ) (code : String)
    → money.original_amount ≡ some original
    → money.original_currency ≡ some code
    → str_eq code base ≡ false
    → foreign_magnitude_unchanged money (to_edit_defaults money base) base ≡ true
unfolding to_edit_defaults edit_defaults foreign_magnitude_unchanged same_magnitude
restated-unchanged money base original code amount currency foreign =
    let same : (abs (dollars_to_cents original) == abs (dollars_to_cents original)) ≡ true =
      ground arith in
    rw (amount, currency) (rw (foreign, str_eq_self code, same) refl)

module _ (text : ℕ → String) (parse_int : String → ℕ) (tx : Transaction)
    (placeholder cs : Currencies) where
  -- the form opened before the currencies are there, once they are
  abbrev pub opened : EditForm
  opened = rehydrate tx cs (open_form text parse_int tx placeholder)

  opened-edited : cs.loading ≡ false → edited opened ≡ to_edit_defaults tx.money cs.base_code
  unfolding rehydrate open_form
  opened-edited landed =
      let own = to_edit_defaults tx.money cs.base_code in
      rw landed (ap (λ a. record own { amount = a }) (apply_amount_sign-split own.amount))

  -- the row's own fields with some money
  abbrev pub restated : Payload → UpdateInput
  restated p = record {
    id = tx.id;
    date = tx.date;
    description = tx.description;
    category_id = tx.category_id;
    tags = text_or_empty tx.tags;
    money = p;
  }

  opened_fields :
      cs.loading ≡ false
      → parse_int (text tx.category_id) ≡ tx.category_id
      → (p : Payload) → input_of text parse_int tx opened p ≡ restated p
  unfolding rehydrate open_form
  opened_fields landed back p = rw landed (rw back refl)

  opened-amount :
      cs.loading ≡ false
      → abs opened.edit_amount ≡ abs (to_edit_defaults tx.money cs.base_code).amount
  unfolding rehydrate open_form
  opened-amount landed = rw landed refl

  save-opened :
      (p : Payload)
      → cs.loading ≡ false
      → parse_int (text tx.category_id) ≡ tx.category_id
      → (abs (to_edit_defaults tx.money cs.base_code).amount == 0) ≡ false
      → to_create_payload (to_edit_defaults tx.money cs.base_code) cs.base_code cs.rate_for
        ≡ payload p
      → (save text parse_int tx cs opened).1 ≡ requested (restated p)
  unfolding save
  save-opened p landed back full priced =
      let whole : (abs opened.edit_amount == 0) ≡ false =
        ap (λ n. n == 0) (opened-amount landed) ∙ full in
      let own =
        ap (λ m. to_create_payload m cs.base_code cs.rate_for) (opened-edited landed) ∙ priced in
      rw whole (rw own (ap requested (opened_fields landed back p)))

  -- A row in the base currency whose amount is not 0, opened before the currencies were there and
  -- saved untouched once they are, is sent with its own fields and its own signed amount; this where
  -- the text of an id denotes that id.
  pub untouched-base :
      cs.loading ≡ false
      → parse_int (text tx.category_id) ≡ tx.category_id
      → tx.money.original_amount ≡ none
      → (abs tx.money.amount == 0) ≡ false
      → (save text parse_int tx cs opened).1
        ≡ requested (restated (record { amount = tx.money.amount; original = none }))
  unfolding to_edit_defaults edit_defaults to_create_payload
  untouched-base landed back plain full =
      save-opened (record { amount = tx.money.amount; original = none }) landed back (rw plain full)
        (rw plain (rw (str_eq_self cs.base_code) refl))

  -- A row in another currency with a rate, whose original amount is not 0, opened before the currencies
  -- were there and saved untouched once they are, is sent with its own fields and its own signed
  -- original amount and currency, which is money that the server does not price again; this where
  -- the text of an id denotes that id.
  pub untouched-foreign :
      (original : ℤ) (code : String) (r : ℕ)
      → cs.loading ≡ false
      → parse_int (text tx.category_id) ≡ tx.category_id
      → tx.money.original_amount ≡ some original
      → tx.money.original_currency ≡ some code
      → str_eq code cs.base_code ≡ false
      → cs.rate_for code ≡ some (suc r)
      → (abs original == 0) ≡ false
      → ((save text parse_int tx cs opened).1
          ≡ requested (
              restated (record {
                amount = base_value original (suc r);
                original = some (original, code);
              })))
        × (foreign_magnitude_unchanged tx.money (edited opened) cs.base_code ≡ true)
  unfolding to_edit_defaults edit_defaults to_create_payload converted
  untouched-foreign original code r landed back amount currency foreign rated full = (
    save-opened (record { amount = base_value original (suc r); original = some (original, code) })
        landed back (rw (amount, currency) full)
        (rw (amount, currency) (rw foreign (rw rated refl))),
    ap (λ m. foreign_magnitude_unchanged tx.money m cs.base_code) (opened-edited landed)
        ∙ restated-unchanged tx.money cs.base_code original code amount currency foreign,
  )
