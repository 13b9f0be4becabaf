-- ===== src/Money/Typed.antt =====
-- web/src/hooks/useTransactionEditForm.ts: what becomes of an amount that the user typed.
use spen_drop.Base.{ℕ, false, String, ◌≡◌, refl}
use spen_drop.Base.Int.{ℤ}
use spen_drop.Money.EditForm.{Transaction, Currencies, open_form, rehydrate}

module _ (text : ℕ → String) (parse_int : String → ℕ) where
  -- An amount that is typed before the currencies are there is gone once they are: the form is then
  -- what it would be without it, whatever was typed and whatever the row's currency.
  pub typed-rehydrate :
      (tx : Transaction) (placeholder cs : Currencies) (typed : ℤ)
      → cs.loading ≡ false
      → let opened = open_form text parse_int tx placeholder in
        rehydrate tx cs (record opened { edit_amount = typed }) ≡ rehydrate tx cs opened
  unfolding rehydrate open_form
  typed-rehydrate tx placeholder cs typed landed = rw landed refl
