-- ===== src/Money/EditForm.antt =====
-- web/src/hooks/useTransactionEditForm.ts: the form that edits a transaction. The currencies that
-- `useCurrencies` gives are an argument; the text of an id and the id that a text denotes are parameters.
use spen_drop.Base.{
  ℕ, Bool, true, false, not, ◌&&◌, ◌||◌, String, str_eq, Option, none, some, ◌==◌, if◌then◌else◌,
}
use spen_drop.Base.Int.{ℤ, pos}
use spen_drop.Money.Round.{abs, is_below_zero}
use spen_drop.Money.Convert.{
  Payload, Converted, payload, no_rate, EditedMoney, StoredMoney, apply_amount_sign,
  to_create_payload, to_edit_defaults,
}

pub record Transaction : Type 0 where
  pub id : ℕ
  pub date : String
  pub description : String
  pub category_id : ℕ
  pub tags : Option String
  pub money : StoredMoney

pub record Currencies : Type 0 where
  pub base_code : String
  pub rate_for : String → Option ℕ
  pub loading : Bool

pub record EditForm : Type 0 where
  pub date : String
  pub description : String
  pub category_id : String
  pub tags : String
  pub edit_amount : ℤ
  pub is_negative : Bool
  pub edit_currency : String
  pub saving : Bool
  pub tried_empty_save : Bool
  pub did_init_edit_currency : Bool

-- `UpdateTransactionInput`
pub record UpdateInput : Type 0 where
  pub id : ℕ
  pub date : String
  pub description : String
  pub category_id : ℕ
  pub tags : String
  pub money : Payload

-- `transaction.tags ?? ''`
abbrev pub text_or_empty : Option String → String
text_or_empty none = ""
text_or_empty (some s) = s

-- what a press of Save does: nothing but the latch, a message, or a request
pub data Pressed : Type 0 where
  empty_amount : Pressed
  rate_error : (currency : String) → Pressed
  requested : (input : UpdateInput) → Pressed

-- the money that a save sends
abbrev pub edited : EditForm → EditedMoney
edited s = record {
  amount = apply_amount_sign s.edit_amount s.is_negative;
  currency = s.edit_currency;
}

module _ (text : ℕ → String) (parse_int : String → ℕ) where
  unfoldable pub open_form : Transaction → Currencies → EditForm
  unfolding to_edit_defaults
  open_form tx cs =
      let defaults = to_edit_defaults tx.money cs.base_code in
      record {
        date = tx.date;
        description = tx.description;
        category_id = text tx.category_id;
        tags = text_or_empty tx.tags;
        edit_amount = pos (abs defaults.amount);
        is_negative = is_below_zero defaults.amount;
        edit_currency = defaults.currency;
        saving = false;
        tried_empty_save = false;
        did_init_edit_currency = false;
      }

  unfoldable pub reset : Transaction → Currencies → EditForm → EditForm
  unfolding to_edit_defaults
  reset tx cs s =
      let defaults = to_edit_defaults tx.money cs.base_code in
      record s {
        tried_empty_save = false;
        date = tx.date;
        edit_amount = pos (abs defaults.amount);
        is_negative = is_below_zero defaults.amount;
        edit_currency = defaults.currency;
        description = tx.description;
        category_id = text tx.category_id;
        tags = text_or_empty tx.tags;
      }

  abbrev pub input_of : Transaction → EditForm → Payload → UpdateInput
  input_of tx s money = record {
    id = tx.id;
    date = s.date;
    description = s.description;
    category_id = parse_int s.category_id;
    tags = s.tags;
    money = money;
  }

  abbrev pub pressed_with : Transaction → EditForm → Converted → EditForm × Pressed
  pressed_with tx s (payload money) =
      (record s { saving = true; tried_empty_save = false }, requested (input_of tx s money))
  pressed_with tx s (no_rate code) =
      (record s { saving = false; tried_empty_save = false }, rate_error code)

  unfoldable pub save : Transaction → Currencies → EditForm → EditForm × Pressed
  save tx cs s =
      if abs s.edit_amount == 0
      then (record s { tried_empty_save = true }, empty_amount)
      else pressed_with tx s (to_create_payload (edited s) cs.base_code cs.rate_for)

-- the effect that runs once, when the currencies are there
unfoldable pub rehydrate : Transaction → Currencies → EditForm → EditForm
unfolding to_edit_defaults
rehydrate tx cs s =
    let resolved = to_edit_defaults tx.money cs.base_code in
    if s.did_init_edit_currency || cs.loading then s else record s {
      did_init_edit_currency = true;
      edit_amount = pos (abs resolved.amount);
      is_negative = is_below_zero resolved.amount;
      edit_currency = resolved.currency;
    }

-- the request of a save is answered, with what `onError` is told and whether `onSaved` runs
unfoldable pub save_answered : Option String → EditForm → EditForm × (String × Bool)
save_answered none s = (record s { saving = false }, ("", true))
save_answered (some message) s = (record s { saving = false }, (message, false))

abbrev pub has_rate : Option ℕ → Bool
has_rate none = false
has_rate (some r) = true

unfoldable pub save_disabled : Currencies → EditForm → Bool
save_disabled cs s =
    s.saving
    || cs.loading
    || (not (str_eq s.edit_currency cs.base_code) && not (has_rate (cs.rate_for s.edit_currency)))
