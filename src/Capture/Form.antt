-- ===== src/Capture/Form.antt =====
-- web/src/pages/QuickAdd.tsx: what the form holds, and whether it can be added. A text of code units becomes
-- a string by `text_of`; an amount is a whole number of ten-thousandths.
use spen_drop.Base.{
  ℕ, ◌*◌, Bool, true, false, not, ◌&&◌, String, str_eq, Option, none, some, List, [], ltb,
  if◌then◌else◌,
}
use spen_drop.Base.Int.{ℤ, pos, negsuc}
use spen_drop.Money.Convert.{apply_amount_sign}
use spen_drop.QuickParse.Text.{Text}
use spen_drop.QuickParse.Category.{Category}
use spen_drop.QuickParse.Entry.{Currency, Platform, ParsedQuickEntry, parse_quick_entry}

pub data QuickMode : Type 0 where
  freeform tap : QuickMode

pub record Form : Type 0 where
  pub mode : QuickMode
  pub raw : Text
  pub tap_amount : ℤ
  pub tap_currency : String
  pub tap_description : String
  pub tap_tags : String
  pub picked_category_id : Option ℕ
  pub is_refund : Bool

-- what the hooks have loaded, with the operations of the platform
pub record Household : Type 0 where
  pub platform : Platform
  pub text_of : Text → String
  pub trim : String → String
  pub active_categories : List Category
  pub currencies : List Currency
  pub base_units : Text
  pub base_code : String
  pub rate_for : String → Option ℕ
  pub currencies_loading : Bool

pub record Effective : Type 0 where
  pub amount : ℤ
  pub currency : String
  pub description : String
  pub tags : String
  pub category_id : Option ℕ

-- `pickedCategoryId ?? parsed.categoryId`
abbrev pub or_else : Option ℕ → Option ℕ → Option ℕ
or_else none other = other
or_else (some id) other = some id

-- `parsed.amount ?? 0`, from hundredths
abbrev pub amount_or_zero : Option ℕ → ℤ
amount_or_zero none = pos 0
amount_or_zero (some n) = pos (n * 100)

unfoldable pub parsed_of : Household → Form → ParsedQuickEntry
parsed_of h f = parse_quick_entry h.platform h.active_categories h.currencies h.base_units f.raw

abbrev pub effective_in : Household → QuickMode → Form → Effective
effective_in h freeform f =
    let parsed = parsed_of h f in
    record {
      amount = amount_or_zero parsed.amount;
      currency = h.text_of parsed.currency;
      description = h.text_of parsed.description;
      tags = h.text_of parsed.tags;
      category_id = or_else f.picked_category_id parsed.category_id;
    }
effective_in h tap f = record {
  amount = f.tap_amount;
  currency = f.tap_currency;
  description = h.trim f.tap_description;
  tags = f.tap_tags;
  category_id = f.picked_category_id;
}

abbrev pub effective : Household → Form → Effective
effective h f = effective_in h f.mode f

abbrev pub is_positive : ℤ → Bool
is_positive (pos n) = ltb 0 n
is_positive (negsuc n) = false

abbrev pub is_category : Option ℕ → Bool
is_category none = false
is_category (some id) = ltb 0 id

abbrev pub is_missing : Option ℕ → Bool
is_missing none = true
is_missing (some rate) = false

abbrev pub has_no_rate : Household → Effective → Bool
has_no_rate h e =
    not h.currencies_loading
    && (not (str_eq e.currency h.base_code) && is_missing (h.rate_for e.currency))

unfoldable pub can_submit : Household → Bool → Effective → Bool
can_submit h saving e =
    is_positive e.amount
    && (not (str_eq e.description "")
        && (is_category e.category_id && (not (has_no_rate h e) && not saving)))

pub data Hint : Type 0 where
  enter_amount add_description pick_category set_rate : Hint

unfoldable pub missing_hint : Household → Bool → Effective → Option Hint
missing_hint h saving e =
    if can_submit h saving e
    then none
    else if not (is_positive e.amount)
    then some enter_amount
    else if str_eq e.description ""
    then some add_description
    else if not (is_category e.category_id)
    then some pick_category
    else if has_no_rate h e
    then some set_rate
    else none

-- `resetForNext`
abbrev pub reset_for_next : Form → Form
reset_for_next f = record f {
  raw = [];
  tap_amount = pos 0;
  tap_description = "";
  tap_tags = "";
  picked_category_id = none;
  is_refund = false;
}

-- the values of `formSnapshot`, the amount with its sign
pub record Snapshot : Type 0 where
  pub signed_amount : ℤ
  pub shown : Effective

abbrev pub snapshot_of : Household → Form → Snapshot
snapshot_of h f = record {
  signed_amount = apply_amount_sign (effective h f).amount f.is_refund;
  shown = effective h f;
}
