-- ===== src/ImportSession/Fields.antt =====
-- web/src/lib/import-field-errors.ts: which flagged fields are about money, which have a cell in the
-- preview, and the text of last resort.
use spen_drop.Base.{Bool, String, List, [], ◌∷◌, ◌||◌, any, if◌then◌else◌}
use spen_drop.ImportSession.Wire.{Field, description, rate, original_currency, amount, same_field}

abbrev pub import_money_fields : List Field
import_money_fields = rate ∷ original_currency ∷ amount ∷ []

unfoldable pub is_money_field : Field → Bool
is_money_field field = any (same_field field) import_money_fields

unfoldable pub is_editable_in_preview : Field → Bool
is_editable_in_preview field =
    same_field field description || (same_field field rate || same_field field amount)

abbrev money_here : String
money_here =
    "SpenDrop cannot work out this row’s money. Correct the amount or the rate here, or skip this row."

abbrev money_elsewhere : String
money_elsewhere =
    "SpenDrop cannot work out this row’s money. Skip this row, or add the currency under Settings → Currencies."

abbrev length_here : String
length_here = "This value is too long for SpenDrop. Shorten it here, or skip this row."

abbrev length_elsewhere : String
length_elsewhere =
    "This value is too long for SpenDrop. Skip this row, or shorten it in your spreadsheet and upload again."

unfoldable pub fallback_field_error_message : Field → String
unfolding is_money_field is_editable_in_preview
fallback_field_error_message field =
    if is_money_field field
    then (if is_editable_in_preview field then money_here else money_elsewhere)
    else (if is_editable_in_preview field then length_here else length_elsewhere)
