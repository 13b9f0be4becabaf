-- ===== src/ImportSession/Gate.antt =====
-- web/src/hooks/useImportSession.ts: the pure functions behind the Import button, and the merged cell
-- errors. A `Set` of row ids is a list without repetitions, in order of insertion.
use spen_drop.Base.{
  ℕ, Bool, true, false, not, ◌&&◌, String, str_eq, List, [], ◌∷◌, ◌++◌, Option, none, some, ◌==◌,
  if◌then◌else◌, any, keep, find_last, length, map,
}
use spen_drop.ImportSession.Wire.{
  Field, same_field, ImportRow, CollisionGroup, ImportFieldError, missing, unmapped,
  UnresolvedCategory, ImportPreview,
}
use spen_drop.ImportSession.Fields.{
  is_money_field, is_editable_in_preview, fallback_field_error_message,
}

-- `rowById.get(id)`: the row set last under that id
abbrev pub row_by_id : List ImportRow → ℕ → Option ImportRow
row_by_id rows id = find_last (λ r. r.row_id == id) rows

-- `row !== undefined && !row.skip`
abbrev pub is_live : Option ImportRow → Bool
is_live none = false
is_live (some r) = not r.skip

unfoldable pub active_field_errors : List ImportFieldError → List ImportRow → List ImportFieldError
active_field_errors field_errors rows = keep (λ fe. is_live (row_by_id rows fe.row_id)) field_errors

-- `set.add(id)`
abbrev pub add_id : ℕ → List ℕ → List ℕ
add_id id ids = if any (λ j. j == id) ids then ids else ids ++ id ∷ []

pub record Blocked : Type 0 where
  pub length_ids : List ℕ
  pub money_ids : List ℕ

abbrev pub block : Blocked → ImportFieldError → Blocked
block b fe =
    if is_money_field fe.field
    then record b { money_ids = add_id fe.row_id b.money_ids }
    else record b { length_ids = add_id fe.row_id b.length_ids }

unfoldable pub block_all : List ImportFieldError → Blocked → Blocked
block_all [] b = b
block_all (fe ∷ fes) b = block_all fes (block b fe)

unfoldable pub blocked_row_ids : List ImportFieldError → List ImportRow → Blocked
unfolding active_field_errors block_all
blocked_row_ids field_errors rows =
    block_all (active_field_errors field_errors rows) (record { length_ids = []; money_ids = [] })

-- whether a collision group still has a row that would be imported
unfoldable pub still_active : List ImportRow → CollisionGroup → Bool
still_active rows group = any (λ id. is_live (row_by_id rows id)) group.member_row_ids

unfoldable pub compute_unresolved_count : List CollisionGroup → List ImportRow → ℕ
unfolding still_active
compute_unresolved_count groups rows = length (keep (still_active rows) groups)

-- The members that every JavaScript object inherits, all of them truthy.
abbrev pub inherited_names : List String
inherited_names =
    "constructor" ∷ "__defineGetter__" ∷ "__defineSetter__" ∷ "hasOwnProperty" ∷ "__lookupGetter__"
    ∷ "__lookupSetter__" ∷ "isPrototypeOf" ∷ "propertyIsEnumerable" ∷ "toString" ∷ "valueOf"
    ∷ "__proto__" ∷ "toLocaleString" ∷ []

pub record Decisions : Type 0 where
  pub category_map : List (String × String)
  pub default_category_id : Option ℕ

-- `Boolean(map[name])`: an own member that is not empty, or an inherited one
unfoldable pub is_mapped : String → List (String × String) → Bool
is_mapped name [] = any (str_eq name) inherited_names
is_mapped name ((key, id) ∷ rest) =
    if str_eq name key then not (str_eq id "") else is_mapped name rest

unfoldable pub is_undecided : Decisions → UnresolvedCategory → Bool
unfolding is_mapped
is_undecided decisions entry = elim entry.reason [
  | missing ↦ elim decisions.default_category_id [ none ↦ true | some id ↦ false ]
  | unmapped ↦ not (is_mapped entry.name decisions.category_map)
]

unfoldable pub unresolved_category_decisions :
    List UnresolvedCategory → Decisions → List UnresolvedCategory
unresolved_category_decisions unresolved decisions = keep (is_undecided decisions) unresolved

-- `canImport`, for the preview, the decisions and the PATCHes under way
unfoldable pub can_import : Option ImportPreview → Decisions → ℕ → Bool
unfolding compute_unresolved_count blocked_row_ids unresolved_category_decisions
can_import none decisions pending = false
can_import (some p) decisions pending =
    let blocked = blocked_row_ids p.field_errors p.rows in
    (compute_unresolved_count p.collision_groups p.rows == 0)
    && ((length blocked.length_ids == 0)
        && ((length blocked.money_ids == 0)
            && ((length (unresolved_category_decisions p.unresolved_categories decisions) == 0)
                && (pending == 0))))

pub record CellError : Type 0 where
  pub row_id : ℕ
  pub field : Field
  pub text : String

-- `fe.message || fallback`
abbrev pub message_of : ImportFieldError → String
message_of fe = elim fe.message [
  | none ↦ fallback_field_error_message fe.field
  | some m ↦ if str_eq m "" then fallback_field_error_message fe.field else m
]

abbrev pub is_cell : ℕ → Field → CellError → Bool
is_cell id field e = (e.row_id == id) && same_field e.field field

-- The server's flags in cells of the preview, and over them the PATCHes it rejected; a later entry of
-- the same cell replaces an earlier one.
unfoldable pub cell_errors : Option ImportPreview → List CellError → List CellError
unfolding active_field_errors
cell_errors none patch_errors = patch_errors
cell_errors (some p) patch_errors =
    map (λ fe. record { row_id = fe.row_id; field = fe.field; text = message_of fe })
      (keep (λ fe. is_editable_in_preview fe.field) (active_field_errors p.field_errors p.rows))
    ++ patch_errors

abbrev pub text_of : Option CellError → Option String
text_of none = none
text_of (some e) = some e.text

-- what the table reads under a cell's key
unfoldable pub error_at : ℕ → Field → List CellError → Option String
error_at id field errors = text_of (find_last (is_cell id field) errors)
