-- ===== src/Bulk/Handlers.antt =====
-- web/src/pages/Transactions.tsx: the handlers of the bulk delete, the bulk edit and Replace All, each with
-- the request that it sends.
use spen_drop.Base.{
  ℕ, Bool, true, false, not, ◌&&◌, ◌||◌, String, str_eq, Option, none, some, List, [], keep, ltb,
  ◌==◌, if◌then◌else◌,
}
use spen_drop.Ledger.Query.{Params, build_filter_query}
use spen_drop.Ledger.Listing.{Event}
use spen_drop.Ledger.Patch.{ComputedPatch}
use spen_drop.Ledger.Writes.{Written, written, not_written, refetch_after_mutation_error}
use spen_drop.Bulk.Screen.{
  page_scope, Screen, total, filter_scope_unsettled, is_all_matching, selection_count, is_selected,
  handle_clear_selection,
}

pub data Request : Type 0 where
  batch_delete : (ids : List ℕ) → Request
  delete_by_filter : (query : Params) → Request
  batch_update : (ids : List ℕ) (patch : ComputedPatch) → Request
  update_by_filter : (query : Params) (patch : ComputedPatch) → Request

-- the answer to a bulk edit, with the ids that its closure holds
pub data EditAnswer : Type 0 where
  edited_by_filter : (answer : Written ℕ) → EditAnswer
  edited_by_ids : (ids : List ℕ) (answer : Written (ℕ × List ℕ)) → EditAnswer

pub data PageEvent : Type 0 where
  ledger_event : (event : Event) → PageEvent
  landed : (ids : List ℕ) (count : ℕ) → PageEvent
  load_failed : PageEvent
  row_toggled : (id : ℕ) (checked : Bool) → PageEvent
  all_toggled : (checked : Bool) → PageEvent
  all_matching_chosen selection_cleared mode_toggled : PageEvent
  long_pressed : (id : ℕ) → PageEvent
  delete_requested delete_confirmed delete_dialog_closed : PageEvent
  deleted : (succeeded : Bool) → PageEvent
  edit_opened edit_closed : PageEvent
  edit_submitted : (patch : ComputedPatch) → PageEvent
  edit_confirmed edit_cancelled : PageEvent
  edit_answered : (answer : EditAnswer) → PageEvent
  replace_toggled : PageEvent
  replace_typed : (value : String) → PageEvent
  replace_requested replace_confirmed replace_cancelled : PageEvent
  replace_answered : (answer : Written ℕ) → PageEvent

-- the state after a handler, and the request that it sends
pub record Turn : Type 0 where
  pub screen : Screen
  pub request : Option Request

abbrev pub quiet : Screen → Turn
quiet s = record { screen = s; request = none }

abbrev pub filter_query : Screen → Params
filter_query s = build_filter_query s.ledger.filters

-- `executeBulkDelete`, up to the request
abbrev pub delete_request : Screen → Request
delete_request s =
    if is_all_matching s.selection_scope
    then delete_by_filter (filter_query s)
    else batch_delete s.selected_ids

unfoldable pub execute_bulk_delete : Screen → Turn
execute_bulk_delete s =
    if selection_count s == 0
    then quiet s
    else record { screen = record s { deleting = true }; request = some (delete_request s) }

unfoldable pub request_bulk_delete : Screen → Turn
unfolding execute_bulk_delete
request_bulk_delete s =
    if selection_count s == 0
    then quiet s
    else if is_all_matching s.selection_scope
    then quiet (record s { confirm_all_matching_open = true })
    else execute_bulk_delete s

-- `executeBulkDelete`, from the answer on
unfoldable pub delete_answered : Bool → Screen → Screen
delete_answered succeeded s = record s {
  deleting = false;
  selected_ids = if succeeded then [] else s.selected_ids;
  selection_scope = if succeeded then page_scope else s.selection_scope;
  confirm_all_matching_open = not succeeded && s.confirm_all_matching_open;
}

-- `dispatchBulkEdit`, up to the request
unfoldable pub dispatch_bulk_edit : ComputedPatch → Screen → Turn
dispatch_bulk_edit p s = record {
  screen = s;
  request = some (
      if is_all_matching s.selection_scope
      then update_by_filter (filter_query s) p
      else batch_update s.selected_ids p);
}

-- `onSubmit` of the bulk edit dialog
unfoldable pub submit_bulk_edit : ComputedPatch → Screen → Turn
unfolding dispatch_bulk_edit
submit_bulk_edit p s =
    if is_all_matching s.selection_scope
    then quiet (record s { bulk_confirm = some p })
    else dispatch_bulk_edit p s

-- `onConfirm` of the dialog over it
unfoldable pub confirm_bulk_edit : Option ComputedPatch → Screen → Turn
unfolding dispatch_bulk_edit
confirm_bulk_edit none s = quiet s
confirm_bulk_edit (some p) s = dispatch_bulk_edit p (record s { bulk_confirm = none })

abbrev pub edit_done : Screen → Screen
edit_done s = record s { bulk_edit_open = false; bulk_confirm = none }

-- `dispatchBulkEdit`, from the answer on
unfoldable pub bulk_edit_answered : EditAnswer → Screen → Screen
unfolding handle_clear_selection
bulk_edit_answered (edited_by_filter (written updated)) s = edit_done (handle_clear_selection s)
bulk_edit_answered (edited_by_ids ids (written (updated, visible_ids))) s =
    edit_done (record s { selected_ids = keep (is_selected visible_ids) ids })
bulk_edit_answered _ s = s

-- `handleReplaceAll`; the bar is there where there is a term and a row
abbrev pub offers_replace : Screen → Bool
offers_replace s =
    not (str_eq s.ledger.filters.search "")
    && (ltb 0 (total s) && (s.show_replace && not s.replacing))

abbrev pub description_patch : String → ComputedPatch
description_patch desc = record {
  patch = record { date = none; description = some desc; category_id = none; tags = none };
  tags_mode = none;
}

unfoldable pub handle_replace_all : (String → String) → Screen → Screen
handle_replace_all trim s =
    let desc = trim s.replace_text in
    let refused =
      str_eq desc "" || (str_eq (trim s.ledger.filters.search) "" || filter_scope_unsettled s) in
    record s {
      replace_confirm = if refused then s.replace_confirm else some (description_patch desc);
    }

-- `onConfirm` of its dialog, and `dispatchReplaceAll` up to the request
unfoldable pub confirm_replace : Option ComputedPatch → Screen → Turn
confirm_replace none s = quiet s
confirm_replace (some p) s = record {
  screen = record s { replace_confirm = none; replacing = true };
  request = some (update_by_filter (filter_query s) p);
}

abbrev pub close_replace_bar : Screen → Screen
close_replace_bar s = record s { show_replace = false; replace_text = "" }

-- `dispatchReplaceAll`, from the answer on
unfoldable pub replaced : Written ℕ → Screen → Screen
replaced (written updated) s = close_replace_bar (record s { replacing = false })
replaced (refetch_after_mutation_error message) s =
    close_replace_bar (record s { replacing = false })
replaced (not_written message) s = record s { replacing = false }
