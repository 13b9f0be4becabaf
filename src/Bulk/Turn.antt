-- ===== src/Bulk/Turn.antt =====
-- web/src/pages/Transactions.tsx: the page under any sequence of events. While a dialog is open, the page
-- under it takes no click and no key; a timeout and an answer still come. `text` gives the text of a
-- number and `trim` is that of a text.
use spen_drop.Base.{
  ℕ, Bool, true, false, not, ◌&&◌, ◌||◌, String, Option, none, some, List, [], ◌∷◌, ltb, ◌==◌,
  if◌then◌else◌,
}
use spen_drop.Ledger.Listing.{
  Ledger, Event, waited, filter_set, filters_cleared, panel_cleared, step,
}
use spen_drop.Ledger.Patch.{ComputedPatch}
use spen_drop.Bulk.Screen.{
  Shown, page_scope, Screen, same_key, selection_count, handle_select, handle_select_all,
  offers_all_matching, handle_select_all_matching, handle_clear_selection, toggle_selection_mode,
  handle_card_long_press,
}
use spen_drop.Bulk.Handlers.{
  PageEvent, Turn, quiet, execute_bulk_delete, request_bulk_delete, delete_answered,
  submit_bulk_edit, confirm_bulk_edit, bulk_edit_answered, offers_replace, handle_replace_all,
  confirm_replace, replaced, ledger_event, landed, load_failed, row_toggled, all_toggled,
  all_matching_chosen, selection_cleared, mode_toggled, long_pressed, delete_requested,
  delete_confirmed, delete_dialog_closed, deleted, edit_opened, edit_closed, edit_submitted,
  edit_confirmed, edit_cancelled, edit_answered, replace_toggled, replace_typed, replace_requested,
  replace_confirmed, replace_cancelled, replace_answered,
}

-- Whether an operation of the ledger makes another `filters` object.
abbrev pub replaces_filters : Event → Screen → Bool
replaces_filters waited s = elim s.ledger.timer [ none ↦ false | some t ↦ true ]
replaces_filters (filter_set key value) s = true
replaces_filters filters_cleared s = not s.is_default
replaces_filters panel_cleared s = true
replaces_filters _ s = false

abbrev pub is_default_after : Event → Screen → Bool
is_default_after filters_cleared s = true
is_default_after e s = s.is_default && not (replaces_filters e s)

-- the effect on `[page, filters, perPage]`
abbrev pub clear_if : Bool → Screen → Screen
clear_if changed s = record s {
  selected_ids = if changed then [] else s.selected_ids;
  selection_scope = if changed then page_scope else s.selection_scope;
  selection_mode = not changed && s.selection_mode;
}

unfoldable pub ledger_moved : (ℕ → String) → Event → Screen → Screen
ledger_moved text e s =
    let l = step text e s.ledger in
    let changed =
      replaces_filters e s
      || (not (l.page == s.ledger.page) || not (l.per_page == s.ledger.per_page)) in
    clear_if changed (record s {
      ledger = l;
      is_default = is_default_after e s;
      failed = s.failed && same_key s.ledger l;
    })

-- what the query cache answers for the present key
unfoldable pub rows_landed : List ℕ → ℕ → Screen → Screen
rows_landed ids count s = record s {
  shown = some (record { key = s.ledger; ids = ids; total = count });
  failed = false;
}

abbrev pub holds_key : Ledger → Option Shown → Bool
holds_key l none = false
holds_key l (some d) = same_key d.key l

unfoldable pub rows_failed : Screen → Screen
rows_failed s = record s { failed = not (holds_key s.ledger s.shown) }

abbrev pub is_open : Option ComputedPatch → Bool
is_open none = false
is_open (some p) = true

abbrev pub dialog_open : Screen → Bool
dialog_open s =
    s.confirm_all_matching_open
    || (s.bulk_edit_open || (is_open s.bulk_confirm || is_open s.replace_confirm))

abbrev pub when : Bool → Turn → Screen → Turn
when allowed t s = if allowed then t else quiet s

-- one event, where no dialog keeps it from the page
module _ (text : ℕ → String) (trim : String → String) where
  abbrev pub on_page : Screen → Screen → Turn
  on_page s s' = when (not (dialog_open s)) (quiet s') s

  unfoldable pub turn : PageEvent → Screen → Turn
  turn (ledger_event waited) s = quiet (ledger_moved text waited s)
  turn (ledger_event e) s = on_page s (ledger_moved text e s)
  turn (landed ids count) s = quiet (rows_landed ids count s)
  turn load_failed s = quiet (rows_failed s)
  turn (row_toggled id checked) s = on_page s (handle_select id checked s)
  turn (all_toggled checked) s = on_page s (handle_select_all checked s)
  turn all_matching_chosen s =
      when (not (dialog_open s) && offers_all_matching s) (quiet (handle_select_all_matching s)) s
  turn selection_cleared s = on_page s (handle_clear_selection s)
  turn mode_toggled s = on_page s (toggle_selection_mode s)
  turn (long_pressed id) s = on_page s (handle_card_long_press id s)
  turn delete_requested s = when (not (dialog_open s) && not s.deleting) (request_bulk_delete s) s
  turn delete_confirmed s =
      when (s.confirm_all_matching_open && not s.deleting) (execute_bulk_delete s) s
  turn delete_dialog_closed s =
      when (not s.deleting) (quiet (record s { confirm_all_matching_open = false })) s
  turn (deleted succeeded) s = when s.deleting (quiet (delete_answered succeeded s)) s
  turn edit_opened s =
      when (not (dialog_open s) && (ltb 0 (selection_count s) && not s.deleting))
        (quiet (record s { bulk_edit_open = true })) s
  turn edit_closed s = quiet (record s { bulk_edit_open = false })
  turn (edit_submitted p) s =
      when (s.bulk_edit_open && not (is_open s.bulk_confirm)) (submit_bulk_edit p s) s
  turn edit_confirmed s = confirm_bulk_edit s.bulk_confirm s
  turn edit_cancelled s = quiet (record s { bulk_confirm = none })
  turn (edit_answered answer) s = quiet (bulk_edit_answered answer s)
  turn replace_toggled s =
      when (not (dialog_open s))
        (quiet (record s {
          show_replace = not s.show_replace;
          replace_text = if s.show_replace then "" else s.replace_text;
        }))
        s
  turn (replace_typed value) s = on_page s (record s { replace_text = value })
  turn replace_requested s =
      when (not (dialog_open s) && offers_replace s) (quiet (handle_replace_all trim s)) s
  turn replace_confirmed s = confirm_replace s.replace_confirm s
  turn replace_cancelled s = quiet (record s { replace_confirm = none })
  turn (replace_answered answer) s = quiet (replaced answer s)

  unfoldable pub run : List PageEvent → Screen → Screen
  run [] s = s
  run (e ∷ es) s = run es (turn e s).screen

unfoldable pub first_screen : Ledger → Screen
first_screen l = record {
  ledger = l;
  is_default = true;
  shown = none;
  failed = false;
  selected_ids = [];
  selection_scope = page_scope;
  selection_mode = false;
  deleting = false;
  confirm_all_matching_open = false;
  bulk_edit_open = false;
  bulk_confirm = none;
  show_replace = false;
  replace_text = "";
  replacing = false;
  replace_confirm = none;
}
