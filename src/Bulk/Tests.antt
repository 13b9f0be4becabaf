-- ===== src/Bulk/Tests.antt =====
-- The page on concrete events. No number is put into a query here that the tests read.
use spen_drop.Base.{ℕ, true, false, String, Option, none, some, List, [], ◌∷◌, ◌≡◌, refl}
use spen_drop.Ledger.Query.{set_param, set_given, set_categories, build_filter_query, category}
use spen_drop.Ledger.Listing.{
  search_pending, get_initial_per_page, first_render, typed, waited, sorted, act, commit, debounce,
  set_sort, step,
}
use spen_drop.Bulk.Screen.{
  Screen, handle_select, handle_select_all, handle_select_all_matching, handle_clear_selection,
  selection_count,
}
use spen_drop.Bulk.Turn.{ledger_moved, rows_landed, rows_failed, turn, run, first_screen}
use spen_drop.Bulk.Handlers.{
  Request, batch_delete, delete_by_filter, batch_update, update_by_filter, PageEvent, ledger_event,
  landed, load_failed, row_toggled, all_toggled, all_matching_chosen, delete_requested,
  delete_confirmed, edit_opened, edit_submitted, edit_confirmed, replace_toggled, replace_typed,
  replace_requested, replace_confirmed, description_patch, execute_bulk_delete, request_bulk_delete,
  dispatch_bulk_edit, submit_bulk_edit, confirm_bulk_edit, handle_replace_all, confirm_replace,
}
use spen_drop.Bulk.Counted.{Counted}
use spen_drop.Bulk.Requests.{Asked, turn-Asked, run-Counted}

program : Unit {0}
unfolding set_param set_given set_categories build_filter_query search_pending get_initial_per_page
    first_render act commit debounce set_sort step handle_select handle_select_all
    handle_select_all_matching handle_clear_selection execute_bulk_delete request_bulk_delete
    dispatch_bulk_edit submit_bulk_edit confirm_bulk_edit handle_replace_all confirm_replace
    ledger_moved rows_landed rows_failed turn run first_screen
program = tt

abbrev text : ℕ → String
text n = "1"

abbrev trim : String → String
trim s = s

abbrev number : String → Option ℕ
number s = none

abbrev opened : Screen
opened = first_screen (first_render number true none)

abbrev request_after : List PageEvent → PageEvent → Option Request
request_after es e = (turn text trim e (run text trim es opened)).request

-- two rows of nine on the page, and all nine chosen
abbrev chosen : List PageEvent
chosen =
    ledger_event (typed "tea")
    ∷ ledger_event waited
    ∷ landed (4 ∷ 7 ∷ []) 9
    ∷ all_toggled true
    ∷ all_matching_chosen
    ∷ []

abbrev then_events : List PageEvent → List PageEvent → List PageEvent
then_events [] es = es
then_events (x ∷ xs) es = x ∷ then_events xs es

deletes :
    (request_after chosen delete_requested ≡ none)
    × (request_after (then_events chosen (delete_requested ∷ [])) delete_confirmed
        ≡ some (delete_by_filter (("search", "tea") ∷ [])))
    × (request_after (then_events chosen (row_toggled 4 false ∷ [])) delete_requested
        ≡ some (batch_delete (7 ∷ [])))
unfolding program
deletes = (refl, refl, refl)

-- A pause behind the open dialog drops the choice, and the confirmation then sends nothing.
drops_choice :
    request_after
      (then_events chosen (ledger_event (typed "te") ∷ delete_requested ∷ ledger_event waited ∷ []))
      delete_confirmed
    ≡ none
unfolding program
drops_choice = refl

replaces :
    request_after
      (then_events chosen (replace_toggled ∷ replace_typed "green tea" ∷ replace_requested ∷ []))
      replace_confirmed
    ≡ some (update_by_filter (("search", "tea") ∷ []) (description_patch "green tea"))
unfolding program
replaces = refl

-- Rows sorted anew fail to load while the edit dialog is open: its confirmation speaks of no transaction
-- and the update goes to all that match.
abbrev failed_edit : List PageEvent
failed_edit = then_events chosen (
    ledger_event (sorted category)
    ∷ edit_opened
    ∷ load_failed
    ∷ edit_submitted (description_patch "green tea")
    ∷ [])

counts_nothing :
    (selection_count (run text trim failed_edit opened) ≡ 0)
    × (request_after failed_edit edit_confirmed
        ≡ some (update_by_filter (("search", "tea") ∷ []) (description_patch "green tea")))
unfolding program
counts_nothing = (refl, refl)

-- A pause behind the open edit dialog leaves an update of no row at all.
edits_nothing :
    request_after
      (then_events chosen (ledger_event (typed "te") ∷ edit_opened ∷ ledger_event waited ∷ []))
      (edit_submitted (description_patch "green tea"))
    ≡ some (batch_update [] (description_patch "green tea"))
unfolding program
edits_nothing = refl

run-Counted_example :
    Counted
      (run text trim (then_events chosen (delete_requested ∷ [])) opened)
      (request_after (then_events chosen (delete_requested ∷ [])) delete_confirmed)
run-Counted_example =
    run-Counted text trim number true none (then_events chosen (delete_requested ∷ []))
      delete_confirmed

turn-Asked_example :
    Asked (run text trim failed_edit opened) (request_after failed_edit edit_confirmed)
turn-Asked_example = turn-Asked text trim edit_confirmed (run text trim failed_edit opened)
