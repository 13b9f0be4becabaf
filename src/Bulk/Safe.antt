-- ===== src/Bulk/Safe.antt =====
-- web/src/pages/Transactions.tsx: the page stays settled through every event.
use spen_drop.Base.{ℕ, true, false, not, ◌&&◌, String, ltb, ◌≡◌, refl, arith}
use spen_drop.Ledger.Listing.{Event, waited}
use spen_drop.Ledger.Writes.{written, not_written, refetch_after_mutation_error}
use spen_drop.Bulk.Screen.{
  Screen, selection_count, handle_select, handle_select_all, offers_all_matching,
  handle_select_all_matching, handle_clear_selection, toggle_selection_mode, handle_card_long_press,
}
use spen_drop.Bulk.Turn.{ledger_moved, rows_landed, rows_failed, dialog_open, is_open, turn}
use spen_drop.Bulk.Handlers.{
  PageEvent, ledger_event, landed, load_failed, row_toggled, all_toggled, all_matching_chosen,
  selection_cleared, mode_toggled, long_pressed, delete_requested, delete_confirmed,
  delete_dialog_closed, deleted, edit_opened, edit_closed, edit_submitted, edit_confirmed,
  edit_cancelled, edit_answered, edited_by_filter, edited_by_ids, replace_toggled, replace_typed,
  replace_requested, replace_confirmed, replace_cancelled, replace_answered, quiet, filter_query,
  execute_bulk_delete, request_bulk_delete, delete_answered, submit_bulk_edit, bulk_edit_answered,
  offers_replace, handle_replace_all, replaced,
}
use spen_drop.Bulk.Counted.{IsSettled, ledger_moved-IsSettled}
use spen_drop.Bulk.Kept.{
  restated, when-IsSettled, unstaged, Staged-again, all-Marked, waited-Staged, here,
  toggle_selection_mode-IsSettled, execute_bulk_delete-IsSettled, request_bulk_delete-IsSettled,
  submit_bulk_edit-IsSettled, confirm_bulk_edit-IsSettled, confirm_replace-IsSettled,
  handle_select_all_matching-IsSettled, handle_replace_all-IsSettled,
}

module _ (text : ℕ → String) (trim : String → String) where
  ledger_event-IsSettled :
      (e : Event) (s : Screen)
      → IsSettled s
      → not (dialog_open s) ≡ true
      → IsSettled (ledger_moved text e s)
  ledger_event-IsSettled e s h closed =
      ledger_moved-IsSettled text e s h (unstaged _ _ _ s.replace_confirm (ground (arith, closed)))

  pub turn-IsSettled :
      (e : PageEvent) (s : Screen) → IsSettled s → IsSettled (turn text trim e s).screen
  unfolding turn rows_landed rows_failed handle_select handle_select_all handle_clear_selection
      handle_card_long_press delete_answered bulk_edit_answered replaced
  turn-IsSettled (ledger_event waited) s h =
      ledger_moved-IsSettled text waited s h (waited-Staged text s s.replace_confirm h.staged)
  turn-IsSettled (ledger_event e) s h =
      when-IsSettled (not (dialog_open s)) (quiet (ledger_moved text e s)) s h
        (ledger_event-IsSettled e s h)
  turn-IsSettled (landed ids count) s h = record {
    debounced = h.debounced;
    default = h.default;
    marked = all-Marked (here ids count s) (filter_query s) s.selection_scope refl;
    staged =
        Staged-again s.shown (here ids count s) (filter_query s) s.ledger.timer s.replace_confirm
          h.staged refl;
  }
  turn-IsSettled load_failed s h = restated s _ refl refl refl h h.marked h.staged
  turn-IsSettled (row_toggled id checked) s h =
      when-IsSettled (not (dialog_open s)) _ s h (λ _. restated s _ refl refl refl h tt h.staged)
  turn-IsSettled (all_toggled checked) s h =
      when-IsSettled (not (dialog_open s)) _ s h (λ _. restated s _ refl refl refl h tt h.staged)
  turn-IsSettled all_matching_chosen s h =
      when-IsSettled (not (dialog_open s) && offers_all_matching s)
        (quiet (handle_select_all_matching s)) s h
        (λ e. handle_select_all_matching-IsSettled s h (ground (arith, e)))
  turn-IsSettled selection_cleared s h =
      when-IsSettled (not (dialog_open s)) _ s h (λ _. restated s _ refl refl refl h tt h.staged)
  turn-IsSettled mode_toggled s h =
      when-IsSettled (not (dialog_open s)) (quiet (toggle_selection_mode s)) s h
        (λ _. toggle_selection_mode-IsSettled s h)
  turn-IsSettled (long_pressed id) s h =
      when-IsSettled (not (dialog_open s)) _ s h (λ _. restated s _ refl refl refl h tt h.staged)
  turn-IsSettled delete_requested s h =
      when-IsSettled (not (dialog_open s) && not s.deleting) (request_bulk_delete s) s h
        (λ _. request_bulk_delete-IsSettled s h)
  turn-IsSettled delete_confirmed s h =
      when-IsSettled (s.confirm_all_matching_open && not s.deleting) (execute_bulk_delete s) s h
        (λ _. execute_bulk_delete-IsSettled s h)
  turn-IsSettled delete_dialog_closed s h =
      when-IsSettled (not s.deleting) _ s h (λ _. restated s _ refl refl refl h h.marked h.staged)
  turn-IsSettled (deleted true) s h =
      when-IsSettled s.deleting _ s h (λ _. restated s _ refl refl refl h tt h.staged)
  turn-IsSettled (deleted false) s h =
      when-IsSettled s.deleting _ s h (λ _. restated s _ refl refl refl h h.marked h.staged)
  turn-IsSettled edit_opened s h =
      when-IsSettled (not (dialog_open s) && (ltb 0 (selection_count s) && not s.deleting))
        (quiet (record s { bulk_edit_open = true })) s h
        (λ _. restated s (record s { bulk_edit_open = true }) refl refl refl h h.marked h.staged)
  turn-IsSettled edit_closed s h = restated s _ refl refl refl h h.marked h.staged
  turn-IsSettled (edit_submitted p) s h =
      when-IsSettled (s.bulk_edit_open && not (is_open s.bulk_confirm)) (submit_bulk_edit p s) s h
        (λ _. submit_bulk_edit-IsSettled p s h)
  turn-IsSettled edit_confirmed s h = confirm_bulk_edit-IsSettled s.bulk_confirm s h
  turn-IsSettled edit_cancelled s h = restated s _ refl refl refl h h.marked h.staged
  turn-IsSettled (edit_answered (edited_by_filter (written n))) s h =
      restated s _ refl refl refl h tt h.staged
  turn-IsSettled (edit_answered (edited_by_filter (not_written m))) s h = h
  turn-IsSettled (edit_answered (edited_by_filter (refetch_after_mutation_error m))) s h = h
  turn-IsSettled (edit_answered (edited_by_ids ids (written (n, visible)))) s h =
      restated s _ refl refl refl h h.marked h.staged
  turn-IsSettled (edit_answered (edited_by_ids ids (not_written m))) s h = h
  turn-IsSettled (edit_answered (edited_by_ids ids (refetch_after_mutation_error m))) s h = h
  turn-IsSettled replace_toggled s h =
      when-IsSettled (not (dialog_open s)) _ s h
        (λ _. restated s _ refl refl refl h h.marked h.staged)
  turn-IsSettled (replace_typed value) s h =
      when-IsSettled (not (dialog_open s)) _ s h
        (λ _. restated s _ refl refl refl h h.marked h.staged)
  turn-IsSettled replace_requested s h =
      when-IsSettled (not (dialog_open s) && offers_replace s) (quiet (handle_replace_all trim s)) s
        h (λ e. handle_replace_all-IsSettled trim s h (ground (arith, e)))
  turn-IsSettled replace_confirmed s h = confirm_replace-IsSettled s.replace_confirm s h
  turn-IsSettled replace_cancelled s h = restated s _ refl refl refl h h.marked tt
  turn-IsSettled (replace_answered (written n)) s h =
      restated s _ refl refl refl h h.marked h.staged
  turn-IsSettled (replace_answered (not_written m)) s h =
      restated s _ refl refl refl h h.marked h.staged
  turn-IsSettled (replace_answered (refetch_after_mutation_error m)) s h =
      restated s _ refl refl refl h h.marked h.staged
