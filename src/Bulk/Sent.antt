-- ===== src/Bulk/Sent.antt =====
-- web/src/pages/Transactions.tsx: what the page can send, handler by handler.
use spen_drop.Base.{
  ℕ, Bool, true, false, not, ◌&&◌, String, Option, none, some, if◌then◌else◌, ◌≡◌, refl, ltb,
}
use spen_drop.Ledger.Listing.{waited}
use spen_drop.Ledger.Patch.{ComputedPatch}
use spen_drop.Bulk.Screen.{
  Screen, selection_count, offers_all_matching, handle_select_all_matching, handle_select,
  handle_select_all, handle_clear_selection, toggle_selection_mode, handle_card_long_press,
}
use spen_drop.Bulk.Turn.{when, turn, dialog_open, is_open, ledger_moved}
use spen_drop.Bulk.Handlers.{
  Request, PageEvent, ledger_event, row_toggled, all_toggled, all_matching_chosen,
  selection_cleared, mode_toggled, long_pressed, delete_requested, delete_confirmed,
  delete_dialog_closed, deleted, edit_opened, edit_submitted, edit_confirmed, replace_toggled,
  replace_typed, replace_requested, replace_confirmed, Turn, quiet, execute_bulk_delete,
  request_bulk_delete, submit_bulk_edit, confirm_bulk_edit, confirm_replace, delete_answered,
  offers_replace, handle_replace_all,
}

-- What holds of no request holds behind a guard that fails.
module _ (P : Option Request → Type 0) (none_sent : P none) where
  pub sent_when :
      (b : Bool) (t : Turn) (s : Screen) → (b ≡ true → P t.request) → P (when b t s).request
  sent_when true t s h = h refl
  sent_when false t s h = none_sent

  pub sent_if :
      (b : Bool) (t u : Turn)
      → (b ≡ true → P t.request)
      → (b ≡ false → P u.request)
      → P (if b then t else u).request
  sent_if true t u first second = first refl
  sent_if false t u first second = second refl

-- a request of two, by the scope
pub chosen :
    (P : Option Request → Type 0) (b : Bool) (r r' : Request)
    → (b ≡ true → P (some r))
    → (b ≡ false → P (some r'))
    → P (some (if b then r else r'))
chosen P true r r' first second = first refl
chosen P false r r' first second = second refl

-- The handlers that send, behind their guards, are all that an event can send.
module _ (text : ℕ → String) (trim : String → String) (P : Option Request → Type 0)
    (none_sent : P none) (s : Screen)
    (on_delete : (not (dialog_open s) && not s.deleting) ≡ true → P (request_bulk_delete s).request)
    (on_confirm : (s.confirm_all_matching_open && not s.deleting) ≡ true
      → P (execute_bulk_delete s).request)
    (on_submit : (p : ComputedPatch) → P (submit_bulk_edit p s).request)
    (on_edit : P (confirm_bulk_edit s.bulk_confirm s).request)
    (on_replace : P (confirm_replace s.replace_confirm s).request) where
  silent : (b : Bool) (s' : Screen) → P (when b (quiet s') s).request
  silent true s' = none_sent
  silent false s' = none_sent

  pub sent : (e : PageEvent) → P (turn text trim e s).request
  unfolding turn
  sent (ledger_event waited) = none_sent
  sent (ledger_event e) = silent (not (dialog_open s)) (ledger_moved text e s)
  sent (row_toggled id checked) = silent (not (dialog_open s)) (handle_select id checked s)
  sent (all_toggled checked) = silent (not (dialog_open s)) (handle_select_all checked s)
  sent all_matching_chosen =
      silent (not (dialog_open s) && offers_all_matching s) (handle_select_all_matching s)
  sent selection_cleared = silent (not (dialog_open s)) (handle_clear_selection s)
  sent mode_toggled = silent (not (dialog_open s)) (toggle_selection_mode s)
  sent (long_pressed id) = silent (not (dialog_open s)) (handle_card_long_press id s)
  sent delete_requested =
      sent_when P none_sent (not (dialog_open s) && not s.deleting) (request_bulk_delete s) s
        on_delete
  sent delete_confirmed =
      sent_when P none_sent (s.confirm_all_matching_open && not s.deleting) (execute_bulk_delete s)
        s on_confirm
  sent delete_dialog_closed =
      silent (not s.deleting) (record s { confirm_all_matching_open = false })
  sent (deleted succeeded) = silent s.deleting (delete_answered succeeded s)
  sent edit_opened =
      silent (not (dialog_open s) && (ltb 0 (selection_count s) && not s.deleting))
        (record s { bulk_edit_open = true })
  sent (edit_submitted p) =
      sent_when P none_sent (s.bulk_edit_open && not (is_open s.bulk_confirm))
        (submit_bulk_edit p s) s (λ _. on_submit p)
  sent edit_confirmed = on_edit
  sent replace_toggled = silent (not (dialog_open s)) (record s {
    show_replace = not s.show_replace;
    replace_text = if s.show_replace then "" else s.replace_text;
  })
  sent (replace_typed value) = silent (not (dialog_open s)) (record s { replace_text = value })
  sent replace_requested =
      silent (not (dialog_open s) && offers_replace s) (handle_replace_all trim s)
  sent replace_confirmed = on_replace
  sent _ = none_sent
