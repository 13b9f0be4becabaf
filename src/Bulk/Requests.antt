-- ===== src/Bulk/Requests.antt =====
-- web/src/pages/Transactions.tsx: the requests that the page sends in any history.
use spen_drop.Base.{
  ℕ, Bool, true, false, not, ◌&&◌, String, Option, none, some, List, [], ◌∷◌, ◌==◌, ◌≡◌, refl, ◌⊎◌,
  inl, inr, arith,
}
use spen_drop.Ledger.Listing.{
  Event, typed, waited, filter_set, filters_cleared, panel_cleared, page_set, per_page_set, sorted,
  first_render,
}
use spen_drop.Ledger.Debounce.{run-IsDebounced}
use spen_drop.Ledger.Patch.{ComputedPatch}
use spen_drop.Bulk.Screen.{Screen, is_all_matching, selection_count}
use spen_drop.Bulk.Turn.{turn, run, first_screen}
use spen_drop.Bulk.Handlers.{
  Request, delete_by_filter, update_by_filter, PageEvent, quiet, filter_query, execute_bulk_delete,
  request_bulk_delete, dispatch_bulk_edit, submit_bulk_edit, confirm_bulk_edit, confirm_replace,
}
use spen_drop.Bulk.Counted.{Counted, Staged, IsSettled, Marked-all, counted-data_of}
use spen_drop.Bulk.Safe.{turn-IsSettled}
use spen_drop.Bulk.Sent.{sent_if, chosen, sent}

-- A write by filter was asked for in a dialog, which is open and holds the patch of an update.
abbrev pub Asked : Screen → Option Request → Type 0
Asked s (some (delete_by_filter query)) =
    (s.confirm_all_matching_open ≡ true) × (s.deleting ≡ false)
Asked s (some (update_by_filter query patch)) =
    (s.bulk_confirm ≡ some patch) ⊎ (s.replace_confirm ≡ some patch)
Asked s _ = Unit

module _ (s : Screen) (h : IsSettled s) where
  execute_bulk_delete-Counted : Counted s (execute_bulk_delete s).request
  unfolding execute_bulk_delete
  execute_bulk_delete-Counted =
      sent_if (Counted s) tt (selection_count s == 0) (quiet s) _ (λ _. tt)
        (λ count.
          chosen (Counted s) (is_all_matching s.selection_scope) _ _
            (λ all. counted-data_of s h.marked all count) (λ _. tt))

  dispatch_bulk_edit-Counted : (p : ComputedPatch) → Counted s (dispatch_bulk_edit p s).request
  unfolding dispatch_bulk_edit
  dispatch_bulk_edit-Counted p =
      chosen (Counted s) (is_all_matching s.selection_scope) _ _
        (λ all. Marked-all s s.selection_scope h.marked all) (λ _. tt)

  request_bulk_delete-Counted : Counted s (request_bulk_delete s).request
  unfolding request_bulk_delete
  request_bulk_delete-Counted =
      sent_if (Counted s) tt (selection_count s == 0) (quiet s) _ (λ _. tt)
        (λ count.
          sent_if (Counted s) tt (is_all_matching s.selection_scope) _ (execute_bulk_delete s)
            (λ _. tt) (λ _. execute_bulk_delete-Counted))

  submit_bulk_edit-Counted : (p : ComputedPatch) → Counted s (submit_bulk_edit p s).request
  unfolding submit_bulk_edit
  submit_bulk_edit-Counted p =
      sent_if (Counted s) tt (is_all_matching s.selection_scope) _ (dispatch_bulk_edit p s)
        (λ _. tt) (λ _. dispatch_bulk_edit-Counted p)

  confirm_bulk_edit-Counted : (o : Option ComputedPatch) → Counted s (confirm_bulk_edit o s).request
  unfolding confirm_bulk_edit dispatch_bulk_edit
  confirm_bulk_edit-Counted none = tt
  confirm_bulk_edit-Counted (some p) = dispatch_bulk_edit-Counted p

  confirm_replace-Counted :
      (o : Option ComputedPatch)
      → Staged s.shown (filter_query s) s.ledger.timer o
      → Counted s (confirm_replace o s).request
  unfolding confirm_replace
  confirm_replace-Counted none t = tt
  confirm_replace-Counted (some p) (d, clear) = d

module _ (s : Screen) where
  execute_bulk_delete-Asked :
      (s.confirm_all_matching_open && not s.deleting) ≡ true
      → Asked s (execute_bulk_delete s).request
  unfolding execute_bulk_delete
  execute_bulk_delete-Asked open_now =
      sent_if (Asked s) tt (selection_count s == 0) (quiet s) _ (λ _. tt)
        (λ count.
          chosen (Asked s) (is_all_matching s.selection_scope) _ _
            (λ all. (ground (arith, open_now), ground (arith, open_now))) (λ _. tt))

  -- Off the dialog, a delete is of the rows selected.
  request_bulk_delete-Asked : Asked s (request_bulk_delete s).request
  unfolding request_bulk_delete execute_bulk_delete
  request_bulk_delete-Asked =
      sent_if (Asked s) tt (selection_count s == 0) (quiet s) _ (λ _. tt)
        (λ count.
          sent_if (Asked s) tt (is_all_matching s.selection_scope) _ (execute_bulk_delete s)
            (λ _. tt) (λ page. rw (count, page) tt))

  submit_bulk_edit-Asked : (p : ComputedPatch) → Asked s (submit_bulk_edit p s).request
  unfolding submit_bulk_edit dispatch_bulk_edit
  submit_bulk_edit-Asked p =
      sent_if (Asked s) tt (is_all_matching s.selection_scope) _ (dispatch_bulk_edit p s) (λ _. tt)
        (λ page. rw page tt)

  confirm_bulk_edit-Asked :
      (o : Option ComputedPatch) → s.bulk_confirm ≡ o → Asked s (confirm_bulk_edit o s).request
  unfolding confirm_bulk_edit dispatch_bulk_edit
  confirm_bulk_edit-Asked none e = tt
  confirm_bulk_edit-Asked (some p) e =
      chosen (Asked s) (is_all_matching s.selection_scope) _ _ (λ _. inl e) (λ _. tt)

  confirm_replace-Asked :
      (o : Option ComputedPatch) → s.replace_confirm ≡ o → Asked s (confirm_replace o s).request
  unfolding confirm_replace
  confirm_replace-Asked none e = tt
  confirm_replace-Asked (some p) e = inr e

module _ (text : ℕ → String) (trim : String → String) where
  -- Whatever the state of the page, a delete of all that match is sent only from its open dialog, while
  -- no delete is under way, and an update of all that match only with the patch that a dialog holds.
  pub turn-Asked : (e : PageEvent) (s : Screen) → Asked s (turn text trim e s).request
  turn-Asked e s =
      sent text trim (Asked s) tt s (λ _. request_bulk_delete-Asked s) (execute_bulk_delete-Asked s)
        (submit_bulk_edit-Asked s) (confirm_bulk_edit-Asked s s.bulk_confirm refl)
        (confirm_replace-Asked s s.replace_confirm refl) e

  turn-Counted : (e : PageEvent) (s : Screen) → IsSettled s → Counted s (turn text trim e s).request
  turn-Counted e s h =
      sent text trim (Counted s) tt s (λ _. request_bulk_delete-Counted s h)
        (λ _. execute_bulk_delete-Counted s h) (submit_bulk_edit-Counted s h)
        (confirm_bulk_edit-Counted s h s.bulk_confirm)
        (confirm_replace-Counted s h s.replace_confirm h.staged) e

  run-IsSettled : (es : List PageEvent) (s : Screen) → IsSettled s → IsSettled (run text trim es s)
  unfolding run
  run-IsSettled [] s h = h
  run-IsSettled (e ∷ es) s h =
      run-IsSettled es (turn text trim e s).screen (turn-IsSettled text trim e s h)

  first_screen-IsSettled :
      (number : String → Option ℕ) (works : Bool) (stored : Option String)
      → IsSettled (first_screen (first_render number works stored))
  unfolding first_screen first_render spen_drop.Ledger.Listing.run
  first_screen-IsSettled number works stored = record {
    debounced = run-IsDebounced text number works stored [];
    default = inr refl;
    marked = tt;
    staged = tt;
  }

  -- In every history of the page, a delete of all that match the filters carries the filter query of the
  -- rows on the page, whose count its dialog names, and an update of all that match carries that of the
  -- rows last loaded, whatever is typed, filtered, sorted, loaded or answered in between.
  pub run-Counted :
      (number : String → Option ℕ) (works : Bool) (stored : Option String) (es : List PageEvent)
      (e : PageEvent)
      → let s = run text trim es (first_screen (first_render number works stored)) in
        Counted s (turn text trim e s).request
  run-Counted number works stored es e =
      turn-Counted e (run text trim es (first_screen (first_render number works stored))) (
        run-IsSettled es (first_screen (first_render number works stored))
          (first_screen-IsSettled number works stored))
