-- ===== src/Bulk/Kept.antt =====
-- web/src/pages/Transactions.tsx: what each handler leaves settled.
use spen_drop.Base.{
  ℕ, Bool, true, false, not, ◌&&◌, ◌||◌, String, str_eq, Option, none, some, List, length, ltb,
  ◌==◌, str_eq_self, if◌then◌else◌, ◌≡◌, refl, inl, inr, Bool-cases, arith, all, lt→ltb, ltb→lt,
}
use spen_drop.Ledger.Query.{Params}
use spen_drop.Ledger.Listing.{waited, step, act, commit, debounce, search_pending}
use spen_drop.Ledger.Patch.{ComputedPatch}
use spen_drop.Bulk.Screen.{
  Shown, Scope, page_scope, all_matching, Screen, total, filter_scope_unsettled, is_all_matching,
  selection_count, offers_all_matching, handle_select_all_matching, handle_clear_selection,
  toggle_selection_mode, transactions, showing_previous, is_selected,
}
use spen_drop.Bulk.Turn.{ledger_moved, is_open, when}
use spen_drop.Bulk.Handlers.{
  Turn, quiet, filter_query, execute_bulk_delete, request_bulk_delete, dispatch_bulk_edit,
  submit_bulk_edit, confirm_bulk_edit, offers_replace, handle_replace_all, confirm_replace,
  description_patch,
}
use spen_drop.Bulk.Counted.{Described, Marked, Staged, IsSettled, settled-Described}

-- the same rows and ledger, with the scope and the staged patch given
pub restated :
    (s s' : Screen)
    → s'.ledger ≡ s.ledger
    → s'.is_default ≡ s.is_default
    → s'.shown ≡ s.shown
    → IsSettled s
    → Marked s.shown (filter_query s) s'.selection_scope
    → Staged s.shown (filter_query s) s.ledger.timer s'.replace_confirm
    → IsSettled s'
restated s s' l d o h m t = record {
  debounced = rw l h.debounced;
  default = rw (l, d) h.default;
  marked = rw (l, o) m;
  staged = rw (l, o) t;
}

-- Where the guard of an event fails, nothing happens.
pub when-IsSettled :
    (b : Bool) (t : Turn) (s : Screen)
    → IsSettled s
    → (b ≡ true → IsSettled t.screen)
    → IsSettled (when b t s).screen
when-IsSettled true t s h allowed = allowed refl
when-IsSettled false t s h allowed = h

if-IsSettled :
    (b : Bool) (t u : Turn)
    → (b ≡ true → IsSettled t.screen)
    → (b ≡ false → IsSettled u.screen)
    → IsSettled (if b then t else u).screen
if-IsSettled true t u first second = first refl
if-IsSettled false t u first second = second refl

and-left : (a b : Bool) → (a && b) ≡ true → a ≡ true
and-left true b h = refl
and-left false b h = h

and-right : (a b : Bool) → (a && b) ≡ true → b ≡ true
and-right true b h = h
and-right false b h = cc

or-right : (a b : Bool) → (a || b) ≡ false → b ≡ false
or-right true b h = cc
or-right false b h = h

not-true : (a : Bool) → not a ≡ true → a ≡ false
not-true true h = cc
not-true false h = refl

pub unstaged :
    (shown : Option Shown) (query : Params) (timer : Option String) (o : Option ComputedPatch)
    → is_open o ≡ false
    → Staged shown query timer o
unstaged shown query timer none h = tt
unstaged shown query timer (some p) h = cc

pub Staged-again :
    (shown shown' : Option Shown) (query : Params) (timer : Option String)
    (o : Option ComputedPatch)
    → Staged shown query timer o
    → Described shown' query
    → Staged shown' query timer o
Staged-again shown shown' query timer none t d = tt
Staged-again shown shown' query timer (some p) (d', clear) d = (d, clear)

pub all-Marked :
    (shown : Option Shown) (query : Params) (scope : Scope)
    → Described shown query
    → Marked shown query scope
all-Marked shown query page_scope d = tt
all-Marked shown query all_matching d = d

-- A timeout finds nothing to commit while a write is staged.
pub waited-Staged :
    (text : ℕ → String) (s : Screen) (o : Option ComputedPatch)
    → Staged s.shown (filter_query s) s.ledger.timer o
    → Staged s.shown
        (filter_query (ledger_moved text waited s))
        (ledger_moved text waited s).ledger.timer
        o
unfolding ledger_moved step act commit debounce search_pending
waited-Staged text s none t = tt
waited-Staged text s (some p) (d, clear) = (
  rw clear d,
  rw (clear, str_eq_self s.ledger.search_input, str_eq_self s.ledger.filters.search) refl,
)

-- the rows that land
abbrev pub here : List ℕ → ℕ → Screen → Option Shown
here ids count s = some (record { key = s.ledger; ids = ids; total = count })

pub toggle_selection_mode-IsSettled :
    (s : Screen) → IsSettled s → IsSettled (toggle_selection_mode s)
unfolding toggle_selection_mode handle_clear_selection
toggle_selection_mode-IsSettled s h = elim (Bool-cases s.selection_mode) [
  | inl on ↦ rw on (restated s (handle_clear_selection s) refl refl refl h tt h.staged)
  | inr off ↦
      rw off (restated s (record s { selection_mode = true }) refl refl refl h h.marked h.staged)
]

pub execute_bulk_delete-IsSettled :
    (s : Screen) → IsSettled s → IsSettled (execute_bulk_delete s).screen
unfolding execute_bulk_delete
execute_bulk_delete-IsSettled s h =
    if-IsSettled (selection_count s == 0) (quiet s) _ (λ _. h)
      (λ _. restated s (record s { deleting = true }) refl refl refl h h.marked h.staged)

pub request_bulk_delete-IsSettled :
    (s : Screen) → IsSettled s → IsSettled (request_bulk_delete s).screen
unfolding request_bulk_delete
request_bulk_delete-IsSettled s h =
    if-IsSettled (selection_count s == 0) (quiet s) _ (λ _. h)
      (λ _.
        if-IsSettled (is_all_matching s.selection_scope)
          (quiet (record s { confirm_all_matching_open = true })) (execute_bulk_delete s)
          (λ _.
            restated s (record s { confirm_all_matching_open = true }) refl refl refl h h.marked
              h.staged)
          (λ _. execute_bulk_delete-IsSettled s h))

pub submit_bulk_edit-IsSettled :
    (p : ComputedPatch) (s : Screen) → IsSettled s → IsSettled (submit_bulk_edit p s).screen
unfolding submit_bulk_edit dispatch_bulk_edit
submit_bulk_edit-IsSettled p s h =
    if-IsSettled (is_all_matching s.selection_scope) (quiet (record s { bulk_confirm = some p })) _
      (λ _. restated s (record s { bulk_confirm = some p }) refl refl refl h h.marked h.staged)
      (λ _. h)

pub confirm_bulk_edit-IsSettled :
    (o : Option ComputedPatch) (s : Screen) → IsSettled s → IsSettled (confirm_bulk_edit o s).screen
unfolding confirm_bulk_edit dispatch_bulk_edit
confirm_bulk_edit-IsSettled none s h = h
confirm_bulk_edit-IsSettled (some p) s h =
    restated s (record s { bulk_confirm = none }) refl refl refl h h.marked h.staged

pub confirm_replace-IsSettled :
    (o : Option ComputedPatch) (s : Screen) → IsSettled s → IsSettled (confirm_replace o s).screen
unfolding confirm_replace
confirm_replace-IsSettled none s h = h
confirm_replace-IsSettled (some p) s h =
    restated s (record s { replace_confirm = none; replacing = true }) refl refl refl h h.marked tt

pub handle_select_all_matching-IsSettled :
    (s : Screen)
    → IsSettled s
    → offers_all_matching s ≡ true
    → IsSettled (handle_select_all_matching s)
unfolding handle_select_all_matching
handle_select_all_matching-IsSettled s h offered =
    let rest =
      and-right (not (is_all_matching s.selection_scope)) _
        (and-right (not (filter_scope_unsettled s)) _ offered) in
    let more =
      and-right (all (is_selected s.selected_ids) (transactions s)) _
        (and-right (ltb 0 (length (transactions s))) _ rest) in
    let settled : filter_scope_unsettled s ≡ false =
      not-true (filter_scope_unsettled s) (and-left _ _ offered) in
    let rows : ltb 0 (total s) ≡ true =
      lt→ltb 0 (total s) (omega (arith, ltb→lt (length (transactions s)) (total s) more)) in
    rw settled (
      restated s (record s { selection_scope = all_matching }) refl refl refl h
        (settled-Described s settled rows) h.staged)

pub handle_replace_all-IsSettled :
    (trim : String → String) (s : Screen)
    → IsSettled s
    → offers_replace s ≡ true
    → IsSettled (handle_replace_all trim s)
unfolding handle_replace_all
handle_replace_all-IsSettled trim s h offered =
    let refused =
      str_eq (trim s.replace_text) ""
      || (str_eq (trim s.ledger.filters.search) "" || filter_scope_unsettled s) in
    let rows : ltb 0 (total s) ≡ true =
      and-left (ltb 0 (total s)) _
        (and-right (not (str_eq s.ledger.filters.search "")) _ offered) in
    elim (Bool-cases refused) [
      | inl kept ↦ rw kept (restated s s refl refl refl h h.marked h.staged)
      | inr taken ↦
          let settled =
            or-right (str_eq (trim s.ledger.filters.search) "") _
              (or-right (str_eq (trim s.replace_text) "") _ taken) in
          let quiet_box = or-right (showing_previous s) (search_pending s.ledger) settled in
          rw taken (
            restated s
              (record s { replace_confirm = some (description_patch (trim s.replace_text)) }) refl
              refl refl h h.marked (settled-Described s settled rows, rw quiet_box at h.debounced))
    ]
