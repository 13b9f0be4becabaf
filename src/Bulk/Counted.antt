-- ===== src/Bulk/Counted.antt =====
-- web/src/pages/Transactions.tsx: the writes to everything that matches the filters, against the rows and
-- the count on the page.
use spen_drop.Base.{
  ℕ, Bool, true, false, not, ◌&&◌, ◌||◌, String, Option, none, some, ltb, ◌==◌, if◌then◌else◌, ◌≡◌,
  refl, sym, ◌∙◌, ◌⊎◌, inl, inr, Bool-cases, arith, str_eq_iff,
}
use spen_drop.Ledger.Query.{TransactionFilters, Params, build_filter_query}
use spen_drop.Ledger.Listing.{
  Ledger, Event, typed, waited, filter_set, filters_cleared, panel_cleared, page_set, per_page_set,
  sorted, step, act, commit, debounce, search_pending, set_filter, clear_filters,
  clear_panel_filters, set_per_page, set_sort, default_filters,
}
use spen_drop.Ledger.Debounce.{IsDebounced, step-IsDebounced}
use spen_drop.Ledger.Patch.{ComputedPatch}
use spen_drop.Bulk.Screen.{
  Shown, Scope, page_scope, all_matching, Screen, same_filters, data_of, total,
  filter_scope_unsettled, is_all_matching, selection_count, loaded_elsewhere, total_of,
}
use spen_drop.Bulk.Turn.{replaces_filters, is_default_after, ledger_moved}
use spen_drop.Bulk.Handlers.{Request, delete_by_filter, update_by_filter, filter_query}

-- The rows were loaded under the filters of the query.
abbrev pub Described : Option Shown → Params → Type 0
Described none query = ⊥
Described (some d) query = query ≡ build_filter_query d.key.filters

-- A write by filter names what the rows on the page were loaded by: those on it for a delete, and those
-- last loaded for an update.
abbrev pub Counted : Screen → Option Request → Type 0
Counted s (some (delete_by_filter query)) = Described (data_of s) query
Counted s (some (update_by_filter query patch)) = Described s.shown query
Counted s _ = Unit

abbrev pub Marked : Option Shown → Params → Scope → Type 0
Marked shown query page_scope = Unit
Marked shown query all_matching = Described shown query

-- What waits for its confirmation was staged when nothing was pending.
abbrev pub Staged : Option Shown → Params → Option String → Option ComputedPatch → Type 0
Staged shown query timer none = Unit
Staged shown query timer (some p) = Described shown query × (timer ≡ none)

pub record IsSettled (s : Screen) : Type 0 where
  pub debounced : IsDebounced s.ledger
  pub default : (s.is_default ≡ false) ⊎ (s.ledger.filters ≡ default_filters)
  pub marked : Marked s.shown (filter_query s) s.selection_scope
  pub staged : Staged s.shown (filter_query s) s.ledger.timer s.replace_confirm

-- Filters that the key takes for the same give the same query.
same_filters-build_filter_query :
    (f g : TransactionFilters)
    → same_filters f g ≡ true
    → build_filter_query f ≡ build_filter_query g
unfolding build_filter_query
same_filters-build_filter_query f g h =
    let e1 : f.date_from ≡ g.date_from =
      (str_eq_iff f.date_from g.date_from).0 (ground (arith, h)) in
    let e2 : f.date_to ≡ g.date_to = (str_eq_iff f.date_to g.date_to).0 (ground (arith, h)) in
    let e3 : f.category_id ≡ g.category_id =
      (str_eq_iff f.category_id g.category_id).0 (ground (arith, h)) in
    let e4 : f.category_ids ≡ g.category_ids =
      (str_eq_iff f.category_ids g.category_ids).0 (ground (arith, h)) in
    let e5 : f.amount_min ≡ g.amount_min =
      (str_eq_iff f.amount_min g.amount_min).0 (ground (arith, h)) in
    let e6 : f.amount_max ≡ g.amount_max =
      (str_eq_iff f.amount_max g.amount_max).0 (ground (arith, h)) in
    let e7 : f.tags ≡ g.tags = (str_eq_iff f.tags g.tags).0 (ground (arith, h)) in
    let e8 : f.type ≡ g.type = (str_eq_iff f.type g.type).0 (ground (arith, h)) in
    let e9 : f.search ≡ g.search = (str_eq_iff f.search g.search).0 (ground (arith, h)) in
    rw (e1, e2, e3, e4, e5, e6, e7, e8, e9) refl

-- Where nothing is pending and a row is on the page, the rows are those of the filters.
pub settled-Described :
    (s : Screen)
    → filter_scope_unsettled s ≡ false
    → ltb 0 (total s) ≡ true
    → Described s.shown (filter_query s)
settled-Described s settled rows = elim (Bool-cases s.failed) [
  | inl failed ↦ cc (rw failed at rows)
  | inr fine ↦ loaded s.shown (rw fine at settled) (rw fine at rows)
]
  where
    loaded :
        (o : Option Shown)
        → (loaded_elsewhere s.ledger o || search_pending s.ledger) ≡ false
        → ltb 0 (total_of o) ≡ true
        → Described o (filter_query s)
    loaded none h r = cc
    loaded (some d) h r =
        sym (same_filters-build_filter_query d.key.filters s.ledger.filters (ground (arith, h)))

pub Marked-all :
    (s : Screen) (scope : Scope)
    → Marked s.shown (filter_query s) scope
    → is_all_matching scope ≡ true
    → Described s.shown (filter_query s)
Marked-all s page_scope m h = cc
Marked-all s all_matching m h = m

-- With the scope on all that match, a count above 0 is that of the rows on the page.
pub counted-data_of :
    (s : Screen)
    → Marked s.shown (filter_query s) s.selection_scope
    → is_all_matching s.selection_scope ≡ true
    → (selection_count s == 0) ≡ false
    → Described (data_of s) (filter_query s)
counted-data_of s marked all count = elim (Bool-cases s.failed) [
  | inl failed ↦ cc (rw (all, failed) at count)
  | inr fine ↦ rw fine (Marked-all s s.selection_scope marked all)
]

-- The ledger's operations leave the filters alone, but for those that make other ones.
pub step-filters :
    (text : ℕ → String) (e : Event) (s : Screen)
    → (s.is_default ≡ false) ⊎ (s.ledger.filters ≡ default_filters)
    → replaces_filters e s ≡ false
    → (step text e s.ledger).filters ≡ s.ledger.filters
unfolding step act debounce set_filter clear_filters clear_panel_filters set_per_page set_sort
step-filters text (typed value) s d h = refl
step-filters text waited s d h = commit-filters s.ledger.timer s.ledger h
  where
    commit-filters :
        (o : Option String) (l : Ledger)
        → (elim o [ none ↦ false | some t ↦ true ]) ≡ false
        → (commit o l).filters ≡ l.filters
    commit-filters none l h = unfold commit in refl
    commit-filters (some t) l h = cc
step-filters text (filter_set key value) s d h = cc
step-filters text filters_cleared s (inl other) h = cc (rw other at h)
step-filters text filters_cleared s (inr same) h = sym same
step-filters text panel_cleared s d h = cc
step-filters text (page_set value) s d h = refl
step-filters text (per_page_set value) s d h = refl
step-filters text (sorted column) s d h = refl

kept_default :
    (s : Screen) (filters : TransactionFilters) (b : Bool)
    → (s.is_default ≡ false) ⊎ (s.ledger.filters ≡ default_filters)
    → (b ≡ false → filters ≡ s.ledger.filters)
    → ((s.is_default && not b) ≡ false) ⊎ (filters ≡ default_filters)
kept_default s filters true d same = inl (ground arith)
kept_default s filters false (inl other) same = inl (ground (arith, other))
kept_default s filters false (inr e) same = inr (same refl ∙ e)

step_default :
    (text : ℕ → String) (e : Event) (s : Screen)
    → (s.is_default ≡ false) ⊎ (s.ledger.filters ≡ default_filters)
    → (is_default_after e s ≡ false) ⊎ ((step text e s.ledger).filters ≡ default_filters)
step_default text filters_cleared s d = unfold step act debounce clear_filters in inr refl
step_default text e s d =
    kept_default s (step text e s.ledger).filters (replaces_filters e s) d (step-filters text e s d)

-- A move of the ledger keeps the page settled; while a write waits for its confirmation, the only move is
-- a timeout, and none is set.
clear_if-Marked :
    (s : Screen) (l : Ledger) (changed : Bool)
    → Marked s.shown (filter_query s) s.selection_scope
    → (changed ≡ false → l.filters ≡ s.ledger.filters)
    → Marked s.shown
        (build_filter_query l.filters)
        (if changed then page_scope else s.selection_scope)
clear_if-Marked s l true m same = tt
clear_if-Marked s l false m same = rw (same refl) m

pub ledger_moved-IsSettled :
    (text : ℕ → String) (e : Event) (s : Screen)
    → IsSettled s
    → Staged s.shown
        (filter_query (ledger_moved text e s))
        (ledger_moved text e s).ledger.timer
        s.replace_confirm
    → IsSettled (ledger_moved text e s)
unfolding ledger_moved
ledger_moved-IsSettled text e s h staged = record {
  debounced = step-IsDebounced text e s.ledger h.debounced;
  default = step_default text e s h.default;
  marked =
      clear_if-Marked s (step text e s.ledger) _ h.marked
        (λ same. step-filters text e s h.default (ground (arith, same)));
  staged = staged;
}
