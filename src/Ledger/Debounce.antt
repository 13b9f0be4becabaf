-- ===== src/Ledger/Debounce.antt =====
-- web/src/hooks/useTransactions.ts: the search box, and the term that the ledger is listed by.
use spen_drop.Base.{
  ℕ, Bool, true, false, not, ◌&&◌, String, str_eq, str_eq_iff, str_eq_self, Option, none, some,
  List, [], ◌∷◌, if◌then◌else◌, ◌≡◌, refl, sym, ap, ◌∙◌, ◌⊎◌, inl, inr, Bool-cases, arith,
}
use spen_drop.Ledger.Query.{
  value_of, build_filter_query, read_filters, effective, read_filters-build_filter_query,
  value_of-set_param,
}
use spen_drop.Ledger.Listing.{
  Ledger, search_pending, debounce, commit, act, step, run, build_query, Event, typed, waited,
  filter_set, filters_cleared, panel_cleared, page_set, per_page_set, sorted, first_render,
  set_filter, clear_filters, clear_panel_filters, set_per_page, set_sort,
}

-- A timeout is set just while the box and the term differ, and it will commit what the box shows.
abbrev pub IsDebounced : Ledger → Type 0
IsDebounced s = s.timer ≡ (if search_pending s then some s.search_input else none)

-- An operation leaves the timeout as it is, or it is the timeout and commits what the box shows.
abbrev Waits : Ledger → Ledger → Type 0
Waits s s' =
    (s'.timer ≡ s.timer) ⊎ ((s'.timer ≡ none) × (str_eq s'.search_input s'.filters.search ≡ true))

debounce-IsDebounced : (s s' : Ledger) → IsDebounced s → Waits s s' → IsDebounced (debounce s s')
unfolding debounce search_pending
debounce-IsDebounced s s' h w =
    elim (Bool-cases
      (str_eq s.search_input s'.search_input && str_eq s.filters.search s'.filters.search)) [
        | inr moved ↦ rw moved refl
        | inl still ↦
            let input : s.search_input ≡ s'.search_input =
              (str_eq_iff s.search_input s'.search_input).0 (ground arith) in
            let term : s.filters.search ≡ s'.filters.search =
              (str_eq_iff s.filters.search s'.filters.search).0 (ground arith) in
            rw still (elim w [
              | inl same ↦ same ∙ rw (input, term) at h
              | inr (fired, agree) ↦ rw agree fired
            ])
      ]

-- the text of a timeout that is set
committed :
    (b : Bool) (text input : String) → some text ≡ (if b then some input else none) → text ≡ input
committed true text input h = cc h
committed false text input h = cc h

commit-Waits :
    (o : Option String) (s : Ledger)
    → o ≡ (if search_pending s then some s.search_input else none)
    → Waits s (commit o s)
unfolding commit
commit-Waits none s h = inl refl
commit-Waits (some text) s h =
    let shown = committed (search_pending s) text s.search_input h in
    inr (refl, ap (str_eq s.search_input) shown ∙ str_eq_self s.search_input)

act-Waits : (text : ℕ → String) (e : Event) (s : Ledger) → IsDebounced s → Waits s (act text e s)
unfolding act set_filter clear_filters clear_panel_filters set_per_page set_sort
act-Waits text (typed value) s h = inl refl
act-Waits text waited s h = commit-Waits s.timer s h
act-Waits text (filter_set key value) s h = inl refl
act-Waits text filters_cleared s h = inl refl
act-Waits text panel_cleared s h = inl refl
act-Waits text (page_set value) s h = inl refl
act-Waits text (per_page_set value) s h = inl refl
act-Waits text (sorted column) s h = inl refl

pub step-IsDebounced :
    (text : ℕ → String) (e : Event) (s : Ledger) → IsDebounced s → IsDebounced (step text e s)
unfolding step
step-IsDebounced text e s h = debounce-IsDebounced s (act text e s) h (act-Waits text e s h)

run-from-IsDebounced :
    (text : ℕ → String) (es : List Event) (s : Ledger) → IsDebounced s → IsDebounced (run text es s)
unfolding run
run-from-IsDebounced text [] s h = h
run-from-IsDebounced text (e ∷ es) s h =
    run-from-IsDebounced text es (step text e s) (step-IsDebounced text e s h)

-- After the first render and any operations, a timeout is set exactly while the box shows another
-- text than the term that the ledger is listed by, and the text it will commit is the one shown.
pub run-IsDebounced :
    (text : ℕ → String) (number : String → Option ℕ) (works : Bool) (stored : Option String)
    (es : List Event)
    → IsDebounced (run text es (first_render number works stored))
unfolding first_render search_pending
run-IsDebounced text number works stored es =
    run-from-IsDebounced text es (first_render number works stored) refl

not_pending : (b : Bool) (input : String) → none ≡ (if not b then some input else none) → b ≡ true
not_pending true input h = refl
not_pending false input h = cc h

commit-agrees :
    (o : Option String) (s : Ledger)
    → o ≡ (if search_pending s then some s.search_input else none)
    → (commit o s).filters.search ≡ s.search_input
unfolding commit search_pending
commit-agrees none s h =
    let same = not_pending (str_eq s.search_input s.filters.search) s.search_input h in
    sym ((str_eq_iff s.search_input s.filters.search).0 same)
commit-agrees (some text) s h = committed (search_pending s) text s.search_input h

commit-input : (o : Option String) (s : Ledger) → (commit o s).search_input ≡ s.search_input
unfolding commit
commit-input none s = refl
commit-input (some text) s = refl

pause-agrees :
    (text : ℕ → String) (s : Ledger)
    → IsDebounced s
    → ((step text waited s).filters.search ≡ s.search_input)
      × (search_pending (step text waited s) ≡ false)
unfolding step act debounce search_pending
pause-agrees text s h =
    let term = commit-agrees s.timer s h in
    let input = commit-input s.timer s in
    (term, rw (term, input) (ap not (str_eq_self s.search_input)))

module _ (text : ℕ → String) where
  value_of-build_query_other :
      (key : String) (s : Ledger)
      → str_eq "page" key ≡ false
      → str_eq "per_page" key ≡ false
      → str_eq "sort_by" key ≡ false
      → str_eq "sort_dir" key ≡ false
      → value_of key (build_query text s) ≡ value_of key (build_filter_query s.filters)
  unfolding build_query
  value_of-build_query_other key s p q r t = simp (value_of-set_param, p, q, r, t)

  -- The list request and the delete by filter select by the same filters: both queries carry the
  -- filters of the ledger, where a list of categories overrides a single one.
  pub read_filters-build_query :
      (s : Ledger)
      → (read_filters (build_query text s) ≡ effective s.filters)
        × (read_filters (build_filter_query s.filters) ≡ effective s.filters)
  unfolding read_filters
  read_filters-build_query s =
      let direct = read_filters-build_filter_query s.filters in
      (simp value_of-build_query_other direct, direct)

  -- After the first render and any operations, a pause in the typing makes the list request search for
  -- what the box shows, and from then no search is pending.
  pub pause-build_query :
      (number : String → Option ℕ) (works : Bool) (stored : Option String) (es : List Event)
      → let s = run text es (first_render number works stored) in
        let s' = step text waited s in
        (value_of "search" (build_query text s') ≡ s.search_input) × (search_pending s' ≡ false)
  unfolding value_of read_filters
  pause-build_query number works stored es =
      let s = run text es (first_render number works stored) in
      let (term, settled) = pause-agrees text s (run-IsDebounced text number works stored es) in
      (ap (λ f. f.search) (read_filters-build_query (step text waited s)).0 ∙ term, settled)
