-- ===== src/Ledger/Paging.antt =====
-- web/src/hooks/useTransactions.ts: the page and its size.
use spen_drop.Base.{
  ℕ, Bool, true, false, not, ◌&&◌, String, str_eq, Option, none, some, if◌then◌else◌, ◌≡◌, refl,
  ◌⊎◌, inl, inr, Bool-cases,
}
use spen_drop.Ledger.Listing.{
  Ledger, commit, act, step, debounce, set_filter, clear_filters, clear_panel_filters, set_per_page,
  set_sort, Event, typed, waited, filter_set, filters_cleared, panel_cleared, page_set,
  per_page_set, sorted, get_initial_per_page, is_page_size, offered,
}

-- What is listed, and in which order and portions, is the same in both.
abbrev pub SameListing : Ledger → Ledger → Type 0
SameListing s s' =
    (s'.filters ≡ s.filters)
    × (s'.sort_by ≡ s.sort_by)
    × (s'.sort_dir ≡ s.sort_dir)
    × (s'.per_page ≡ s.per_page)

abbrev PageReset : Ledger → Ledger → Type 0
PageReset s s' = (s'.page ≡ 1) ⊎ SameListing s s'

commit-PageReset : (o : Option String) (s : Ledger) → PageReset s (commit o s)
unfolding commit
commit-PageReset none s = inr (refl, refl, refl, refl)
commit-PageReset (some text) s = inl refl

-- Whatever changes the filters, the order or the size of a page, a typing pause included, goes back
-- to the first page: each operation ends on page 1 or lists the same as before.
pub step-PageReset : (text : ℕ → String) (e : Event) (s : Ledger) → PageReset s (step text e s)
unfolding step act debounce set_filter clear_filters clear_panel_filters set_per_page set_sort
step-PageReset text (typed value) s = inr (refl, refl, refl, refl)
step-PageReset text waited s = commit-PageReset s.timer s
step-PageReset text (filter_set key value) s = inl refl
step-PageReset text filters_cleared s = inl refl
step-PageReset text panel_cleared s = inl refl
step-PageReset text (page_set value) s = inr (refl, refl, refl, refl)
step-PageReset text (per_page_set value) s = inl refl
step-PageReset text (sorted column) s = inl refl

offered-is_page_size : (o : Option ℕ) → is_page_size (offered o) ≡ true
offered-is_page_size none = refl
offered-is_page_size (some n) = elim (Bool-cases (is_page_size n)) [
  | inl e ↦ rw e e
  | inr e ↦ rw e refl
]

-- Whatever stands in storage, the size of the first page is one of those that the ledger offers.
pub get_initial_per_page-is_page_size :
    (number : String → Option ℕ) (works : Bool) (stored : Option String)
    → is_page_size (get_initial_per_page number works stored) ≡ true
unfolding get_initial_per_page
get_initial_per_page-is_page_size number works none = refl
get_initial_per_page-is_page_size number works (some s) =
    elim (Bool-cases (works && not (str_eq s ""))) [
      | inl e ↦ rw e (offered-is_page_size (number s))
      | inr e ↦ rw e refl
    ]

-- Where localStorage works, and the text of a number is not empty and reads back as that number: a
-- size that the ledger offers is kept for the next visit, and any other is read back as 20.
pub get_initial_per_page-set_per_page :
    (number : String → Option ℕ) (text : ℕ → String) (value : ℕ) (s : Ledger)
    → s.works ≡ true
    → str_eq (text value) "" ≡ false
    → number (text value) ≡ some value
    → let s' = set_per_page text value s in
      get_initial_per_page number s'.works s'.stored ≡ (if is_page_size value then value else 20)
unfolding get_initial_per_page set_per_page
get_initial_per_page-set_per_page number text value s works full back =
    rw works (rw full (rw back refl))
