-- ===== src/Ledger/Tests.antt =====
-- The ledger on concrete operations. Only the numbers that the tests use have a text here.
use spen_drop.Base.{
  ℕ, true, false, String, str_eq, Option, none, some, List, [], ◌∷◌, ◌==◌, if◌then◌else◌, ◌≡◌, refl,
}
use spen_drop.Ledger.Query.{
  category, set_param, set_given, set_categories, value_of, build_filter_query, read_filters,
  effective,
}
use spen_drop.Ledger.Listing.{
  Ledger, search_pending, get_initial_per_page, first_render, Event, typed, waited, filter_set,
  category_id, category_ids, amount_min, page_set, sorted, act, commit, debounce, set_filter,
  set_key, set_sort, step, run, build_query, set_per_page,
}
use spen_drop.Ledger.Debounce.{read_filters-build_query, pause-build_query}
use spen_drop.Ledger.Writes.{Posted, posted}

abbrev text : ℕ → String
text n = if n == 50 then "50" else (if n == 20 then "20" else "1")

abbrev number : String → Option ℕ
number s = if str_eq s "50" then some 50 else none

abbrev history : List Event
history =
    filter_set category_id "3"
    ∷ filter_set category_ids "4,5"
    ∷ filter_set amount_min "10"
    ∷ sorted category
    ∷ page_set 4
    ∷ typed "cof"
    ∷ typed "coffee"
    ∷ []

abbrev ledger : Ledger
ledger = run text history (first_render number true (some "50"))

program : Unit {0}
unfolding set_param set_given set_categories value_of build_filter_query read_filters search_pending
    get_initial_per_page first_render act commit debounce set_filter set_key set_sort step run
    build_query set_per_page
program = tt

-- Typing moves nothing until the pause, which goes back to the first page.
typed_and_waited :
    (ledger.page ≡ 4)
    × (ledger.timer ≡ some "coffee")
    × ((step text waited ledger).page ≡ 1)
    × (build_query text (step text waited ledger)
        ≡ ("category_ids", "4,5")
          ∷ ("amount_min", "10")
          ∷ ("search", "coffee")
          ∷ ("page", "1")
          ∷ ("per_page", "50")
          ∷ ("sort_by", "category")
          ∷ ("sort_dir", "desc")
          ∷ [])
unfolding program
typed_and_waited = (refl, refl, refl, refl)

read_filters-build_query_example :
    (read_filters (build_query text ledger) ≡ effective ledger.filters)
    × (read_filters (build_filter_query ledger.filters) ≡ effective ledger.filters)
read_filters-build_query_example = read_filters-build_query text ledger

pause-build_query_example :
    (value_of "search" (build_query text (step text waited ledger)) ≡ ledger.search_input)
    × (search_pending (step text waited ledger) ≡ false)
pause-build_query_example = pause-build_query text number true (some "50") history

abbrev resized : Ledger
resized = set_per_page text 50 (first_render number true none)

abbrev three : Posted ℕ
three = posted 3
