-- ===== src/Ledger/Listing.antt =====
-- web/src/hooks/useTransactions.ts: the state behind the ledger and the operations on it, the debounce of
-- the search box among them. The effect of the debounce runs after each operation; `timer` is the text
-- that its closure captured, while a timeout is set. The text of a number is a parameter, and so is the
-- number that a text denotes.
use spen_drop.Base.{
  ℕ, Bool, not, ◌&&◌, String, str_eq, Option, none, some, List, [], ◌∷◌, any, ◌==◌, if◌then◌else◌,
}
use spen_drop.Ledger.Query.{
  TransactionFilters, SortColumn, date, SortDirection, asc, desc, Params, set_param, column_name,
  direction_name, build_filter_query,
}

pub record Ledger : Type 0 where
  pub page : ℕ
  pub per_page : ℕ
  pub sort_by : SortColumn
  pub sort_dir : SortDirection
  pub filters : TransactionFilters
  pub search_input : String
  pub timer : Option String
  -- the item under `STORAGE_KEYS.transactionsPerPage`, and whether localStorage works
  pub stored : Option String
  pub works : Bool

abbrev pub default_filters : TransactionFilters
default_filters = record {
  date_from = "";
  date_to = "";
  category_id = "";
  category_ids = "";
  amount_min = "";
  amount_max = "";
  tags = "";
  type = "";
  search = "";
}

abbrev pub transaction_page_sizes : List ℕ
transaction_page_sizes = 10 ∷ 20 ∷ 50 ∷ 100 ∷ []

abbrev pub default_transactions_per_page : ℕ
default_transactions_per_page = 20

abbrev pub is_page_size : ℕ → Bool
is_page_size n = any (λ size. size == n) transaction_page_sizes

-- `Number(stored)`, if it is one of the sizes
abbrev pub offered : Option ℕ → ℕ
offered none = default_transactions_per_page
offered (some n) = if is_page_size n then n else default_transactions_per_page

unfoldable pub get_initial_per_page : (String → Option ℕ) → Bool → Option String → ℕ
get_initial_per_page number works none = default_transactions_per_page
get_initial_per_page number works (some s) =
    if works && not (str_eq s "") then offered (number s) else default_transactions_per_page

unfoldable pub search_pending : Ledger → Bool
search_pending s = not (str_eq s.search_input s.filters.search)

-- the effect of the debounce after a render, whose cleanup drops the timeout that was set
unfoldable pub debounce : Ledger → Ledger → Ledger
unfolding search_pending
debounce before s = record s {
  timer =
      if str_eq before.search_input s.search_input && str_eq before.filters.search s.filters.search
      then s.timer
      else (if search_pending s then some s.search_input else none);
}

-- the callback of the timeout
unfoldable pub commit : Option String → Ledger → Ledger
commit none s = s
commit (some text) s = record s {
  filters = record s.filters { search = text };
  page = 1;
  timer = none;
}

pub data FilterKey : Type 0 where
  date_from date_to category_id category_ids amount_min amount_max tags_key type_key search_key :
      FilterKey

-- `{ ...prev, [key]: value }`
unfoldable pub set_key : FilterKey → String → TransactionFilters → TransactionFilters
set_key date_from value f = record f { date_from = value }
set_key date_to value f = record f { date_to = value }
set_key category_id value f = record f { category_id = value }
set_key category_ids value f = record f { category_ids = value }
set_key amount_min value f = record f { amount_min = value }
set_key amount_max value f = record f { amount_max = value }
set_key tags_key value f = record f { tags = value }
set_key type_key value f = record f { type = value }
set_key search_key value f = record f { search = value }

-- `if (key === 'search') setSearchInput(value)`
abbrev pub input_after : FilterKey → String → String → String
input_after search_key value old = value
input_after _ value old = old

unfoldable pub set_filter : FilterKey → String → Ledger → Ledger
unfolding set_key
set_filter key value s = record s {
  filters = set_key key value s.filters;
  search_input = input_after key value s.search_input;
  page = 1;
}

unfoldable pub clear_filters : Ledger → Ledger
clear_filters s = record s {
  filters = default_filters;
  search_input = default_filters.search;
  page = 1;
}

unfoldable pub clear_panel_filters : Ledger → Ledger
clear_panel_filters s = record s {
  filters = record s.filters {
    date_from = "";
    date_to = "";
    category_id = "";
    category_ids = "";
    amount_min = "";
    amount_max = "";
    tags = "";
  };
  page = 1;
}

unfoldable pub set_per_page : (ℕ → String) → ℕ → Ledger → Ledger
set_per_page text value s = record s {
  per_page = value;
  page = 1;
  stored = if s.works then some (text value) else s.stored;
}

abbrev pub flip : SortDirection → SortDirection
flip asc = desc
flip desc = asc

abbrev pub same_column : SortColumn → SortColumn → Bool
same_column a b = str_eq (column_name a) (column_name b)

unfoldable pub set_sort : SortColumn → Ledger → Ledger
set_sort column s = record s {
  sort_by = column;
  sort_dir = if same_column s.sort_by column then flip s.sort_dir else desc;
  page = 1;
}

unfoldable pub build_query : (ℕ → String) → Ledger → Params
unfolding set_param build_filter_query
build_query text s =
    let filtered = build_filter_query s.filters in
    let paged = set_param "per_page" (text s.per_page) (set_param "page" (text s.page) filtered) in
    set_param "sort_dir" (direction_name s.sort_dir)
      (set_param "sort_by" (column_name s.sort_by) paged)

pub data Event : Type 0 where
  typed : (text : String) → Event
  waited : Event
  filter_set : (key : FilterKey) (value : String) → Event
  filters_cleared panel_cleared : Event
  page_set per_page_set : (value : ℕ) → Event
  sorted : (column : SortColumn) → Event

-- what an operation writes, before the effects run
unfoldable pub act : (ℕ → String) → Event → Ledger → Ledger
unfolding commit set_filter clear_filters clear_panel_filters set_per_page set_sort
act text (typed value) s = record s { search_input = value }
act text waited s = commit s.timer s
act text (filter_set key value) s = set_filter key value s
act text filters_cleared s = clear_filters s
act text panel_cleared s = clear_panel_filters s
act text (page_set value) s = record s { page = value }
act text (per_page_set value) s = set_per_page text value s
act text (sorted column) s = set_sort column s

unfoldable pub step : (ℕ → String) → Event → Ledger → Ledger
unfolding act debounce
step text e s = debounce s (act text e s)

unfoldable pub run : (ℕ → String) → List Event → Ledger → Ledger
unfolding step
run text [] s = s
run text (e ∷ es) s = run text es (step text e s)

unfoldable pub first_render : (String → Option ℕ) → Bool → Option String → Ledger
unfolding get_initial_per_page
first_render number works stored = record {
  page = 1;
  per_page = get_initial_per_page number works stored;
  sort_by = date;
  sort_dir = desc;
  filters = default_filters;
  search_input = "";
  timer = none;
  stored = stored;
  works = works;
}
