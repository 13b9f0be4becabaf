-- ===== src/Bulk/Screen.antt =====
-- web/src/pages/Transactions.tsx: the state of the page, what it shows, and its selection. The rows and
-- their count are what the query cache last answered, with the key that they were loaded under.
use spen_drop.Base.{
  ℕ, Bool, true, false, not, ◌&&◌, ◌||◌, String, str_eq, Option, none, some, List, [], ◌∷◌, ◌++◌,
  any, all, keep, length, ltb, ◌==◌, if◌then◌else◌,
}
use spen_drop.Ledger.Query.{TransactionFilters, column_name, direction_name}
use spen_drop.Ledger.Listing.{Ledger, search_pending}
use spen_drop.Ledger.Patch.{ComputedPatch}

-- the data of one key: `filters`, `page`, `perPage`, `sortBy` and `sortDir` of the ledger in `key`
pub record Shown : Type 0 where
  pub key : Ledger
  pub ids : List ℕ
  pub total : ℕ

pub data Scope : Type 0 where
  page_scope all_matching : Scope

pub record Screen : Type 0 where
  pub ledger : Ledger
  -- whether `filters` is the object `defaultFilters` itself
  pub is_default : Bool
  -- the last data of any key, and whether the present key has failed without data
  pub shown : Option Shown
  pub failed : Bool
  pub selected_ids : List ℕ
  pub selection_scope : Scope
  pub selection_mode : Bool
  pub deleting : Bool
  pub confirm_all_matching_open : Bool
  pub bulk_edit_open : Bool
  pub bulk_confirm : Option ComputedPatch
  pub show_replace : Bool
  pub replace_text : String
  pub replacing : Bool
  pub replace_confirm : Option ComputedPatch

abbrev pub same_filters : TransactionFilters → TransactionFilters → Bool
same_filters f g =
    str_eq f.date_from g.date_from
    && (str_eq f.date_to g.date_to
        && (str_eq f.category_id g.category_id
            && (str_eq f.category_ids g.category_ids
                && (str_eq f.amount_min g.amount_min
                    && (str_eq f.amount_max g.amount_max
                        && (str_eq f.tags g.tags
                            && (str_eq f.type g.type && str_eq f.search g.search)))))))

-- the query key of two renders
abbrev pub same_key : Ledger → Ledger → Bool
same_key a b =
    same_filters a.filters b.filters
    && (a.page == b.page
        && (a.per_page == b.per_page
            && (str_eq (column_name a.sort_by) (column_name b.sort_by)
                && str_eq (direction_name a.sort_dir) (direction_name b.sort_dir))))

-- `query.data`, with `keepPreviousData`
abbrev pub data_of : Screen → Option Shown
data_of s = if s.failed then none else s.shown

abbrev pub ids_of : Option Shown → List ℕ
ids_of none = []
ids_of (some d) = d.ids

abbrev pub total_of : Option Shown → ℕ
total_of none = 0
total_of (some d) = d.total

abbrev pub transactions : Screen → List ℕ
transactions s = ids_of (data_of s)

abbrev pub total : Screen → ℕ
total s = total_of (data_of s)

abbrev pub loaded_elsewhere : Ledger → Option Shown → Bool
loaded_elsewhere l none = false
loaded_elsewhere l (some d) = not (same_key d.key l)

-- `query.isPlaceholderData`
abbrev pub showing_previous : Screen → Bool
showing_previous s = loaded_elsewhere s.ledger (data_of s)

abbrev pub filter_scope_unsettled : Screen → Bool
filter_scope_unsettled s = showing_previous s || search_pending s.ledger

abbrev pub is_all_matching : Scope → Bool
is_all_matching page_scope = false
is_all_matching all_matching = true

abbrev pub selection_count : Screen → ℕ
selection_count s = if is_all_matching s.selection_scope then total s else length s.selected_ids

abbrev pub is_selected : List ℕ → ℕ → Bool
is_selected ids id = any (λ i. i == id) ids

-- `next.add(id)` and `next.delete(id)` of a `Set`, which keeps the order of insertion
abbrev pub add_id : ℕ → List ℕ → List ℕ
add_id id ids = if is_selected ids id then ids else ids ++ id ∷ []

abbrev pub delete_id : ℕ → List ℕ → List ℕ
delete_id id ids = keep (λ i. not (i == id)) ids

unfoldable pub handle_select : ℕ → Bool → Screen → Screen
handle_select id checked s = record s {
  selected_ids = if checked then add_id id s.selected_ids else delete_id id s.selected_ids;
  selection_scope = page_scope;
}

unfoldable pub handle_select_all : Bool → Screen → Screen
handle_select_all checked s = record s {
  selected_ids = if checked then transactions s else [];
  selection_scope = page_scope;
}

-- the conditions under which the button "Select all N matching" is rendered
abbrev pub offers_all_matching : Screen → Bool
offers_all_matching s =
    not (filter_scope_unsettled s)
    && (not (is_all_matching s.selection_scope)
        && (ltb 0 (length (transactions s))
            && (all (is_selected s.selected_ids) (transactions s)
                && ltb (length (transactions s)) (total s))))

unfoldable pub handle_select_all_matching : Screen → Screen
handle_select_all_matching s = record s {
  selection_scope = if filter_scope_unsettled s then s.selection_scope else all_matching;
}

unfoldable pub handle_clear_selection : Screen → Screen
handle_clear_selection s = record s {
  selected_ids = [];
  selection_scope = page_scope;
  selection_mode = false;
}

unfoldable pub toggle_selection_mode : Screen → Screen
unfolding handle_clear_selection
toggle_selection_mode s =
    if s.selection_mode then handle_clear_selection s else record s { selection_mode = true }

unfoldable pub handle_card_long_press : ℕ → Screen → Screen
unfolding handle_select
handle_card_long_press id s = handle_select id true (record s { selection_mode = true })
