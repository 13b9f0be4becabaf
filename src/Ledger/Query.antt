-- ===== src/Ledger/Query.antt =====
-- web/src/hooks/useTransactions.ts: the filters and the query strings made of them. A query string is the
-- list of its parameters, which `URLSearchParams` reads back as they were written.
use spen_drop.Base.{
  true, false, String, str_eq, str_eq_iff, str_eq_self, List, [], ◌∷◌, if◌then◌else◌, ◌≡◌, refl,
  sym, ap, ◌∙◌, Bool-cases, inl, inr,
}

pub record TransactionFilters : Type 0 where
  pub date_from : String
  pub date_to : String
  pub category_id : String
  pub category_ids : String
  pub amount_min : String
  pub amount_max : String
  pub tags : String
  pub type : String
  pub search : String

pub data SortColumn : Type 0 where
  date description category amount tags : SortColumn

pub data SortDirection : Type 0 where
  asc desc : SortDirection

abbrev pub Params : Type 0
Params = List (String × String)

-- `params.set(key, value)`: the first parameter of that name takes the value, others of it go
abbrev without : String → Params → Params
without key [] = []
without key ((k, v) ∷ rest) = if str_eq k key then without key rest else (k, v) ∷ without key rest

unfoldable pub set_param : String → String → Params → Params
set_param key value [] = (key, value) ∷ []
set_param key value ((k, v) ∷ rest) =
    if str_eq k key then (key, value) ∷ without key rest else (k, v) ∷ set_param key value rest

-- `if (value) params.set(key, value)`
unfoldable pub set_given : String → String → Params → Params
unfolding set_param
set_given key value ps = if str_eq value "" then ps else set_param key value ps

-- `if (ids) params.set('category_ids', ids) else if (id) params.set('category_id', id)`
unfoldable pub set_categories : String → String → Params → Params
unfolding set_param set_given
set_categories ids id ps =
    if str_eq ids "" then set_given "category_id" id ps else set_param "category_ids" ids ps

unfoldable pub build_filter_query : TransactionFilters → Params
unfolding set_given set_categories
build_filter_query f =
    let dates = set_given "date_to" f.date_to (set_given "date_from" f.date_from []) in
    let categories = set_categories f.category_ids f.category_id dates in
    let amounts =
      set_given "amount_max" f.amount_max (set_given "amount_min" f.amount_min categories) in
    set_given "search" f.search (set_given "type" f.type (set_given "tags" f.tags amounts))

abbrev pub column_name : SortColumn → String
column_name date = "date"
column_name description = "description"
column_name category = "category"
column_name amount = "amount"
column_name tags = "tags"

abbrev pub direction_name : SortDirection → String
direction_name asc = "asc"
direction_name desc = "desc"

-- the value of the parameter, or the empty text
unfoldable pub value_of : String → Params → String
value_of key [] = ""
value_of key ((k, v) ∷ rest) = if str_eq k key then v else value_of key rest

same_key : (k other key : String) → str_eq k other ≡ true → str_eq k key ≡ str_eq other key
same_key k other key h = ap (λ x. str_eq x key) ((str_eq_iff k other).0 h)

value_of-without_other :
    (key other : String) (ps : Params)
    → str_eq other key ≡ false
    → value_of key (without other ps) ≡ value_of key ps
unfolding value_of
value_of-without_other key other [] h = refl
value_of-without_other key other ((k, v) ∷ rest) h =
    let tail = value_of-without_other key other rest h in
    elim (Bool-cases (str_eq k other)) [
      | inl e ↦ rw e (rw (same_key k other key e, h) tail)
      | inr e ↦ rw e (rw tail refl)
    ]

-- A parameter is what it was set to, and no other is touched.
pub value_of-set_param :
    (key other value : String) (ps : Params)
    → value_of key (set_param other value ps)
      ≡ (if str_eq other key then value else value_of key ps)
unfolding value_of set_param
value_of-set_param key other value [] = refl
value_of-set_param key other value ((k, v) ∷ rest) =
    let tail = value_of-set_param key other value rest in
    elim (Bool-cases (str_eq k other)) [
      | inl e ↦ elim (Bool-cases (str_eq other key)) [
        | inl here ↦ rw e (rw here refl)
        | inr there ↦ rw e (
            rw (there, same_key k other key e, there) (value_of-without_other key other rest there))
      ]
      | inr e ↦ elim (Bool-cases (str_eq other key)) [
        | inl here ↦
            let missed : str_eq k key ≡ false =
              sym (ap (str_eq k) ((str_eq_iff other key).0 here)) ∙ e in
            rw e (rw (missed, tail, here) refl)
        | inr there ↦ rw e (rw (tail, there) refl)
      ]
    ]

pub value_of-set_given_other :
    (key other value : String) (ps : Params)
    → str_eq other key ≡ false
    → value_of key (set_given other value ps) ≡ value_of key ps
unfolding set_given
value_of-set_given_other key other value ps h = elim (Bool-cases (str_eq value "")) [
  | inl e ↦ rw e refl
  | inr e ↦ rw e (rw (value_of-set_param key other value ps, h) refl)
]

pub value_of-set_given_self :
    (key value : String) (ps : Params)
    → value_of key ps ≡ ""
    → value_of key (set_given key value ps) ≡ value
unfolding set_given
value_of-set_given_self key value ps h = elim (Bool-cases (str_eq value "")) [
  | inl e ↦ rw e (h ∙ sym ((str_eq_iff value "").0 e))
  | inr e ↦ rw e (rw (value_of-set_param key key value ps, str_eq_self key) refl)
]

pub value_of-set_categories_other :
    (key ids id : String) (ps : Params)
    → str_eq "category_ids" key ≡ false
    → str_eq "category_id" key ≡ false
    → value_of key (set_categories ids id ps) ≡ value_of key ps
unfolding set_categories
value_of-set_categories_other key ids id ps h k = elim (Bool-cases (str_eq ids "")) [
  | inl e ↦ rw e (value_of-set_given_other key "category_id" id ps k)
  | inr e ↦ rw e (rw (value_of-set_param key "category_ids" ids ps, h) refl)
]

-- the filters that a query carries
unfoldable pub read_filters : Params → TransactionFilters
unfolding value_of
read_filters ps = record {
  date_from = value_of "date_from" ps;
  date_to = value_of "date_to" ps;
  category_id = value_of "category_id" ps;
  category_ids = value_of "category_ids" ps;
  amount_min = value_of "amount_min" ps;
  amount_max = value_of "amount_max" ps;
  tags = value_of "tags" ps;
  type = value_of "type" ps;
  search = value_of "search" ps;
}

-- A list of categories overrides a single one.
abbrev pub effective : TransactionFilters → TransactionFilters
effective f = record f { category_id = if str_eq f.category_ids "" then f.category_id else "" }

value_of-set_categories_ids :
    (ids id : String) (ps : Params)
    → value_of "category_ids" ps ≡ ""
    → value_of "category_ids" (set_categories ids id ps) ≡ ids
unfolding set_categories
value_of-set_categories_ids ids id ps h = elim (Bool-cases (str_eq ids "")) [
  | inl e ↦ rw e (
      value_of-set_given_other "category_ids" "category_id" id ps refl
      ∙ h
      ∙ sym ((str_eq_iff ids "").0 e))
  | inr e ↦ rw e (value_of-set_param "category_ids" "category_ids" ids ps)
]

value_of-set_categories_id :
    (ids id : String) (ps : Params)
    → value_of "category_id" ps ≡ ""
    → value_of "category_id" (set_categories ids id ps) ≡ (if str_eq ids "" then id else "")
unfolding set_categories
value_of-set_categories_id ids id ps h = elim (Bool-cases (str_eq ids "")) [
  | inl e ↦ rw e (value_of-set_given_self "category_id" id ps h)
  | inr e ↦ rw e (value_of-set_param "category_id" "category_ids" ids ps ∙ h)
]

ruleset layers = (
  value_of-set_given_other, value_of-set_given_self, value_of-set_categories_other,
  value_of-set_categories_ids, value_of-set_categories_id,
)

pub read_filters-build_filter_query :
    (f : TransactionFilters) → read_filters (build_filter_query f) ≡ effective f
unfolding build_filter_query value_of read_filters
read_filters-build_filter_query f = simp layers
