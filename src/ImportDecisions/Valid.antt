-- ===== src/ImportDecisions/Valid.antt =====
-- web/src/lib/import-decisions.ts: whatever stands in storage, what is loaded has the shape it promises.
use spen_drop.Base.{
  ◌≡◌, inl, inr, Bool, true, false, ◌||◌, String, str_eq, List, [], ◌∷◌, Option, none, some, All,
  Bool-cases, Option-cases,
}
use spen_drop.ImportDecisions.Stored.{
  Json, null_value, boolean, number, text, object, Entries, no_entry, entry, Item, json, other_text,
  Storage, ImportDecisions, property, set_entry, read_entry, read_entries, read_map, read_default,
  is_for, read_item, load_import_decisions,
}

-- an entry that a saved mapping can have: an id that is not empty, under a name that can be an own key
abbrev pub IsEntry : String × String → Type 0
IsEntry m = (str_eq m.1 "" || str_eq m.0 "__proto__") ≡ false

set_entry-All :
    (name id : String) (map : List (String × String))
    → IsEntry (name, id)
    → All IsEntry map
    → All IsEntry (set_entry name id map)
unfolding set_entry
set_entry-All name id [] e h = (e, tt)
set_entry-All name id ((k, v) ∷ map) e (p, h) = elim (Bool-cases (str_eq name k)) [
  | inl same ↦ rw same (e, h)
  | inr other ↦ rw other (p, set_entry-All name id map e h)
]

module _ {ℓ} {N : Type ℓ} where
  read_entry-All :
      (name : String) (value : Json N) (map : List (String × String))
      → All IsEntry map
      → All IsEntry (read_entry name value map)
  unfolding read_entry
  read_entry-All name (text id) map h =
      elim (Bool-cases (str_eq id "" || str_eq name "__proto__")) [
        | inl e ↦ rw e h
        | inr e ↦ rw e (set_entry-All name id map e h)
      ]
  read_entry-All name null_value map h = h
  read_entry-All name (boolean value) map h = h
  read_entry-All name (number value) map h = h
  read_entry-All name (object entries) map h = h

  read_entries-All :
      (entries : Entries N) (map : List (String × String))
      → All IsEntry map
      → All IsEntry (read_entries entries map)
  unfolding read_entries
  read_entries-All no_entry map h = h
  read_entries-All (entry name value rest) map h =
      read_entries-All rest (read_entry name value map) (read_entry-All name value map h)

  read_map-All : (o : Option (Json N)) → All IsEntry (read_map o)
  unfolding read_map
  read_map-All none = tt
  read_map-All (some (object entries)) = read_entries-All entries [] tt
  read_map-All (some (text value)) = tt
  read_map-All (some null_value) = tt
  read_map-All (some (boolean value)) = tt
  read_map-All (some (number value)) = tt

  module _ (is_finite : N → Bool) where
    abbrev pub IsFiniteDefault : Option N → Type 0
    IsFiniteDefault none = Unit
    IsFiniteDefault (some id) = is_finite id ≡ true

    abbrev pub IsValid : Option (ImportDecisions N) → Type 0
    IsValid none = Unit
    IsValid (some d) = All IsEntry d.category_map × IsFiniteDefault d.default_category_id

    read_default-IsFinite : (o : Option (Json N)) → IsFiniteDefault (read_default is_finite o)
    unfolding read_default
    read_default-IsFinite none = tt
    read_default-IsFinite (some (number id)) = elim (Bool-cases (is_finite id)) [
      | inl e ↦ rw e e
      | inr e ↦ rw e tt
    ]
    read_default-IsFinite (some (object entries)) = tt
    read_default-IsFinite (some (text value)) = tt
    read_default-IsFinite (some null_value) = tt
    read_default-IsFinite (some (boolean value)) = tt

    read_item-IsValid :
        (import_id : String) (item : Item N) → IsValid (read_item is_finite import_id item)
    unfolding read_item
    read_item-IsValid import_id (json (object entries)) =
        elim (Bool-cases (is_for is_finite import_id (property "import_id" entries))) [
          | inl e ↦ rw e (
            read_map-All (property "categoryMap" entries),
            read_default-IsFinite (property "defaultCategoryId" entries),
          )
          | inr e ↦ rw e tt
        ]
    read_item-IsValid import_id (json null_value) = tt
    read_item-IsValid import_id (json (boolean value)) = tt
    read_item-IsValid import_id (json (number value)) = tt
    read_item-IsValid import_id (json (text value)) = tt
    read_item-IsValid import_id other_text = tt

    -- Whatever stands in storage, what is loaded maps names to ids that are not empty and has a finite
    -- default or none.
    pub load_import_decisions-IsValid :
        (import_id : String) (s : Storage N) → IsValid (load_import_decisions is_finite import_id s)
    unfolding load_import_decisions
    load_import_decisions-IsValid import_id s = elim (Bool-cases s.works) [
      | inr e ↦ rw e tt
      | inl e ↦ elim (Option-cases s.item) [
        | inl e' ↦ rw e (rw e' tt)
        | inr (item, e') ↦ rw e (rw e' (read_item-IsValid import_id item))
      ]
    ]
