-- ===== src/ImportDecisions/Stored.antt =====
-- web/src/lib/import-decisions.ts: the record in storage and its three operations. A stored text is the
-- JSON value that it denotes, if it denotes one; `JSON.parse` undoes `JSON.stringify` on such values. An
-- array is an object with its indices for keys, which is how the code reads it. Numbers are a type `N`
-- with a test for the finite ones.
use spen_drop.Base.{
  Bool, false, ◌||◌, String, str_eq, List, [], ◌∷◌, Option, none, some, map, if◌then◌else◌,
}

mutual
  pub data Json {ℓ} (N : Type ℓ) : Type ℓ where
    null_value : Json N
    boolean : (value : Bool) → Json N
    number : (value : N) → Json N
    text : (value : String) → Json N
    object : (entries : Entries N) → Json N

  pub data Entries {ℓ} (N : Type ℓ) : Type ℓ where
    no_entry : Entries N
    entry : (key : String) (value : Json N) (rest : Entries N) → Entries N

-- what stands under the key: text that is JSON, or other text
pub data Item {ℓ} (N : Type ℓ) : Type ℓ where
  json : (value : Json N) → Item N
  other_text : Item N

-- `localStorage` as this code sees it: its item, and whether reads and writes go through
pub record Storage {ℓ} (N : Type ℓ) : Type ℓ where
  pub item : Option (Item N)
  pub works : Bool

pub record ImportDecisions {ℓ} (N : Type ℓ) : Type ℓ where
  pub category_map : List (String × String)
  pub default_category_id : Option N

-- `categoryMap[name] = id`: a key that is there keeps its place, and "__proto__" is no own key
unfoldable pub set_entry : String → String → List (String × String) → List (String × String)
set_entry name id [] = (name, id) ∷ []
set_entry name id ((k, v) ∷ rest) =
    if str_eq name k then (name, id) ∷ rest else (k, v) ∷ set_entry name id rest

module _ {ℓ} {N : Type ℓ} where
  unfoldable pub map_entries : List (String × String) → Entries N
  map_entries [] = no_entry
  map_entries ((name, id) ∷ rest) = entry name (text id) (map_entries rest)

  abbrev pub default_value : Option N → Json N
  default_value none = null_value
  default_value (some id) = number id

  unfoldable pub payload : String → ImportDecisions N → Entries N
  unfolding map_entries
  payload import_id d = entry "import_id" (text import_id) (
      entry "categoryMap" (object (map_entries d.category_map))
        (entry "defaultCategoryId" (default_value d.default_category_id) no_entry))

  unfoldable pub save_import_decisions : String → ImportDecisions N → Storage N → Storage N
  unfolding payload
  save_import_decisions import_id d s = record s {
    item = if s.works then some (json (object (payload import_id d))) else s.item;
  }

  unfoldable pub clear_import_decisions : Storage N → Storage N
  clear_import_decisions s = record s { item = if s.works then none else s.item }

  -- `record[key]`, `none` for undefined
  unfoldable pub property : String → Entries N → Option (Json N)
  property key no_entry = none
  property key (entry k v rest) = if str_eq key k then some v else property key rest

  unfoldable pub read_entry : String → Json N → List (String × String) → List (String × String)
  unfolding set_entry
  read_entry name (text id) map =
      if str_eq id "" || str_eq name "__proto__" then map else set_entry name id map
  read_entry name null_value map = map
  read_entry name (boolean value) map = map
  read_entry name (number value) map = map
  read_entry name (object entries) map = map

  unfoldable pub read_entries : Entries N → List (String × String) → List (String × String)
  unfolding read_entry
  read_entries no_entry map = map
  read_entries (entry name value rest) map = read_entries rest (read_entry name value map)

  unfoldable pub read_map : Option (Json N) → List (String × String)
  unfolding read_entries
  read_map (some (object entries)) = read_entries entries []
  read_map (some (text value)) = []
  read_map (some null_value) = []
  read_map (some (boolean value)) = []
  read_map (some (number value)) = []
  read_map none = []

  module _ (is_finite : N → Bool) where
    unfoldable pub read_default : Option (Json N) → Option N
    read_default (some (number id)) = if is_finite id then some id else none
    read_default (some (object entries)) = none
    read_default (some (text value)) = none
    read_default (some null_value) = none
    read_default (some (boolean value)) = none
    read_default none = none

    -- `record.import_id !== importID`
    abbrev pub is_for : String → Option (Json N) → Bool
    is_for import_id (some (text id)) = str_eq id import_id
    is_for import_id (some (number value)) = false
    is_for import_id (some (object entries)) = false
    is_for import_id (some null_value) = false
    is_for import_id (some (boolean value)) = false
    is_for import_id none = false

    unfoldable pub read_item : String → Item N → Option (ImportDecisions N)
    unfolding property read_map read_default
    read_item import_id (json (object entries)) =
        if is_for import_id (property "import_id" entries)
        then some (record {
          category_map = read_map (property "categoryMap" entries);
          default_category_id = read_default (property "defaultCategoryId" entries);
        })
        else none
    read_item import_id (json null_value) = none
    read_item import_id (json (boolean value)) = none
    read_item import_id (json (number value)) = none
    read_item import_id (json (text value)) = none
    read_item import_id other_text = none

    unfoldable pub load_import_decisions : String → Storage N → Option (ImportDecisions N)
    unfolding read_item
    load_import_decisions import_id s =
        if s.works then elim s.item [ none ↦ none | some item ↦ read_item import_id item ] else none
