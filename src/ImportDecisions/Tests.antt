-- ===== src/ImportDecisions/Tests.antt =====
-- Decisions on concrete records. Every number here is finite.
use spen_drop.Base.{ℕ, ◌≡◌, ◌≢◌, refl, Bool, true, String, [], ◌∷◌, none, some}
use spen_drop.ImportDecisions.Stored.{
  text, object, no_entry, entry, json, Storage, ImportDecisions, save_import_decisions,
  load_import_decisions,
}
use spen_drop.ImportDecisions.RoundTrip.{load-save_import_decisions}

abbrev all_finite : ℕ → Bool
all_finite n = true

-- a hand-edited record: an empty id, and a default that is no number
abbrev edited : Storage ℕ
edited = record {
  item = some (
      json (
        object (
          entry "import_id" (text "a") (
            entry "categoryMap" (object (entry "Fod" (text "3") (entry "Misc" (text "") no_entry)))
              (entry "defaultCategoryId" (text "7") no_entry)))));
  works = true;
}

abbrev chosen : ImportDecisions ℕ
chosen = record { category_map = ("Fod", "3") ∷ ("Cafe", "3") ∷ []; default_category_id = some 7 }

load-save_import_decisions_example :
    (load_import_decisions all_finite "a" (save_import_decisions "a" chosen edited) ≡ some chosen)
    × ((other : String)
        → "a" ≢ other
        → load_import_decisions all_finite other (save_import_decisions "a" chosen edited) ≡ none)
load-save_import_decisions_example =
    load-save_import_decisions ℕ all_finite "a" chosen edited refl (refl, (refl, tt))
      (refl, (refl, tt)) refl
