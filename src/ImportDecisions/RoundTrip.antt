-- ===== src/ImportDecisions/RoundTrip.antt =====
-- web/src/lib/import-decisions.ts: saved decisions are loaded again, for their session alone.
use spen_drop.Base.{
  ◌≡◌, ◌≢◌, refl, sym, ap, ap₂, ◌∙◌, inl, inr, Bool, true, false, String, str_eq, str_eq_iff, List,
  [], ◌∷◌, ◌++◌, append-nil, append_assoc, Option, none, some, any, any-append_miss, All, arith,
  Bool-cases,
}
use spen_drop.ImportDecisions.Stored.{
  text, object, json, Storage, ImportDecisions, map_entries, default_value, payload,
  save_import_decisions, property, set_entry, read_entry, read_entries, read_map, read_default,
  read_item, load_import_decisions,
}
use spen_drop.ImportDecisions.Valid.{IsEntry, IsFiniteDefault}

abbrev has_name : String → List (String × String) → Bool
has_name name map = any (λ m. str_eq name m.0) map

-- No name has two entries.
abbrev pub IsMap : List (String × String) → Type 0
IsMap [] = Unit
IsMap ((k, v) ∷ map) = (any (λ m. str_eq k m.0) map ≡ false) × IsMap map

set_entry_new :
    (name id : String) (map : List (String × String))
    → has_name name map ≡ false
    → set_entry name id map ≡ map ++ (name, id) ∷ []
unfolding set_entry
set_entry_new name id [] h = refl
set_entry_new name id ((k, v) ∷ map) h = ground (arith, set_entry_new name id map)

str_eq_sym : (a b : String) → str_eq a b ≡ false → str_eq b a ≡ false
str_eq_sym a b h = ground (arith, str_eq_iff a b, str_eq_iff b a)

-- Names that an entry before them does not have are still new after it.
still_new :
    (k v : String) (before rest : List (String × String))
    → has_name k rest ≡ false
    → All (λ m. has_name m.0 before ≡ false) rest
    → All (λ m. has_name m.0 (before ++ (k, v) ∷ []) ≡ false) rest
still_new k v before [] h new = tt
still_new k v before ((name, id) ∷ rest) h (n, new) =
    let others : has_name k rest ≡ false = ground arith in
    let apart : str_eq k name ≡ false = ground arith in
    (
      any-append_miss _ before ((k, v) ∷ []) n ∙ ground (arith, str_eq_sym k name apart),
      still_new k v before rest others new,
    )

module _ {ℓ} (N : Type ℓ) where
  read_entry-new :
      (k v : String) (before : List (String × String))
      → IsEntry (k, v)
      → has_name k before ≡ false
      → read_entry {N = N} k (text v) before ≡ before ++ (k, v) ∷ []
  unfolding read_entry
  read_entry-new k v before e n = rw e (set_entry_new k v before n)

  read_entries-map_entries :
      (map before : List (String × String))
      → IsMap map
      → All IsEntry map
      → All (λ m. has_name m.0 before ≡ false) map
      → read_entries (map_entries {N = N} map) before ≡ before ++ map
  unfolding read_entries map_entries
  read_entries-map_entries [] before single fit new = sym (append-nil before)
  read_entries-map_entries ((k, v) ∷ map) before (alone, single) (e, fit) (n, new) =
      ap (read_entries (map_entries map)) (read_entry-new k v before e n)
      ∙ read_entries-map_entries map (before ++ (k, v) ∷ []) single fit
          (still_new k v before map alone new)
      ∙ append_assoc before ((k, v) ∷ []) map

  none_before : (map : List (String × String)) → All (λ m. has_name m.0 [] ≡ false) map
  none_before [] = tt
  none_before (m ∷ map) = (refl, none_before map)

  module _ (is_finite : N → Bool) where
    read_default-default_value :
        (o : Option N)
        → IsFiniteDefault is_finite o
        → read_default is_finite (some (default_value o)) ≡ o
    unfolding read_default
    read_default-default_value none h = refl
    read_default-default_value (some id) h = rw h refl

    read_payload-same :
        (import_id : String) (d : ImportDecisions N)
        → IsMap d.category_map
        → All IsEntry d.category_map
        → IsFiniteDefault is_finite d.default_category_id
        → read_item is_finite import_id (json (object (payload import_id d))) ≡ some d
    unfolding read_item payload property read_map
    read_payload-same import_id d single fit finite =
        let map =
          read_entries-map_entries d.category_map [] single fit (none_before d.category_map) in
        let default_id = read_default-default_value d.default_category_id finite in
        rw ((str_eq_iff import_id import_id).1 refl)
          (ap₂ (λ m i. some (record { category_map = m; default_category_id = i })) map default_id)

    read_payload-other :
        (import_id other : String) (d : ImportDecisions N)
        → import_id ≢ other
        → read_item is_finite other (json (object (payload import_id d))) ≡ none
    unfolding read_item payload property
    read_payload-other import_id other d apart = elim (Bool-cases (str_eq import_id other)) [
      | inl e ↦ absurd (apart ((str_eq_iff import_id other).0 e))
      | inr e ↦ rw e refl
    ]

    -- Where storage works, decisions without repeated names, empty ids, the name `__proto__` or a default
    -- that is not finite are loaded again for the import that they were saved for, and for no other.
    pub load-save_import_decisions :
        (import_id : String) (d : ImportDecisions N) (s : Storage N)
        → s.works ≡ true
        → IsMap d.category_map
        → All IsEntry d.category_map
        → IsFiniteDefault is_finite d.default_category_id
        → (load_import_decisions is_finite import_id (save_import_decisions import_id d s) ≡ some d)
          × ((other : String)
              → import_id ≢ other
              → load_import_decisions is_finite other (save_import_decisions import_id d s) ≡ none)
    unfolding load_import_decisions save_import_decisions
    load-save_import_decisions import_id d s works single fit finite = (
      rw works (read_payload-same import_id d single fit finite),
      λ other apart. rw works (read_payload-other import_id other d apart),
    )
