-- ===== src/LastUser/Tests.antt =====
-- A remembered identity on concrete storage. A number that can be an id is a positive one.
use spen_drop.Base.{ℕ, Bool, true, some, ltb}
use spen_drop.ImportDecisions.Stored.{text, number, object, no_entry, entry, json, Storage}
use spen_drop.LastUser.Remembered.{User, admin}

abbrev is_id : ℕ → Bool
is_id n = ltb 0 n

abbrev owner : User ℕ
owner = record {
  id = 1;
  username = "eli";
  display_name = "Eli";
  created_at = "2026-01-01";
  role = admin;
}

-- a record that someone has edited to carry a role
abbrev tampered : Storage ℕ
tampered = record {
  item = some (
      json (
        object (
          entry "id" (number 2) (
            entry "username" (text "m") (
              entry "display_name" (text "M")
                (entry "created_at" (text "d") (entry "role" (text "admin") no_entry)))))));
  works = true;
}
