-- ===== src/LastUser/Remembered.antt =====
-- web/src/lib/last-user.ts: writing, reading and restoring the remembered identity. Storage and JSON are
-- those of the import decisions; a number that can be an id, a positive integer, is told by a test.
use spen_drop.Base.{
  ◌≡◌, refl, ap, inl, inr, Bool, true, String, Option, none, some, if◌then◌else◌, Bool-cases,
  Option-cases,
}
use spen_drop.ImportDecisions.Stored.{
  Json, null_value, boolean, number, text, object, no_entry, entry, Item, json, other_text, Storage,
  property,
}

pub data Role : Type 0 where
  admin member : Role

pub record User {ℓ} (N : Type ℓ) : Type ℓ where
  pub id : N
  pub username : String
  pub display_name : String
  pub created_at : String
  pub role : Role

pub record RememberedUser {ℓ} (N : Type ℓ) : Type ℓ where
  pub id : N
  pub username : String
  pub display_name : String
  pub created_at : String

module _ {ℓ} {N : Type ℓ} where
  unfoldable pub remember_user : User N → Storage N → Storage N
  remember_user user s = record s {
    item =
        if s.works
        then some (
            json (
              object (
                entry "id" (number user.id) (
                  entry "username" (text user.username) (
                    entry "display_name" (text user.display_name)
                      (entry "created_at" (text user.created_at) no_entry))))))
        else s.item;
  }

  unfoldable pub forget_remembered_user : Storage N → Storage N
  forget_remembered_user s = record s { item = if s.works then none else s.item }

  unfoldable pub to_unverified_user : RememberedUser N → User N
  to_unverified_user r = record {
    id = r.id;
    username = r.username;
    display_name = r.display_name;
    created_at = r.created_at;
    role = member;
  }

  abbrev pub as_text : Option (Json N) → Option String
  as_text (some (text value)) = some value
  as_text (some (number value)) = none
  as_text (some (object entries)) = none
  as_text (some null_value) = none
  as_text (some (boolean value)) = none
  as_text none = none

  abbrev pub as_number : Option (Json N) → Option N
  as_number (some (number value)) = some value
  as_number (some (text value)) = none
  as_number (some (object entries)) = none
  as_number (some null_value) = none
  as_number (some (boolean value)) = none
  as_number none = none

  -- the value with the types that `isRememberedUser` asks for, if it has them
  unfoldable pub checked :
      (N → Bool)
      → Option N
      → Option String
      → Option String
      → Option String
      → Option (RememberedUser N)
  checked is_id (some id) (some username) (some display_name) (some created_at) =
      if is_id id
      then some (record {
        id = id;
        username = username;
        display_name = display_name;
        created_at = created_at;
      })
      else none
  checked is_id none username display_name created_at = none
  checked is_id (some id) none display_name created_at = none
  checked is_id (some id) (some username) none created_at = none
  checked is_id (some id) (some username) (some display_name) none = none

  unfoldable pub read_identity : (N → Bool) → Item N → Option (RememberedUser N)
  unfolding checked property
  read_identity is_id (json (object entries)) =
      checked is_id (as_number (property "id" entries)) (as_text (property "username" entries))
        (as_text (property "display_name" entries)) (as_text (property "created_at" entries))
  read_identity is_id (json null_value) = none
  read_identity is_id (json (boolean value)) = none
  read_identity is_id (json (number value)) = none
  read_identity is_id (json (text value)) = none
  read_identity is_id other_text = none

  unfoldable pub read_remembered_user : (N → Bool) → Storage N → Option (RememberedUser N)
  unfolding read_identity
  read_remembered_user is_id s =
      if s.works then elim s.item [ none ↦ none | some item ↦ read_identity is_id item ] else none

  abbrev pub restored : Option (RememberedUser N) → Option (User N)
  restored none = none
  restored (some r) = some (to_unverified_user r)

  read_identity-remembered :
      (is_id : N → Bool) (id : N) (username display_name created_at : String)
      → is_id id ≡ true
      → read_identity is_id (
          json (
            object (
              entry "id" (number id) (
                entry "username" (text username) (
                  entry "display_name"
                    (text display_name)
                    (entry "created_at" (text created_at) no_entry))))))
        ≡ some (record {
          id = id;
          username = username;
          display_name = display_name;
          created_at = created_at;
        })
  unfolding read_identity checked property
  read_identity-remembered is_id id username display_name created_at h = rw h refl

  -- Where storage works, a user with an id that can be one who is remembered comes back as the same
  -- person, and as a member whatever their role was.
  pub remember_user-restored :
      (is_id : N → Bool) (user : User N) (s : Storage N)
      → s.works ≡ true
      → is_id user.id ≡ true
      → restored (read_remembered_user is_id (remember_user user s))
        ≡ some (record user { role = member })
  unfolding read_remembered_user remember_user to_unverified_user
  remember_user-restored is_id user s works h = rw works (
      ap restored
        (read_identity-remembered is_id user.id user.username user.display_name user.created_at h))

  -- The user is a member with an id that can be one, or there is none.
  abbrev pub IsPlain : (N → Bool) → Option (User N) → Type 0
  IsPlain is_id none = Unit
  IsPlain is_id (some user) = (user.role ≡ member) × (is_id user.id ≡ true)

  checked-IsPlain :
      (is_id : N → Bool) (id : Option N) (username display_name created_at : Option String)
      → IsPlain is_id (restored (checked is_id id username display_name created_at))
  unfolding checked to_unverified_user
  checked-IsPlain is_id (some id) (some username) (some display_name) (some created_at) =
      elim (Bool-cases (is_id id)) [ inl e ↦ rw e (refl, e) | inr e ↦ rw e tt ]
  checked-IsPlain is_id none username display_name created_at = tt
  checked-IsPlain is_id (some id) none display_name created_at = tt
  checked-IsPlain is_id (some id) (some username) none created_at = tt
  checked-IsPlain is_id (some id) (some username) (some display_name) none = tt

  read_identity-IsPlain :
      (is_id : N → Bool) (item : Item N) → IsPlain is_id (restored (read_identity is_id item))
  unfolding read_identity
  read_identity-IsPlain is_id (json (object entries)) =
      checked-IsPlain is_id (as_number (property "id" entries))
        (as_text (property "username" entries)) (as_text (property "display_name" entries))
        (as_text (property "created_at" entries))
  read_identity-IsPlain is_id (json null_value) = tt
  read_identity-IsPlain is_id (json (boolean value)) = tt
  read_identity-IsPlain is_id (json (number value)) = tt
  read_identity-IsPlain is_id (json (text value)) = tt
  read_identity-IsPlain is_id other_text = tt

  -- Whatever stands in storage, a role kept there included, the user restored from it is a plain member
  -- with an id that can be one; and after the identity is forgotten none is restored.
  pub read_remembered_user-IsPlain :
      (is_id : N → Bool) (s : Storage N)
      → IsPlain is_id (restored (read_remembered_user is_id s))
        × (read_remembered_user is_id (forget_remembered_user s) ≡ none)
  unfolding read_remembered_user forget_remembered_user
  read_remembered_user-IsPlain is_id s = elim (Bool-cases s.works) [
    | inr e ↦ rw e (tt, refl)
    | inl e ↦ elim (Option-cases s.item) [
      | inl e' ↦ rw e (rw e' (tt, refl))
      | inr (item, e') ↦ rw e (rw e' (read_identity-IsPlain is_id item, refl))
    ]
  ]
