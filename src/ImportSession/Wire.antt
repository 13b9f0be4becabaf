-- ===== src/ImportSession/Wire.antt =====
-- web/src/api/types.ts: the wire types of an import session. A row is its id, its skip flag and its
-- other members by name, since the code compares rows member by member whatever their names are.
-- An absent array is an empty one, which every reader of it treats alike. The currency snapshot of a
-- preview is passed through untouched and left out.
use spen_drop.Base.{
  ℕ, ◌≡◌, Bool, true, false, not, String, str_eq, str_eq_iff, List, Option, ◌==◌, arith, ◌↔◌,
}

-- The fields that an error can name (`ImportFieldErrorField`) and those that a PATCH can set
-- (`PatchRowRequest['field']`), in one type.
pub data Field : Type 0 where
  description tags notes rate original_currency amount date skip : Field

abbrev pub field_tag : Field → ℕ
field_tag description = 0
field_tag tags = 1
field_tag notes = 2
field_tag rate = 3
field_tag original_currency = 4
field_tag amount = 5
field_tag date = 6
field_tag skip = 7

abbrev pub same_field : Field → Field → Bool
same_field a b = field_tag a == field_tag b

pub same_field_iff : (a b : Field) → (same_field a b ≡ true) ↔ (a ≡ b)
same_field_iff a b = ground arith

-- A member of a row; `===` tells values apart by type and content. A number stands by the shortest
-- text that denotes it.
pub data Value : Type 0 where
  text number : String → Value
  flag : Bool → Value

unfoldable pub same_value : Value → Value → Bool
same_value (text a) (text b) = str_eq a b
same_value (number a) (number b) = str_eq a b
same_value (flag true) (flag b) = b
same_value (flag false) (flag b) = not b
same_value _ _ = false

pub same_value_iff : (a b : Value) → (same_value a b ≡ true) ↔ (a ≡ b)
unfolding same_value
same_value_iff (text a) (text b) = ground (arith, str_eq_iff a b)
same_value_iff (number a) (number b) = ground (arith, str_eq_iff a b)
same_value_iff (flag true) (flag b) = ground arith
same_value_iff (flag false) (flag b) = ground arith
same_value_iff (text a) (number b) = ground arith
same_value_iff (text a) (flag b) = ground arith
same_value_iff (number a) (text b) = ground arith
same_value_iff (number a) (flag b) = ground arith
same_value_iff (flag true) (text b) = ground arith
same_value_iff (flag true) (number b) = ground arith
same_value_iff (flag false) (text b) = ground arith
same_value_iff (flag false) (number b) = ground arith

pub record ImportRow : Type 0 where
  pub row_id : ℕ
  pub skip : Bool
  pub members : List (String × Value)

pub data CollisionReason : Type 0 where
  intra_file db_match : CollisionReason

pub record CollisionGroup : Type 0 where
  pub group_id : String
  pub reason : CollisionReason
  pub member_row_ids : List ℕ

pub record ImportFieldError : Type 0 where
  pub row_id : ℕ
  pub field : Field
  pub message : Option String

pub data UnresolvedReason : Type 0 where
  unmapped missing : UnresolvedReason

pub record UnresolvedCategory : Type 0 where
  pub name : String
  pub reason : UnresolvedReason
  pub row_ids : List ℕ

pub record ImportPreview : Type 0 where
  pub import_id : String
  pub row_count : ℕ
  pub rows : List ImportRow
  pub columns : List String
  pub unique_categories : List String
  pub collision_groups : List CollisionGroup
  pub field_errors : List ImportFieldError
  pub unresolved_categories : List UnresolvedCategory

pub record ImportResult : Type 0 where
  pub imported : ℕ
  pub skipped : ℕ
  pub total : ℕ
