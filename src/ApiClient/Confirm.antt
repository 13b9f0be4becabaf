-- ===== src/ApiClient/Confirm.antt =====
-- web/src/api/import.ts: how the answer to a confirm becomes the refusal that the import session acts on.
use spen_drop.Base.{
  ℕ, inl, inr, ◌⊎◌, Bool, false, String, str_eq, List, [], Option, none, some, ◌==◌, if◌then◌else◌,
}
use spen_drop.ImportSession.Wire.{
  CollisionGroup, ImportFieldError, UnresolvedCategory, ImportResult,
}
use spen_drop.ImportSession.Machine.{
  Refusal, unresolved_collisions, unresolved_categories, field_too_long, money_errors,
  other_failure,
}
use spen_drop.ApiClient.Outcome.{is_ok, or_text}

-- A JSON body as the code reads it: the keys of a refusal, `none` where a key is absent, and the same
-- value cast to the type of a result.
pub record ConfirmReply : Type 0 where
  pub code : Option String
  pub collision_groups : Option (List CollisionGroup)
  pub field_errors : Option (List ImportFieldError)
  pub unresolved_categories_list : Option (List UnresolvedCategory)
  pub error : Option String
  pub cast : ImportResult

pub data ConfirmBody : Type 0 where
  json_body : (body : ConfirmReply) → ConfirmBody
  unreadable : ConfirmBody

-- The answer of `fetch`; a rejection and a `SyntaxError` come with their messages.
pub data ConfirmFetched : Type 0 where
  replied : (status : ℕ) (body : ConfirmBody) → ConfirmFetched
  unreached : (message : String) → ConfirmFetched

abbrev pub list_or_empty {ℓ} : {A : Type ℓ} → Option (List A) → List A
list_or_empty none = []
list_or_empty (some xs) = xs

abbrev pub has_code : ConfirmReply → String → Bool
has_code b code = elim b.code [ none ↦ false | some c ↦ str_eq c code ]

-- the branches of a 409 by its code
unfoldable pub conflict : ConfirmReply → Refusal
conflict b =
    if has_code b "UNRESOLVED_COLLISIONS"
    then unresolved_collisions (list_or_empty b.collision_groups)
    else if has_code b "FIELD_TOO_LONG"
    then field_too_long (list_or_empty b.field_errors)
    else if has_code b "MONEY_ERRORS"
    then money_errors (list_or_empty b.field_errors)
    else if has_code b "UNRESOLVED_CATEGORIES"
    then unresolved_categories (list_or_empty b.unresolved_categories_list)
    else other_failure (some (or_text b.error "HTTP 409"))

-- `http n` is the text `HTTP n`; `syntax` is what an unreadable body is rejected with.
module _ (http : ℕ → String) (syntax : String) where
  unfoldable pub confirm_import : ConfirmFetched → ImportResult ⊎ Refusal
  unfolding conflict
  confirm_import (unreached message) = inr (other_failure (some message))
  confirm_import (replied status (json_body b)) =
      if status == 409
      then inr (conflict b)
      else if is_ok status
      then inl b.cast
      else inr (other_failure (some (or_text b.error (http status))))
  confirm_import (replied status unreadable) =
      if status == 409
      then inr (other_failure (some "HTTP 409"))
      else if is_ok status
      then inr (other_failure (some syntax))
      else inr (other_failure (some (http status)))
