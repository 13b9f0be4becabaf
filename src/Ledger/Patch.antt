-- ===== src/Ledger/Patch.antt =====
-- web/src/pages/Transactions.computePatch.ts: the patch of a bulk edit. `trim` is a parameter.
use spen_drop.Base.{
  ℕ, Bool, true, false, not, ◌&&◌, ◌||◌, String, str_eq, Option, none, some, if◌then◌else◌, ◌≡◌,
  refl, Bool-cases, inl, inr,
}

pub data TagsMode : Type 0 where
  add replace remove : TagsMode

pub record BulkEditFormValues : Type 0 where
  pub set_date : Bool
  pub date : String
  pub description : String
  -- `none` is 'noChange'
  pub category_id : Option ℕ
  pub tags : String
  pub tags_mode : TagsMode

pub record BulkUpdatePatch : Type 0 where
  pub date : Option String
  pub description : Option String
  pub category_id : Option ℕ
  pub tags : Option String

pub record ComputedPatch : Type 0 where
  pub patch : BulkUpdatePatch
  pub tags_mode : Option TagsMode

-- the text, if there is any
abbrev pub given : String → Option String
given s = if str_eq s "" then none else some s

module _ (trim : String → String) where
  unfoldable pub compute_patch : BulkEditFormValues → ComputedPatch
  compute_patch values =
      let tags = trim values.tags in
      record {
        patch = record {
          date = if values.set_date then given values.date else none;
          description = given (trim values.description);
          category_id = values.category_id;
          tags = given tags;
        };
        tags_mode = if str_eq tags "" then none else some values.tags_mode;
      }

abbrev pub is_none {ℓ} : {A : Type ℓ} → Option A → Bool
is_none none = true
is_none (some a) = false

unfoldable pub is_patch_empty : ComputedPatch → Bool
is_patch_empty p =
    is_none p.patch.date
    && (is_none p.patch.description && (is_none p.patch.category_id && is_none p.patch.tags))

given_none : (s : String) → is_none (given s) ≡ str_eq s ""
given_none s = elim (Bool-cases (str_eq s "")) [ inl e ↦ rw e refl | inr e ↦ rw e refl ]

-- A bulk edit is empty exactly where the date is not to be set or is missing, the description and the
-- tags are blank and no category is chosen; the way in which tags are to be changed alone is none.
pub is_patch_empty-compute_patch :
    (trim : String → String) (values : BulkEditFormValues)
    → is_patch_empty (compute_patch trim values) ≡ (
        (not values.set_date || str_eq values.date "")
        && (str_eq (trim values.description) ""
            && (is_none values.category_id && str_eq (trim values.tags) "")))
unfolding is_patch_empty compute_patch
is_patch_empty-compute_patch trim values = elim (Bool-cases values.set_date) [
  | inl e ↦
      rw
        (
          e,
          given_none values.date,
          given_none (trim values.description),
          given_none (trim values.tags),
        )
        refl
  | inr e ↦ rw (e, given_none (trim values.description), given_none (trim values.tags)) refl
]
