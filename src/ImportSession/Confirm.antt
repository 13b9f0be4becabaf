-- ===== src/ImportSession/Confirm.antt =====
-- web/src/hooks/useImportSession.ts: what a confirm that the server refuses leaves behind.
use spen_drop.Base.{
  ℕ, ◌≡◌, refl, ap, ◌∙◌, Bool, true, false, not, String, str_eq, List, [], ◌∷◌, some, map_option,
  arith, any, all,
}
use spen_drop.ImportSession.Wire.{ImportPreview, ImportFieldError, unmapped}
use spen_drop.ImportSession.Gate.{
  row_by_id, is_live, still_active, Decisions, is_undecided, is_mapped, inherited_names, can_import,
  unresolved_category_decisions,
}
use spen_drop.ImportSession.Ready.{can_import_lem}
use spen_drop.ImportSession.Machine.{
  Session, Refusal, unresolved_collisions, unresolved_categories, field_too_long, money_errors,
  other_failure, refused_preview, refused_text, confirm_refused,
}

-- whether the refusal names something that still stands in the way, by the rows on screen
unfoldable pub blocks : Refusal → ImportPreview → Decisions → Bool
blocks (unresolved_collisions groups) p d = any (still_active p.rows) groups
blocks (unresolved_categories entries) p d = any (is_undecided d) entries
blocks (field_too_long errors) p d = any (λ fe. is_live (row_by_id p.rows fe.row_id)) errors
blocks (money_errors errors) p d = any (λ fe. is_live (row_by_id p.rows fe.row_id)) errors
blocks (other_failure message) p d = false

all-not-any {ℓ} :
    {A : Type ℓ} (p : A → Bool) (xs : List A) → any p xs ≡ true → all (λ x. not (p x)) xs ≡ false
all-not-any p [] h = absurd (ground arith)
all-not-any p (x ∷ xs) h = ground (arith, all-not-any p xs)

refused_preview-blocked :
    (r : Refusal) (p : ImportPreview) (d : Decisions) (pending : ℕ)
    → blocks r p d ≡ true
    → can_import (some (refused_preview r p)) d pending ≡ false
unfolding blocks refused_preview
refused_preview-blocked (unresolved_collisions groups) p d pending h =
    can_import_lem (record p { collision_groups = groups }) d pending
    ∙ ground (arith, all-not-any (still_active p.rows) groups h)
refused_preview-blocked (unresolved_categories entries) p d pending h =
    can_import_lem (record p { unresolved_categories = entries }) d pending
    ∙ ground (arith, all-not-any (is_undecided d) entries h)
refused_preview-blocked (field_too_long errors) p d pending h =
    can_import_lem (record p { field_errors = errors }) d pending
    ∙ ground (
      arith,
      all-not-any (λ (fe : ImportFieldError). is_live (row_by_id p.rows fe.row_id)) errors h,
    )
refused_preview-blocked (money_errors errors) p d pending h =
    can_import_lem (record p { field_errors = errors }) d pending
    ∙ ground (
      arith,
      all-not-any (λ (fe : ImportFieldError). is_live (row_by_id p.rows fe.row_id)) errors h,
    )
refused_preview-blocked (other_failure message) p d pending h = absurd (ground arith)

refused_preview-rows : (r : Refusal) (p : ImportPreview) → (refused_preview r p).rows ≡ p.rows
unfolding refused_preview
refused_preview-rows (unresolved_collisions groups) p = refl
refused_preview-rows (unresolved_categories entries) p = refl
refused_preview-rows (field_too_long errors) p = refl
refused_preview-rows (money_errors errors) p = refl
refused_preview-rows (other_failure message) p = refl

-- A refused confirm keeps every row on screen, the step, the stored session and the edits in the lane,
-- shows the refusal's text, and closes the Import gate where what it names still stands in the way by
-- the rows on screen.
pub confirm_refused-blocks :
    (r : Refusal) (s : Session) (p : ImportPreview)
    → s.shown ≡ some p
    → let t = confirm_refused r s in
      ((q : ImportPreview) × (t.shown ≡ some q)
        × (q.rows ≡ p.rows)
        × ((d : Decisions) (pending : ℕ)
            → blocks r p d ≡ true
            → can_import (some q) d pending ≡ false))
      × (t.error ≡ some (refused_text r))
      × (t.import_step ≡ s.import_step)
      × (t.stored_id ≡ s.stored_id)
      × (t.lane ≡ s.lane)
unfolding confirm_refused
confirm_refused-blocks r s p e = (
  (
    refused_preview r p,
    ap (map_option (refused_preview r)) e,
    refused_preview-rows r p,
    λ d pending h. refused_preview-blocked r p d pending h,
  ),
  refl,
  refl,
  refl,
  refl,
)

inherited-is_mapped :
    (name : String) (map : List (String × String))
    → any (str_eq name) inherited_names ≡ true
    → any (λ m. str_eq name m.0) map ≡ false
    → is_mapped name map ≡ true
unfolding is_mapped
inherited-is_mapped name [] h absent = h
inherited-is_mapped name ((key, id) ∷ map) h absent = ground (arith, inherited-is_mapped name map)

-- A category value whose name every object inherits counts as decided although the user has chosen no
-- destination for it.
pub inherited_name-undecided :
    (name : String) (ids : List ℕ) (d : Decisions)
    → any (str_eq name) inherited_names ≡ true
    → any (λ m. str_eq name m.0) d.category_map ≡ false
    → unresolved_category_decisions
        (record { name = name; reason = unmapped; row_ids = ids } ∷ [])
        d
      ≡ []
unfolding unresolved_category_decisions is_undecided
inherited_name-undecided name ids d h absent =
    ground (arith, inherited-is_mapped name d.category_map h absent)
