-- ===== src/ImportSession/Ready.antt =====
-- When the Import button is enabled.
use spen_drop.Base.{
  ℕ, ◌+◌, ◌≤◌, ◌≡◌, ◌≢◌, String, str_eq, str_eq_iff, Option, none, Option-cases, Bool-cases, inl,
  inr, if◌then◌else◌, refl, sym, ◌∙◌, Bool, true, false, not, ◌&&◌, List, [], ◌∷◌, some, arith,
  ◌==◌, ◌↔◌, ==_iff, any, all, length, length-append, length-keep-eq_zero, not-any, All, All-imp,
}
use mathlib.Core.Bool.{and-eq-true_iff}
use spen_drop.ImportSession.Wire.{
  ImportRow, CollisionGroup, ImportFieldError, UnresolvedReason, unmapped, missing,
  UnresolvedCategory, ImportPreview,
}
use spen_drop.ImportSession.Gate.{
  Blocked, block, block_all, blocked_row_ids, active_field_errors, still_active,
  compute_unresolved_count, row_by_id, is_live, Decisions, is_undecided, is_mapped, inherited_names,
  unresolved_category_decisions, can_import, add_id,
}

-- the user's choice for a category name
abbrev pub chosen : String → List (String × String) → Option String
chosen name [] = none
chosen name ((key, id) ∷ rest) = if str_eq name key then some id else chosen name rest

-- A choice is a destination unless it is empty; a name without one counts as decided just where it is
-- one of the twelve that every object inherits.
abbrev pub IsDestined : String → Option String → Type 0
IsDestined name (some id) = id ≢ ""
IsDestined name none = any (str_eq name) inherited_names ≡ true

-- A missing category is decided by the default, a named one by the choice for its name.
abbrev pub IsSettled : Decisions → String → UnresolvedReason → Type 0
IsSettled d name missing = d.default_category_id ≢ none
IsSettled d name unmapped = IsDestined name (chosen name d.category_map)

-- Nothing stands in the way of a confirm: no PATCH is under way; every member of every collision
-- group is skipped or gone; every flagged row is skipped or gone; and every category value without
-- a destination is decided.
abbrev pub IsOut : List ImportRow → ℕ → Type 0
IsOut rows id = is_live (row_by_id rows id) ≡ false

abbrev pub IsDecided : Decisions → UnresolvedCategory → Type 0
IsDecided d e = IsSettled d e.name e.reason

pub record IsReady (p : ImportPreview) (d : Decisions) (pending : ℕ) : Type 0 where
  pub settled : pending ≡ 0
  pub collisions : All (λ g. All (IsOut p.rows) g.member_row_ids) p.collision_groups
  pub flags : All (λ (fe : ImportFieldError). IsOut p.rows fe.row_id) p.field_errors
  pub categories : All (IsDecided d) p.unresolved_categories

-- how many entries the two sets have
abbrev occupied : Blocked → ℕ
occupied b = length b.money_ids + length b.length_ids

any_pos : (p : ℕ → Bool) (ids : List ℕ) → any p ids ≡ true → 1 ≤ length ids
any_pos p [] h = absurd (ground arith)
any_pos p (id ∷ ids) h = omega arith

add_id-grows :
    (id : ℕ) (ids : List ℕ) → (1 ≤ length (add_id id ids)) × (length ids ≤ length (add_id id ids))
add_id-grows id ids = ground (arith, any_pos (λ j. j == id) ids, length-append ids (id ∷ []))

block-grows :
    (b : Blocked) (fe : ImportFieldError)
    → (1 ≤ occupied (block b fe)) × (occupied b ≤ occupied (block b fe))
block-grows b fe =
    ground (arith, add_id-grows fe.row_id b.money_ids, add_id-grows fe.row_id b.length_ids)

block_all-grows :
    (fes : List ImportFieldError) (b : Blocked) → occupied b ≤ occupied (block_all fes b)
unfolding block_all
block_all-grows [] b = omega arith
block_all-grows (fe ∷ fes) b = omega (arith, block_all-grows fes (block b fe), block-grows b fe)

-- Both sets are empty just when no error is active.
none_blocked :
    (fes : List ImportFieldError)
    → let b = block_all fes (record { length_ids = []; money_ids = [] }) in
      ((length b.length_ids == 0) && (length b.money_ids == 0)) ≡ (length fes == 0)
unfolding block_all
none_blocked [] = refl
none_blocked (fe ∷ fes) =
    let start : Blocked = record { length_ids = []; money_ids = [] } in
    ground (arith, block_all-grows fes (block start fe), block-grows start fe)

no_active :
    (fes : List ImportFieldError) (rows : List ImportRow)
    → (length (active_field_errors fes rows) == 0)
      ≡ all (λ fe. not (is_live (row_by_id rows fe.row_id))) fes
unfolding active_field_errors
no_active fes rows = length-keep-eq_zero _ fes

no_group :
    (gs : List CollisionGroup) (rows : List ImportRow)
    → (compute_unresolved_count gs rows == 0) ≡ all (λ g. not (still_active rows g)) gs
unfolding compute_unresolved_count
no_group gs rows = length-keep-eq_zero _ gs

no_category :
    (es : List UnresolvedCategory) (d : Decisions)
    → (length (unresolved_category_decisions es d) == 0) ≡ all (λ e. not (is_undecided d e)) es
unfolding unresolved_category_decisions
no_category es d = length-keep-eq_zero _ es

-- A list of tests that all fail, as a statement about each element.
all-not_iff {ℓ} :
    {A : Type ℓ} (p : A → Bool) (xs : List A)
    → (all (λ x. not (p x)) xs ≡ true) ↔ All (λ x. p x ≡ false) xs
all-not_iff p [] = (λ _. tt, λ _. refl)
all-not_iff p (x ∷ xs) = (
  (λ h. (ground arith, (all-not_iff p xs).0 (ground arith))),
  λ h. ground (arith, (all-not_iff p xs).1 h.1),
)

is_mapped_iff :
    (name : String) (map : List (String × String))
    → (is_mapped name map ≡ true) ↔ IsDestined name (chosen name map)
unfolding is_mapped
is_mapped_iff name [] = (λ h. h, λ h. h)
is_mapped_iff name ((key, id) ∷ map) = elim (Bool-cases (str_eq name key)) [
  | inl e ↦ rw e (
    (λ h empty. absurd (ground (arith, h, (str_eq_iff id "").1 empty))),
    λ full. elim (Bool-cases (str_eq id "")) [
      | inl empty ↦ absurd (full ((str_eq_iff id "").0 empty))
      | inr n ↦ rw n refl
    ],
  )
  | inr e ↦ rw e (is_mapped_iff name map)
]

reason_decided :
    (d : Decisions) (name : String) (reason : UnresolvedReason) (ids : List ℕ)
    → (is_undecided d (record { name = name; reason = reason; row_ids = ids }) ≡ false)
      ↔ IsSettled d name reason
unfolding is_undecided
reason_decided d name missing ids = elim (Option-cases d.default_category_id) [
  | inl e ↦ rw e ((λ h. absurd (ground (arith, h))), λ h. absurd (h refl))
  | inr (id, e) ↦ rw e ((λ h same. cc same), λ h. refl)
]
reason_decided d name unmapped ids =
    let (to, from) = is_mapped_iff name d.category_map in
    ((λ h. to (ground (arith, h))), λ h. ground (arith, from h))

entry_decided :
    (d : Decisions) (e : UnresolvedCategory) → (is_undecided d e ≡ false) ↔ IsDecided d e
entry_decided d e = reason_decided d e.name e.reason e.row_ids

group_out :
    (rows : List ImportRow) (g : CollisionGroup)
    → (still_active rows g ≡ false) ↔ All (IsOut rows) g.member_row_ids
unfolding still_active
group_out rows g =
    let ids = g.member_row_ids in
    let p = λ (id : ℕ). is_live (row_by_id rows id) in
    (
      (λ h. (all-not_iff p ids).0 (ground (arith, not-any p ids))),
      λ h. ground (arith, not-any p ids, (all-not_iff p ids).1 h),
    )

-- The gate as one conjunction of tests over whole lists.
pub can_import_lem :
    (p : ImportPreview) (d : Decisions) (pending : ℕ)
    → can_import (some p) d pending ≡ (
        all (λ g. not (still_active p.rows g)) p.collision_groups
        && (all (λ fe. not (is_live (row_by_id p.rows fe.row_id))) p.field_errors
            && (all (λ e. not (is_undecided d e)) p.unresolved_categories && (pending == 0))))
unfolding can_import blocked_row_ids
can_import_lem p d pending = ground (
  arith,
  no_group p.collision_groups p.rows,
  none_blocked (active_field_errors p.field_errors p.rows),
  no_active p.field_errors p.rows,
  no_category p.unresolved_categories d,
)

-- With a preview on screen the Import button is enabled exactly when nothing stands in the way of a
-- confirm: no PATCH is under way, every member of each collision group and every flagged row is
-- skipped or gone, and every unresolved category is decided: a missing one by a default, a named one
-- by a choice for its name that is not empty, or, without a choice, by a name that every object
-- inherits.
pub can_import-IsReady :
    (p : ImportPreview) (d : Decisions) (pending : ℕ)
    → (can_import (some p) d pending ≡ true) ↔ IsReady p d pending
can_import-IsReady p d pending =
    let rows = p.rows in
    let groups = all-not_iff (still_active rows) p.collision_groups in
    let flags =
      all-not_iff (λ (fe : ImportFieldError). is_live (row_by_id rows fe.row_id)) p.field_errors in
    let entries = all-not_iff (is_undecided d) p.unresolved_categories in
    (
      (λ h.
          let (g, more) = (and-eq-true_iff _ _).0 (sym (can_import_lem p d pending) ∙ h) in
          let (f, last) = (and-eq-true_iff _ _).0 more in
          let (c, z) = (and-eq-true_iff _ _).0 last in
          record {
            settled = (==_iff pending 0).0 z;
            collisions =
                All-imp _ _ (λ x out. (group_out rows x).0 out) p.collision_groups (groups.0 g);
            flags = flags.0 f;
            categories =
                All-imp _ _ (λ e. (entry_decided d e).0) p.unresolved_categories (entries.0 c);
          }),
      λ r.
          can_import_lem p d pending
          ∙ (and-eq-true_iff _ _).1 (
            groups.1
                (All-imp _ _ (λ x out. (group_out rows x).1 out) p.collision_groups r.collisions),
            (and-eq-true_iff _ _).1 (
              flags.1 r.flags,
              (and-eq-true_iff _ _).1 (
                entries.1
                    (All-imp _ _ (λ e. (entry_decided d e).1) p.unresolved_categories r.categories),
                (==_iff pending 0).1 r.settled,
              ),
            ),
          ),
    )
