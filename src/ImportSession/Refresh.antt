-- ===== src/ImportSession/Refresh.antt =====
-- web/src/hooks/useImportSession.ts: a background refresh shows the server's values.
use mathlib.Core.Bool.{and-eq-true_iff}
use spen_drop.Base.{
  ◌≡◌, ◌≢◌, refl, sym, ◌∙◌, inl, inr, Bool, true, false, String, str_eq, str_eq_iff, List, [], ◌∷◌,
  ◌++◌, Option, none, some, arith, if◌then◌else◌, all, map, Bool-cases, ==_iff,
}
use spen_drop.ImportSession.Wire.{Value, same_value_iff, ImportRow, ImportPreview}
use spen_drop.ImportSession.Gate.{row_by_id}
use spen_drop.ImportSession.Merge.{
  member, same_member, same_flag, keys, same_import_row, kept_row, refreshed_row, apply_refresh,
}

-- The two rows show the same values, whatever member is asked for.
abbrev pub Agrees : ImportRow → ImportRow → Type 0
Agrees a b =
    (a.row_id ≡ b.row_id)
    × (a.skip ≡ b.skip)
    × ((key : String) → member key a.members ≡ member key b.members)

abbrev pub AllAgree : List ImportRow → List ImportRow → Type 0
AllAgree [] [] = Unit
AllAgree [] (b ∷ bs) = ⊥
AllAgree (a ∷ as') [] = ⊥
AllAgree (a ∷ as') (b ∷ bs) = Agrees a b × AllAgree as' bs

has_key : String → List String → Bool
has_key key [] = false
has_key key (k ∷ ks) = if str_eq key k then true else has_key key ks

member-has_key :
    (key : String) (ms : List (String × Value))
    → has_key key (map (λ m. m.0) ms) ≡ false
    → member key ms ≡ none
unfolding member has_key
member-has_key key [] h = refl
member-has_key key ((k, v) ∷ ms) h = ground (arith, member-has_key key ms)

has_key-append :
    (key : String) (xs ys : List String)
    → has_key key (xs ++ ys) ≡ false
    → (has_key key xs ≡ false) × (has_key key ys ≡ false)
unfolding has_key
has_key-append key [] ys h = (refl, h)
has_key-append key (x ∷ xs) ys h = ground (arith, has_key-append key xs ys)

same_member_eq : (a b : Option Value) → same_member a b ≡ true → a ≡ b
same_member_eq none none h = refl
same_member_eq none (some v) h = cc
same_member_eq (some v) none h = cc
same_member_eq (some v) (some w) h = cc ((same_value_iff v w).0 h)

same_flag_eq : (a b : Bool) → same_flag a b ≡ true → a ≡ b
same_flag_eq a b h = ground arith

module _ (a b : ImportRow) where
  agree_at :
      (key : String) (ks : List String)
      → all (λ k. same_member (member k a.members) (member k b.members)) ks ≡ true
      → has_key key ks ≡ true
      → member key a.members ≡ member key b.members
  unfolding has_key
  agree_at key [] h k = cc
  agree_at key (x ∷ ks) h k = elim (Bool-cases (str_eq key x)) [
    | inl here ↦
        let same = (str_eq_iff key x).0 here in
        let both = same_member_eq _ _ ((and-eq-true_iff _ _).0 h).0 in rw same both
    | inr there ↦ agree_at key ks (ground arith) (ground arith)
  ]

  same_import_row-Agrees : same_import_row a b ≡ true → Agrees a b
  unfolding same_import_row
  same_import_row-Agrees h =
      let (id, more) = (and-eq-true_iff _ _).0 h in
      let (flag, members) = (and-eq-true_iff _ _).0 more in
      (
        (==_iff _ _).0 id,
        same_flag_eq a.skip b.skip flag,
        λ key. elim (Bool-cases (has_key key (keys a ++ keys b))) [
          | inl there ↦ agree_at key (keys a ++ keys b) members there
          | inr absent ↦
              let (left, right) = has_key-append key (keys a) (keys b) absent in
              member-has_key key a.members left ∙ sym (member-has_key key b.members right)
        ],
      )

kept_row-Agrees : (row : ImportRow) (old : Option ImportRow) → Agrees (kept_row row old) row
unfolding kept_row
kept_row-Agrees row none = (refl, refl, λ key. refl)
kept_row-Agrees row (some old) = elim (Bool-cases (same_import_row old row)) [
  | inl same ↦ rw same (same_import_row-Agrees old row same)
  | inr moved ↦ rw moved (refl, refl, λ key. refl)
]

refreshed_row-Agrees :
    (previous : List ImportRow) (row : ImportRow) → Agrees (refreshed_row previous row) row
unfolding refreshed_row
refreshed_row-Agrees previous row = kept_row-Agrees row (row_by_id previous row.row_id)

refreshed_rows-Agree :
    (previous rows : List ImportRow) → AllAgree (map (refreshed_row previous) rows) rows
refreshed_rows-Agree previous [] = tt
refreshed_rows-Agree previous (row ∷ rows) =
    (refreshed_row-Agrees previous row, refreshed_rows-Agree previous rows)

-- A background refresh of the session on screen shows the snapshot's values in every row, whichever
-- row objects it keeps, and takes the rest of the preview from the snapshot.
pub apply_refresh-AllAgree :
    (fresh prev : ImportPreview)
    → prev.import_id ≡ fresh.import_id
    → (p : ImportPreview) × (apply_refresh fresh (some prev) ≡ some p)
      × AllAgree p.rows fresh.rows
      × (p ≡ record fresh { rows = p.rows })
unfolding apply_refresh
apply_refresh-AllAgree fresh prev e = (
  record fresh { rows = map (refreshed_row prev.rows) fresh.rows },
  rw ((str_eq_iff prev.import_id fresh.import_id).1 e),
  refreshed_rows-Agree prev.rows fresh.rows,
  refl,
)

-- A refresh that answers for another session, or after the preview is gone, changes nothing.
pub apply_refresh-other :
    (fresh : ImportPreview) (shown : Option ImportPreview)
    → ((prev : ImportPreview) → shown ≡ some prev → prev.import_id ≢ fresh.import_id)
    → apply_refresh fresh shown ≡ shown
unfolding apply_refresh
apply_refresh-other fresh none other = refl
apply_refresh-other fresh (some prev) other =
    ground (arith, str_eq_iff prev.import_id fresh.import_id, other prev refl)
