-- ===== src/ImportSession/Merge.antt =====
-- web/src/hooks/useImportSession.ts: how a server snapshot is put over the preview on screen.
use spen_drop.Base.{
  ℕ, Bool, true, false, not, ◌&&◌, String, str_eq, List, [], ◌∷◌, ◌++◌, Option, none, some, ◌==◌,
  if◌then◌else◌, all, map, find, length,
}
use spen_drop.ImportSession.Wire.{Value, same_value, ImportRow, ImportPreview}
use spen_drop.ImportSession.Gate.{row_by_id}

-- `row[key]`, `undefined` where the row has no such member
unfoldable pub member : String → List (String × Value) → Option Value
member key [] = none
member key ((k, v) ∷ ms) = if str_eq key k then some v else member key ms

abbrev pub same_member : Option Value → Option Value → Bool
same_member none none = true
same_member none (some v) = false
same_member (some v) none = false
same_member (some v) (some w) = same_value v w

abbrev pub same_flag : Bool → Bool → Bool
same_flag true b = b
same_flag false b = not b

abbrev pub keys : ImportRow → List String
keys r = map (λ m. m.0) r.members

unfoldable pub same_import_row : ImportRow → ImportRow → Bool
same_import_row a b =
    (a.row_id == b.row_id)
    && (same_flag a.skip b.skip
        && all (λ key. same_member (member key a.members) (member key b.members))
            (keys a ++ keys b))

-- the row that `applyResponse` puts in the place of `old`
unfoldable pub merged_row : ImportPreview → ℕ → ImportRow → ImportRow
merged_row fresh patched old =
    if old.row_id == patched
    then (elim (find (λ r. r.row_id == patched) fresh.rows) [ some r ↦ r | none ↦ old ])
    else old

unfoldable pub apply_response : ImportPreview → ℕ → Option ImportPreview → ImportPreview
apply_response fresh patched none = fresh
apply_response fresh patched (some prev) =
    let rows = map (merged_row fresh patched) prev.rows in
    if length rows == length fresh.rows then record fresh { rows = rows } else fresh

-- the row that `applyRefresh` shows for a row of the snapshot, by what stood under its id before
unfoldable pub kept_row : ImportRow → Option ImportRow → ImportRow
kept_row row none = row
kept_row row (some old) = if same_import_row old row then old else row

unfoldable pub refreshed_row : List ImportRow → ImportRow → ImportRow
unfolding same_import_row kept_row
refreshed_row previous row = kept_row row (row_by_id previous row.row_id)

unfoldable pub apply_refresh : ImportPreview → Option ImportPreview → Option ImportPreview
apply_refresh fresh none = none
apply_refresh fresh (some prev) =
    if str_eq prev.import_id fresh.import_id
    then some (record fresh { rows = map (refreshed_row prev.rows) fresh.rows })
    else some prev
