-- ===== src/ImportSession/Response.antt =====
-- web/src/hooks/useImportSession.ts: the answer to a PATCH replaces the patched row alone.
use spen_drop.Base.{
  ℕ, ◌≡◌, ◌≢◌, refl, sym, ap, ◌∙◌, inl, inr, List, [], ◌∷◌, Option, none, some, arith, ◌==◌, map,
  find, length, length-map, find_last-map, map_option, Option-cases,
}
use spen_drop.ImportSession.Wire.{ImportRow, ImportPreview}
use spen_drop.ImportSession.Gate.{row_by_id}
use spen_drop.ImportSession.Merge.{merged_row, apply_response}

-- The answer to a PATCH is shown as the session that it answers for, whatever session is on screen:
-- unlike a refresh, it also replaces another session's preview or brings a cancelled one back.
pub apply_response-import_id :
    (fresh : ImportPreview) (patched : ℕ) (shown : Option ImportPreview)
    → (apply_response fresh patched shown).import_id ≡ fresh.import_id
unfolding apply_response
apply_response-import_id fresh patched none = refl
apply_response-import_id fresh patched (some prev) = ground arith

find_id :
    (id : ℕ) (rows : List ImportRow) (r : ImportRow)
    → find (λ r. r.row_id == id) rows ≡ some r
    → r.row_id ≡ id
find_id id [] r h = absurd (ground arith)
find_id id (x ∷ rows) r h = ground (arith, find_id id rows r)

-- A row put in the place of another has its id.
merged_row-id :
    (fresh : ImportPreview) (patched : ℕ) (old : ImportRow)
    → (merged_row fresh patched old).row_id ≡ old.row_id
unfolding merged_row
merged_row-id fresh patched old = elim (Option-cases (find (λ r. r.row_id == patched) fresh.rows)) [
  | inl e ↦ ground arith
  | inr (r, e) ↦ ground (arith, find_id patched fresh.rows r e)
]

merged_row_other :
    (fresh : ImportPreview) (patched : ℕ) (old : ImportRow)
    → old.row_id ≢ patched
    → merged_row fresh patched old ≡ old
unfolding merged_row
merged_row_other fresh patched old other = ground arith

merged_row_self :
    (fresh : ImportPreview) (patched : ℕ) (old r : ImportRow)
    → old.row_id ≡ patched
    → find (λ r. r.row_id == patched) fresh.rows ≡ some r
    → merged_row fresh patched old ≡ r
unfolding merged_row
merged_row_self fresh patched old r same e = ground arith

row_by_id-id :
    (rows : List ImportRow) (id : ℕ) (r : ImportRow) → row_by_id rows id ≡ some r → r.row_id ≡ id
row_by_id-id [] id r e = absurd (ground arith)
row_by_id-id (x ∷ rows) id r e = elim (Option-cases (row_by_id rows id)) [
  | inl none_there ↦ ground (arith, none_there)
  | inr (y, there) ↦ ground (arith, row_by_id-id rows id r)
]

-- Looked up by id, the merged rows are the rows on screen, each merged.
merged-row_by_id :
    (fresh : ImportPreview) (patched : ℕ) (rows : List ImportRow) (id : ℕ)
    → row_by_id (map (merged_row fresh patched) rows) id
      ≡ map_option (merged_row fresh patched) (row_by_id rows id)
merged-row_by_id fresh patched rows id =
    find_last-map (λ r. r.row_id == id) (merged_row fresh patched)
      (λ x. ap (λ i. i == id) (merged_row-id fresh patched x)) rows

merged-row_by_id_self :
    (fresh : ImportPreview) (patched : ℕ) (rows : List ImportRow) (old r : ImportRow)
    → find (λ r. r.row_id == patched) fresh.rows ≡ some r
    → row_by_id rows patched ≡ some old
    → row_by_id (map (merged_row fresh patched) rows) patched ≡ some r
merged-row_by_id_self fresh patched rows old r e shown =
    let there = row_by_id-id rows patched old shown in
    merged-row_by_id fresh patched rows patched
    ∙ ap (map_option (merged_row fresh patched)) shown
    ∙ ap some (merged_row_self fresh patched old r there e)

merged-row_by_id_other :
    (fresh : ImportPreview) (patched : ℕ) (rows : List ImportRow) (id : ℕ)
    → id ≢ patched
    → row_by_id (map (merged_row fresh patched) rows) id ≡ row_by_id rows id
merged-row_by_id_other fresh patched rows id other = elim (Option-cases (row_by_id rows id)) [
  | inl e ↦
      merged-row_by_id fresh patched rows id ∙ ap (map_option (merged_row fresh patched)) e ∙ sym e
  | inr (x, e) ↦
      let there = row_by_id-id rows id x e in
      merged-row_by_id fresh patched rows id
      ∙ ap (map_option (merged_row fresh patched)) e
      ∙ ap some (merged_row_other fresh patched x (λ same. other (sym there ∙ same)))
      ∙ sym e
]

apply_response-rows :
    (fresh prev : ImportPreview) (patched : ℕ)
    → length prev.rows ≡ length fresh.rows
    → (apply_response fresh patched (some prev)).rows ≡ map (merged_row fresh patched) prev.rows
unfolding apply_response
apply_response-rows fresh prev patched same =
    ground (arith, same, length-map (merged_row fresh patched) prev.rows)

-- Where the answer to a PATCH has as many rows as are on screen, the patched one among them, it
-- replaces that row by the server's and keeps every other row that was on screen.
pub apply_response-row_by_id :
    (fresh prev : ImportPreview) (patched : ℕ) (old r : ImportRow)
    → length prev.rows ≡ length fresh.rows
    → find (λ r. r.row_id == patched) fresh.rows ≡ some r
    → row_by_id prev.rows patched ≡ some old
    → let rows = (apply_response fresh patched (some prev)).rows in
      (row_by_id rows patched ≡ some r)
      × ((id : ℕ) → id ≢ patched → row_by_id rows id ≡ row_by_id prev.rows id)
apply_response-row_by_id fresh prev patched old r same e shown =
    let rows = apply_response-rows fresh prev patched same in
    (
      rw rows (merged-row_by_id_self fresh patched prev.rows old r e shown),
      λ id other. rw rows (merged-row_by_id_other fresh patched prev.rows id other),
    )
