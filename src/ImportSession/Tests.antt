-- ===== src/ImportSession/Tests.antt =====
-- An import session on concrete previews.
use spen_drop.Base.{
  ℕ, ◌≡◌, ◌≢◌, refl, ◌↔◌, true, false, String, List, [], ◌∷◌, none, some, map, length, ◌==◌,
  if◌then◌else◌,
}
use spen_drop.ImportSession.Wire.{
  rate, amount, text, number, ImportRow, ImportFieldError, ImportPreview,
}
use spen_drop.ImportSession.Gate.{
  Decisions, CellError, can_import, row_by_id, blocked_row_ids, active_field_errors,
  unresolved_category_decisions, compute_unresolved_count, is_mapped, is_undecided, block_all,
}
use spen_drop.ImportSession.Ready.{IsReady, can_import-IsReady}
use spen_drop.ImportSession.Merge.{apply_response, merged_row, apply_refresh}
use spen_drop.ImportSession.Refresh.{AllAgree, apply_refresh-AllAgree}
use spen_drop.ImportSession.Response.{apply_response-row_by_id}
use spen_drop.ImportSession.Machine.{
  Session, upload, preview, patch_job, snapshot, upload_answered, patch_row, lane_answered,
  cancel_done,
}
use spen_drop.ImportSession.Events.{Event, answers_upload, patches, answers_lane, mounted, run}
use spen_drop.ImportSession.Lane.{patch_count}
use spen_drop.ImportSession.Pending.{run-can_import_waits, cancel_undone}

abbrev coffee : ImportRow
coffee = record {
  row_id = 1;
  skip = false;
  members = ("description", text "Coffee") ∷ ("amount", number "4.5") ∷ [];
}

abbrev lunch : ImportRow
lunch = record {
  row_id = 2;
  skip = false;
  members = ("description", text "Lunch") ∷ ("rate", text "") ∷ [];
}

abbrev lunch_rated : ImportRow
lunch_rated = record {
  row_id = 2;
  skip = false;
  members = ("description", text "Lunch") ∷ ("rate", text "1.1") ∷ [];
}

abbrev no_rate : ImportFieldError
no_rate = record { row_id = 2; field = rate; message = some "No rate" }

abbrev sheet_of : String → List ImportRow → List ImportFieldError → ImportPreview
sheet_of id rows errors = record {
  import_id = id;
  row_count = 2;
  rows = rows;
  columns = [];
  unique_categories = [];
  collision_groups = [];
  field_errors = errors;
  unresolved_categories = [];
}

abbrev flagged : ImportPreview
flagged = sheet_of "a" (coffee ∷ lunch ∷ []) (no_rate ∷ [])

abbrev resolved : ImportPreview
resolved = sheet_of "a" (coffee ∷ lunch_rated ∷ []) []

abbrev next_sheet : ImportPreview
next_sheet = sheet_of "b" (coffee ∷ []) []

abbrev undecided : Decisions
undecided = record { category_map = []; default_category_id = none }

-- the session with one PATCH under way
abbrev patching : Session
patching = record (mounted (some "a") false true) {
  shown = some flagged;
  import_step = preview;
  pending_patch_count = 1;
  lane = patch_job "a" 2 rate (text "1.1") ∷ [];
}

abbrev edits : List Event
edits =
    answers_upload (snapshot flagged)
    ∷ patches 2 rate (text "1.1")
    ∷ answers_lane (snapshot resolved)
    ∷ []

can_import-IsReady_example :
    (can_import (some resolved) undecided 0 ≡ true) ↔ IsReady resolved undecided 0
can_import-IsReady_example = can_import-IsReady resolved undecided 0

apply_response-row_by_id_example :
    (row_by_id (apply_response resolved 2 (some flagged)).rows 2 ≡ some lunch_rated)
    × ((id : ℕ)
        → id ≢ 2
        → row_by_id (apply_response resolved 2 (some flagged)).rows id ≡ row_by_id flagged.rows id)
apply_response-row_by_id_example =
    apply_response-row_by_id resolved flagged 2 lunch lunch_rated refl refl refl

apply_refresh-AllAgree_example :
    (p : ImportPreview) × (apply_refresh resolved (some flagged) ≡ some p)
    × AllAgree p.rows resolved.rows
    × (p ≡ record resolved { rows = p.rows })
apply_refresh-AllAgree_example = apply_refresh-AllAgree resolved flagged refl

program : Unit {0}
unfolding run patch_count upload_answered patch_row lane_answered cancel_done can_import
    apply_response compute_unresolved_count blocked_row_ids active_field_errors
    unresolved_category_decisions block_all is_mapped is_undecided
program = tt

run-can_import_waits_example : patch_count (run edits (mounted none false true)).lane ≡ 0
unfolding program
run-can_import_waits_example =
    run-can_import_waits edits none false true undecided (tt, (tt, (tt, tt))) refl

abbrev rejected : CellError
rejected = record { row_id = 1; field = amount; text = "Too small" }

cancel_undone_example :
    let idle = lane_answered (snapshot resolved) (cancel_done patching) in
    let busy =
      lane_answered
        (snapshot resolved)
        (upload_answered (snapshot next_sheet) (cancel_done patching)) in
    (idle.shown ≡ some resolved)
    × (idle.import_step ≡ upload)
    × (busy.shown
        ≡ some (
            if length next_sheet.rows == length resolved.rows
            then record resolved { rows = map (merged_row resolved 2) next_sheet.rows }
            else resolved))
    × (busy.stored_id ≡ some "b")
cancel_undone_example =
    cancel_undone patching "a" 2 rate (text "1.1") resolved next_sheet [] refl refl
