-- ===== src/ImportSession/Machine.antt =====
-- web/src/hooks/useImportSession.ts: the state of the hook and its actions. A request and its answer
-- are two operations, so that other actions may come between them; what a request is answered is an
-- argument. The PATCHes and background reads that wait for their turn are the `lane`, its head the one
-- that is under way.
use spen_drop.Base.{
  ℕ, ◌+◌, ◌-◌, Bool, false, not, String, str_eq, List, [], ◌∷◌, ◌++◌, Option, none, some,
  if◌then◌else◌, keep, map_option,
}
use spen_drop.ImportSession.Wire.{
  Field, Value, CollisionGroup, ImportFieldError, UnresolvedCategory, ImportPreview, ImportResult,
}
use spen_drop.ImportSession.Gate.{CellError, is_cell}
use spen_drop.ImportSession.Merge.{apply_response, apply_refresh}

pub data ImportStep : Type 0 where
  upload : ImportStep
  preview : ImportStep
  done : ImportStep

pub data Job : Type 0 where
  patch_job : (import_id : String) (row_id : ℕ) (field : Field) (value : Value) → Job
  refresh_job : (import_id : String) → Job

-- A snapshot of the session, or a failure: `none` where what was thrown is no `Error`.
pub data Answer : Type 0 where
  snapshot : (fresh : ImportPreview) → Answer
  failed : (message : Option String) → Answer

pub record Session : Type 0 where
  pub shown : Option ImportPreview
  pub import_step : ImportStep
  pub result : Option ImportResult
  pub error : Option String
  pub pending_patch_count : ℕ
  pub patch_cell_errors : List CellError
  pub lane : List Job
  pub seen_currencies : Option String
  -- `localStorage`: the id under `STORAGE_KEYS.importId`, whether a record of decisions is kept, and
  -- whether a write succeeds
  pub stored_id : Option String
  pub decisions_kept : Bool
  pub storage_works : Bool

abbrev pub message_or : String → Option String → String
message_or fallback none = fallback
message_or fallback (some message) = message

-- `localStorage.setItem`, its failure ignored
unfoldable pub store_id : String → Session → Session
store_id id s = record s { stored_id = if s.storage_works then some id else s.stored_id }

-- `localStorage.removeItem`, its failure ignored
unfoldable pub drop_id : Session → Session
drop_id s = record s { stored_id = if s.storage_works then none else s.stored_id }

unfoldable pub clear_import_decisions : Session → Session
clear_import_decisions s = record s {
  decisions_kept = if s.storage_works then false else s.decisions_kept;
}

-- The order of the cells is not that of the record's keys: only a look-up reads them.
unfoldable pub set_cell : ℕ → Field → String → List CellError → List CellError
set_cell id field message errors =
    keep (λ e. not (is_cell id field e)) errors
    ++ record { row_id = id; field = field; text = message } ∷ []

unfoldable pub drop_cell : ℕ → Field → List CellError → List CellError
drop_cell id field errors = keep (λ e. not (is_cell id field e)) errors

-- what `uploadFile` does before the request
unfoldable pub upload_started : Session → Session
upload_started s = record s { error = none }

unfoldable pub upload_answered : Answer → Session → Session
unfolding store_id
upload_answered (snapshot fresh) s =
    store_id fresh.import_id
      (record s { shown = some fresh; import_step = preview; patch_cell_errors = [] })
upload_answered (failed message) s = record s { error = some (message_or "Upload failed" message) }

unfoldable pub patch_row : ℕ → Field → Value → Session → Session
patch_row row_id field value s = elim s.shown [
  | none ↦ s
  | some p ↦ record s {
    pending_patch_count = s.pending_patch_count + 1;
    lane = s.lane ++ patch_job p.import_id row_id field value ∷ [];
  }
]

-- A refresh names the session that was on screen when the currencies changed.
unfoldable pub refresh_session : Session → Session
refresh_session s = elim s.shown [
  | none ↦ s
  | some p ↦
      if str_eq p.import_id ""
      then s
      else record s { lane = s.lane ++ refresh_job p.import_id ∷ [] }
]

-- the effect on the signature of the household's currencies, once they are loaded
unfoldable pub currencies_seen : String → Session → Session
unfolding refresh_session
currencies_seen signature s = elim s.seen_currencies [
  | none ↦ record s { seen_currencies = some signature }
  | some seen ↦
      if str_eq seen signature
      then s
      else refresh_session (record s { seen_currencies = some signature })
]

-- what the answer to a job changes, the count of PATCHes included
unfoldable pub job_answered : Job → Answer → Session → Session
unfolding set_cell drop_cell
job_answered (patch_job id row_id field value) (snapshot fresh) s = record s {
  shown = some (apply_response fresh row_id s.shown);
  patch_cell_errors = drop_cell row_id field s.patch_cell_errors;
  pending_patch_count = s.pending_patch_count - 1;
}
job_answered (patch_job id row_id field value) (failed message) s = record s {
  patch_cell_errors =
      set_cell row_id field (message_or "Update failed" message) s.patch_cell_errors;
  pending_patch_count = s.pending_patch_count - 1;
}
job_answered (refresh_job id) (snapshot fresh) s = record s { shown = apply_refresh fresh s.shown }
job_answered (refresh_job id) (failed message) s = s

unfoldable pub next_answered : Answer → List Job → Session → Session
unfolding job_answered
next_answered answer [] s = s
next_answered answer (job ∷ rest) s = job_answered job answer (record s { lane = rest })

-- The job under way is answered; the next one's turn comes.
unfoldable pub lane_answered : Answer → Session → Session
unfolding next_answered
lane_answered answer s = next_answered answer s.lane s

pub record ConfirmRequest : Type 0 where
  pub import_id : String
  pub category_map : List (String × ℕ)
  pub default_category_id : Option ℕ

unfoldable pub confirm_request : List (String × ℕ) → Option ℕ → Session → Option ConfirmRequest
confirm_request category_map default_category_id s = elim s.shown [
  | none ↦ none
  | some p ↦ some (record {
    import_id = p.import_id;
    category_map = category_map;
    default_category_id = default_category_id;
  })
]

-- what `confirmImport` does before the request
unfoldable pub confirm_started : Session → Session
confirm_started s = elim s.shown [ none ↦ s | some p ↦ record s { error = none } ]

pub data Refusal : Type 0 where
  unresolved_collisions : (groups : List CollisionGroup) → Refusal
  unresolved_categories : (entries : List UnresolvedCategory) → Refusal
  field_too_long : (errors : List ImportFieldError) → Refusal
  money_errors : (errors : List ImportFieldError) → Refusal
  other_failure : (message : Option String) → Refusal

unfoldable pub refused_preview : Refusal → ImportPreview → ImportPreview
refused_preview (unresolved_collisions groups) p = record p { collision_groups = groups }
refused_preview (unresolved_categories entries) p = record p { unresolved_categories = entries }
refused_preview (field_too_long errors) p = record p { field_errors = errors }
refused_preview (money_errors errors) p = record p { field_errors = errors }
refused_preview (other_failure message) p = p

unfoldable pub refused_text : Refusal → String
refused_text (unresolved_collisions groups) =
    "Unresolved collisions — please fix or skip the highlighted rows"
refused_text (unresolved_categories entries) =
    "Some categories have no destination — choose one for each, or skip those rows"
refused_text (field_too_long errors) =
    "Some rows are too long — please shorten or skip the highlighted rows"
refused_text (money_errors errors) =
    "Some rows have money SpenDrop cannot resolve — fix or skip the highlighted rows"
refused_text (other_failure message) = message_or "Import failed" message

unfoldable pub confirm_accepted : ImportResult → Session → Session
unfolding drop_id
confirm_accepted res s = drop_id (record s { result = some res; import_step = done })

unfoldable pub confirm_refused : Refusal → Session → Session
unfolding refused_preview refused_text
confirm_refused refusal s = record s {
  shown = map_option (refused_preview refusal) s.shown;
  error = some (refused_text refusal);
}

-- the id that `cancelImport` asks the server to delete
unfoldable pub cancel_request : Session → Option String
cancel_request s = elim s.shown [
  | none ↦ none
  | some p ↦ if str_eq p.import_id "" then none else some p.import_id
]

-- `cancelImport` after its request, whose failure `cancelImport` of web/src/api/import.ts swallows
unfoldable pub cancel_done : Session → Session
unfolding drop_id
cancel_done s = record (drop_id s) {
  shown = none;
  import_step = upload;
  error = none;
  patch_cell_errors = [];
  pending_patch_count = 0;
}

unfoldable pub start_over : Session → Session
start_over s = record s {
  shown = none;
  import_step = upload;
  result = none;
  error = none;
  patch_cell_errors = [];
  pending_patch_count = 0;
}

-- The answer to the read of the stored session on mount: a snapshot, an expired session, or a failure.
pub data Resumed : Type 0 where
  found : (fresh : ImportPreview) → Resumed
  expired : Resumed
  broken : (message : Option String) → Resumed

-- the effect on mount, while the component stays mounted
unfoldable pub resume_answered : Resumed → Session → Session
unfolding drop_id clear_import_decisions
resume_answered (found fresh) s = record s { shown = some fresh; import_step = preview }
resume_answered expired s = clear_import_decisions (drop_id s)
resume_answered (broken message) s = record (clear_import_decisions (drop_id s)) {
  error = some (message_or "resume failed" message);
}
