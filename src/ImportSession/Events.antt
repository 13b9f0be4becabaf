-- ===== src/ImportSession/Events.antt =====
-- web/src/hooks/useImportSession.ts: a session under any sequence of the hook's actions and of answers.
use spen_drop.Base.{ℕ, String, List, [], ◌∷◌, Option, Bool, none}
use spen_drop.ImportSession.Wire.{Field, Value, ImportResult}
use spen_drop.ImportSession.Machine.{
  Session, Answer, Refusal, Resumed, upload, upload_started, upload_answered, patch_row,
  currencies_seen, lane_answered, confirm_started, confirm_accepted, confirm_refused, cancel_done,
  start_over, resume_answered,
}

pub data Event : Type 0 where
  starts_upload : Event
  answers_upload : (answer : Answer) → Event
  patches : (row_id : ℕ) (field : Field) (value : Value) → Event
  sees_currencies : (signature : String) → Event
  answers_lane : (answer : Answer) → Event
  starts_confirm : Event
  accepts_confirm : (res : ImportResult) → Event
  refuses_confirm : (refusal : Refusal) → Event
  cancels : Event
  starts_over : Event
  resumes : (resumed : Resumed) → Event

unfoldable pub step : Event → Session → Session
step starts_upload s = upload_started s
step (answers_upload answer) s = upload_answered answer s
step (patches row_id field value) s = patch_row row_id field value s
step (sees_currencies signature) s = currencies_seen signature s
step (answers_lane answer) s = lane_answered answer s
step starts_confirm s = confirm_started s
step (accepts_confirm res) s = confirm_accepted res s
step (refuses_confirm refusal) s = confirm_refused refusal s
step cancels s = cancel_done s
step starts_over s = start_over s
step (resumes resumed) s = resume_answered resumed s

unfoldable pub run : List Event → Session → Session
unfolding step
run [] s = s
run (e ∷ es) s = run es (step e s)

-- the hook as it mounts, over what `localStorage` holds
abbrev pub mounted : Option String → Bool → Bool → Session
mounted stored kept works = record {
  shown = none;
  import_step = upload;
  result = none;
  error = none;
  pending_patch_count = 0;
  patch_cell_errors = [];
  lane = [];
  seen_currencies = none;
  stored_id = stored;
  decisions_kept = kept;
  storage_works = works;
}
