-- ===== src/ImportSession/Pending.antt =====
-- web/src/hooks/useImportSession.ts: the gate waits for every PATCH, and what a cancel does to that.
use spen_drop.Base.{
  ℕ, ◌≡◌, refl, sym, ap, ◌∙◌, Bool, true, String, List, [], ◌∷◌, Option, none, some, map, length,
  length-map, ◌==◌, if◌then◌else◌, arith,
}
use spen_drop.ImportSession.Wire.{Field, Value, ImportPreview}
use spen_drop.ImportSession.Gate.{can_import, Decisions}
use spen_drop.ImportSession.Ready.{can_import-IsReady}
use spen_drop.ImportSession.Merge.{apply_response, merged_row}
use spen_drop.ImportSession.Machine.{
  Session, Job, patch_job, Answer, snapshot, failed, upload, lane_answered, next_answered,
  job_answered, upload_started, confirm_refused, start_over, done, resume_answered, confirm_started,
  currencies_seen, confirm_accepted, drop_id, store_id, cancel_done, upload_answered, patch_row,
}
use spen_drop.ImportSession.Events.{
  Event, step, run, mounted, starts_upload, answers_upload, patches, sees_currencies, answers_lane,
  starts_confirm, accepts_confirm, refuses_confirm, cancels, starts_over, resumes,
}
use spen_drop.ImportSession.Lane.{
  patch_count, patch_count-append, SameLane, Queues, drop_id-SameLane, upload_answered-SameLane,
  resume_answered-SameLane, confirm_started-SameLane, patch_row-Queues, currencies_seen-Queues,
  job_answered-lane,
}

-- The count of pending PATCHes is the number of those that wait in the lane.
unfoldable pub IsCounted : Session → Type 0
IsCounted s = s.pending_patch_count ≡ patch_count s.lane

-- The event does not reset the count over a PATCH that waits.
abbrev pub IsOrderly : Event → Session → Type 0
IsOrderly cancels s = patch_count s.lane ≡ 0
IsOrderly starts_over s = patch_count s.lane ≡ 0
IsOrderly _ s = Unit

abbrev pub AllOrderly : List Event → Session → Type 0
AllOrderly [] s = Unit
AllOrderly (e ∷ es) s = IsOrderly e s × AllOrderly es (step e s)

SameLane-IsCounted : (s t : Session) → SameLane s t → IsCounted s → IsCounted t
unfolding IsCounted
SameLane-IsCounted s t (l, n) h = n ∙ h ∙ ap patch_count (sym l)

Queues-IsCounted : (jobs : List Job) (s t : Session) → Queues jobs s t → IsCounted s → IsCounted t
unfolding IsCounted
Queues-IsCounted jobs s t (l, n) h =
    let count = ap patch_count l ∙ patch_count-append s.lane jobs in ground (arith, count, n, h)

next_answered-IsCounted :
    (a : Answer) (jobs : List Job) (s : Session)
    → s.lane ≡ jobs
    → IsCounted s
    → IsCounted (next_answered a jobs s)
unfolding IsCounted next_answered
next_answered-IsCounted a [] s e h = h
next_answered-IsCounted a (job ∷ rest) s e h =
    let (l, n) = job_answered-lane job a (record s { lane = rest }) in
    let count = ap patch_count e ∙ patch_count-append (job ∷ []) rest in
    n ∙ (ground (arith, count, h) ∙ ap patch_count (sym l))

step-IsCounted : (e : Event) (s : Session) → IsOrderly e s → IsCounted s → IsCounted (step e s)
unfolding step lane_answered confirm_accepted confirm_refused upload_started cancel_done start_over
    IsCounted
step-IsCounted starts_upload s o h = h
step-IsCounted (answers_upload a) s o h =
    SameLane-IsCounted s (upload_answered a s) (upload_answered-SameLane a s) h
step-IsCounted (patches row_id field value) s o h =
    let (jobs, q) = patch_row-Queues row_id field value s in
    Queues-IsCounted jobs s (patch_row row_id field value s) q h
step-IsCounted (sees_currencies signature) s o h =
    let (jobs, q) = currencies_seen-Queues signature s in
    Queues-IsCounted jobs s (currencies_seen signature s) q h
step-IsCounted (answers_lane a) s o h = next_answered-IsCounted a s.lane s refl h
step-IsCounted starts_confirm s o h =
    SameLane-IsCounted s (confirm_started s) (confirm_started-SameLane s) h
step-IsCounted (accepts_confirm res) s o h =
    SameLane-IsCounted s (confirm_accepted res s)
      (drop_id-SameLane (record s { result = some res; import_step = done })) h
step-IsCounted (refuses_confirm r) s o h = h
step-IsCounted cancels s o h = sym (ap patch_count (drop_id-SameLane s).0 ∙ o)
step-IsCounted starts_over s o h = sym o
step-IsCounted (resumes r) s o h =
    SameLane-IsCounted s (resume_answered r s) (resume_answered-SameLane r s) h

run-IsCounted :
    (es : List Event) (s : Session) → AllOrderly es s → IsCounted s → IsCounted (run es s)
unfolding run
run-IsCounted [] s o h = h
run-IsCounted (e ∷ es) s (o, os) h = run-IsCounted es (step e s) os (step-IsCounted e s o h)

can_import-none_pending :
    (shown : Option ImportPreview) (decisions : Decisions) (pending : ℕ)
    → can_import shown decisions pending ≡ true
    → pending ≡ 0
unfolding can_import
can_import-none_pending none decisions pending h = absurd (ground arith)
can_import-none_pending (some p) decisions pending h =
    ((can_import-IsReady p decisions pending).0 h).settled

-- From the moment the hook mounts, whatever the user does and whatever is answered, as long as no
-- session is cancelled or started over while one of its PATCHes waits: where the Import gate is open,
-- no PATCH waits in the lane or is under way.
pub run-can_import_waits :
    (es : List Event) (stored : Option String) (kept works : Bool) (decisions : Decisions)
    → AllOrderly es (mounted stored kept works)
    → let s = run es (mounted stored kept works) in
      can_import s.shown decisions s.pending_patch_count ≡ true → patch_count s.lane ≡ 0
unfolding IsCounted patch_count
run-can_import_waits es stored kept works decisions o h =
    let s = run es (mounted stored kept works) in
    sym (run-IsCounted es (mounted stored kept works) o refl)
    ∙ can_import-none_pending s.shown decisions s.pending_patch_count h

-- A PATCH that is under way when the session is cancelled takes its own decrement out of the next
-- session's count: once it has failed, a PATCH of the next session waits and none is counted.
pub cancel_uncounted :
    (s : Session) (id : String) (patched : ℕ) (old : Field) (typed : Value) (fresh : ImportPreview)
    (message : Option String) (row_id : ℕ) (field : Field) (value : Value)
    → s.lane ≡ patch_job id patched old typed ∷ []
    → let next = patch_row row_id field value (upload_answered (snapshot fresh) (cancel_done s)) in
      let late = lane_answered (failed message) next in
      (patch_count late.lane ≡ 1) × (late.pending_patch_count ≡ 0) × (late.shown ≡ some fresh)
unfolding patch_count patch_row upload_answered cancel_done store_id drop_id lane_answered
    next_answered job_answered
cancel_uncounted s id patched old typed fresh message row_id field value e =
    rw e (refl, ground arith, refl)

-- A PATCH that is answered, after its session was cancelled, with that session's preview puts it back
-- on screen, under the upload step where nothing was uploaded since. Where something was, everything
-- but the rows becomes that of the cancelled session, and the rows too where there are not as many of
-- them; else the next session's rows stay, but for the one under the patched id. The id that is
-- stored is still the next session's. This where localStorage works.
pub cancel_undone :
    (s : Session) (id : String) (patched : ℕ) (field : Field) (typed : Value)
    (old fresh : ImportPreview) (rest : List Job)
    → s.lane ≡ patch_job id patched field typed ∷ rest
    → s.storage_works ≡ true
    → let idle = lane_answered (snapshot old) (cancel_done s) in
      let busy = lane_answered (snapshot old) (upload_answered (snapshot fresh) (cancel_done s)) in
      (idle.shown ≡ some old)
      × (idle.import_step ≡ upload)
      × (busy.shown
          ≡ some (
              if length fresh.rows == length old.rows
              then record old { rows = map (merged_row old patched) fresh.rows }
              else old))
      × (busy.stored_id ≡ some fresh.import_id)
unfolding upload_answered cancel_done store_id drop_id lane_answered next_answered job_answered
    apply_response
cancel_undone s id patched field typed old fresh rest e works = rw e (
  refl,
  refl,
  ap some (rw (length-map (merged_row old patched) fresh.rows) refl),
  ground (arith, works),
)
