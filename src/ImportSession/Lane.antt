-- ===== src/ImportSession/Lane.antt =====
-- web/src/hooks/useImportSession.ts: the count of pending PATCHes against the PATCHes in the lane.
use spen_drop.Base.{
  ℕ, ◌+◌, ◌-◌, ◌≡◌, refl, sym, ◌∙◌, inl, inr, String, str_eq, List, [], ◌∷◌, ◌++◌, some, arith,
  append-nil, Bool-cases, Option-cases,
}
use spen_drop.ImportSession.Wire.{Field, Value}
use spen_drop.ImportSession.Machine.{
  Session, Resumed, Job, patch_job, refresh_job, Answer, snapshot, failed, upload_answered,
  patch_row, currencies_seen, refresh_session, job_answered, confirm_started, resume_answered,
  store_id, drop_id, clear_import_decisions, found, expired, broken,
}

-- the PATCHes among jobs
unfoldable pub patch_count : List Job → ℕ
patch_count [] = 0
patch_count (patch_job id row_id field value ∷ jobs) = patch_count jobs + 1
patch_count (refresh_job id ∷ jobs) = patch_count jobs

pub patch_count-append :
    (xs ys : List Job) → patch_count (xs ++ ys) ≡ patch_count xs + patch_count ys
unfolding patch_count
patch_count-append [] ys = ground arith
patch_count-append (patch_job id row_id field value ∷ xs) ys =
    ground (arith, patch_count-append xs ys)
patch_count-append (refresh_job id ∷ xs) ys = patch_count-append xs ys

-- Both the lane and the count of pending PATCHes are the same in the two sessions.
abbrev pub SameLane : Session → Session → Type 0
SameLane s t = (t.lane ≡ s.lane) × (t.pending_patch_count ≡ s.pending_patch_count)

pub drop_id-SameLane : (s : Session) → SameLane s (drop_id s)
unfolding drop_id
drop_id-SameLane s = (refl, refl)

clear_import_decisions-SameLane : (s : Session) → SameLane s (clear_import_decisions s)
unfolding clear_import_decisions
clear_import_decisions-SameLane s = (refl, refl)

SameLane-trans : (r s t : Session) → SameLane r s → SameLane s t → SameLane r t
SameLane-trans r s t (l, n) (l', n') = (l' ∙ l, n' ∙ n)

pub upload_answered-SameLane : (a : Answer) (s : Session) → SameLane s (upload_answered a s)
unfolding upload_answered store_id
upload_answered-SameLane (snapshot fresh) s = (refl, refl)
upload_answered-SameLane (failed message) s = (refl, refl)

pub resume_answered-SameLane : (a : Resumed) (s : Session) → SameLane s (resume_answered a s)
unfolding resume_answered
resume_answered-SameLane (found fresh) s = (refl, refl)
resume_answered-SameLane expired s =
    SameLane-trans s (drop_id s) (clear_import_decisions (drop_id s)) (drop_id-SameLane s)
      (clear_import_decisions-SameLane (drop_id s))
resume_answered-SameLane (broken message) s =
    SameLane-trans s (drop_id s) (clear_import_decisions (drop_id s)) (drop_id-SameLane s)
      (clear_import_decisions-SameLane (drop_id s))

pub confirm_started-SameLane : (s : Session) → SameLane s (confirm_started s)
unfolding confirm_started
confirm_started-SameLane s = elim (Option-cases s.shown) [
  | inl e ↦ rw e (refl, refl)
  | inr (p, e) ↦ rw e (refl, refl)
]

-- `jobs` have come to stand at the lane's end, and the PATCHes among them are counted.
abbrev pub Queues : List Job → Session → Session → Type 0
Queues jobs s t =
    (t.lane ≡ s.lane ++ jobs) × (t.pending_patch_count ≡ s.pending_patch_count + patch_count jobs)

pub patch_row-Queues :
    (row_id : ℕ) (field : Field) (value : Value) (s : Session)
    → (jobs : List Job) × Queues jobs s (patch_row row_id field value s)
unfolding patch_row patch_count
patch_row-Queues row_id field value s = elim (Option-cases s.shown) [
  | inl e ↦ ([], rw e (sym (append-nil s.lane), ground arith))
  | inr (p, e) ↦ (patch_job p.import_id row_id field value ∷ [], rw e (refl, ground arith))
]

refresh_session-Queues : (s : Session) → (jobs : List Job) × Queues jobs s (refresh_session s)
unfolding refresh_session patch_count
refresh_session-Queues s = elim (Option-cases s.shown) [
  | inl e ↦ ([], rw e (sym (append-nil s.lane), ground arith))
  | inr (p, e) ↦ elim (Bool-cases (str_eq p.import_id "")) [
    | inl e' ↦ ([], rw e (rw e' (sym (append-nil s.lane), ground arith)))
    | inr e' ↦ (refresh_job p.import_id ∷ [], rw e (rw e' (refl, ground arith)))
  ]
]

pub currencies_seen-Queues :
    (signature : String) (s : Session)
    → (jobs : List Job) × Queues jobs s (currencies_seen signature s)
unfolding currencies_seen patch_count
currencies_seen-Queues signature s = elim (Option-cases s.seen_currencies) [
  | inl e ↦ ([], rw e (sym (append-nil s.lane), ground arith))
  | inr (seen, e) ↦ elim (Bool-cases (str_eq seen signature)) [
    | inl e' ↦ ([], rw e (rw e' (sym (append-nil s.lane), ground arith)))
    | inr e' ↦
        let (jobs, q) = refresh_session-Queues (record s { seen_currencies = some signature }) in
        (jobs, rw e (rw e' q))
  ]
]

pub job_answered-lane :
    (job : Job) (a : Answer) (s : Session)
    → ((job_answered job a s).lane ≡ s.lane)
      × ((job_answered job a s).pending_patch_count
          ≡ s.pending_patch_count - patch_count (job ∷ []))
unfolding job_answered patch_count
job_answered-lane (patch_job id row_id field value) (snapshot fresh) s = (refl, ground arith)
job_answered-lane (patch_job id row_id field value) (failed message) s = (refl, ground arith)
job_answered-lane (refresh_job id) (snapshot fresh) s = (refl, ground arith)
job_answered-lane (refresh_job id) (failed message) s = (refl, ground arith)
