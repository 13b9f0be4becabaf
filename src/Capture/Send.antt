-- ===== src/Capture/Send.antt =====
-- web/src/pages/QuickAdd.tsx: an entry is built once, with its key, and every send of it is of that entry.
-- What `newClientKey` gives, the date, and what a send comes to are arguments of the events.
use spen_drop.Base.{
  ℕ, zero, suc, Bool, true, false, not, ◌||◌, String, Option, none, some, List, [], ◌∷◌, ◌++◌,
  get_elem?, if◌then◌else◌,
}
use spen_drop.Money.Convert.{Payload, Converted, payload, no_rate, to_create_payload}
use spen_drop.Capture.Form.{
  Form, Household, Effective, effective, can_submit, reset_for_next, Snapshot, snapshot_of,
}

pub record Entry : Type 0 where
  pub client_key : String
  pub date : String
  pub money : Payload
  pub description : String
  pub category_id : ℕ
  pub tags : String

pub record Submission : Type 0 where
  pub entry : Entry
  pub currency : String
  pub form_snapshot : Snapshot

-- a call of `send` whose `create` has not settled
pub record Flight : Type 0 where
  pub submission : Submission
  pub is_retry : Bool

pub record Screen : Type 0 where
  pub form : Form
  -- `saving` of useQuickAdd
  pub saving : Bool
  pub flights : List Flight
  -- the failures whose toast offers Retry
  pub offers : List Submission
  -- the entries handed to `create`, in order
  pub posts : List Entry

pub data CaptureEvent : Type 0 where
  edited : (form : Form) → CaptureEvent
  added : (key : Option String) (date : String) → CaptureEvent
  retried dismissed : (offer : ℕ) → CaptureEvent
  sent : (flight : ℕ) → CaptureEvent
  failed : (flight : ℕ) (retryable : Bool) → CaptureEvent

abbrev pub remove_at {ℓ} : {A : Type ℓ} → ℕ → List A → List A
remove_at i [] = []
remove_at zero (x ∷ xs) = xs
remove_at (suc i) (x ∷ xs) = x ∷ remove_at i xs

-- `send`, up to the answer
unfoldable pub send : Submission → Bool → Screen → Screen
send sub is_retry s = record s {
  saving = true;
  flights = s.flights ++ record { submission = sub; is_retry = is_retry } ∷ [];
  posts = s.posts ++ sub.entry ∷ [];
}

module _ (h : Household) (same : Snapshot → Snapshot → Bool) where
  -- `submit`, behind its guard and its key
  abbrev pub submit_as : String → String → Effective → ℕ → Snapshot → Converted → Screen → Screen
  submit_as key date e category snapshot (no_rate currency) s = s
  submit_as key date e category snapshot (payload money) s =
      send
        (record {
          entry = record {
            client_key = key;
            date = date;
            money = money;
            description = e.description;
            category_id = category;
            tags = e.tags;
          };
          currency = e.currency;
          form_snapshot = snapshot;
        })
        false s

  abbrev pub submit_with :
      Option String → String → Effective → Option ℕ → Snapshot → Screen → Screen
  submit_with none date e category snapshot s = s
  submit_with (some key) date e none snapshot s = s
  submit_with (some key) date e (some category) snapshot s =
      submit_as key date e category snapshot
        (to_create_payload (record { amount = snapshot.signed_amount; currency = e.currency })
          h.base_code h.rate_for)
        s

  unfoldable pub submit : Option String → String → Screen → Screen
  submit key date s =
      let e = effective h s.form in
      let built = submit_with key date e e.category_id (snapshot_of h s.form) s in
      if can_submit h s.saving e then built else s

  -- the click on Retry
  unfoldable pub retry : Option Submission → ℕ → Screen → Screen
  retry none i s = s
  retry (some sub) i s = send sub true (record s { offers = remove_at i s.offers })

  -- `send`, where `create` has returned
  unfoldable pub send_returned : Option Flight → ℕ → Screen → Screen
  send_returned none i s = s
  send_returned (some f) i s = record s {
    saving = false;
    flights = remove_at i s.flights;
    form =
        if not f.is_retry || same f.submission.form_snapshot (snapshot_of h s.form)
        then reset_for_next s.form
        else s.form;
  }

  -- `send`, where `create` has thrown
  unfoldable pub send_failed : Option Flight → ℕ → Bool → Screen → Screen
  send_failed none i retryable s = s
  send_failed (some f) i retryable s = record s {
    saving = false;
    flights = remove_at i s.flights;
    offers = if retryable then s.offers ++ f.submission ∷ [] else s.offers;
  }

  unfoldable pub step : CaptureEvent → Screen → Screen
  step (edited form) s = record s { form = form }
  step (added key date) s = submit key date s
  step (retried i) s = retry (get_elem? s.offers i) i s
  step (dismissed i) s = record s { offers = remove_at i s.offers }
  step (sent i) s = send_returned (get_elem? s.flights i) i s
  step (failed i retryable) s = send_failed (get_elem? s.flights i) i retryable s

  unfoldable pub run : List CaptureEvent → Screen → Screen
  run [] s = s
  run (e ∷ es) s = run es (step e s)

abbrev pub opened : Form → Screen
opened form = record { form = form; saving = false; flights = []; offers = []; posts = [] }
