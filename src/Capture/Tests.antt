-- ===== src/Capture/Tests.antt =====
-- The quick-capture screen on concrete entries.
use spen_drop.Base.{
  Bool, true, false, String, str_eq, none, some, List, [], ◌∷◌, ◌≡◌, refl, ◌↔◌, map, inl, inr,
}
use spen_drop.Base.Int.{pos}
use spen_drop.Money.Convert.{apply_amount_sign, to_create_payload}
use spen_drop.QuickParse.Text.{codes}
use spen_drop.Capture.Form.{
  Form, Household, Effective, tap, can_submit, missing_hint, pick_category, Snapshot, snapshot_of,
}
use spen_drop.Capture.Hint.{missing_hint-can_submit}
use spen_drop.Capture.Send.{
  Entry, Flight, CaptureEvent, edited, added, retried, sent, failed, send, submit, retry,
  send_returned, send_failed, step, run, opened, Screen,
}
use spen_drop.Capture.Keys.{IsFresh, run-one_entry}

program : Unit {0}
unfolding apply_amount_sign to_create_payload can_submit missing_hint send submit retry
    send_returned send_failed step run IsFresh
program = tt

abbrev household : Household
household = record {
  platform = record { to_upper = λ t. t; to_lower = λ t. t; is_finite = λ n. true };
  text_of = λ t. "";
  trim = λ s. s;
  active_categories = [];
  currencies = [];
  base_units = codes "USD";
  base_code = "USD";
  rate_for = λ code. none;
  currencies_loading = false;
}

abbrev lunch : Form
lunch = record {
  mode = tap;
  raw = [];
  tap_amount = pos 125000;
  tap_currency = "USD";
  tap_description = "lunch";
  tap_tags = "";
  picked_category_id = some 3;
  is_refund = false;
}

abbrev refund : Form
refund = record lunch { tap_description = "book"; is_refund = true }

-- two snapshots are told apart by their descriptions here
abbrev same : Snapshot → Snapshot → Bool
same a b = str_eq a.shown.description b.shown.description

abbrev history : List CaptureEvent
history =
    added (some "k1") "2026-03-01"
    ∷ failed 0 true
    ∷ edited refund
    ∷ retried 0
    ∷ sent 0
    ∷ added (some "k2") "2026-03-01"
    ∷ []

abbrev after : Screen
after = run household same history (opened lunch)

abbrev posted : Entry → String × String
posted e = (e.client_key, e.description)

-- The retry sends the lunch again, spares the refund in the form, and the refund has a key of its own.
retries_lunch : map posted after.posts ≡ ("k1", "lunch") ∷ ("k1", "lunch") ∷ ("k2", "book") ∷ []
unfolding program
retries_lunch = refl

spares_draft : after.form ≡ refund
unfolding program
spares_draft = refl

abbrev lunch_entry : Entry
lunch_entry = record {
  client_key = "k1";
  date = "2026-03-01";
  money = record { amount = pos 125000; original = none };
  description = "lunch";
  category_id = 3;
  tags = "";
}

run-one_entry_example : lunch_entry ≡ lunch_entry
unfolding program
run-one_entry_example =
    run-one_entry household same history lunch lunch_entry lunch_entry
      (refl, (tt, (tt, (tt, (tt, (refl, tt)))))) (inl refl) (inr (inl refl)) refl

-- the send of the lunch is under way
abbrev sending : Screen
sending = run household same (added (some "k1") "2026-03-01" ∷ []) (opened lunch)

abbrev lunch_flight : Flight
lunch_flight = record {
  submission = record {
    entry = lunch_entry;
    currency = "USD";
    form_snapshot = snapshot_of household lunch;
  };
  is_retry = false;
}

abbrev bare : Effective
bare = record {
  amount = pos 125000;
  currency = "USD";
  description = "lunch";
  tags = "";
  category_id = none;
}

hints_category : missing_hint household false bare ≡ some pick_category
unfolding program
hints_category = refl

missing_hint-can_submit_example :
    (missing_hint household false bare ≡ none) ↔ (can_submit household false bare ≡ true)
missing_hint-can_submit_example = missing_hint-can_submit household bare
