-- ===== src/Auth/Tests.antt =====
-- The provider on concrete histories.
use spen_drop.Base.{ℕ, true, false, not, none, some, List, [], ◌∷◌, ◌==◌, ◌≡◌, refl}
use spen_drop.ApiClient.Outcome.{returned, api_error, malformed, offline, network_error}
use spen_drop.LastUser.Remembered.{
  User, RememberedUser, admin, member, remember_user, forget_remembered_user, read_identity,
  read_remembered_user, to_unverified_user,
}
use spen_drop.OfflineQueue.Store.{fresh}
use spen_drop.OfflineQueue.Drain.{unanswered}
use spen_drop.OfflineQueue.Device.{Device, needs_sign_in}
use spen_drop.OfflineQueue.Replay.{World, drain_queue}
use spen_drop.Auth.Session.{
  Provider, verifying, confirmed, fall_back, verify_answered, refresh_answered, probe_answered,
  verify_session, refresh_user, signed_in, logout, purge_captured, signed_out,
}
use spen_drop.Auth.Events.{
  Event, mounted, came_online, asked_again, answered, entered, leave_pressed, torn_down, closed,
  deliver, tear_down, close, step, run, sign_in, content, route,
}
use spen_drop.Auth.Trust.{Standing}
use spen_drop.Auth.Told.{IsTold, run-Standing, run-route-IsTold}
use spen_drop.Auth.SignOut.{Gone, run-Gone}
use spen_drop.Auth.Spec.{spec_run, view}
use spen_drop.Auth.Refines.{run-view}
use spen_drop.Auth.Hold.{SameRows, expired-entered, switched-held}

abbrev phone : Device ℕ
phone = record {
  stores = λ _. fresh;
  holds = λ _. false;
  storage = true;
  draining = λ _. false;
  rerun_requested = λ _. false;
  notified = 0;
}

abbrev world : World ℕ
world = record {
  offline = false;
  listed = true;
  counted = true;
  turn = λ _. record {
    offline = false;
    answer = unanswered;
    meanwhile = [];
    removed = true;
    bumped = true;
  };
  offline_after = false;
}

abbrev eli : User ℕ
eli = record {
  id = 1;
  username = "eli";
  display_name = "Eli";
  created_at = "2026-01-01";
  role = admin;
}

abbrev mia : User ℕ
mia = record {
  id = 2;
  username = "mia";
  display_name = "Mia";
  created_at = "2026-01-02";
  role = member;
}

abbrev start : Provider ℕ
start = record {
  user = none;
  loading = true;
  unverified = false;
  epoch = 0;
  storage = record { item = none; works = true };
  device = phone;
  path = none;
  asked = [];
  leaving = [];
  closing = 0;
}

program : Unit {0}
unfolding remember_user forget_remembered_user read_identity read_remembered_user to_unverified_user
    confirmed fall_back verify_answered refresh_answered probe_answered verify_session refresh_user
    signed_in logout purge_captured signed_out deliver tear_down close step run route
program = tt

-- A remembered admin without a connection is a member, and sees only the pages open to one who is
-- not confirmed, until the server answers.
abbrev no_answer : List (Event ℕ)
no_answer = entered (returned (some eli)) ∷ mounted ∷ answered 0 (network_error offline) ∷ []

run_without_answer :
    ((run no_answer start).user ≡ some (record eli { role = member }))
    × (route false (run no_answer start) ≡ sign_in)
    × (route true (run no_answer start) ≡ content)
unfolding program
run_without_answer = (refl, refl, refl)

abbrev confirmed_again : List (Event ℕ)
confirmed_again =
    entered (returned (some eli))
    ∷ mounted
    ∷ answered 0 malformed
    ∷ came_online
    ∷ answered 0 (returned (some eli))
    ∷ []

run-Standing_example :
    Standing (IsTold no_answer) (run no_answer start).user (run no_answer start).unverified
run-Standing_example = run-Standing no_answer start refl refl

run-route-IsTold_example :
    (user : User ℕ) × ((run confirmed_again start).user ≡ some user)
    × ((run confirmed_again start).unverified ≡ false)
    × IsTold confirmed_again user
unfolding program
run-route-IsTold_example = run-route-IsTold confirmed_again start refl refl refl

-- a rename is being read back when the user signs out
abbrev leaving_history : List (Event ℕ)
leaving_history =
    mounted ∷ answered 0 (returned (some eli)) ∷ asked_again ∷ leave_pressed ∷ torn_down 0 true ∷ []

abbrev late_answer : List (Event ℕ)
late_answer = answered 0 (returned (some eli)) ∷ came_online ∷ []

run-Gone_example : Gone (run late_answer (step closed (run leaving_history start)))
unfolding program
run-Gone_example = run-Gone leaving_history late_answer start 0 refl refl (tt, (tt, tt))

run-view_example : view (run leaving_history start) ≡ spec_run leaving_history (view start)
run-view_example = run-view leaving_history start refl

abbrev checking : Provider ℕ
checking = record start { storage = remember_user eli start.storage; asked = verifying 0 ∷ [] }

abbrev remembered_eli : RememberedUser ℕ
remembered_eli = record {
  id = 1;
  username = "eli";
  display_name = "Eli";
  created_at = "2026-01-01";
}

expired-entered_example :
    let expired = step (answered 0 (api_error "Unauthorized" 401)) checking in
    let s' = step (entered (returned (some mia))) expired in
    (expired.user ≡ none)
    × ((drain_queue 1 world expired.device).posts ≡ [])
    × SameRows checking s'
    × (needs_sign_in 1 s'.device ≡ not (2 == 1))
unfolding program
expired-entered_example =
    expired-entered 0 "Unauthorized" mia checking remembered_eli [] world refl refl refl

switched-held_example :
    let s' = step (answered 0 (returned (some mia))) checking in
    (s'.user ≡ some mia)
    × (needs_sign_in 2 s'.device ≡ false)
    × ((drain_queue 1 world s'.device).posts ≡ [])
    × SameRows checking s'
unfolding program
switched-held_example = switched-held 0 mia checking remembered_eli [] world refl refl refl refl
