-- ===== src/OfflineQueue/Tests.antt =====
-- The queue on concrete devices.
use mathlib.Core.List.{Perm}
use spen_drop.Base.{ℕ, ◌≡◌, refl, true, false, List, [], ◌∷◌, some, arith, take}
use spen_drop.OfflineQueue.Store.{Row, find_row, add, put_row, delete_row, sort_rows}
use spen_drop.OfflineQueue.Sorted.{IsFifo}
use spen_drop.OfflineQueue.Device.{
  Device, needs_sign_in, enqueue, remove_queued, purge_queue, bump_attempts, mark_needs_sign_in,
  clear_needs_sign_in, get_all_queued, safe_count, bumped_row,
}
use spen_drop.OfflineQueue.Drain.{
  accepted, refused, unanswered, Answer, undo, trigger, Turn, act, act_all, settle, replay_row,
  drain_rows,
}
use spen_drop.OfflineQueue.Replay.{World, guarded, drain_queue, drain_chain}
use spen_drop.OfflineQueue.Order.{
  rows_of, replayable, drain_queue-posts-IsFifo, drain_queue-posts_all,
}
use spen_drop.OfflineQueue.Fate.{drain_queue-Fate}
use spen_drop.OfflineQueue.Queued.{Fate}
use spen_drop.OfflineQueue.Safety.{IsSafe}
use spen_drop.OfflineQueue.History.{Op, enqueues, removes, drains, run, new_device, run-IsSafe}
use spen_drop.OfflineQueue.Users.{undo_resurrected}
use spen_drop.OfflineQueue.QuickAdd.{created, queued, create, undo_create, undo_create-create}

abbrev coffee : Row ℕ
coffee = record { id = 1; payload = 450; queued_at = 1000; attempts = 0 }

abbrev lunch : Row ℕ
lunch = record { id = 2; payload = 1250; queued_at = 900; attempts = 4 }

-- user 7 has two captures; every other user's store is the same here
abbrev phone : Device ℕ
phone = record {
  stores = λ _. record { rows = coffee ∷ lunch ∷ []; next_key = 3 };
  holds = λ _. false;
  storage = true;
  draining = λ _. false;
  rerun_requested = λ _. false;
  notified = 0;
}

abbrev answering : Answer → Turn ℕ
answering a = record { offline = false; answer = a; meanwhile = []; removed = true; bumped = true }

abbrev world : Answer → World ℕ
world a = record {
  offline = false;
  listed = true;
  counted = true;
  turn = λ _. answering a;
  offline_after = false;
}

program : Unit {0}
unfolding needs_sign_in enqueue remove_queued purge_queue bump_attempts mark_needs_sign_in
    clear_needs_sign_in get_all_queued safe_count find_row add put_row delete_row sort_rows act
    act_all settle replay_row drain_rows guarded drain_queue drain_chain run
program = tt

-- Both rows are posted, the older capture first, and the queue is empty.
all_accepted :
    (rows_of (drain_queue 7 (world accepted) phone).posts ≡ lunch ∷ coffee ∷ [])
    × (((drain_queue 7 (world accepted) phone).device.stores 7).rows ≡ [])
    × ((drain_queue 7 (world accepted) phone).result ≡ some (record { synced = 2; remaining = 0 }))
unfolding program
all_accepted = (refl, refl, refl)

-- An unreachable server stops the run at the first row and costs no attempt.
none_answered :
    (rows_of (drain_queue 7 (world unanswered) phone).posts ≡ lunch ∷ [])
    × (((drain_queue 7 (world unanswered) phone).device.stores 7).rows ≡ coffee ∷ lunch ∷ [])
unfolding program
none_answered = (refl, refl)

-- A trigger in the middle of a drain starts it once more.
retriggered :
    rows_of
      (drain_chain 7
        (record (world unanswered) {
          turn = λ _. record (answering unanswered) { meanwhile = trigger ∷ [] };
        }
          ∷ world accepted
          ∷ [])
        phone).1
    ≡ lunch ∷ lunch ∷ coffee ∷ []
unfolding program
retriggered = refl

phone-IsSafe : IsSafe phone
phone-IsSafe v = record { keyed = omega arith; capped = omega arith }

drain_queue-Fate_example :
    Fate 7 2 lunch lunch
      (drain_queue 7 (world (refused 422)) phone).posts
      (drain_queue 7 (world (refused 422)) phone).device
unfolding find_row
drain_queue-Fate_example =
    drain_queue-Fate 7 (world (refused 422)) phone 2 lunch phone-IsSafe (λ j. refl) refl

abbrev day : List (Op ℕ)
day = enqueues 7 450 1000 true ∷ drains 7 (world (refused 400)) ∷ removes 7 1 true ∷ []

run-IsSafe_example : IsSafe (run day (new_device true))
run-IsSafe_example = run-IsSafe day true

drain_queue-posts-IsFifo_example :
    (n : ℕ) × (rows_of (drain_queue 7 (world accepted) phone).posts
      ≡ take n (replayable (get_all_queued 7 phone)))
    × IsFifo (get_all_queued 7 phone)
    × Perm (get_all_queued 7 phone) (phone.stores 7).rows
drain_queue-posts-IsFifo_example = drain_queue-posts-IsFifo 7 (world accepted) phone

drain_queue-posts_all_example :
    rows_of (drain_queue 7 (world (refused 400)) phone).posts ≡ replayable (get_all_queued 7 phone)
unfolding needs_sign_in
drain_queue-posts_all_example =
    drain_queue-posts_all 7 (world (refused 400)) phone refl refl
      (λ k. record { online = refl; judged = refl; removes = refl; bumps = refl })

undo_resurrected_example :
    find_row 1
      ((replay_row 7
          (record (answering (refused 422)) { meanwhile = undo 1 ∷ [] })
          coffee
          phone).device.stores
        7).rows
    ≡ some (bumped_row coffee)
undo_resurrected_example =
    undo_resurrected 7 422 coffee (record (answering (refused 422)) { meanwhile = undo 1 ∷ [] })
      phone refl refl refl refl refl refl

undo_create-create_example :
    let captured = create {T = ℕ} (some 7) true 900 2000 true (created 5) phone in
    let undone = undo_create {T = ℕ} (some 7) (queued 3) true captured.0 in
    (captured.1 ≡ some (queued 3)) × ((undone.stores 7).rows ≡ (phone.stores 7).rows)
undo_create-create_example = undo_create-create 7 7 2000 900 (created 5) phone phone-IsSafe
