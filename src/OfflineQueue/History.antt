-- ===== src/OfflineQueue/History.antt =====
-- A device under any sequence of calls: what the app does with the queue, one call after the other.
use spen_drop.Base.{ℕ, Bool, false, List, [], ◌∷◌}
use spen_drop.OfflineQueue.Store.{fresh}
use spen_drop.OfflineQueue.Device.{
  Device, enqueue, remove_queued, purge_queue, mark_needs_sign_in, clear_needs_sign_in,
}
use spen_drop.OfflineQueue.Replay.{World, drain_queue}
use spen_drop.OfflineQueue.Safety.{
  IsSafe, fresh-StoreOk, enqueue-IsSafe, remove_queued-IsSafe, purge_queue-IsSafe,
  clear_needs_sign_in-stores, mark_needs_sign_in-stores, drain_queue-IsSafe,
}

-- One call from the rest of the app, or a tab's drain.
pub data Op {ℓ} (P : Type ℓ) : Type ℓ where
  enqueues : ℕ → P → ℕ → Bool → Op P
  removes : ℕ → ℕ → Bool → Op P
  purges : ℕ → Bool → Op P
  marks clears : ℕ → Op P
  drains : ℕ → World P → Op P

module _ {ℓ} {P : Type ℓ} where
  unfoldable pub step : Op P → Device P → Device P
  step (enqueues u p now b) d = (enqueue u p now b d).0
  step (removes u id b) d = (remove_queued u id b d).0
  step (purges u b) d = purge_queue u b d
  step (marks u) d = mark_needs_sign_in u d
  step (clears u) d = clear_needs_sign_in u d
  step (drains u w) d = (drain_queue u w d).device

  unfoldable pub run : List (Op P) → Device P → Device P
  unfolding step
  run [] d = d
  run (o ∷ os) d = run os (step o d)

  step-IsSafe : (o : Op P) (d : Device P) → IsSafe d → IsSafe (step o d)
  unfolding step
  step-IsSafe (enqueues u p now b) d h = enqueue-IsSafe u p now b d h
  step-IsSafe (removes u id b) d h = remove_queued-IsSafe u id b d h
  step-IsSafe (purges u b) d h = purge_queue-IsSafe u b d h
  step-IsSafe (marks u) d h = rw (mark_needs_sign_in-stores u d) h
  step-IsSafe (clears u) d h = rw (clear_needs_sign_in-stores u d) h
  step-IsSafe (drains u w) d h = drain_queue-IsSafe u w d h

  -- a device on which no user has captured anything
  abbrev pub new_device : Bool → Device P
  new_device storage = record {
    stores = λ _. fresh;
    holds = λ _. false;
    storage = storage;
    draining = λ _. false;
    rerun_requested = λ _. false;
    notified = 0;
  }

  run-IsSafe_from : (os : List (Op P)) (d : Device P) → IsSafe d → IsSafe (run os d)
  unfolding run
  run-IsSafe_from [] d h = h
  run-IsSafe_from (o ∷ os) d h = run-IsSafe_from os (step o d) (step-IsSafe o d h)

  -- Whatever sequence of captures, undos, purges, holds and drains a device goes through, each
  -- user's rows keep distinct ascending keys below the key generator, and no row is retried past
  -- the cap of five attempts.
  pub run-IsSafe : (os : List (Op P)) (storage : Bool) → IsSafe (run os (new_device storage))
  run-IsSafe os storage = run-IsSafe_from os (new_device storage) (λ v. fresh-StoreOk)
