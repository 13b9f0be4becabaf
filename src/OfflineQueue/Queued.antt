-- ===== src/OfflineQueue/Queued.antt =====
-- A queued row through the queue's operations and what the user does during a request.
use mathlib.Core.Bool.{and-eq-true_iff}
use spen_drop.Base.{
  ℕ, ◌≡◌, ◌⊎◌, Bool, true, false, not, ◌&&◌, List, [], ◌∷◌, some, arith, ◌==◌, any, all,
}
use spen_drop.OfflineQueue.Store.{Row, add, put, find_row}
use spen_drop.OfflineQueue.Keys.{find_row-put_row, find_row-delete_row, find_row-add}
use spen_drop.OfflineQueue.Device.{
  Device, bumped_row, enqueue, remove_queued, bump_attempts, set_at_self,
}
use spen_drop.OfflineQueue.Drain.{
  Answer, accepted, refused, unanswered, Meanwhile, capture, undo, purge, trigger, Sent, act,
  act_all,
}
use spen_drop.OfflineQueue.Safety.{IsSafe, act-IsSafe}

abbrev pub is_accepted : Answer → Bool
is_accepted accepted = true
is_accepted (refused status) = false
is_accepted unanswered = false

-- an `ApiError` that is about the row, not about the session
abbrev pub is_rejected : Answer → Bool
is_rejected accepted = false
is_rejected (refused status) = not (status == 401)
is_rejected unanswered = false

module _ {ℓ} {P : Type ℓ} where
  abbrev pub accepted_in : ℕ → List (Sent P) → Bool
  accepted_in k posts = any (λ s. (s.row.id == k) && is_accepted s.answer) posts

  abbrev pub rejected_in : ℕ → List (Sent P) → Bool
  rejected_in k posts = any (λ s. (s.row.id == k) && is_rejected s.answer) posts

  -- whether something the user does leaves row `k` alone
  abbrev pub spares : ℕ → Meanwhile P → Bool
  spares k (capture payload now) = true
  spares k (undo id) = not (id == k)
  spares k (purge deleted) = false
  spares k trigger = true

  module _ (u k : ℕ) (r : Row P) where
    -- the user's row `k` is `x`
    abbrev pub Queued : Row P → Device P → Type ℓ
    Queued x d = find_row k (d.stores u).rows ≡ some x

    -- Accepted, unchanged since it was `x`, or rejected and counted once more.
    abbrev pub Fate : Row P → List (Sent P) → Device P → Type ℓ
    Fate x posts d =
        (accepted_in k posts ≡ true)
        ⊎ Queued x d
        ⊎ (Queued (bumped_row r) d × (rejected_in k posts ≡ true))

    pub remove_queued-Queued :
        (id : ℕ) (b : Bool) (x : Row P) (d : Device P)
        → (id == k) ≡ false
        → Queued x d
        → Queued x (remove_queued u id b d).0
    unfolding remove_queued
    remove_queued-Queued id true x d other q =
        rw (set_at_self d.stores u _, find_row-delete_row k id (d.stores u).rows, other) q
    remove_queued-Queued id false x d other q = q

    pub bump_attempts-Queued :
        (item : Row P) (b : Bool) (x : Row P) (d : Device P)
        → (item.id == k) ≡ false
        → Queued x d
        → Queued x (bump_attempts u item b d).0
    unfolding bump_attempts put
    bump_attempts-Queued item true x d other q =
        rw (set_at_self d.stores u _, find_row-put_row k (bumped_row item) (d.stores u).rows, other)
          q
    bump_attempts-Queued item false x d other q = q

    pub bump_attempts-Queued_self :
        (item : Row P) (d : Device P)
        → (item.id == k) ≡ true
        → Queued (bumped_row item) (bump_attempts u item true d).0
    unfolding bump_attempts put
    bump_attempts-Queued_self item d same =
        rw (set_at_self d.stores u _, find_row-put_row k (bumped_row item) (d.stores u).rows, same)

    pub act-Queued :
        (m : Meanwhile P) (x : Row P) (d : Device P)
        → IsSafe d
        → spares k m ≡ true
        → Queued x d
        → Queued x (act u m d)
    unfolding act enqueue remove_queued
    act-Queued (capture p now) x d safe s q =
        rw (set_at_self d.stores u (add p now (d.stores u)))
          (find_row-add k now p (d.stores u) (safe u).keyed x q)
    act-Queued (undo id) x d safe s q = remove_queued-Queued id true x d (ground arith) q
    act-Queued (purge b) x d safe s q = cc
    act-Queued trigger x d safe s q = q

    pub act_all-Queued :
        (ms : List (Meanwhile P)) (x : Row P) (d : Device P)
        → IsSafe d
        → all (spares k) ms ≡ true
        → Queued x d
        → Queued x (act_all u ms d)
    unfolding act_all
    act_all-Queued [] x d safe s q = q
    act_all-Queued (m ∷ ms) x d safe s q =
        let (here, later) = (and-eq-true_iff _ _).0 s in
        act_all-Queued ms x (act u m d) (act-IsSafe u m d safe) later (act-Queued m x d safe here q)
