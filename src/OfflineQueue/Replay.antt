-- ===== src/OfflineQueue/Replay.antt =====
-- web/src/lib/offline-queue.ts: `drainQueue` as a whole, with its guards and its `finally`, and the
-- chain of re-runs that triggers arriving in the middle of a drain ask for.
use spen_drop.Base.{
  ℕ, Bool, true, false, ◌&&◌, not, List, [], ◌∷◌, ◌++◌, Option, none, some, if◌then◌else◌, ◌≡◌, ◌⊎◌,
  arith,
}
use spen_drop.OfflineQueue.Device.{
  Device, set_at, notify, needs_sign_in, get_all_queued, safe_count,
}
use spen_drop.OfflineQueue.Drain.{Turn, Sent, After, go, request_rerun, drain_rows}

pub record World {ℓ} (P : Type ℓ) : Type ℓ where
  pub offline : Bool
  -- whether `getAllQueued` and the counts succeed
  pub listed : Bool
  pub counted : Bool
  pub turn : ℕ → Turn P
  pub offline_after : Bool

pub record DrainResult : Type 0 where
  pub synced : ℕ
  pub remaining : ℕ

pub record Drained {ℓ} (P : Type ℓ) : Type ℓ where
  pub device : Device P
  -- `none` is a rejected promise
  pub result : Option DrainResult
  pub posts : List (Sent P)
  -- whether the `finally` starts another drain for the same user
  pub again : Bool

module _ {ℓ} {P : Type ℓ} (u : ℕ) where
  abbrev pub idle : World P → Device P → Drained P
  idle w d = record {
    device = d;
    result = some (record { synced = 0; remaining = safe_count u w.counted d });
    posts = [];
    again = false;
  }

  -- the `try`: the snapshot and the loop over it, with the guard taken
  unfoldable pub guarded : World P → Device P → After P
  guarded w d =
      if w.listed
      then drain_rows u w.turn 0 (get_all_queued u d) d
      else record { device = d; synced = 0; posts = []; verdict = go }

  abbrev pub take_guard : Device P → Device P
  take_guard d = record d { draining = set_at d.draining u true }

  abbrev pub release : Device P → Device P
  release d = notify (record d {
    draining = set_at d.draining u false;
    rerun_requested = set_at d.rerun_requested u false;
  })

  -- what the `try` and the `finally` hand out
  abbrev pub finished : World P → After P → Drained P
  finished w a = record {
    device = release a.device;
    result =
        if w.listed
        then some (record { synced = a.synced; remaining = safe_count u w.counted a.device })
        else none;
    posts = a.posts;
    again = a.device.rerun_requested u && not w.offline_after;
  }

  unfoldable pub drain_queue : World P → Device P → Drained P
  drain_queue w d =
      if w.offline
      then idle w d
      else (if needs_sign_in u d
          then idle w d
          else (if d.draining u
              then idle w (request_rerun u d)
              else finished w (guarded w (take_guard d))))

  -- whether all three guards let the drain through
  abbrev pub starts : World P → Device P → Bool
  starts w d = not w.offline && not (needs_sign_in u d) && not (d.draining u)

  pub drain_queue_started :
      (w : World P) (d : Device P)
      → starts w d ≡ true
      → drain_queue w d ≡ finished w (guarded w (take_guard d))
  unfolding drain_queue
  drain_queue_started w d h = ground arith

  -- A drain that a guard turns away asks for a re-run at most.
  pub drain_queue_blocked :
      (w : World P) (d : Device P)
      → starts w d ≡ false
      → ((drain_queue w d ≡ idle w d) ⊎ (drain_queue w d ≡ idle w (request_rerun u d)))
  unfolding drain_queue
  drain_queue_blocked w d h = ground arith

  -- a drain and its re-runs, each in a world of its own
  unfoldable pub drain_chain : List (World P) → Device P → Device P × List (Sent P)
  drain_chain [] d = (d, [])
  drain_chain (w ∷ ws) d =
      let r = drain_queue w d in
      let (d', later) = drain_chain ws r.device in
      if r.again then (d', r.posts ++ later) else (r.device, r.posts)
