-- ===== src/OfflineQueue/Drain.antt =====
-- web/src/lib/offline-queue.ts: `drainQueue`. What the world does during one drain is an argument:
-- for each row of the snapshot whether the device is offline, what the server answers, what the user
-- does while the request is under way, and which IndexedDB transactions succeed.
use spen_drop.Base.{
  ℕ, ◌+◌, Bool, true, List, [], ◌∷◌, ◌++◌, ◌==◌, leb, if◌then◌else◌, ◌≡◌, refl, ◌⊎◌, inl, inr,
  arith,
}
use spen_drop.OfflineQueue.Store.{Row}
use spen_drop.OfflineQueue.Device.{
  Device, set_at, mark_needs_sign_in, enqueue, remove_queued, purge_queue, bump_attempts,
}

abbrev pub max_attempts : ℕ
max_attempts = 5

-- A 2xx answer, an `ApiError` with its status, or any other failure of the request.
pub data Answer : Type 0 where
  accepted : Answer
  refused : ℕ → Answer
  unanswered : Answer

pub data Meanwhile {ℓ} (P : Type ℓ) : Type ℓ where
  capture : P → ℕ → Meanwhile P
  undo : ℕ → Meanwhile P
  purge : Bool → Meanwhile P
  trigger : Meanwhile P

pub record Turn {ℓ} (P : Type ℓ) : Type ℓ where
  pub offline : Bool
  pub answer : Answer
  pub meanwhile : List (Meanwhile P)
  pub removed : Bool
  pub bumped : Bool

pub data Verdict : Type 0 where
  go stop : Verdict

-- One request that a drain made.
pub record Sent {ℓ} (P : Type ℓ) : Type ℓ where
  pub row : Row P
  pub answer : Answer

pub record After {ℓ} (P : Type ℓ) : Type ℓ where
  pub device : Device P
  pub synced : ℕ
  pub posts : List (Sent P)
  pub verdict : Verdict

module _ {ℓ} {P : Type ℓ} (u : ℕ) where
  -- `rerunRequested.add(userId)`
  abbrev pub request_rerun : Device P → Device P
  request_rerun d = record d { rerun_requested = set_at d.rerun_requested u true }

  unfoldable pub act : Meanwhile P → Device P → Device P
  unfolding enqueue remove_queued purge_queue
  act (capture payload now) d = (enqueue u payload now true d).0
  act (undo id) d = (remove_queued u id true d).0
  act (purge deleted) d = purge_queue u deleted d
  act trigger d = request_rerun d

  unfoldable pub act_all : List (Meanwhile P) → Device P → Device P
  act_all [] d = d
  act_all (m ∷ ms) d = act_all ms (act m d)

  -- the `try`/`catch` round the POST, by what the server answered
  unfoldable pub settle : Turn P → Row P → Answer → Device P → After P
  unfolding remove_queued mark_needs_sign_in bump_attempts
  settle t item accepted d =
      let (d', done) = remove_queued u item.id t.removed d in
      record {
        device = d';
        synced = if done then 1 else 0;
        posts = record { row = item; answer = accepted } ∷ [];
        verdict = if done then go else stop;
      }
  settle t item (refused status) d =
      let posts = record { row = item; answer = refused status } ∷ [] in
      if status == 401
      then record { device = mark_needs_sign_in u d; synced = 0; posts = posts; verdict = stop }
      else (let (d', done) = bump_attempts u item t.bumped d in
          record { device = d'; synced = 0; posts = posts; verdict = if done then go else stop })
  settle t item unanswered d = record {
    device = d;
    synced = 0;
    posts = record { row = item; answer = unanswered } ∷ [];
    verdict = stop;
  }

  -- one round of the loop over `getAllQueued`
  unfoldable pub replay_row : Turn P → Row P → Device P → After P
  replay_row t item d =
      if t.offline
      then record { device = d; synced = 0; posts = []; verdict = stop }
      else (if leb max_attempts item.attempts
          then record { device = d; synced = 0; posts = []; verdict = go }
          else settle t item t.answer (act_all t.meanwhile d))

  -- what a round did, and then what the rounds after it did
  abbrev pub joined : After P → After P → After P
  joined a rest = record {
    device = rest.device;
    synced = a.synced + rest.synced;
    posts = a.posts ++ rest.posts;
    verdict = rest.verdict;
  }

  unfoldable pub drain_rows : (ℕ → Turn P) → ℕ → List (Row P) → Device P → After P
  drain_rows turn i [] d = record { device = d; synced = 0; posts = []; verdict = go }
  drain_rows turn i (item ∷ items) d =
      let a = replay_row (turn i) item d in
      let rest = drain_rows turn (i + 1) items a.device in
      elim a.verdict [ stop ↦ a | go ↦ joined a rest ]

  module _ (turn : ℕ → Turn P) (i : ℕ) (r : Row P) (rs : List (Row P)) (d : Device P) where
    pub drain_rows-stop :
        (replay_row (turn i) r d).verdict ≡ stop
        → drain_rows turn i (r ∷ rs) d ≡ replay_row (turn i) r d
    unfolding drain_rows
    drain_rows-stop e = ground arith

    pub drain_rows-go :
        (replay_row (turn i) r d).verdict ≡ go
        → drain_rows turn i (r ∷ rs) d
          ≡ joined
              (replay_row (turn i) r d)
              (drain_rows turn (i + 1) rs (replay_row (turn i) r d).device)
    unfolding drain_rows
    drain_rows-go e = ground arith

pub Verdict-cases : (v : Verdict) → (v ≡ stop) ⊎ (v ≡ go)
Verdict-cases go = inr refl
Verdict-cases stop = inl refl
