-- ===== src/OfflineQueue/Safety.antt =====
-- What every operation on the queue keeps: distinct keys below the generator and the attempt cap,
-- in the store of every user.
use spen_drop.Base.{
  ℕ, suc, ◌+◌, ◌≤◌, ◌<◌, ◌≡◌, inl, inr, Bool, true, false, List, [], ◌∷◌, arith, leb, ◌==◌,
  Bool-cases, All, All-append, All-keep,
}
use spen_drop.OfflineQueue.Store.{
  Row, Store, fresh, new_row, add, put, put_row, delete_row, sort_rows,
}
use spen_drop.OfflineQueue.Keys.{Keyed, IsKeyed, add-IsKeyed, put-IsKeyed, Keyed-delete_row}
use spen_drop.OfflineQueue.Sorted.{All-sort_rows}
use spen_drop.OfflineQueue.Device.{
  Device, with_store, bumped_row, enqueue, remove_queued, purge_queue, bump_attempts,
  get_all_queued, mark_needs_sign_in, clear_needs_sign_in,
}
use spen_drop.OfflineQueue.Drain.{
  Answer, accepted, refused, unanswered, Meanwhile, capture, undo, purge, trigger, Turn,
  max_attempts, act, act_all, settle, replay_row, drain_rows, drain_rows-stop, drain_rows-go,
  Verdict-cases,
}
use spen_drop.OfflineQueue.Replay.{
  World, guarded, take_guard, drain_queue, starts, drain_queue_started, drain_queue_blocked,
}

module _ {ℓ} {P : Type ℓ} where
  pub record StoreOk (s : Store P) : Type 0 where
    pub keyed : IsKeyed s
    pub capped : All (λ (r : Row P). r.attempts ≤ max_attempts) s.rows

  abbrev pub IsSafe : Device P → Type 0
  IsSafe d = (v : ℕ) → StoreOk (d.stores v)

  pub fresh-StoreOk : StoreOk fresh
  fresh-StoreOk = record { keyed = omega arith; capped = tt }

  add-StoreOk : (p : P) (now : ℕ) (s : Store P) → StoreOk s → StoreOk (add p now s)
  unfolding add
  add-StoreOk p now s h = record {
    keyed = unfold add in add-IsKeyed p now s h.keyed;
    capped = All-append _ s.rows (new_row p now s ∷ []) h.capped (omega arith, tt);
  }

  delete_row-StoreOk :
      (k : ℕ) (s : Store P) → StoreOk s → StoreOk (record s { rows = delete_row k s.rows })
  delete_row-StoreOk k s h = record {
    keyed = Keyed-delete_row k 1 s.next_key s.rows h.keyed;
    capped = unfold delete_row in All-keep _ _ s.rows h.capped;
  }

  All-put_row :
      (r : Row P) (xs : List (Row P))
      → r.attempts ≤ max_attempts
      → All (λ x. x.attempts ≤ max_attempts) xs
      → All (λ x. x.attempts ≤ max_attempts) (put_row r xs)
  unfolding put_row
  All-put_row r [] h k = (h, tt)
  All-put_row r (x ∷ xs) h k = ground (arith, All-put_row r xs h k.1)

  put-StoreOk :
      (r : Row P) (s : Store P)
      → 1 ≤ r.id
      → r.attempts ≤ max_attempts
      → StoreOk s
      → StoreOk (put r s)
  put-StoreOk r s i c h = record {
    keyed = put-IsKeyed r s i h.keyed;
    capped = unfold put in All-put_row r s.rows c h.capped;
  }

  with_store-IsSafe :
      (u : ℕ) (s : Store P) (d : Device P) → StoreOk s → IsSafe d → IsSafe (with_store u s d)
  with_store-IsSafe u s d ok h v = elim (Bool-cases (u == v)) [
    | inl same ↦ rw same ok
    | inr other ↦ rw other (h v)
  ]

  pub enqueue-IsSafe :
      (u : ℕ) (p : P) (now : ℕ) (b : Bool) (d : Device P)
      → IsSafe d
      → IsSafe (enqueue u p now b d).0
  unfolding enqueue
  enqueue-IsSafe u p now true d h = with_store-IsSafe u _ d (add-StoreOk p now (d.stores u) (h u)) h
  enqueue-IsSafe u p now false d h = h

  pub remove_queued-IsSafe :
      (u id : ℕ) (b : Bool) (d : Device P) → IsSafe d → IsSafe (remove_queued u id b d).0
  unfolding remove_queued
  remove_queued-IsSafe u id true d h =
      with_store-IsSafe u _ d (delete_row-StoreOk id (d.stores u) (h u)) h
  remove_queued-IsSafe u id false d h = h

  pub clear_needs_sign_in-stores :
      (u : ℕ) (d : Device P) → (clear_needs_sign_in u d).stores ≡ d.stores
  unfolding clear_needs_sign_in
  clear_needs_sign_in-stores u d = ground arith

  pub mark_needs_sign_in-stores :
      (u : ℕ) (d : Device P) → (mark_needs_sign_in u d).stores ≡ d.stores
  unfolding mark_needs_sign_in
  mark_needs_sign_in-stores u d = ground arith

  pub purge_queue-IsSafe : (u : ℕ) (b : Bool) (d : Device P) → IsSafe d → IsSafe (purge_queue u b d)
  unfolding purge_queue
  purge_queue-IsSafe u true d h =
      rw (clear_needs_sign_in-stores u (with_store u fresh d))
        (with_store-IsSafe u fresh d fresh-StoreOk h)
  purge_queue-IsSafe u false d h = rw (clear_needs_sign_in-stores u d) h

  bump_attempts-IsSafe :
      (u : ℕ) (r : Row P) (b : Bool) (d : Device P)
      → 1 ≤ r.id
      → r.attempts < max_attempts
      → IsSafe d
      → IsSafe (bump_attempts u r b d).0
  unfolding bump_attempts
  bump_attempts-IsSafe u r true d i c h =
      with_store-IsSafe u _ d (put-StoreOk (bumped_row r) (d.stores u) i (omega arith) (h u)) h
  bump_attempts-IsSafe u r false d i c h = h

  pub act-IsSafe : (u : ℕ) (m : Meanwhile P) (d : Device P) → IsSafe d → IsSafe (act u m d)
  unfolding act
  act-IsSafe u (capture p now) d h = enqueue-IsSafe u p now true d h
  act-IsSafe u (undo id) d h = remove_queued-IsSafe u id true d h
  act-IsSafe u (purge b) d h = purge_queue-IsSafe u b d h
  act-IsSafe u trigger d h = h

  act_all-IsSafe :
      (u : ℕ) (ms : List (Meanwhile P)) (d : Device P) → IsSafe d → IsSafe (act_all u ms d)
  unfolding act_all
  act_all-IsSafe u [] d h = h
  act_all-IsSafe u (m ∷ ms) d h = act_all-IsSafe u ms (act u m d) (act-IsSafe u m d h)

  settle-IsSafe :
      (u : ℕ) (t : Turn P) (r : Row P) (a : Answer) (d : Device P)
      → 1 ≤ r.id
      → r.attempts < max_attempts
      → IsSafe d
      → IsSafe (settle u t r a d).device
  unfolding settle
  settle-IsSafe u t r accepted d i c h = remove_queued-IsSafe u r.id t.removed d h
  settle-IsSafe u t r (refused status) d i c h = elim (Bool-cases (status == 401)) [
    | inl rejected ↦ rw (rejected, mark_needs_sign_in-stores u d) h
    | inr other ↦ rw other (bump_attempts-IsSafe u r t.bumped d i c h)
  ]
  settle-IsSafe u t r unanswered d i c h = h

  pub replay_row-IsSafe :
      (u : ℕ) (t : Turn P) (r : Row P) (d : Device P)
      → 1 ≤ r.id
      → IsSafe d
      → IsSafe (replay_row u t r d).device
  unfolding replay_row
  replay_row-IsSafe u t r d i h = elim (Bool-cases t.offline) [
    | inl off ↦ rw off h
    | inr on ↦ elim (Bool-cases (leb max_attempts r.attempts)) [
      | inl dead ↦ rw (on, dead) h
      | inr live ↦
          let below : r.attempts < max_attempts = ground arith in
          let meanwhile = act_all-IsSafe u t.meanwhile d h in
          simp (on, live) (settle-IsSafe u t r t.answer (act_all u t.meanwhile d) i below meanwhile)
    ]
  ]

  drain_rows-IsSafe :
      (u : ℕ) (turn : ℕ → Turn P) (i : ℕ) (rs : List (Row P)) (d : Device P)
      → All (λ r. 1 ≤ r.id) rs
      → IsSafe d
      → IsSafe (drain_rows u turn i rs d).device
  unfolding drain_rows
  drain_rows-IsSafe u turn i [] d k h = h
  drain_rows-IsSafe u turn i (r ∷ rs) d k h =
      let a = replay_row u (turn i) r d in
      let once = replay_row-IsSafe u (turn i) r d k.0 h in
      let rest = drain_rows-IsSafe u turn (i + 1) rs a.device k.1 once in
      elim (Verdict-cases a.verdict) [
        | inl halted ↦ rw (drain_rows-stop u turn i r rs d halted) once
        | inr goes ↦ rw (drain_rows-go u turn i r rs d goes) rest
      ]

  pub keys_positive :
      (lo hi : ℕ) (rs : List (Row P)) → 1 ≤ lo → Keyed lo hi rs → All (λ r. 1 ≤ r.id) rs
  keys_positive lo hi [] l h = tt
  keys_positive lo hi (r ∷ rs) l h = (omega arith, keys_positive (suc r.id) hi rs (omega arith) h.1)

  pub drain_queue-IsSafe :
      (u : ℕ) (w : World P) (d : Device P) → IsSafe d → IsSafe (drain_queue u w d).device
  unfolding guarded get_all_queued
  drain_queue-IsSafe u w d h =
      let rs = (d.stores u).rows in
      let positive =
        All-sort_rows (λ r. 1 ≤ r.id) rs (keys_positive 1 _ rs (omega arith) (h u).keyed) in
      let ended = drain_rows-IsSafe u w.turn 0 (sort_rows rs) (take_guard u d) positive h in
      elim (Bool-cases (starts u w d)) [
        | inl goes ↦ elim (Bool-cases w.listed) [
          | inl listed ↦ rw (drain_queue_started u w d goes, listed) ended
          | inr failed ↦ rw (drain_queue_started u w d goes, failed) h
        ]
        | inr blocked ↦ elim (drain_queue_blocked u w d blocked) [ inl e ↦ rw e h | inr e ↦ rw e h ]
      ]
