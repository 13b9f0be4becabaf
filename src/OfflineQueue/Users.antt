-- ===== src/OfflineQueue/Users.antt =====
-- A drain and the users of a device: whose rows it touches, and what holds a queue back.
use spen_drop.Base.{
  ℕ, ◌+◌, ◌≡◌, refl, ◌∙◌, inl, inr, Bool, true, false, List, [], ◌∷◌, some, arith, leb, ◌==◌,
  Bool-cases, any, any-append_miss,
}
use spen_drop.OfflineQueue.Store.{Row, find_row, put}
use spen_drop.OfflineQueue.Keys.{find_row-put_row}
use spen_drop.OfflineQueue.Device.{
  Device, set_at_self, bumped_row, enqueue, remove_queued, purge_queue, bump_attempts,
  get_all_queued, needs_sign_in, mark_needs_sign_in, clear_needs_sign_in,
}
use spen_drop.OfflineQueue.Drain.{
  Answer, accepted, refused, unanswered, Meanwhile, capture, undo, purge, trigger, Turn, Sent, stop,
  max_attempts, act, act_all, settle, replay_row, drain_rows, drain_rows-stop, drain_rows-go,
  Verdict-cases,
}
use spen_drop.OfflineQueue.Replay.{
  World, guarded, take_guard, release, drain_queue, starts, drain_queue_started,
  drain_queue_blocked,
}

module _ {ℓ} {P : Type ℓ} (u v : ℕ) (other : (u == v) ≡ false) where
  -- `v`'s rows and hold are in `e` what they are in `d`, and localStorage works in both or neither.
  abbrev pub Untouched : Device P → Device P → Type ℓ
  Untouched d e =
      (e.stores v ≡ d.stores v) × (e.holds v ≡ d.holds v) × (e.draining v ≡ d.draining v)

  Untouched-trans : (d e f : Device P) → Untouched d e → Untouched e f → Untouched d f
  Untouched-trans d e f (s, h, g) (s', h', g') = (s' ∙ s, h' ∙ h, g' ∙ g)

  act-Untouched : (m : Meanwhile P) (d : Device P) → Untouched d (act u m d)
  unfolding act enqueue remove_queued purge_queue clear_needs_sign_in
  act-Untouched (capture p now) d = ground arith
  act-Untouched (undo id) d = ground arith
  act-Untouched (purge b) d = ground arith
  act-Untouched trigger d = ground arith

  act_all-Untouched : (ms : List (Meanwhile P)) (d : Device P) → Untouched d (act_all u ms d)
  unfolding act_all
  act_all-Untouched [] d = (refl, refl, refl)
  act_all-Untouched (m ∷ ms) d =
      Untouched-trans d (act u m d) (act_all u ms (act u m d)) (act-Untouched m d)
        (act_all-Untouched ms (act u m d))

  settle-Untouched :
      (t : Turn P) (r : Row P) (a : Answer) (d : Device P) → Untouched d (settle u t r a d).device
  unfolding settle remove_queued mark_needs_sign_in bump_attempts
  settle-Untouched t r accepted d = ground arith
  settle-Untouched t r (refused status) d = ground arith
  settle-Untouched t r unanswered d = (refl, refl, refl)

  replay_row-Untouched :
      (t : Turn P) (r : Row P) (d : Device P) → Untouched d (replay_row u t r d).device
  unfolding replay_row
  replay_row-Untouched t r d =
      let e = act_all u t.meanwhile d in
      let done =
        Untouched-trans d e (settle u t r t.answer e).device (act_all-Untouched t.meanwhile d)
          (settle-Untouched t r t.answer e) in
      ground arith

  drain_rows-Untouched :
      (turn : ℕ → Turn P) (i : ℕ) (rs : List (Row P)) (d : Device P)
      → Untouched d (drain_rows u turn i rs d).device
  unfolding drain_rows
  drain_rows-Untouched turn i [] d = (refl, refl, refl)
  drain_rows-Untouched turn i (r ∷ rs) d =
      let a = replay_row u (turn i) r d in
      let once = replay_row-Untouched (turn i) r d in
      let rest = drain_rows-Untouched turn (i + 1) rs a.device in
      elim (Verdict-cases a.verdict) [
        | inl halted ↦ rw (drain_rows-stop u turn i r rs d halted) once
        | inr goes ↦
            rw (drain_rows-go u turn i r rs d goes)
              (Untouched-trans d a.device (drain_rows u turn (i + 1) rs a.device).device once rest)
      ]

  -- A drain for one user leaves another user's rows, hold and drain guard as they were.
  pub drain_queue-Untouched : (w : World P) (d : Device P) → Untouched d (drain_queue u w d).device
  unfolding drain_queue guarded get_all_queued
  drain_queue-Untouched w d =
      let rs = get_all_queued u d in
      let drained = drain_rows-Untouched w.turn 0 rs (take_guard u d) in ground arith

abbrev pub is_unauthorized : Answer → Bool
is_unauthorized accepted = false
is_unauthorized (refused status) = status == 401
is_unauthorized unanswered = false

module _ {ℓ} {P : Type ℓ} where
  abbrev pub unauthorized : List (Sent P) → Bool
  unauthorized = any (λ s. is_unauthorized s.answer)

  module _ (u : ℕ) where
    act_all-storage :
        (ms : List (Meanwhile P)) (d : Device P) → (act_all u ms d).storage ≡ d.storage
    unfolding act_all act enqueue remove_queued purge_queue clear_needs_sign_in
    act_all-storage [] d = refl
    act_all-storage (capture p now ∷ ms) d = act_all-storage ms _
    act_all-storage (undo id ∷ ms) d = act_all-storage ms _
    act_all-storage (purge b ∷ ms) d = act_all-storage ms (act u (purge b) d) ∙ ground arith
    act_all-storage (trigger ∷ ms) d = act_all-storage ms _

    settle-unauthorized :
        (t : Turn P) (r : Row P) (a : Answer) (d : Device P)
        → d.storage ≡ true
        → unauthorized (settle u t r a d).posts ≡ true
        → ((settle u t r a d).verdict ≡ stop) × (needs_sign_in u (settle u t r a d).device ≡ true)
    unfolding settle needs_sign_in mark_needs_sign_in
    settle-unauthorized t r accepted d s h = cc
    settle-unauthorized t r (refused status) d s h = ground arith
    settle-unauthorized t r unanswered d s h = cc

    settle-storage :
        (t : Turn P) (r : Row P) (a : Answer) (d : Device P)
        → (settle u t r a d).device.storage ≡ d.storage
    unfolding settle mark_needs_sign_in remove_queued bump_attempts
    settle-storage t r accepted d = ground arith
    settle-storage t r (refused status) d = ground arith
    settle-storage t r unanswered d = refl

    module _ (t : Turn P) (r : Row P) (d : Device P) where
      replay_row-storage : (replay_row u t r d).device.storage ≡ d.storage
      unfolding replay_row
      replay_row-storage =
          let e = act_all u t.meanwhile d in
          ground (arith, settle-storage t r t.answer e, act_all-storage t.meanwhile d)

      replay_row-unauthorized :
          d.storage ≡ true
          → unauthorized (replay_row u t r d).posts ≡ true
          → ((replay_row u t r d).verdict ≡ stop)
            × (needs_sign_in u (replay_row u t r d).device ≡ true)
      unfolding replay_row
      replay_row-unauthorized s h =
          let e = act_all u t.meanwhile d in
          ground (arith, settle-unauthorized t r t.answer e, act_all-storage t.meanwhile d)

    drain_rows-unauthorized :
        (turn : ℕ → Turn P) (i : ℕ) (rs : List (Row P)) (d : Device P)
        → d.storage ≡ true
        → unauthorized (drain_rows u turn i rs d).posts ≡ true
        → needs_sign_in u (drain_rows u turn i rs d).device ≡ true
    unfolding drain_rows
    drain_rows-unauthorized turn i [] d s h = cc
    drain_rows-unauthorized turn i (r ∷ rs) d s h =
        let a = replay_row u (turn i) r d in
        let rest = drain_rows u turn (i + 1) rs a.device in
        let s' = replay_row-storage (turn i) r d ∙ s in
        elim (Verdict-cases a.verdict) [
          | inl halted ↦
              let stopped = drain_rows-stop u turn i r rs d halted in
              rw stopped (replay_row-unauthorized (turn i) r d s (rw stopped at h)).1
          | inr goes ↦
              let joint = drain_rows-go u turn i r rs d goes in
              elim (Bool-cases (unauthorized a.posts)) [
                | inl here ↦ cc (goes, (replay_row-unauthorized (turn i) r d s here).0)
                | inr miss ↦
                    let there = rw (joint, any-append_miss _ a.posts rest.posts miss) at h in
                    rw joint (drain_rows-unauthorized turn (i + 1) rs a.device s' there)
              ]
        ]

    pub drain_queue_of_held :
        (w : World P) (d : Device P) → needs_sign_in u d ≡ true → (drain_queue u w d).posts ≡ []
    unfolding drain_queue
    drain_queue_of_held w d h = ground arith

    release-needs_sign_in : (d : Device P) → needs_sign_in u (release u d) ≡ needs_sign_in u d
    unfolding needs_sign_in
    release-needs_sign_in d = refl

    -- Once the server has answered 401 in a drain, no later drain posts anything for that user,
    -- whatever the world does, until something clears the hold; this where localStorage works.
    pub drain_queue-held :
        (w w' : World P) (d : Device P)
        → d.storage ≡ true
        → unauthorized (drain_queue u w d).posts ≡ true
        → (drain_queue u w' (drain_queue u w d).device).posts ≡ []
    unfolding guarded get_all_queued
    drain_queue-held w w' d s h =
        let rs = get_all_queued u d in
        let drained = drain_rows u w.turn 0 rs (take_guard u d) in
        elim (Bool-cases (starts u w d)) [
          | inl goes ↦
              let begun = drain_queue_started u w d goes in
              elim (Bool-cases w.listed) [
                | inl listed ↦
                    let refusals = rw (begun, listed) at h in
                    let held = drain_rows-unauthorized w.turn 0 rs (take_guard u d) s refusals in
                    rw (begun, listed)
                      (drain_queue_of_held w' (release u drained.device)
                        (release-needs_sign_in drained.device ∙ held))
                | inr failed ↦ cc (rw (begun, failed) at h)
              ]
          | inr blocked ↦ elim (drain_queue_blocked u w d blocked) [
            | inl e ↦ cc (rw e at h)
            | inr e ↦ cc (rw e at h)
          ]
        ]

-- A row that is undone while its POST is under way comes back: when the server then refuses it, for
-- any reason but 401, the row is in the queue again, with one more attempt.
pub undo_resurrected {ℓ} :
    {P : Type ℓ} (u status : ℕ) (r : Row P) (t : Turn P) (d : Device P)
    → t.offline ≡ false
    → t.bumped ≡ true
    → leb max_attempts r.attempts ≡ false
    → (status == 401) ≡ false
    → t.answer ≡ refused status
    → t.meanwhile ≡ undo r.id ∷ []
    → find_row r.id ((replay_row u t r d).device.stores u).rows ≡ some (bumped_row r)
unfolding replay_row settle bump_attempts put
undo_resurrected u status r t d on stored below row refusal undone =
    let e = act_all u t.meanwhile d in
    let same : (r.id == r.id) ≡ true = ground arith in
    simp (on, below, refusal, row, stored)
      (rw (
        set_at_self e.stores u (put (bumped_row r) (e.stores u)),
        find_row-put_row r.id (bumped_row r) (e.stores u).rows,
        same,
      ))
