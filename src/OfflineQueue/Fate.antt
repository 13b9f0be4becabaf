-- ===== src/OfflineQueue/Fate.antt =====
-- What becomes of a queued row in a drain: accepted by the server, or still in the queue.
use mathlib.Core.Path.{subst}
use spen_drop.Base.{
  ℕ, ◌+◌, ◌≤◌, ◌≡◌, inl, inr, Bool, true, false, List, [], ◌∷◌, ◌++◌, some, arith, leb, ◌==◌,
  Bool-cases, All, all, any-append_left, any-append_right,
}
use spen_drop.OfflineQueue.Store.{Row, find_row, sort_rows}
use spen_drop.OfflineQueue.Keys.{found_is_only}
use spen_drop.OfflineQueue.Sorted.{All-sort_rows}
use spen_drop.OfflineQueue.Device.{Device, bumped_row, remove_queued, bump_attempts, get_all_queued}
use spen_drop.OfflineQueue.Drain.{
  Answer, accepted, refused, unanswered, Turn, Sent, max_attempts, act_all, settle, replay_row,
  drain_rows, drain_rows-stop, drain_rows-go, Verdict-cases,
}
use spen_drop.OfflineQueue.Replay.{
  World, guarded, take_guard, drain_queue, starts, drain_queue_started, drain_queue_blocked,
}
use spen_drop.OfflineQueue.Safety.{
  IsSafe, replay_row-IsSafe, keys_positive, mark_needs_sign_in-stores,
}
use spen_drop.OfflineQueue.Queued.{
  rejected_in, spares, Queued, Fate, remove_queued-Queued, bump_attempts-Queued,
  bump_attempts-Queued_self, act_all-Queued,
}

module _ {ℓ} {P : Type ℓ} where
  module _ (u k : ℕ) (r : Row P) where
    bump_attempts-Fate :
        (b : Bool) (item : Row P) (status : ℕ) (x : Row P) (d : Device P)
        → (status == 401) ≡ false
        → (item.id ≡ k → item ≡ r)
        → Queued u k r x d
        → Fate u k r x
            (record { row = item; answer = refused status } ∷ [])
            (bump_attempts u item b d).0
    unfolding bump_attempts
    bump_attempts-Fate b item status x d row only q = elim (Bool-cases (item.id == k)) [
      | inl same ↦ elim (Bool-cases b) [
        | inl stored ↦
            let counted = bump_attempts-Queued_self u k r item d same in
            let now : Queued u k r (bumped_row r) (bump_attempts u item b d).0 = rw stored (
              subst (λ y. Queued u k r (bumped_row y) (bump_attempts u item true d).0)
                (only (ground arith)) counted) in
            inr (inr (now, rw (same, row)))
        | inr failed ↦ inr (inl (rw (failed, bump_attempts) q))
      ]
      | inr other ↦ inr (inl (bump_attempts-Queued u k r item b x d other q))
    ]

    settle-Fate :
        (t : Turn P) (item : Row P) (a : Answer) (x : Row P) (d : Device P)
        → (item.id ≡ k → item ≡ r)
        → Queued u k r x d
        → Fate u k r x (settle u t item a d).posts (settle u t item a d).device
    unfolding settle remove_queued bump_attempts
    settle-Fate t item accepted x d only q = elim (Bool-cases (item.id == k)) [
      | inl same ↦ inl (rw same)
      | inr other ↦ inr (inl (remove_queued-Queued u k r item.id t.removed x d other q))
    ]
    settle-Fate t item (refused status) x d only q = elim (Bool-cases (status == 401)) [
      | inl session ↦ inr (inl (rw (session, mark_needs_sign_in-stores u d) q))
      | inr about_row ↦ rw about_row (bump_attempts-Fate t.bumped item status x d about_row only q)
    ]
    settle-Fate t item unanswered x d only q = inr (inl q)

    replay_row-Fate :
        (t : Turn P) (item : Row P) (x : Row P) (d : Device P)
        → IsSafe d
        → all (spares k) t.meanwhile ≡ true
        → (item.id ≡ k → item ≡ r)
        → Queued u k r x d
        → Fate u k r x (replay_row u t item d).posts (replay_row u t item d).device
    unfolding replay_row
    replay_row-Fate t item x d safe s only q = elim (Bool-cases t.offline) [
      | inl off ↦ rw off (inr (inl q))
      | inr on ↦ elim (Bool-cases (leb max_attempts item.attempts)) [
        | inl dead ↦ rw (on, dead) (inr (inl q))
        | inr live ↦
            simp (on, live)
              (settle-Fate t item t.answer x (act_all u t.meanwhile d) only
                (act_all-Queued u k r t.meanwhile x d safe s q))
      ]
    ]

    Fate-later :
        (x : Row P) (posts later : List (Sent P)) (d : Device P)
        → Fate u k r x later d
        → Fate u k r x (posts ++ later) d
    Fate-later x posts later d (inl done) = inl (any-append_right _ posts later done)
    Fate-later x posts later d (inr (inl q)) = inr (inl q)
    Fate-later x posts later d (inr (inr (q, bad))) =
        inr (inr (q, any-append_right _ posts later bad))

    Fate-counted :
        (x : Row P) (posts later : List (Sent P)) (d : Device P)
        → rejected_in k posts ≡ true
        → Fate u k r (bumped_row r) later d
        → Fate u k r x (posts ++ later) d
    Fate-counted x posts later d bad (inl done) = inl (any-append_right _ posts later done)
    Fate-counted x posts later d bad (inr (inl q)) =
        inr (inr (q, any-append_left _ posts later bad))
    Fate-counted x posts later d bad (inr (inr (q, _))) =
        inr (inr (q, any-append_left _ posts later bad))

    -- a round, and then the rounds after it
    Fate-join :
        (x : Row P) (posts later : List (Sent P)) (d d' : Device P)
        → ((y : Row P) → Queued u k r y d → Fate u k r y later d')
        → Fate u k r x posts d
        → Fate u k r x (posts ++ later) d'
    Fate-join x posts later d d' next (inl done) = inl (any-append_left _ posts later done)
    Fate-join x posts later d d' next (inr (inl q)) = Fate-later x posts later d' (next x q)
    Fate-join x posts later d d' next (inr (inr (q, bad))) =
        Fate-counted x posts later d' bad (next (bumped_row r) q)

    drain_rows-Fate :
        (turn : ℕ → Turn P) (i : ℕ) (rs : List (Row P)) (x : Row P) (d : Device P)
        → IsSafe d
        → ((j : ℕ) → all (spares k) (turn j).meanwhile ≡ true)
        → All (λ item. 1 ≤ item.id) rs
        → All (λ item. item.id ≡ k → item ≡ r) rs
        → Queued u k r x d
        → Fate u k r x (drain_rows u turn i rs d).posts (drain_rows u turn i rs d).device
    unfolding drain_rows
    drain_rows-Fate turn i [] x d safe s pos only q = inr (inl q)
    drain_rows-Fate turn i (item ∷ rs) x d safe s pos only q =
        let a = replay_row u (turn i) item d in
        let once = replay_row-Fate (turn i) item x d safe (s i) only.0 q in
        let safe' = replay_row-IsSafe u (turn i) item d pos.0 safe in
        let next = λ (y : Row P). drain_rows-Fate turn (i + 1) rs y a.device safe' s pos.1 only.1 in
        let later = drain_rows u turn (i + 1) rs a.device in
        elim (Verdict-cases a.verdict) [
          | inl halted ↦ rw (drain_rows-stop u turn i item rs d halted) once
          | inr goes ↦
              rw (drain_rows-go u turn i item rs d goes)
                (Fate-join x a.posts later.posts a.device later.device next once)
        ]

  -- On a device whose stores are sound, a row that is queued when a drain starts, and that the user
  -- neither undoes nor purges while the drain runs, is afterwards accepted by the server, or still queued as it was, or still queued with
  -- one more attempt, and that only if the server refused this very row with a status other than
  -- 401. So an unreachable server never costs a row an attempt.
  pub drain_queue-Fate :
      (u : ℕ) (w : World P) (d : Device P) (k : ℕ) (r : Row P)
      → IsSafe d
      → ((j : ℕ) → all (spares k) (w.turn j).meanwhile ≡ true)
      → find_row k (d.stores u).rows ≡ some r
      → Fate u k r r (drain_queue u w d).posts (drain_queue u w d).device
  unfolding guarded get_all_queued
  drain_queue-Fate u w d k r safe s q =
      let rs = (d.stores u).rows in
      let keyed = (safe u).keyed in
      let positive = All-sort_rows _ rs (keys_positive 1 _ rs (omega arith) keyed) in
      let only = All-sort_rows _ rs (found_is_only k 1 _ r rs keyed q) in
      let drained =
        drain_rows-Fate u k r w.turn 0 (sort_rows rs) r (take_guard u d) safe s positive only q in
      elim (Bool-cases (starts u w d)) [
        | inl goes ↦ elim (Bool-cases w.listed) [
          | inl listed ↦ rw (drain_queue_started u w d goes, listed) drained
          | inr failed ↦ rw (drain_queue_started u w d goes, failed) (inr (inl q))
        ]
        | inr blocked ↦ elim (drain_queue_blocked u w d blocked) [
          | inl e ↦ rw e (inr (inl q))
          | inr e ↦ rw e (inr (inl q))
        ]
      ]
