-- ===== src/OfflineQueue/Order.antt =====
-- What a drain sends: rows below the attempt cap, oldest first, none skipped.
use mathlib.Core.List.{Perm}
use spen_drop.Base.{
  ℕ, suc, ◌+◌, ◌≡◌, refl, inl, inr, Bool, true, false, not, List, [], ◌∷◌, map, map-append, arith,
  ltb, ◌==◌, take, keep, Bool-cases,
}
use spen_drop.OfflineQueue.Store.{Row, sort_rows}
use spen_drop.OfflineQueue.Sorted.{IsFifo, sort_rows-IsFifo, sort_rows-perm}
use spen_drop.OfflineQueue.Device.{Device, get_all_queued}
use spen_drop.OfflineQueue.Drain.{
  Answer, accepted, refused, unanswered, Turn, Sent, go, stop, max_attempts, act_all, settle,
  replay_row, drain_rows, drain_rows-stop, drain_rows-go, Verdict-cases,
}
use spen_drop.OfflineQueue.Replay.{
  World, drain_queue, guarded, take_guard, starts, drain_queue_started, drain_queue_blocked,
}

-- whether an answer lets the loop move on to the next row
abbrev pub moves_on : Answer → Bool
moves_on accepted = true
moves_on (refused status) = not (status == 401)
moves_on unanswered = false

module _ {ℓ} {P : Type ℓ} where
  abbrev pub rows_of : List (Sent P) → List (Row P)
  rows_of = map (λ s. s.row)

  -- the rows that the cap does not exclude
  abbrev pub replayable : List (Row P) → List (Row P)
  replayable = keep (λ r. ltb r.attempts max_attempts)

  settle-posts :
      (u : ℕ) (t : Turn P) (r : Row P) (a : Answer) (d : Device P)
      → (settle u t r a d).posts ≡ record { row = r; answer = a } ∷ []
  unfolding settle
  settle-posts u t r accepted d = ground arith
  settle-posts u t r (refused status) d = ground arith
  settle-posts u t r unanswered d = refl

  module _ (u : ℕ) (t : Turn P) (r : Row P) (d : Device P) where
    replay_row-posts :
        ltb r.attempts max_attempts ≡ true
        → t.offline ≡ false
        → rows_of (replay_row u t r d).posts ≡ r ∷ []
    unfolding replay_row
    replay_row-posts live on = ground (arith, settle-posts u t r t.answer (act_all u t.meanwhile d))

    replay_row_offline :
        t.offline ≡ true
        → (rows_of (replay_row u t r d).posts ≡ []) × ((replay_row u t r d).verdict ≡ stop)
    unfolding replay_row
    replay_row_offline off = ground arith

    replay_row_capped :
        ltb r.attempts max_attempts ≡ false
        → t.offline ≡ false
        → (rows_of (replay_row u t r d).posts ≡ []) × ((replay_row u t r d).verdict ≡ go)
    unfolding replay_row
    replay_row_capped dead on = ground arith

  drain_rows-posts :
      (u : ℕ) (turn : ℕ → Turn P) (i : ℕ) (rs : List (Row P)) (d : Device P)
      → (n : ℕ) × (rows_of (drain_rows u turn i rs d).posts ≡ take n (replayable rs))
  unfolding drain_rows
  drain_rows-posts u turn i [] d = (0, refl)
  drain_rows-posts u turn i (r ∷ rs) d =
      let a = replay_row u (turn i) r d in
      let (n, rest) = drain_rows-posts u turn (i + 1) rs a.device in
      elim (Bool-cases (turn i).offline) [
        | inl off ↦
            let (sent, halted) = replay_row_offline u (turn i) r d off in
            (0, rw (drain_rows-stop u turn i r rs d halted, sent))
        | inr on ↦ elim (Bool-cases (ltb r.attempts max_attempts)) [
          | inl live ↦
              let sent = replay_row-posts u (turn i) r d live on in
              elim (Verdict-cases a.verdict) [
                | inl halted ↦ (1, rw (drain_rows-stop u turn i r rs d halted, sent, live))
                | inr goes ↦
                    (suc n, rw (drain_rows-go u turn i r rs d goes, map-append, sent, rest, live))
              ]
          | inr dead ↦
              let (sent, goes) = replay_row_capped u (turn i) r d dead on in
              (n, rw (drain_rows-go u turn i r rs d goes, map-append, sent, rest, dead))
        ]
      ]

  -- A turn that gives the loop no reason to stop: online, judged by the server with something other
  -- than 401, and IndexedDB working.
  pub record IsSmooth (t : Turn P) : Type 0 where
    pub online : t.offline ≡ false
    pub judged : moves_on t.answer ≡ true
    pub removes : t.removed ≡ true
    pub bumps : t.bumped ≡ true

  settle-go :
      (u : ℕ) (t : Turn P) (r : Row P) (a : Answer) (d : Device P)
      → moves_on a ≡ true
      → t.removed ≡ true
      → t.bumped ≡ true
      → (settle u t r a d).verdict ≡ go
  unfolding settle
  settle-go u t r accepted d m x b = ground arith
  settle-go u t r (refused status) d m x b = ground arith
  settle-go u t r unanswered d m x b = cc

  replay_row-go :
      (u : ℕ) (t : Turn P) (r : Row P) (d : Device P)
      → IsSmooth t
      → (replay_row u t r d).verdict ≡ go
  unfolding replay_row
  replay_row-go u t r d s =
      let next = settle-go u t r t.answer (act_all u t.meanwhile d) s.judged s.removes s.bumps in
      ground arith

  drain_rows-posts_smooth :
      (u : ℕ) (turn : ℕ → Turn P) (i : ℕ) (rs : List (Row P)) (d : Device P)
      → ((k : ℕ) → IsSmooth (turn k))
      → rows_of (drain_rows u turn i rs d).posts ≡ replayable rs
  unfolding drain_rows
  drain_rows-posts_smooth u turn i [] d s = refl
  drain_rows-posts_smooth u turn i (r ∷ rs) d s =
      let a = replay_row u (turn i) r d in
      let rest = drain_rows-posts_smooth u turn (i + 1) rs a.device s in
      let goes = replay_row-go u (turn i) r d (s i) in
      let on = (s i).online in
      elim (Bool-cases (ltb r.attempts max_attempts)) [
        | inl live ↦
            let sent = replay_row-posts u (turn i) r d live on in
            rw (drain_rows-go u turn i r rs d goes, map-append, sent, rest, live)
        | inr dead ↦
            let (sent, _) = replay_row_capped u (turn i) r d dead on in
            rw (drain_rows-go u turn i r rs d goes, map-append, sent, rest, dead)
      ]

  -- What a drain posts is an initial part of the rows below the attempt cap, in the order of the
  -- snapshot: no such row is skipped, none is posted twice. The snapshot holds the user's rows,
  -- oldest capture first, the smaller key first within a millisecond.
  pub drain_queue-posts-IsFifo :
      (u : ℕ) (w : World P) (d : Device P)
      → (n : ℕ) × (rows_of (drain_queue u w d).posts ≡ take n (replayable (get_all_queued u d)))
        × IsFifo (get_all_queued u d)
        × Perm (get_all_queued u d) (d.stores u).rows
  unfolding guarded get_all_queued
  drain_queue-posts-IsFifo u w d =
      let rs = (d.stores u).rows in
      let (n, sent) = drain_rows-posts u w.turn 0 (sort_rows rs) (take_guard u d) in
      let sorted = sort_rows-IsFifo rs in
      let perm = sort_rows-perm rs in
      elim (Bool-cases (starts u w d)) [
        | inl goes ↦ elim (Bool-cases w.listed) [
          | inl listed ↦ (n, rw (drain_queue_started u w d goes, listed) sent, sorted, perm)
          | inr failed ↦ (0, rw (drain_queue_started u w d goes, failed), sorted, perm)
        ]
        | inr blocked ↦ elim (drain_queue_blocked u w d blocked) [
          | inl e ↦ (0, rw e, sorted, perm)
          | inr e ↦ (0, rw e, sorted, perm)
        ]
      ]

  -- Where a drain starts and no turn gives it a reason to stop, every row below the cap is posted,
  -- also behind rows that the server keeps refusing.
  pub drain_queue-posts_all :
      (u : ℕ) (w : World P) (d : Device P)
      → starts u w d ≡ true
      → w.listed ≡ true
      → ((k : ℕ) → IsSmooth (w.turn k))
      → rows_of (drain_queue u w d).posts ≡ replayable (get_all_queued u d)
  unfolding guarded get_all_queued
  drain_queue-posts_all u w d goes listed s =
      rw (drain_queue_started u w d goes, listed)
        (drain_rows-posts_smooth u w.turn 0 (sort_rows (d.stores u).rows) (take_guard u d) s)
