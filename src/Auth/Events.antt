-- ===== src/Auth/Events.antt =====
-- web/src/hooks/useAuth.tsx, web/src/hooks/useOfflineSync.ts and web/src/components/ProtectedRoute.tsx:
-- the provider under any sequence of what the user, the browser and the server do.
use spen_drop.Base.{
  ℕ, zero, suc, Bool, not, ◌&&◌, ◌||◌, Option, none, some, List, [], ◌∷◌, if◌then◌else◌,
}
use spen_drop.ApiClient.Outcome.{Outcome}
use spen_drop.LastUser.Remembered.{User}
use spen_drop.OfflineQueue.Drain.{Sent}
use spen_drop.OfflineQueue.Replay.{World, drain_queue}
use spen_drop.Auth.Session.{
  Provider, Probe, id_of, is_some, verify_session, refresh_user, probe_answered, signed_in, logout,
  purge_captured, signed_out,
}

pub data Event {ℓ} (P : Type ℓ) : Type ℓ where
  mounted came_online : Event P
  visibility_changed : (hidden : Bool) → Event P
  asked_again : Event P
  -- the answer to the `i`-th request for `auth/me` that is under way
  answered : (i : ℕ) → Outcome (User ℕ) → Event P
  entered : Outcome (User ℕ) → Event P
  leave_pressed : Event P
  -- the `i`-th logout purges its queue; whether the database was deleted
  torn_down : (i : ℕ) (deleted : Bool) → Event P
  closed : Event P
  -- `useOfflineSync` runs
  synced : World P → Event P

-- the `i`-th element and the others
abbrev pub pluck {ℓ} : {A : Type ℓ} → ℕ → List A → Option (A × List A)
pluck i [] = none
pluck zero (x ∷ xs) = some (x, xs)
pluck (suc i) (x ∷ xs) = elim (pluck i xs) [ none ↦ none | some (y, ys) ↦ some (y, x ∷ ys) ]

module _ {ℓ} {P : Type ℓ} where
  abbrev pub retry : Provider P → Provider P
  retry s = if s.unverified then verify_session s else s

  unfoldable pub deliver : Option (Probe × List Probe) → Outcome (User ℕ) → Provider P → Provider P
  unfolding probe_answered
  deliver none answer s = s
  deliver (some (probe, others)) answer s =
      probe_answered probe answer (record s { asked = others })

  unfoldable pub tear_down : Option (Option ℕ × List (Option ℕ)) → Bool → Provider P → Provider P
  unfolding purge_captured
  tear_down none deleted s = s
  tear_down (some (uid, others)) deleted s = record s {
    device = purge_captured uid deleted s.device;
    leaving = others;
    closing = suc s.closing;
  }

  unfoldable pub close : ℕ → Provider P → Provider P
  unfolding signed_out
  close zero s = s
  close (suc n) s = signed_out (record s { closing = n })

  -- `userId !== undefined && !unverified`
  abbrev pub can_sync : Provider P → Bool
  can_sync s = is_some s.user && not s.unverified

  unfoldable pub sync_as : Option ℕ → Bool → World P → Provider P → Provider P
  unfolding drain_queue
  sync_as none may w s = s
  sync_as (some uid) may w s =
      if may then record s { device = (drain_queue uid w s.device).device } else s

  -- what a run of `useOfflineSync` posts
  unfoldable pub sync_posts : Option ℕ → Bool → World P → Provider P → List (Sent P)
  unfolding drain_queue
  sync_posts none may w s = []
  sync_posts (some uid) may w s = if may then (drain_queue uid w s.device).posts else []

  unfoldable pub step : Event P → Provider P → Provider P
  unfolding verify_session refresh_user deliver signed_in logout tear_down close sync_as
  step mounted s = verify_session s
  step came_online s = retry s
  step (visibility_changed hidden) s = if hidden then s else retry s
  step asked_again s = refresh_user s
  step (answered i answer) s = deliver (pluck i s.asked) answer s
  step (entered answer) s = signed_in answer s
  step leave_pressed s = logout s
  step (torn_down i deleted) s = tear_down (pluck i s.leaving) deleted s
  step closed s = close s.closing s
  step (synced w) s = sync_as (id_of s.user) (can_sync s) w s

  unfoldable pub run : List (Event P) → Provider P → Provider P
  unfolding step
  run [] s = s
  run (e ∷ es) s = run es (step e s)

pub data Route : Type 0 where
  splash sign_in content : Route

-- what a `ProtectedRoute` shows
unfoldable pub route {ℓ} : {P : Type ℓ} → Bool → Provider P → Route
route allow_unverified s =
    if s.loading
    then splash
    else if not (is_some s.user) || (s.unverified && not allow_unverified)
    then sign_in
    else content
