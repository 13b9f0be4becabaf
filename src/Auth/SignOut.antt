-- ===== src/Auth/SignOut.antt =====
-- web/src/hooks/useAuth.tsx: a sign-out is final until somebody signs in or asks again.
use spen_drop.Base.{
  ℕ, zero, suc, ◌+◌, ◌<◌, ◌≤◌, Bool, true, false, Option, none, some, List, [], ◌∷◌, All, All-imp,
  ◌==◌, ◌≡◌, refl, if◌then◌else◌, arith,
}
use spen_drop.ApiClient.Outcome.{Outcome, returned, api_error, network_error, malformed}
use spen_drop.LastUser.Remembered.{User, read_remembered_user-IsPlain}
use spen_drop.OfflineQueue.Replay.{World}
use spen_drop.Auth.Session.{
  Provider, Probe, verifying, refreshing, is_id, id_of, remembered, probe_answered, signed_in,
  verify_session, logout, signed_out,
}
use spen_drop.Auth.Events.{
  Event, mounted, came_online, visibility_changed, asked_again, answered, entered, leave_pressed,
  torn_down, closed, synced, pluck, deliver, tear_down, close, sync_as, can_sync, step, run,
}
use spen_drop.Auth.Epoch.{epoch_of, InTime, Plucked, pluck-Plucked, run-InTime}

-- Nobody asks `auth/me` anew in this event, and nobody's sign-in succeeds.
abbrev pub Quiet {ℓ} : {P : Type ℓ} → Event P → Type 0
Quiet mounted = ⊥
Quiet asked_again = ⊥
Quiet (entered (returned (some user))) = ⊥
Quiet _ = Unit

module _ {ℓ} {P : Type ℓ} where
  abbrev pub Gone : Provider P → Type 0
  Gone s = (s.user ≡ none) × (s.unverified ≡ false) × (remembered s.storage ≡ none)

  -- Every request under way is of an earlier epoch.
  abbrev Over : Provider P → Type 0
  Over s = Gone s × All (λ p. epoch_of p < s.epoch) s.asked

  probe_answered-Over :
      (probe : Probe) (answer : Outcome (User ℕ)) (s : Provider P)
      → epoch_of probe < s.epoch
      → Over s
      → Over (probe_answered probe answer s)
  unfolding probe_answered
  probe_answered-Over (verifying epoch) answer s late h =
      let stale : (epoch == s.epoch) ≡ false = ground arith in rw stale h
  probe_answered-Over (refreshing epoch) answer s late h =
      let stale : (epoch == s.epoch) ≡ false = ground arith in rw stale h

  deliver-Over :
      (o : Option (Probe × List Probe)) (answer : Outcome (User ℕ)) (s : Provider P)
      → Plucked (λ p. epoch_of p < s.epoch) o
      → Over s
      → Over (deliver o answer s)
  unfolding deliver
  deliver-Over none answer s k h = h
  deliver-Over (some (probe, others)) answer s (late, rest) (gone, h) =
      probe_answered-Over probe answer (record s { asked = others }) late (gone, rest)

  signed_in-Over :
      (answer : Outcome (User ℕ)) (s : Provider P)
      → Quiet {P = P} (entered answer)
      → Over s
      → Over (signed_in answer s)
  unfolding signed_in
  signed_in-Over (returned (some user)) s k h = absurd k
  signed_in-Over (returned none) s k (gone, h) = (
    gone,
    All-imp (λ p. epoch_of p < s.epoch) (λ p. epoch_of p < s.epoch + 1) (λ p e. omega arith) s.asked
        h,
  )
  signed_in-Over (api_error message status) s k h = h
  signed_in-Over (network_error kind) s k h = h
  signed_in-Over malformed s k h = h

  tear_down-Over :
      (o : Option (Option ℕ × List (Option ℕ))) (deleted : Bool) (s : Provider P)
      → Over s
      → Over (tear_down o deleted s)
  unfolding tear_down
  tear_down-Over none deleted s h = h
  tear_down-Over (some (uid, others)) deleted s h = h

  signed_out-Over : (s : Provider P) → InTime s → Over (signed_out s)
  unfolding signed_out
  signed_out-Over s h = (
    (refl, refl, (read_remembered_user-IsPlain is_id s.storage).1),
    All-imp (λ p. epoch_of p ≤ s.epoch) (λ p. epoch_of p < s.epoch + 1) (λ p e. omega arith) s.asked
        h,
  )

  InTime-Over : (s : Provider P) → Over s → InTime s
  InTime-Over s (gone, h) =
      All-imp (λ p. epoch_of p < s.epoch) (λ p. epoch_of p ≤ s.epoch) (λ p e. omega arith) s.asked h

  close-Over : (n : ℕ) (s : Provider P) → Over s → Over (close n s)
  unfolding close
  close-Over zero s h = h
  close-Over (suc n) s h = signed_out-Over (record s { closing = n }) (InTime-Over s h)

  sync_as-Over :
      (o : Option (User ℕ)) (b : Bool) (w : World P) (s : Provider P)
      → o ≡ none
      → Over s
      → Over (sync_as (id_of o) b w s)
  unfolding sync_as
  sync_as-Over none b w s nobody h = h
  sync_as-Over (some user) b w s nobody h = cc nobody

  retry-Over :
      (b : Bool) (s : Provider P) → b ≡ false → Over s → Over (if b then verify_session s else s)
  retry-Over true s verified h = cc verified
  retry-Over false s verified h = h

  step-Over : (e : Event P) (s : Provider P) → Quiet e → Over s → Over (step e s)
  unfolding step logout
  step-Over mounted s k h = absurd k
  step-Over came_online s k h = retry-Over s.unverified s h.0.1 h
  step-Over (visibility_changed true) s k h = h
  step-Over (visibility_changed false) s k h = retry-Over s.unverified s h.0.1 h
  step-Over asked_again s k h = absurd k
  step-Over (answered i answer) s k h =
      deliver-Over (pluck i s.asked) answer s
        (pluck-Plucked (λ p. epoch_of p < s.epoch) i s.asked h.1) h
  step-Over (entered answer) s k h = signed_in-Over answer s k h
  step-Over leave_pressed s k h = h
  step-Over (torn_down i deleted) s k h = tear_down-Over (pluck i s.leaving) deleted s h
  step-Over closed s k h = close-Over s.closing s h
  step-Over (synced w) s k h = sync_as-Over s.user (can_sync s) w s h.0.0 h

  run-Over : (es : List (Event P)) (s : Provider P) → All Quiet es → Over s → Over (run es s)
  unfolding run
  run-Over [] s k h = h
  run-Over (e ∷ es) s (k, ks) h = run-Over es (step e s) ks (step-Over e s k h)

  -- From a provider without requests under way, after any events in which a logout reached its end,
  -- nobody is signed in, unverified or remembered; and so it stays, whatever answers come to the
  -- requests that were under way, until a sign-in succeeds or `auth/me` is asked anew.
  pub run-Gone :
      (before after : List (Event P)) (s : Provider P) (n : ℕ)
      → s.asked ≡ []
      → (run before s).closing ≡ suc n
      → All Quiet after
      → Gone (run after (step closed (run before s)))
  unfolding step close
  run-Gone before after s n none_asked leaves quiet =
      let s' = run before s in
      let in_time = run-InTime before s (rw none_asked tt) in
      (run-Over after (step closed s') quiet
        (rw leaves (signed_out-Over (record s' { closing = n }) in_time))).0
