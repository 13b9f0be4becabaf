-- ===== src/Auth/Trust.antt =====
-- web/src/hooks/useAuth.tsx: where a user on the screen can have come from.
use spen_drop.Base.{
  ℕ, zero, suc, Bool, true, false, Option, none, some, List, [], ◌∷◌, All, ◌==◌, inl, inr,
  Bool-cases, if◌then◌else◌,
}
use spen_drop.ApiClient.Outcome.{Outcome, returned, api_error, network_error, malformed}
use spen_drop.LastUser.Remembered.{User, restored, IsPlain, read_remembered_user-IsPlain}
use spen_drop.OfflineQueue.Replay.{World}
use spen_drop.Auth.Session.{
  Provider, Probe, verifying, refreshing, is_id, is_some, id_of, remembered, fall_back, deny,
  confirmed, verify_answered, refresh_answered, probe_answered, verify_session, refresh_user,
  signed_in, logout, signed_out,
}
use spen_drop.Auth.Events.{
  Event, mounted, came_online, visibility_changed, asked_again, answered, entered, leave_pressed,
  torn_down, closed, synced, pluck, deliver, tear_down, close, sync_as, can_sync, step, run,
}

-- the user that the server names in an answer
abbrev pub named : Outcome (User ℕ) → Option (User ℕ)
named (returned who) = who
named (api_error message status) = none
named (network_error kind) = none
named malformed = none

-- the user that the server names in this event
abbrev pub names {ℓ} : {P : Type ℓ} → Event P → Option (User ℕ)
names (answered i answer) = named answer
names (entered answer) = named answer
names _ = none

module _ (K : User ℕ → Type 0) where
  -- An unverified user is a plain member, and any other is one that `K` holds of.
  abbrev pub Standing : Option (User ℕ) → Bool → Type 0
  Standing none true = ⊥
  Standing none false = Unit
  Standing (some user) true = IsPlain is_id (some user)
  Standing (some user) false = K user

  abbrev pub Vouched : Option (User ℕ) → Type 0
  Vouched none = Unit
  Vouched (some user) = K user

  Standing-restored : (o : Option (User ℕ)) → IsPlain is_id o → Standing o (is_some o)
  Standing-restored none h = tt
  Standing-restored (some user) h = h

  module _ {ℓ} {P : Type ℓ} where
    abbrev pub Trusted : Provider P → Type 0
    Trusted s = Standing s.user s.unverified

    fall_back-Trusted : (s : Provider P) → Trusted (fall_back s)
    unfolding fall_back
    fall_back-Trusted s =
        Standing-restored (restored (remembered s.storage))
          (read_remembered_user-IsPlain is_id s.storage).0

    verify_answered-Trusted :
        (answer : Outcome (User ℕ)) (s : Provider P)
        → Vouched (named answer)
        → Trusted (verify_answered answer s)
    unfolding verify_answered confirmed deny
    verify_answered-Trusted (returned (some user)) s k = k
    verify_answered-Trusted (returned none) s k = fall_back-Trusted s
    verify_answered-Trusted (api_error message status) s k = elim (Bool-cases (status == 401)) [
      | inl e ↦ rw e tt
      | inr e ↦ rw e (fall_back-Trusted s)
    ]
    verify_answered-Trusted (network_error kind) s k = fall_back-Trusted s
    verify_answered-Trusted malformed s k = fall_back-Trusted s

    refresh_answered-Trusted :
        (answer : Outcome (User ℕ)) (s : Provider P)
        → Vouched (named answer)
        → Trusted s
        → Trusted (refresh_answered answer s)
    unfolding refresh_answered
    refresh_answered-Trusted (returned (some user)) s k h = k
    refresh_answered-Trusted (returned none) s k h = tt
    refresh_answered-Trusted (api_error message status) s k h = h
    refresh_answered-Trusted (network_error kind) s k h = h
    refresh_answered-Trusted malformed s k h = h

    probe_answered-Trusted :
        (probe : Probe) (answer : Outcome (User ℕ)) (s : Provider P)
        → Vouched (named answer)
        → Trusted s
        → Trusted (probe_answered probe answer s)
    unfolding probe_answered
    probe_answered-Trusted (verifying epoch) answer s k h = elim (Bool-cases (epoch == s.epoch)) [
      | inl e ↦ rw e (verify_answered-Trusted answer s k)
      | inr e ↦ rw e h
    ]
    probe_answered-Trusted (refreshing epoch) answer s k h = elim (Bool-cases (epoch == s.epoch)) [
      | inl e ↦ rw e (refresh_answered-Trusted answer s k h)
      | inr e ↦ rw e h
    ]

    deliver-Trusted :
        (o : Option (Probe × List Probe)) (answer : Outcome (User ℕ)) (s : Provider P)
        → Vouched (named answer)
        → Trusted s
        → Trusted (deliver o answer s)
    unfolding deliver
    deliver-Trusted none answer s k h = h
    deliver-Trusted (some (probe, others)) answer s k h =
        probe_answered-Trusted probe answer (record s { asked = others }) k h

    signed_in-Trusted :
        (answer : Outcome (User ℕ)) (s : Provider P)
        → Vouched (named answer)
        → Trusted s
        → Trusted (signed_in answer s)
    unfolding signed_in confirmed
    signed_in-Trusted (returned (some user)) s k h = k
    signed_in-Trusted (returned none) s k h = h
    signed_in-Trusted (api_error message status) s k h = h
    signed_in-Trusted (network_error kind) s k h = h
    signed_in-Trusted malformed s k h = h

    retry-Trusted :
        (s : Provider P) (b : Bool) → Trusted s → Trusted (if b then verify_session s else s)
    unfolding verify_session
    retry-Trusted s true h = h
    retry-Trusted s false h = h

    tear_down-Trusted :
        (o : Option (Option ℕ × List (Option ℕ))) (deleted : Bool) (s : Provider P)
        → Trusted s
        → Trusted (tear_down o deleted s)
    unfolding tear_down
    tear_down-Trusted none deleted s h = h
    tear_down-Trusted (some (uid, others)) deleted s h = h

    close-Trusted : (n : ℕ) (s : Provider P) → Trusted s → Trusted (close n s)
    unfolding close signed_out
    close-Trusted zero s h = h
    close-Trusted (suc n) s h = tt

    sync_as-Trusted :
        (o : Option ℕ) (b : Bool) (w : World P) (s : Provider P)
        → Trusted s
        → Trusted (sync_as o b w s)
    unfolding sync_as
    sync_as-Trusted none b w s h = h
    sync_as-Trusted (some uid) true w s h = h
    sync_as-Trusted (some uid) false w s h = h

    step-Trusted :
        (e : Event P) (s : Provider P) → Vouched (names e) → Trusted s → Trusted (step e s)
    unfolding step verify_session refresh_user logout
    step-Trusted mounted s k h = h
    step-Trusted came_online s k h = retry-Trusted s s.unverified h
    step-Trusted (visibility_changed true) s k h = h
    step-Trusted (visibility_changed false) s k h = retry-Trusted s s.unverified h
    step-Trusted asked_again s k h = h
    step-Trusted (answered i answer) s k h = deliver-Trusted (pluck i s.asked) answer s k h
    step-Trusted (entered answer) s k h = signed_in-Trusted answer s k h
    step-Trusted leave_pressed s k h = h
    step-Trusted (torn_down i deleted) s k h = tear_down-Trusted (pluck i s.leaving) deleted s h
    step-Trusted closed s k h = close-Trusted s.closing s h
    step-Trusted (synced w) s k h = sync_as-Trusted (id_of s.user) (can_sync s) w s h

    pub run-Trusted :
        (es : List (Event P)) (s : Provider P)
        → All (λ e. Vouched (names e)) es
        → Trusted s
        → Trusted (run es s)
    unfolding run
    run-Trusted [] s k h = h
    run-Trusted (e ∷ es) s (k, ks) h = run-Trusted es (step e s) ks (step-Trusted e s k h)
