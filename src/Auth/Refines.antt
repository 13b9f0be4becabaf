-- ===== src/Auth/Refines.antt =====
-- web/src/hooks/useAuth.tsx: the provider with its epoch implements the specification.
use spen_drop.Base.{
  ℕ, zero, suc, ◌+◌, Bool, true, false, Option, none, some, List, [], ◌∷◌, ◌++◌, map, map-append,
  ◌==◌, if◌then◌else◌, ◌≡◌, refl, ap, ap₂, ◌∙◌, inl, inr, Bool-cases, arith,
}
use spen_drop.ApiClient.Outcome.{Outcome, returned, api_error, network_error, malformed}
use spen_drop.LastUser.Remembered.{User}
use spen_drop.OfflineQueue.Replay.{World}
use spen_drop.Auth.Session.{
  Provider, Probe, verifying, refreshing, id_of, confirmed, fall_back, deny, verify_answered,
  refresh_answered, probe_answered, verify_session, refresh_user, signed_in, logout, signed_out,
}
use spen_drop.Auth.Events.{
  Event, mounted, came_online, visibility_changed, asked_again, answered, entered, leave_pressed,
  torn_down, closed, synced, pluck, deliver, tear_down, close, sync_as, can_sync, step, run,
}
use spen_drop.Auth.Epoch.{epoch_of, MadeBy, InTime, step-InTime, probe_answered-Keeps}
use spen_drop.Auth.Spec.{
  check, cancel, erase, spec, ask, reply_to, spec_deliver, spec_enter, spec_close, spec_step,
  spec_run, kind_of, request_of, view,
}

abbrev map_plucked {ℓ} : {A B : Type ℓ} → (A → B) → Option (A × List A) → Option (B × List B)
map_plucked f none = none
map_plucked f (some (x, xs)) = some (f x, map f xs)

pluck-cons {ℓ} :
    {A B : Type ℓ} (f : A → B) (x : A) (o : Option (A × List A))
    → (elim (map_plucked f o) [ none ↦ none | some (y, ys) ↦ some (y, f x ∷ ys) ])
      ≡ map_plucked f (elim o [ none ↦ none | some (y, ys) ↦ some (y, x ∷ ys) ])
pluck-cons f x none = refl
pluck-cons f x (some (y, ys)) = refl

pluck-map {ℓ} :
    {A B : Type ℓ} (f : A → B) (i : ℕ) (xs : List A)
    → pluck i (map f xs) ≡ map_plucked f (pluck i xs)
pluck-map f zero [] = refl
pluck-map f (suc i) [] = refl
pluck-map f zero (x ∷ xs) = refl
pluck-map f (suc i) (x ∷ xs) = rw (pluck-map f i xs) (pluck-cons f x (pluck i xs))

-- A new epoch cancels every request of the ones before.
map-cancel :
    (n : ℕ) (ps : List Probe)
    → MadeBy n ps
    → map (request_of (n + 1)) ps ≡ map cancel (map (request_of n) ps)
map-cancel n [] h = refl
map-cancel n (p ∷ ps) (early, h) =
    let stale : (epoch_of p == n + 1) ≡ false = ground arith in rw (stale, map-cancel n ps h) refl

module _ {ℓ} {P : Type ℓ} where
  verify_answered-erase :
      (answer : Outcome (User ℕ)) (s : Provider P)
      → erase (verify_answered answer s) ≡ verify_answered answer (erase s)
  unfolding verify_answered confirmed fall_back deny
  verify_answered-erase (returned (some user)) s = refl
  verify_answered-erase (returned none) s = refl
  verify_answered-erase (api_error message status) s = elim (Bool-cases (status == 401)) [
    | inl e ↦ rw e refl
    | inr e ↦ rw e refl
  ]
  verify_answered-erase (network_error kind) s = refl
  verify_answered-erase malformed s = refl

  refresh_answered-erase :
      (answer : Outcome (User ℕ)) (s : Provider P)
      → erase (refresh_answered answer s) ≡ refresh_answered answer (erase s)
  unfolding refresh_answered
  refresh_answered-erase (returned (some user)) s = refl
  refresh_answered-erase (returned none) s = refl
  refresh_answered-erase (api_error message status) s = refl
  refresh_answered-erase (network_error kind) s = refl
  refresh_answered-erase malformed s = refl

  abbrev settled : Provider P → Provider P
  settled s = record s { loading = false }

  probe_answered-erase :
      (p : Probe) (answer : Outcome (User ℕ)) (s : Provider P)
      → erase (probe_answered p answer s)
        ≡ reply_to (kind_of p) (epoch_of p == s.epoch) answer (erase s)
  unfolding probe_answered reply_to
  probe_answered-erase (verifying epoch) answer s = elim (Bool-cases (epoch == s.epoch)) [
    | inl e ↦ rw e (ap settled (verify_answered-erase answer s))
    | inr e ↦ rw e refl
  ]
  probe_answered-erase (refreshing epoch) answer s = elim (Bool-cases (epoch == s.epoch)) [
    | inl e ↦ rw e (refresh_answered-erase answer s)
    | inr e ↦ rw e refl
  ]

  deliver-view :
      (o : Option (Probe × List Probe)) (answer : Outcome (User ℕ)) (s : Provider P)
      → view (deliver o answer s)
        ≡ spec_deliver (map_plucked (request_of s.epoch) o) answer (view s)
  unfolding deliver spec_deliver
  deliver-view none answer s = refl
  deliver-view (some (p, others)) answer s =
      let s' = record s { asked = others } in
      let (epoch, asked) = probe_answered-Keeps p answer s' in
      ap₂ spec (probe_answered-erase p answer s') (ap₂ (λ n ps. map (request_of n) ps) epoch asked)

  ask-view :
      (p : Probe) (s : Provider P)
      → epoch_of p ≡ s.epoch
      → map (request_of s.epoch) (s.asked ++ p ∷ [])
        ≡ map (request_of s.epoch) s.asked ++ record { kind = kind_of p; live = true } ∷ []
  ask-view p s e =
      let live : (epoch_of p == s.epoch) ≡ true = ground arith in
      map-append (request_of s.epoch) s.asked (p ∷ []) ∙ rw live refl

  signed_in-view :
      (answer : Outcome (User ℕ)) (s : Provider P)
      → InTime s
      → view (signed_in answer s) ≡ spec_enter answer (view s)
  unfolding signed_in spec_enter confirmed
  signed_in-view (returned (some user)) s h = ap (spec _) (map-cancel s.epoch s.asked h)
  signed_in-view (returned none) s h = ap (spec _) (map-cancel s.epoch s.asked h)
  signed_in-view (api_error message status) s h = refl
  signed_in-view (network_error kind) s h = refl
  signed_in-view malformed s h = refl

  close-view : (n : ℕ) (s : Provider P) → InTime s → view (close n s) ≡ spec_close n (view s)
  unfolding close spec_close signed_out
  close-view zero s h = refl
  close-view (suc n) s h = ap (spec _) (map-cancel s.epoch s.asked h)

  tear_down-view :
      (o : Option (Option ℕ × List (Option ℕ))) (deleted : Bool) (s : Provider P)
      → view (tear_down o deleted s) ≡ record (view s) { face = tear_down o deleted (erase s) }
  unfolding tear_down
  tear_down-view none deleted s = refl
  tear_down-view (some (uid, others)) deleted s = refl

  sync_as-view :
      (o : Option ℕ) (b : Bool) (w : World P) (s : Provider P)
      → view (sync_as o b w s) ≡ record (view s) { face = sync_as o b w (erase s) }
  unfolding sync_as
  sync_as-view none b w s = refl
  sync_as-view (some uid) true w s = refl
  sync_as-view (some uid) false w s = refl

  retry-view :
      (b : Bool) (s : Provider P)
      → view (if b then verify_session s else s) ≡ (if b then ask check (view s) else view s)
  unfolding verify_session
  retry-view true s = ap (spec (erase s)) (ask-view (verifying s.epoch) s refl)
  retry-view false s = refl

  step-view : (e : Event P) (s : Provider P) → InTime s → view (step e s) ≡ spec_step e (view s)
  unfolding step spec_step verify_session refresh_user logout
  step-view mounted s h = ap (spec (erase s)) (ask-view (verifying s.epoch) s refl)
  step-view came_online s h = retry-view s.unverified s
  step-view (visibility_changed true) s h = refl
  step-view (visibility_changed false) s h = retry-view s.unverified s
  step-view asked_again s h = ap (spec (erase s)) (ask-view (refreshing s.epoch) s refl)
  step-view (answered i answer) s h =
      rw (pluck-map (request_of s.epoch) i s.asked) (deliver-view (pluck i s.asked) answer s)
  step-view (entered answer) s h = signed_in-view answer s h
  step-view leave_pressed s h = refl
  step-view (torn_down i deleted) s h = tear_down-view (pluck i s.leaving) deleted s
  step-view closed s h = close-view s.closing s h
  step-view (synced w) s h = sync_as-view (id_of s.user) (can_sync s) w s

  run-from-view :
      (es : List (Event P)) (s : Provider P) → InTime s → view (run es s) ≡ spec_run es (view s)
  unfolding run spec_run
  run-from-view [] s h = refl
  run-from-view (e ∷ es) s h =
      run-from-view es (step e s) (step-InTime e s h) ∙ ap (spec_run es) (step-view e s h)

  -- The epoch implements cancellation: from a provider without requests under way, any events take the
  -- provider to what the specification comes to by cancelling every request under way when somebody
  -- signs in or out.
  pub run-view :
      (es : List (Event P)) (s : Provider P) → s.asked ≡ [] → view (run es s) ≡ spec_run es (view s)
  run-view es s none_asked = run-from-view es s (rw none_asked tt)
