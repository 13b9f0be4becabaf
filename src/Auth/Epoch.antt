-- ===== src/Auth/Epoch.antt =====
-- web/src/hooks/useAuth.tsx: the epoch. No request under way is from an epoch that is still to come.
use spen_drop.Base.{
  ℕ, zero, suc, ◌+◌, ◌≤◌, Bool, true, false, Option, none, some, List, [], ◌∷◌, ◌++◌, All, All-imp,
  All-append, ◌≡◌, refl, if◌then◌else◌, arith,
}
use spen_drop.ApiClient.Outcome.{Outcome, returned, api_error, network_error, malformed}
use spen_drop.LastUser.Remembered.{User}
use spen_drop.OfflineQueue.Replay.{World}
use spen_drop.Auth.Session.{
  Provider, Probe, verifying, refreshing, id_of, confirmed, fall_back, deny, verify_answered,
  refresh_answered, probe_answered, verify_session, refresh_user, signed_in, logout, signed_out,
}
use spen_drop.Auth.Events.{
  Event, mounted, came_online, visibility_changed, asked_again, answered, entered, leave_pressed,
  torn_down, closed, synced, pluck, deliver, tear_down, close, sync_as, can_sync, step, run,
}

abbrev pub epoch_of : Probe → ℕ
epoch_of (verifying epoch) = epoch
epoch_of (refreshing epoch) = epoch

-- every request under way was made by this epoch
abbrev pub MadeBy : ℕ → List Probe → Type 0
MadeBy n = All (λ p. epoch_of p ≤ n)

MadeBy-mono : (n m : ℕ) → n ≤ m → (ps : List Probe) → MadeBy n ps → MadeBy m ps
MadeBy-mono n m h = All-imp (λ p. epoch_of p ≤ n) (λ p. epoch_of p ≤ m) (λ p k. omega arith)

-- What is taken out of a list with a property has it, and so have the others.
abbrev pub Plucked {ℓ κ} : {A : Type ℓ} → (A → Type κ) → Option (A × List A) → Type κ
Plucked Q none = Unit
Plucked Q (some (x, others)) = Q x × All Q others

Plucked-cons {ℓ κ} :
    {A : Type ℓ} (Q : A → Type κ) (x : A)
    → Q x
    → (o : Option (A × List A)) → Plucked Q o
    → Plucked Q (elim o [ none ↦ none | some (y, ys) ↦ some (y, x ∷ ys) ])
Plucked-cons Q x q none h = tt
Plucked-cons Q x q (some (y, ys)) (p, ps) = (p, (q, ps))

pub pluck-Plucked {ℓ κ} :
    {A : Type ℓ} (Q : A → Type κ) (i : ℕ) (xs : List A) → All Q xs → Plucked Q (pluck i xs)
pluck-Plucked Q zero [] h = tt
pluck-Plucked Q (suc i) [] h = tt
pluck-Plucked Q zero (x ∷ xs) h = h
pluck-Plucked Q (suc i) (x ∷ xs) (q, h) = Plucked-cons Q x q (pluck i xs) (pluck-Plucked Q i xs h)

module _ {ℓ} {P : Type ℓ} where
  abbrev pub InTime : Provider P → Type 0
  InTime s = MadeBy s.epoch s.asked

  -- Neither the epoch nor the list of requests moves when an answer is taken.
  abbrev pub Keeps : Provider P → Provider P → Type 0
  Keeps s s' = (s'.epoch ≡ s.epoch) × (s'.asked ≡ s.asked)

  pub verify_answered-Keeps :
      (answer : Outcome (User ℕ)) (s : Provider P) → Keeps s (verify_answered answer s)
  unfolding verify_answered confirmed fall_back deny
  verify_answered-Keeps (returned (some user)) s = (refl, refl)
  verify_answered-Keeps (returned none) s = (refl, refl)
  verify_answered-Keeps (api_error message status) s = ground arith
  verify_answered-Keeps (network_error kind) s = (refl, refl)
  verify_answered-Keeps malformed s = (refl, refl)

  pub refresh_answered-Keeps :
      (answer : Outcome (User ℕ)) (s : Provider P) → Keeps s (refresh_answered answer s)
  unfolding refresh_answered
  refresh_answered-Keeps (returned (some user)) s = (refl, refl)
  refresh_answered-Keeps (returned none) s = (refl, refl)
  refresh_answered-Keeps (api_error message status) s = (refl, refl)
  refresh_answered-Keeps (network_error kind) s = (refl, refl)
  refresh_answered-Keeps malformed s = (refl, refl)

  pub probe_answered-Keeps :
      (probe : Probe) (answer : Outcome (User ℕ)) (s : Provider P)
      → Keeps s (probe_answered probe answer s)
  unfolding probe_answered
  probe_answered-Keeps (verifying epoch) answer s = ground (arith, verify_answered-Keeps answer s)
  probe_answered-Keeps (refreshing epoch) answer s = ground (arith, refresh_answered-Keeps answer s)

  InTime-Keeps : (s s' : Provider P) → Keeps s s' → InTime s → InTime s'
  InTime-Keeps s s' (e, a) h = rw (e, a) h

  deliver-InTime :
      (o : Option (Probe × List Probe)) (answer : Outcome (User ℕ)) (s : Provider P)
      → Plucked (λ p. epoch_of p ≤ s.epoch) o
      → InTime s
      → InTime (deliver o answer s)
  unfolding deliver
  deliver-InTime none answer s k h = h
  deliver-InTime (some (probe, others)) answer s k h =
      let s' = record s { asked = others } in
      InTime-Keeps s' (probe_answered probe answer s') (probe_answered-Keeps probe answer s') k.1

  signed_in-InTime :
      (answer : Outcome (User ℕ)) (s : Provider P) → InTime s → InTime (signed_in answer s)
  unfolding signed_in confirmed
  signed_in-InTime (returned (some user)) s h =
      MadeBy-mono s.epoch (s.epoch + 1) (omega arith) s.asked h
  signed_in-InTime (returned none) s h = MadeBy-mono s.epoch (s.epoch + 1) (omega arith) s.asked h
  signed_in-InTime (api_error message status) s h = h
  signed_in-InTime (network_error kind) s h = h
  signed_in-InTime malformed s h = h

  ask-InTime :
      (p : Probe) (s : Provider P)
      → epoch_of p ≡ s.epoch
      → InTime s
      → MadeBy s.epoch (s.asked ++ p ∷ [])
  ask-InTime p s e h = All-append (λ q. epoch_of q ≤ s.epoch) s.asked (p ∷ []) h (omega arith, tt)

  retry-InTime : (s : Provider P) (b : Bool) → InTime s → InTime (if b then verify_session s else s)
  unfolding verify_session
  retry-InTime s true h = ask-InTime (verifying s.epoch) s refl h
  retry-InTime s false h = h

  tear_down-InTime :
      (o : Option (Option ℕ × List (Option ℕ))) (deleted : Bool) (s : Provider P)
      → InTime s
      → InTime (tear_down o deleted s)
  unfolding tear_down
  tear_down-InTime none deleted s h = h
  tear_down-InTime (some (uid, others)) deleted s h = h

  close-InTime : (n : ℕ) (s : Provider P) → InTime s → InTime (close n s)
  unfolding close signed_out
  close-InTime zero s h = h
  close-InTime (suc n) s h = MadeBy-mono s.epoch (s.epoch + 1) (omega arith) s.asked h

  sync_as-InTime :
      (o : Option ℕ) (b : Bool) (w : World P) (s : Provider P) → InTime s → InTime (sync_as o b w s)
  unfolding sync_as
  sync_as-InTime none b w s h = h
  sync_as-InTime (some uid) true w s h = h
  sync_as-InTime (some uid) false w s h = h

  pub step-InTime : (e : Event P) (s : Provider P) → InTime s → InTime (step e s)
  unfolding step verify_session refresh_user logout
  step-InTime mounted s h = ask-InTime (verifying s.epoch) s refl h
  step-InTime came_online s h = retry-InTime s s.unverified h
  step-InTime (visibility_changed true) s h = h
  step-InTime (visibility_changed false) s h = retry-InTime s s.unverified h
  step-InTime asked_again s h = ask-InTime (refreshing s.epoch) s refl h
  step-InTime (answered i answer) s h =
      deliver-InTime (pluck i s.asked) answer s
        (pluck-Plucked (λ p. epoch_of p ≤ s.epoch) i s.asked h) h
  step-InTime (entered answer) s h = signed_in-InTime answer s h
  step-InTime leave_pressed s h = h
  step-InTime (torn_down i deleted) s h = tear_down-InTime (pluck i s.leaving) deleted s h
  step-InTime closed s h = close-InTime s.closing s h
  step-InTime (synced w) s h = sync_as-InTime (id_of s.user) (can_sync s) w s h

  pub run-InTime : (es : List (Event P)) (s : Provider P) → InTime s → InTime (run es s)
  unfolding run
  run-InTime [] s h = h
  run-InTime (e ∷ es) s h = run-InTime es (step e s) (step-InTime e s h)
