-- ===== src/Auth/Hold.antt =====
-- web/src/hooks/useAuth.tsx with web/src/lib/offline-queue.ts: what becomes of captures when a session
-- ends without a sign-out, or when another user turns up.
use spen_drop.Base.{
  ==_self, ℕ, true, false, not, String, Option, none, some, List, [], ◌==◌, ◌≡◌, refl, ap, ◌∙◌,
  if◌then◌else◌, arith,
}
use spen_drop.ApiClient.Outcome.{Outcome, returned, api_error}
use spen_drop.LastUser.Remembered.{User, RememberedUser}
use spen_drop.OfflineQueue.Device.{Device, needs_sign_in, mark_needs_sign_in, clear_needs_sign_in}
use spen_drop.OfflineQueue.Replay.{World, drain_queue}
use spen_drop.OfflineQueue.Users.{drain_queue_of_held}
use spen_drop.Auth.Session.{
  Provider, Probe, verifying, remembered, hold_previous, hold_remembered, confirmed, deny,
  verify_answered, probe_answered, signed_in,
}
use spen_drop.Auth.Events.{answered, entered, pluck, deliver, step}

module _ {ℓ} {P : Type ℓ} where
  -- Every user's rows are the same in both.
  abbrev pub SameRows : Provider P → Provider P → Type ℓ
  SameRows s s' = s'.device.stores ≡ s.device.stores

  needs_sign_in-mark :
      (u v : ℕ) (d : Device P)
      → d.storage ≡ true
      → needs_sign_in v (mark_needs_sign_in u d) ≡ (if u == v then true else needs_sign_in v d)
  unfolding needs_sign_in mark_needs_sign_in
  needs_sign_in-mark u v d works = ground arith

  needs_sign_in-clear :
      (u v : ℕ) (d : Device P)
      → d.storage ≡ true
      → needs_sign_in v (clear_needs_sign_in u d) ≡ (if u == v then false else needs_sign_in v d)
  unfolding needs_sign_in clear_needs_sign_in
  needs_sign_in-clear u v d works = ground arith

  mark-storage : (u : ℕ) (d : Device P) → (mark_needs_sign_in u d).storage ≡ d.storage
  unfolding mark_needs_sign_in
  mark-storage u d = ground arith

  mark-stores : (u : ℕ) (d : Device P) → (mark_needs_sign_in u d).stores ≡ d.stores
  unfolding mark_needs_sign_in
  mark-stores u d = ground arith

  clear-stores : (u : ℕ) (d : Device P) → (clear_needs_sign_in u d).stores ≡ d.stores
  unfolding clear_needs_sign_in
  clear-stores u d = ground arith

  -- the state after an answer to a check of this epoch
  step_answered :
      (i : ℕ) (answer : Outcome (User ℕ)) (s : Provider P) (others : List Probe)
      → pluck i s.asked ≡ some (verifying s.epoch, others)
      → step (answered i answer) s
        ≡ record (verify_answered answer (record s { asked = others })) { loading = false }
  unfolding step deliver probe_answered
  step_answered i answer s others under_way = rw under_way (rw (==_self s.epoch) refl)

  deny-device :
      (s : Provider P) (r : RememberedUser ℕ)
      → remembered s.storage ≡ some r
      → (deny s).device ≡ mark_needs_sign_in r.id s.device
  unfolding deny hold_remembered
  deny-device s r known = rw known refl

  hold_previous-device :
      (o : Option (RememberedUser ℕ)) (r : RememberedUser ℕ) (id : ℕ) (d : Device P)
      → o ≡ some r
      → (r.id == id) ≡ false
      → hold_previous o id d ≡ mark_needs_sign_in r.id d
  unfolding hold_previous
  hold_previous-device none r id d known other = cc known
  hold_previous-device (some r') r id d known other =
      let same : r' ≡ r = cc known in rw (same, other) refl

  expired :
      (i : ℕ) (message : String) (s : Provider P) (r : RememberedUser ℕ) (others : List Probe)
      → pluck i s.asked ≡ some (verifying s.epoch, others)
      → remembered s.storage ≡ some r
      → ((step (answered i (api_error message 401)) s).device ≡ mark_needs_sign_in r.id s.device)
        × ((step (answered i (api_error message 401)) s).user ≡ none)
  unfolding verify_answered
  expired i message s r others under_way known =
      let s' = record s { asked = others } in
      let joint = step_answered i (api_error message 401) s others under_way in
      (ap (λ t. t.device) joint ∙ deny-device s' r known, ap (λ t. t.user) joint)

  entered-device :
      (user : User ℕ) (s : Provider P)
      → (step (entered (returned (some user))) s).device ≡ clear_needs_sign_in user.id s.device
  unfolding step signed_in confirmed
  entered-device user s = refl

  -- Where localStorage works: when a check is answered with 401, nobody is signed in, and nothing is
  -- posted for the remembered user; when a user then signs in, every user's rows are still what they
  -- were, and the remembered user's are held exactly when another user has signed in.
  pub expired-entered :
      (i : ℕ) (message : String) (user : User ℕ) (s : Provider P) (r : RememberedUser ℕ)
      (others : List Probe) (w : World P)
      → s.device.storage ≡ true
      → pluck i s.asked ≡ some (verifying s.epoch, others)
      → remembered s.storage ≡ some r
      → let expired = step (answered i (api_error message 401)) s in
        let s' = step (entered (returned (some user))) expired in
        (expired.user ≡ none)
        × ((drain_queue r.id w expired.device).posts ≡ [])
        × SameRows s s'
        × (needs_sign_in r.id s'.device ≡ not (user.id == r.id))
  expired-entered i message user s r others w works under_way known =
      let end = step (answered i (api_error message 401)) s in
      let (device, nobody) = expired i message s r others under_way known in
      let marked = mark_needs_sign_in r.id s.device in
      let held = needs_sign_in-mark r.id r.id s.device works in
      let cleared = entered-device user end ∙ ap (clear_needs_sign_in user.id) device in
      (
        nobody,
        rw device (drain_queue_of_held r.id w marked (held ∙ ground arith)),
        ap (λ d. d.stores) cleared ∙ clear-stores user.id marked ∙ mark-stores r.id s.device,
        ap (needs_sign_in r.id) cleared
            ∙ needs_sign_in-clear user.id r.id marked (mark-storage r.id s.device ∙ works)
            ∙ ground (arith, held),
      )

  -- Where localStorage works: when a check is answered with another user than the remembered one,
  -- that user is signed in with no hold on their queue, nothing is posted for the previous one, and
  -- every user's rows are what they were.
  pub switched-held :
      (i : ℕ) (user : User ℕ) (s : Provider P) (r : RememberedUser ℕ) (others : List Probe)
      (w : World P)
      → s.device.storage ≡ true
      → pluck i s.asked ≡ some (verifying s.epoch, others)
      → remembered s.storage ≡ some r
      → (r.id == user.id) ≡ false
      → let s' = step (answered i (returned (some user))) s in
        (s'.user ≡ some user)
        × (needs_sign_in user.id s'.device ≡ false)
        × ((drain_queue r.id w s'.device).posts ≡ [])
        × SameRows s s'
  unfolding verify_answered confirmed
  switched-held i user s r others w works under_way known other =
      let joint = step_answered i (returned (some user)) s others under_way in
      let marked = mark_needs_sign_in r.id s.device in
      let works' = mark-storage r.id s.device ∙ works in
      let held = needs_sign_in-mark r.id r.id s.device works in
      let cleared =
        ap (λ t. t.device) joint
        ∙ ap (clear_needs_sign_in user.id)
            (hold_previous-device (remembered s.storage) r user.id s.device known other) in
      (
        ap (λ t. t.user) joint,
        ap (needs_sign_in user.id) cleared
            ∙ needs_sign_in-clear user.id user.id marked works'
            ∙ ground arith,
        rw cleared (
            drain_queue_of_held r.id w (clear_needs_sign_in user.id marked)
              (needs_sign_in-clear user.id r.id marked works' ∙ ground (arith, held))),
        ap (λ d. d.stores) cleared ∙ clear-stores user.id marked ∙ mark-stores r.id s.device,
      )
