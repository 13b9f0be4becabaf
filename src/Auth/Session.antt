-- ===== src/Auth/Session.antt =====
-- web/src/hooks/useAuth.tsx: the provider's state and what each answer does to it. A request and its
-- answer are two operations. `Storage` and the device's hold keys are the parts of one localStorage; a
-- number in it is a natural number. What the push service and the Cache Storage do is not kept.
use spen_drop.Base.{
  ℕ, ◌+◌, Bool, true, false, String, Option, none, some, List, [], ◌∷◌, ◌++◌, ◌==◌, ltb,
  if◌then◌else◌,
}
use spen_drop.ApiClient.Outcome.{Outcome, returned, api_error, network_error, malformed}
use spen_drop.ImportDecisions.Stored.{Storage}
use spen_drop.LastUser.Remembered.{
  User, RememberedUser, remember_user, forget_remembered_user, read_remembered_user, restored,
}
use spen_drop.OfflineQueue.Device.{Device, mark_needs_sign_in, clear_needs_sign_in, purge_queue}

-- a request for `auth/me` under way, and the epoch that its closure captured
pub data Probe : Type 0 where
  verifying : (epoch : ℕ) → Probe
  refreshing : (epoch : ℕ) → Probe

pub record Provider {ℓ} (P : Type ℓ) : Type ℓ where
  pub user : Option (User ℕ)
  pub loading : Bool
  pub unverified : Bool
  pub epoch : ℕ
  pub storage : Storage ℕ
  pub device : Device P
  -- where `navigate` last went
  pub path : Option String
  pub asked : List Probe
  -- the logouts before the purge, with the id that each captured, and how many are past it
  pub leaving : List (Option ℕ)
  pub closing : ℕ

-- `Number.isInteger(id) && id > 0`
abbrev pub is_id : ℕ → Bool
is_id n = ltb 0 n

abbrev pub remembered : Storage ℕ → Option (RememberedUser ℕ)
remembered s = read_remembered_user is_id s

-- `user !== null`
abbrev pub is_some : Option (User ℕ) → Bool
is_some none = false
is_some (some user) = true

-- `user?.id`
abbrev pub id_of : Option (User ℕ) → Option ℕ
id_of none = none
id_of (some user) = some user.id

module _ {ℓ} {P : Type ℓ} where
  -- `if (previous && previous.id !== data.id) markNeedsSignIn(previous.id)`
  unfoldable pub hold_previous : Option (RememberedUser ℕ) → ℕ → Device P → Device P
  unfolding mark_needs_sign_in
  hold_previous none id d = d
  hold_previous (some previous) id d =
      if previous.id == id then d else mark_needs_sign_in previous.id d

  -- `if (remembered) markNeedsSignIn(remembered.id)`
  unfoldable pub hold_remembered : Option (RememberedUser ℕ) → Device P → Device P
  unfolding mark_needs_sign_in
  hold_remembered none d = d
  hold_remembered (some r) d = mark_needs_sign_in r.id d

  -- the four writes that every confirmed identity makes
  unfoldable pub confirmed : User ℕ → Provider P → Provider P
  unfolding remember_user clear_needs_sign_in
  confirmed profile s = record s {
    storage = remember_user profile s.storage;
    device = clear_needs_sign_in profile.id s.device;
    user = some profile;
    unverified = false;
  }

  unfoldable pub fall_back : Provider P → Provider P
  unfolding read_remembered_user
  fall_back s = record s {
    user = restored (remembered s.storage);
    unverified = is_some (restored (remembered s.storage));
  }

  unfoldable pub deny : Provider P → Provider P
  unfolding hold_remembered forget_remembered_user
  deny s = record s {
    device = hold_remembered (remembered s.storage) s.device;
    storage = forget_remembered_user s.storage;
    user = none;
    unverified = false;
  }

  -- What an answer does in `verifySession`. A success without a body throws where `data.id` is read,
  -- before anything is written, and is no answer.
  unfoldable pub verify_answered : Outcome (User ℕ) → Provider P → Provider P
  unfolding hold_previous confirmed fall_back deny
  verify_answered (returned (some profile)) s =
      confirmed profile
        (record s { device = hold_previous (remembered s.storage) profile.id s.device })
  verify_answered (returned none) s = fall_back s
  verify_answered (api_error message status) s = if status == 401 then deny s else fall_back s
  verify_answered (network_error kind) s = fall_back s
  verify_answered malformed s = fall_back s

  -- What an answer does in `refreshUser`. `rememberUser` swallows the error of a missing body.
  unfoldable pub refresh_answered : Outcome (User ℕ) → Provider P → Provider P
  unfolding remember_user
  refresh_answered (returned (some profile)) s = record s {
    storage = remember_user profile s.storage;
    user = some profile;
    unverified = false;
  }
  refresh_answered (returned none) s = record s { user = none; unverified = false }
  refresh_answered (api_error message status) s = s
  refresh_answered (network_error kind) s = s
  refresh_answered malformed s = s

  -- an answer to `auth/me`, dropped when the epoch has moved on; `verifySession` has a `finally`
  unfoldable pub probe_answered : Probe → Outcome (User ℕ) → Provider P → Provider P
  unfolding verify_answered refresh_answered
  probe_answered (verifying epoch) answer s =
      let s' = verify_answered answer s in
      if epoch == s.epoch then record s' { loading = false } else record s { loading = false }
  probe_answered (refreshing epoch) answer s =
      if epoch == s.epoch then refresh_answered answer s else s

  unfoldable pub verify_session : Provider P → Provider P
  verify_session s = record s { asked = s.asked ++ verifying s.epoch ∷ [] }

  unfoldable pub refresh_user : Provider P → Provider P
  refresh_user s = record s { asked = s.asked ++ refreshing s.epoch ∷ [] }

  -- `login` and `register`, once the server has answered; a success without a body throws after the
  -- epoch has moved on
  unfoldable pub signed_in : Outcome (User ℕ) → Provider P → Provider P
  unfolding confirmed
  signed_in (returned (some profile)) s =
      record (confirmed profile (record s { epoch = s.epoch + 1 })) { path = some "/" }
  signed_in (returned none) s = record s { epoch = s.epoch + 1 }
  signed_in (api_error message status) s = s
  signed_in (network_error kind) s = s
  signed_in malformed s = s

  -- `logout` up to its first `await`
  unfoldable pub logout : Provider P → Provider P
  logout s = record s { leaving = s.leaving ++ id_of s.user ∷ [] }

  -- `if (uid !== undefined) await purgeQueue(uid)`
  unfoldable pub purge_captured : Option ℕ → Bool → Device P → Device P
  unfolding purge_queue
  purge_captured none deleted d = d
  purge_captured (some uid) deleted d = purge_queue uid deleted d

  -- the end of `logout`
  unfoldable pub signed_out : Provider P → Provider P
  unfolding forget_remembered_user
  signed_out s = record s {
    epoch = s.epoch + 1;
    storage = forget_remembered_user s.storage;
    user = none;
    unverified = false;
    path = some "/login";
  }
