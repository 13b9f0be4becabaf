-- ===== src/Auth/Spec.antt =====
-- web/src/hooks/useAuth.tsx: the specification that the epoch implements. A provider without epochs
-- cancels the requests under way whenever somebody signs in or out, and drops what a cancelled one
-- answers.
use spen_drop.Base.{
  ℕ, zero, suc, Bool, true, false, Option, none, some, List, [], ◌∷◌, ◌++◌, map, ◌==◌,
  if◌then◌else◌,
}
use spen_drop.ApiClient.Outcome.{Outcome, returned, api_error, network_error, malformed}
use spen_drop.LastUser.Remembered.{User}
use spen_drop.Auth.Session.{
  Provider, Probe, verifying, refreshing, id_of, confirmed, verify_answered, refresh_answered,
  logout, signed_out,
}
use spen_drop.Auth.Events.{
  Event, mounted, came_online, visibility_changed, asked_again, answered, entered, leave_pressed,
  torn_down, closed, synced, pluck, tear_down, sync_as, can_sync,
}
use spen_drop.Auth.Epoch.{epoch_of}

pub data Kind : Type 0 where
  check reread : Kind

pub record Request : Type 0 where
  pub kind : Kind
  pub live : Bool

-- a provider whose epoch and requests are not looked at, and its requests
pub record Spec {ℓ} (P : Type ℓ) : Type ℓ where
  pub face : Provider P
  pub requests : List Request

abbrev pub cancel : Request → Request
cancel r = record r { live = false }

module _ {ℓ} {P : Type ℓ} where
  abbrev pub erase : Provider P → Provider P
  erase s = record s { epoch = 0; asked = [] }

  abbrev pub spec : Provider P → List Request → Spec P
  spec f rs = record { face = f; requests = rs }

  abbrev pub ask : Kind → Spec P → Spec P
  ask k s = record s { requests = s.requests ++ record { kind = k; live = true } ∷ [] }

  -- an answer to one request
  unfoldable pub reply_to : Kind → Bool → Outcome (User ℕ) → Provider P → Provider P
  reply_to check live answer f =
      let f' = verify_answered answer f in record (if live then f' else f) { loading = false }
  reply_to reread live answer f = let f' = refresh_answered answer f in if live then f' else f

  unfoldable pub spec_deliver : Option (Request × List Request) → Outcome (User ℕ) → Spec P → Spec P
  spec_deliver none answer s = s
  spec_deliver (some (r, others)) answer s = spec (reply_to r.kind r.live answer s.face) others

  unfoldable pub spec_enter : Outcome (User ℕ) → Spec P → Spec P
  spec_enter (returned (some user)) s =
      spec (record (confirmed user s.face) { path = some "/" }) (map cancel s.requests)
  spec_enter (returned none) s = spec s.face (map cancel s.requests)
  spec_enter (api_error message status) s = s
  spec_enter (network_error kind) s = s
  spec_enter malformed s = s

  unfoldable pub spec_close : ℕ → Spec P → Spec P
  spec_close zero s = s
  spec_close (suc n) s =
      spec (erase (signed_out (record s.face { closing = n }))) (map cancel s.requests)

  unfoldable pub spec_step : Event P → Spec P → Spec P
  spec_step mounted s = ask check s
  spec_step came_online s = if s.face.unverified then ask check s else s
  spec_step (visibility_changed hidden) s =
      if hidden then s else (if s.face.unverified then ask check s else s)
  spec_step asked_again s = ask reread s
  spec_step (answered i answer) s = spec_deliver (pluck i s.requests) answer s
  spec_step (entered answer) s = spec_enter answer s
  spec_step leave_pressed s = record s { face = logout s.face }
  spec_step (torn_down i deleted) s = record s {
    face = tear_down (pluck i s.face.leaving) deleted s.face;
  }
  spec_step closed s = spec_close s.face.closing s
  spec_step (synced w) s = record s {
    face = sync_as (id_of s.face.user) (can_sync s.face) w s.face;
  }

  unfoldable pub spec_run : List (Event P) → Spec P → Spec P
  spec_run [] s = s
  spec_run (e ∷ es) s = spec_run es (spec_step e s)

abbrev pub kind_of : Probe → Kind
kind_of (verifying epoch) = check
kind_of (refreshing epoch) = reread

abbrev pub request_of : ℕ → Probe → Request
request_of n p = record { kind = kind_of p; live = epoch_of p == n }

-- What the specification sees of a provider: a request is live while its epoch is the provider's.
abbrev pub view {ℓ} : {P : Type ℓ} → Provider P → Spec P
view s = record { face = erase s; requests = map (request_of s.epoch) s.asked }
