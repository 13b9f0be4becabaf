-- ===== src/Notify/Render.antt =====
-- web/src/lib/sw-notifications.ts: renderPushNotification. What the browser answers is an argument: the
-- data of the notifications with the tag, or none where it refuses; and whether it shows the first one.
use text.Mathlib.Text.{starts_with}
use spen_drop.Base.{
  ℕ, Bool, true, false, String, str_eq, Option, none, some, List, [], ◌∷◌, length, if◌then◌else◌,
  ◌≡◌, refl, ◌⊎◌, inl, inr, Bool-cases,
}
use spen_drop.Notify.Rollup.{PushPayload, Carried, or_else, apply_activity_rollup}

pub record NotificationOptions : Type 0 where
  pub body : String
  pub icon : String
  pub badge : String
  pub tag : Option String
  pub renotify : Bool
  pub url : String
  pub count : Option ℕ
  pub lines : Option (List String)

unfoldable pub build_notification_options :
    PushPayload → Option ℕ → Option (List String) → NotificationOptions
build_notification_options payload count lines = record {
  body = or_else payload.body "";
  icon = "/pwa-192x192.png";
  badge = "/badge-96x96.png";
  tag = payload.tag;
  renotify = starts_with (or_else payload.tag "") "budget";
  url = or_else payload.url "/";
  count = count;
  lines = lines;
}

-- one call of `showNotification`
pub record Shown : Type 0 where
  pub title : String
  pub options : NotificationOptions

pub record Rendered : Type 0 where
  pub shown : List Shown
  pub app_badge : Option ℕ

abbrev pub raw : PushPayload → String → Shown
raw payload title = record { title = title; options = build_notification_options payload none none }

-- the last call of the `try`, and after it that of the `catch` where it was refused
abbrev pub shown_or_raw : Bool → Shown → PushPayload → String → List Shown
shown_or_raw accepted call payload title =
    if accepted then call ∷ [] else call ∷ raw payload title ∷ []

-- `applyAppBadge`
abbrev pub app_badge_of : Bool → ℕ → Option ℕ
app_badge_of has_badge count = if has_badge then some count else none

abbrev pub last_shown : List Shown → Option Shown
last_shown [] = none
last_shown (s ∷ []) = some s
last_shown (s ∷ t ∷ ss) = last_shown (t ∷ ss)

-- The last call shows the push as it came, or there is a single call, which the browser accepted.
abbrev pub Kept : Bool → PushPayload → String → Rendered → Type 0
Kept accepted payload title r =
    (last_shown r.shown ≡ some (raw payload title)) ⊎ ((accepted ≡ true) × (length r.shown ≡ 1))

module _ (text : ℕ → String) (has_badge : Bool) where
  unfoldable pub render_activity :
      Option (List (Option Carried)) → Bool → PushPayload → String → Rendered
  render_activity none accepted payload title = record {
    shown = raw payload title ∷ [];
    app_badge = none;
  }
  render_activity (some existing) accepted payload title =
      let rolled = apply_activity_rollup text existing payload in
      let call : Shown = record {
        title = or_else rolled.payload.title title;
        options = build_notification_options rolled.payload (some rolled.count) (some rolled.lines);
      } in
      record {
        shown = shown_or_raw accepted call payload title;
        app_badge = app_badge_of has_badge rolled.count;
      }

  unfoldable pub render_plain : Bool → PushPayload → String → Rendered
  render_plain accepted payload title =
      let call : Shown = record {
        title = or_else payload.title title;
        options = build_notification_options payload none none;
      } in
      record { shown = shown_or_raw accepted call payload title; app_badge = none }

  unfoldable pub render_push_notification :
      Option (List (Option Carried)) → Bool → PushPayload → String → Rendered
  unfolding render_activity render_plain
  render_push_notification existing accepted payload title =
      if str_eq (or_else payload.tag "") "activity"
      then render_activity existing accepted payload title
      else render_plain accepted payload title

  render_activity-Kept :
      (existing : Option (List (Option Carried))) (accepted : Bool) (payload : PushPayload)
      (title : String)
      → Kept accepted payload title (render_activity existing accepted payload title)
  unfolding render_activity
  render_activity-Kept none accepted payload title = inl refl
  render_activity-Kept (some existing) true payload title = inr (refl, refl)
  render_activity-Kept (some existing) false payload title = inl refl

  render_plain-Kept :
      (accepted : Bool) (payload : PushPayload) (title : String)
      → Kept accepted payload title (render_plain accepted payload title)
  unfolding render_plain
  render_plain-Kept true payload title = inr (refl, refl)
  render_plain-Kept false payload title = inl refl

  -- A push is never dropped: either the last call shows it as it came, or there is a single call and
  -- the browser accepted it.
  pub render_push_notification-Kept :
      (existing : Option (List (Option Carried))) (accepted : Bool) (payload : PushPayload)
      (title : String)
      → Kept accepted payload title (render_push_notification existing accepted payload title)
  unfolding render_push_notification
  render_push_notification-Kept existing accepted payload title =
      elim (Bool-cases (str_eq (or_else payload.tag "") "activity")) [
        | inl e ↦ rw e (render_activity-Kept existing accepted payload title)
        | inr e ↦ rw e (render_plain-Kept accepted payload title)
      ]
