-- ===== src/Notify/History.antt =====
-- web/src/lib/sw-notifications.ts: a burst of activity pushes, each of which finds the notification that
-- the one before it left.
use spen_drop.Base.{
  ℕ, suc, ◌+◌, String, Option, none, some, List, [], ◌∷◌, take, length, ◌≡◌, refl, ap, ap₂, ◌∙◌,
  arith,
}
use spen_drop.Notify.Rollup.{PushPayload, Carried, or_else, activity_count, apply_activity_rollup}

-- the data of the notifications with the tag: that of one, or there is none yet
abbrev pub found : Option Carried → List (Option Carried)
found none = []
found (some d) = some d ∷ []

abbrev pub body_of : PushPayload → String
body_of payload = or_else payload.body ""

-- the bodies of a burst, newest first
abbrev pub newest : List PushPayload → List String → List String
newest [] seen = seen
newest (p ∷ ps) seen = newest ps (body_of p ∷ seen)

module _ (text : ℕ → String) where
  -- what a push leaves for the next one
  unfoldable pub carried_after : PushPayload → Option Carried → Option Carried
  carried_after payload prior =
      let rolled = apply_activity_rollup text (found prior) payload in
      some (record { count = some rolled.count; lines = some rolled.lines })

  unfoldable pub burst : List PushPayload → Option Carried → Option Carried
  unfolding carried_after
  burst [] prior = prior
  burst (p ∷ ps) prior = burst ps (carried_after p prior)

-- what a notification carries after the bodies
abbrev summary : List String → Option Carried
summary [] = none
summary (b ∷ bs) = some (record { count = some (length (b ∷ bs)); lines = some (take 4 (b ∷ bs)) })

take-take : (bs : List String) → take 3 (take 4 bs) ≡ take 3 bs
take-take [] = refl
take-take (a ∷ []) = refl
take-take (a ∷ b ∷ []) = refl
take-take (a ∷ b ∷ c ∷ bs) = refl

module _ (text : ℕ → String) where
  rollup-summary :
      (p : PushPayload) (seen : List String)
      → let rolled = apply_activity_rollup text (found (summary seen)) p in
        (rolled.count ≡ suc (length seen)) × (rolled.lines ≡ take 4 (body_of p ∷ seen))
  unfolding apply_activity_rollup activity_count
  rollup-summary p [] = (refl, refl)
  rollup-summary p (b ∷ bs) = (omega arith, ap (λ ls. body_of p ∷ ls) (take-take (b ∷ bs)))

  carried_after-summary :
      (p : PushPayload) (seen : List String)
      → carried_after text p (summary seen) ≡ summary (body_of p ∷ seen)
  unfolding carried_after
  carried_after-summary p seen =
      let (count, lines) = rollup-summary p seen in
      ap₂ (λ n ls. some (record { count = some n; lines = some ls })) count lines

  burst-summary :
      (ps : List PushPayload) (seen : List String)
      → burst text ps (summary seen) ≡ summary (newest ps seen)
  unfolding burst
  burst-summary [] seen = refl
  burst-summary (p ∷ ps) seen =
      ap (burst text ps) (carried_after-summary p seen) ∙ burst-summary ps (body_of p ∷ seen)

  length-newest :
      (ps : List PushPayload) (seen : List String)
      → length (newest ps seen) ≡ length ps + length seen
  length-newest [] seen = omega arith
  length-newest (p ∷ ps) seen = omega (arith, length-newest ps (body_of p ∷ seen))

  -- In a burst of pushes, each finding what the one before it left, the notification counts all of
  -- them and holds the bodies of the newest four, the newest first.
  pub apply_activity_rollup-burst :
      (ps : List PushPayload) (p : PushPayload)
      → let rolled = apply_activity_rollup text (found (burst text ps none)) p in
        (rolled.count ≡ length ps + 1) × (rolled.lines ≡ take 4 (body_of p ∷ newest ps []))
  apply_activity_rollup-burst ps p =
      let before = burst-summary ps [] in
      let (count, lines) = rollup-summary p (newest ps []) in
      rw before (count ∙ omega (arith, length-newest ps []), lines)
