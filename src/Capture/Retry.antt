-- ===== src/Capture/Retry.antt =====
-- web/src/pages/QuickAdd.tsx: the Retry of a failed entry.
use spen_drop.Base.{ℕ, Bool, some, List, [], ◌∷◌, get_elem?, ◌≡◌}
use spen_drop.Capture.Form.{Household, Snapshot}
use spen_drop.Capture.Send.{
  Entry, Submission, Screen, CaptureEvent, edited, added, retried, dismissed, sent, failed,
}

-- The user edits, and sends come to their end.
abbrev pub Waits : List CaptureEvent → Type 0
Waits [] = Unit
Waits (edited form ∷ es) = Waits es
Waits (sent i ∷ es) = Waits es
Waits (failed i retryable ∷ es) = Waits es
Waits (added key date ∷ es) = ⊥
Waits (retried i ∷ es) = ⊥
Waits (dismissed i ∷ es) = ⊥

module _ (h : Household) (same : Snapshot → Snapshot → Bool) where
  -- the entries that were sent are those of another screen, and an offer is still there
  abbrev Kept : ℕ → Submission → List Entry → Screen → Type 0
  Kept i sub posts s = (s.posts ≡ posts) × (get_elem? s.offers i ≡ some sub)
