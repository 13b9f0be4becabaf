-- ===== src/Capture/Hint.antt =====
-- web/src/pages/QuickAdd.tsx: the hint beside a disabled button.
use spen_drop.Base.{true, false, none, ◌≡◌, arith, ◌↔◌}
use spen_drop.Capture.Form.{Household, Effective, can_submit, missing_hint}

-- While nothing is being saved, there is a hint exactly where the entry cannot be added: a disabled button
-- always has its reason beside it.
pub missing_hint-can_submit :
    (h : Household) (e : Effective)
    → (missing_hint h false e ≡ none) ↔ (can_submit h false e ≡ true)
unfolding missing_hint can_submit
missing_hint-can_submit h e = ground arith
