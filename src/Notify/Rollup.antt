-- ===== src/Notify/Rollup.antt =====
-- web/src/lib/sw-notifications.ts: the roll-up of activity pushes into one notification. The text of a
-- number is a parameter.
use Prim.Native.String.{◌++◌ as ◌^^◌}
use spen_drop.Base.{
  ℕ, ◌+◌, ◌-◌, String, Option, none, some, List, [], ◌∷◌, take, length, ◌==◌, ltb, if◌then◌else◌,
}

pub record PushPayload : Type 0 where
  pub title : Option String
  pub body : Option String
  pub url : Option String
  pub tag : Option String

-- what a notification carries for the next push: its count and its lines, either of them absent
pub record Carried : Type 0 where
  pub count : Option ℕ
  pub lines : Option (List String)

pub record Rolled : Type 0 where
  pub payload : PushPayload
  pub count : ℕ
  pub lines : List String

abbrev pub max_rollup_lines : ℕ
max_rollup_lines = 4

-- `x ?? y`
abbrev pub or_else {ℓ} : {A : Type ℓ} → Option A → A → A
or_else none y = y
or_else (some x) y = x

-- `existing[0]?.data`, each notification having data or none
abbrev pub first_data : List (Option Carried) → Option Carried
first_data [] = none
first_data (d ∷ ds) = d

abbrev pub count_of : Option Carried → Option ℕ
count_of none = none
count_of (some d) = d.count

abbrev pub lines_of : Option Carried → Option (List String)
lines_of none = none
lines_of (some d) = d.lines

unfoldable pub activity_count : Option ℕ → ℕ
activity_count existing = or_else existing 0 + 1

-- `lines.join('\n')`
unfoldable pub join : List String → String
join [] = ""
join (l ∷ []) = l
join (l ∷ m ∷ ls) = l ^^ ("\n" ^^ join (m ∷ ls))

module _ (text : ℕ → String) where
  unfoldable pub more : ℕ → String
  more overflow = if ltb 0 overflow then "\n+" ^^ (text overflow ^^ " more") else ""

  -- `count - lines.length`, which is not negative
  unfoldable pub rolled_payload : PushPayload → ℕ → List String → PushPayload
  unfolding join more
  rolled_payload payload count lines = record payload {
    title = some (text count ^^ " new activities");
    body = some (join lines ^^ more (count - length lines));
  }

  unfoldable pub apply_activity_rollup : List (Option Carried) → PushPayload → Rolled
  apply_activity_rollup existing payload =
      let prior = first_data existing in
      let count = activity_count (count_of prior) in
      let lines = take max_rollup_lines (or_else payload.body "" ∷ or_else (lines_of prior) []) in
      record {
        payload = if count == 1 then payload else rolled_payload payload count lines;
        count = count;
        lines = lines;
      }
