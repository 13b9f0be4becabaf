-- ===== src/Notify/Tests.antt =====
-- A burst of six activity pushes.
use spen_drop.Base.{ℕ, String, none, some, List, [], ◌∷◌, take, ◌==◌, if◌then◌else◌, ◌≡◌, refl}
use spen_drop.Notify.Rollup.{
  PushPayload, activity_count, join, more, rolled_payload, apply_activity_rollup,
}
use spen_drop.Notify.History.{
  found, body_of, newest, carried_after, burst, apply_activity_rollup-burst,
}

abbrev text : ℕ → String
text n = if n == 6 then "6" else "2"

abbrev push : String → PushPayload
push body = record { title = some "Expense"; body = some body; url = none; tag = some "activity" }

abbrev earlier : List PushPayload
earlier = push "a" ∷ push "b" ∷ push "c" ∷ push "d" ∷ push "e" ∷ []

program : Unit {0}
unfolding activity_count join more rolled_payload apply_activity_rollup carried_after burst
program = tt

rolled_up :
    let rolled = apply_activity_rollup text (found (burst text earlier none)) (push "f") in
    (rolled.payload.title ≡ some "6 new activities")
    × (rolled.payload.body ≡ some "f\ne\nd\nc\n+2 more")
unfolding program
rolled_up = (refl, refl)

apply_activity_rollup-burst_example :
    let rolled = apply_activity_rollup text (found (burst text earlier none)) (push "f") in
    (rolled.count ≡ 6) × (rolled.lines ≡ take 4 (body_of (push "f") ∷ newest earlier []))
apply_activity_rollup-burst_example = apply_activity_rollup-burst text earlier (push "f")
