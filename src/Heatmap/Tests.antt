-- ===== src/Heatmap/Tests.antt =====
-- The heatmap on a concrete week and a half.
use spen_drop.Base.{
  ℕ, ◌≡◌, String, str_eq, List, [], ◌∷◌, Option, none, some, length, if◌then◌else◌, arith,
}
use spen_drop.Base.Int.{ℤ, pos, negsuc}
use spen_drop.Heatmap.Scale.{opacity_stop, build_intensity_scale}
use spen_drop.Heatmap.Rank.{count_le, spending_days}
use spen_drop.Heatmap.Quartile.{IsQuartile, build_intensity_scale-IsQuartile}
use spen_drop.Heatmap.Heaviest.{heaviest_day}
use spen_drop.Heatmap.Heaviest.Earliest.{IsHeaviest, heaviest_day-IsHeaviest}
use spen_drop.Heatmap.Grid.{to_week_rows}

-- three spending days, a refund day and a day that cancelled out, in cents
abbrev totals : List ℤ
totals = pos 300 ∷ negsuc 199 ∷ pos 700 ∷ pos 0 ∷ pos 300 ∷ []

program : Unit {0}
unfolding count_le spending_days heaviest_day to_week_rows
program = tt

build_intensity_scale-IsQuartile_example :
    (bucket : ℕ) × (build_intensity_scale totals (pos 300) ≡ opacity_stop bucket)
    × IsQuartile (count_le 300 (spending_days totals)) (length (spending_days totals)) bucket
unfolding program
build_intensity_scale-IsQuartile_example =
    build_intensity_scale-IsQuartile totals (pos 300) (omega arith) (omega arith)

abbrev nets : String → Option ℤ
nets day =
    if str_eq day "2026-03-02"
    then some (pos 700)
    else if str_eq day "2026-03-03"
    then some (negsuc 199)
    else if str_eq day "2026-03-05"
    then some (pos 700)
    else none

abbrev week : List (Option String)
week =
    none
    ∷ some "2026-03-02"
    ∷ some "2026-03-03"
    ∷ some "2026-03-04"
    ∷ some "2026-03-05"
    ∷ none
    ∷ none
    ∷ none
    ∷ []

heaviest_day-IsHeaviest_example : IsHeaviest nets week (heaviest_day nets week)
heaviest_day-IsHeaviest_example = heaviest_day-IsHeaviest nets week
