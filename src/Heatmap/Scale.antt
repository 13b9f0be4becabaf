-- ===== src/Heatmap/Scale.antt =====
-- web/src/components/reports/heatmapGrid.ts: the intensity scale. A day's net is an integer number of
-- cents; `spent` is the part of it that the scale is about. The quotient `rank / n` times four is below
-- a whole number in floating point exactly where it is in the rationals, since 4 is a power of two and
-- the days of a year are few: the code's ceiling is the ceiling of `4 * rank / n`.
use spen_drop.Base.{
  ℕ, ◌+◌, ◌-◌, ◌*◌, ◌/◌, List, [], ◌∷◌, map, keep, leb, ltb, ◌==◌, if◌then◌else◌, length,
}
use Prim.Native.Nat.{min}
use spen_drop.Base.Int.{ℤ, pos, negsuc}

-- `OPACITY_STOPS`, in hundredths, by index
abbrev pub opacity_stop : ℕ → ℕ
opacity_stop bucket =
    if bucket == 0 then 30 else if bucket == 1 then 50 else if bucket == 2 then 75 else 100

-- a day's net where it is positive, and 0 otherwise
abbrev pub spent : ℤ → ℕ
spent (pos n) = n
spent (negsuc n) = 0

unfoldable pub insert_total : ℕ → List ℕ → List ℕ
insert_total x [] = x ∷ []
insert_total x (y ∷ ys) = if leb x y then x ∷ y ∷ ys else y ∷ insert_total x ys

unfoldable pub sort_totals : List ℕ → List ℕ
unfolding insert_total
sort_totals [] = []
sort_totals (x ∷ xs) = insert_total x (sort_totals xs)

-- the spending days' totals, in ascending order
unfoldable pub spending : List ℤ → List ℕ
unfolding sort_totals
spending totals = sort_totals (keep (λ x. ltb 0 x) (map spent totals))

-- `while (rank < n && spending[rank] <= total) rank += 1`
unfoldable pub rank_of : ℕ → List ℕ → ℕ
rank_of total [] = 0
rank_of total (x ∷ xs) = if leb x total then rank_of total xs + 1 else 0

-- the index of the stop for the rank among `n` spending days
unfoldable pub bucket_of : ℕ → ℕ → ℕ
bucket_of rank n = min 3 ((4 * rank + (n - 1)) / n - 1)

unfoldable pub build_intensity_scale : List ℤ → ℤ → ℕ
unfolding spending rank_of bucket_of
build_intensity_scale totals total =
    let days = spending totals in
    if spent total == 0
    then opacity_stop 0
    else if length days == 0
    then opacity_stop 3
    else opacity_stop (bucket_of (rank_of (spent total) days) (length days))
