-- ===== src/Heatmap/Loops.antt =====
-- web/src/components/reports/heatmapGrid.ts: the two loops over days end, at any fuel that is enough, and
-- go through every day of their year or month once and in order.
use spen_drop.Base.{
  ℕ, zero, suc, ◌+◌, ◌-◌, ◌≤◌, ◌<◌, Bool, true, false, ltb, if◌then◌else◌, Option, some, List, [],
  ◌∷◌, ◌++◌, append_assoc, append-nil, ◌≡◌, refl, sym, ap, ◌∙◌, inl, inr, Bool-cases, arith,
}
use spen_drop.Heatmap.Calendar.{
  Day, next_day, next_day_within, next_day_new_month, next_day_new_year, days_in_month,
  days_in_month-le, is_leap,
}
use spen_drop.Heatmap.Year.{fill_while, in_year, in_month}

-- The `n` days of a month from one on, and the days of `k` whole months from one on.
abbrev pub days_from : ℕ → ℕ → ℕ → ℕ → List (Option Day)
days_from y m d zero = []
days_from y m d (suc n) = some (record { year = y; month = m; date = d }) ∷ days_from y m (d + 1) n

abbrev pub days_of_month : ℕ → ℕ → List (Option Day)
days_of_month y m = days_from y m 1 (days_in_month y m)

abbrev pub months_from : ℕ → ℕ → ℕ → List (Option Day)
months_from y m zero = []
months_from y m (suc k) = days_of_month y m ++ months_from y (suc m) k

module _ (goes : Day → Bool) (y m : ℕ) (next : Day) where
  -- The loop runs through what is left of a month that it goes on in, and comes to the day after it.
  fill_while_days :
      (d n f fuel : ℕ)
      → ((k : ℕ) → goes (record { year = y; month = m; date = k }) ≡ true)
      → next_day (record { year = y; month = m; date = days_in_month y m }) ≡ next
      → d + n ≡ days_in_month y m
      → f ≡ suc n + fuel
      → fill_while goes f (record { year = y; month = m; date = d })
        ≡ days_from y m d (suc n) ++ fill_while goes fuel next
  unfolding fill_while
  fill_while_days d n zero fuel inside after end enough = absurd (omega arith)
  fill_while_days d zero (suc f) fuel inside after end enough =
      let last : d ≡ days_in_month y m = omega arith in
      let left : f ≡ fuel = omega arith in
      rw (inside d) (
        ap (λ xs. some (record { year = y; month = m; date = d }) ∷ xs)
          (ap (λ k. fill_while goes f (next_day (record { year = y; month = m; date = k }))) last
            ∙ rw (after, left) refl))
  fill_while_days d (suc n) (suc f) fuel inside after end enough =
      let within = next_day_within (record { year = y; month = m; date = d }) (ground arith) in
      let rest = fill_while_days (d + 1) n f fuel inside after (omega arith) (omega arith) in
      rw (inside d) (
        ap (λ xs. some (record { year = y; month = m; date = d }) ∷ xs)
          (ap (fill_while goes f) within ∙ rest))

days_from_whole : (y m : ℕ) → days_from y m 1 (suc (days_in_month y m - 1)) ≡ days_of_month y m
days_from_whole y m =
    let whole : suc (days_in_month y m - 1) ≡ days_in_month y m =
      omega (arith, (days_in_month-le y m).0) in
    ap (days_from y m 1) whole

-- a whole month of the loop
fill_while_month :
    (goes : Day → Bool) (y m : ℕ) (next : Day) (f fuel : ℕ)
    → ((k : ℕ) → goes (record { year = y; month = m; date = k }) ≡ true)
    → next_day (record { year = y; month = m; date = days_in_month y m }) ≡ next
    → f ≡ days_in_month y m + fuel
    → fill_while goes f (record { year = y; month = m; date = 1 })
      ≡ days_of_month y m ++ fill_while goes fuel next
fill_while_month goes y m next f fuel inside after enough =
    let (low, high) = days_in_month-le y m in
    fill_while_days goes y m next 1 (days_in_month y m - 1) f fuel inside after (omega arith)
      (omega arith)
    ∙ ap (λ xs. xs ++ fill_while goes fuel next) (days_from_whole y m)

abbrev pub total_days : ℕ → ℕ → ℕ → ℕ
total_days y m zero = 0
total_days y m (suc k) = days_in_month y m + total_days y (suc m) k

month_end :
    (y m : ℕ)
    → m < 11
    → next_day (record { year = y; month = m; date = days_in_month y m })
      ≡ record { year = y; month = suc m; date = 1 }
month_end y m h =
    next_day_new_month (record { year = y; month = m; date = days_in_month y m }) (ground arith)
      (ground arith)

year_end :
    (y m : ℕ)
    → m ≡ 11
    → next_day (record { year = y; month = m; date = days_in_month y m })
      ≡ record { year = suc y; month = 0; date = 1 }
year_end y m h =
    next_day_new_year (record { year = y; month = m; date = days_in_month y m }) (ground arith)
      (ground arith)

fill_while_months :
    (y m k f fuel : ℕ)
    → y ≤ 9999
    → m + suc k ≡ 12
    → f ≡ total_days y m (suc k) + fuel
    → fill_while (in_year y) f (record { year = y; month = m; date = 1 })
      ≡ months_from y m (suc k)
        ++ fill_while (in_year y) fuel (record { year = suc y; month = 0; date = 1 })
fill_while_months y m zero f fuel four season enough =
    let after : Day = record { year = suc y; month = 0; date = 1 } in
    fill_while_month (in_year y) y m after f fuel (λ k. ground arith) (year_end y m (omega arith))
      (omega arith)
    ∙ ap (λ xs. xs ++ fill_while (in_year y) fuel after) (sym (append-nil (days_of_month y m)))
fill_while_months y m (suc k) f fuel four season enough =
    let rest = total_days y (suc m) (suc k) + fuel in
    let after : Day = record { year = suc y; month = 0; date = 1 } in
    fill_while_month (in_year y) y m (record { year = y; month = suc m; date = 1 }) f rest
      (λ i. ground arith) (month_end y m (omega arith)) (omega arith)
    ∙ ap (λ xs. days_of_month y m ++ xs)
        (fill_while_months y (suc m) k rest fuel four (omega arith) refl)
    ∙ sym (
        append_assoc (days_of_month y m) (months_from y (suc m) (suc k))
          (fill_while (in_year y) fuel after))

-- The loop over a day that it does not go on in is over.
fill_while_over :
    (goes : Day → Bool) (fuel : ℕ) (d : Day) → goes d ≡ false → fill_while goes fuel d ≡ []
unfolding fill_while
fill_while_over goes zero d h = refl
fill_while_over goes (suc fuel) d h = rw h refl

-- From the first of January on, in a year up to 9999, with fuel for its days, the loop goes through
-- the twelve months of the year, each day once and in order.
pub fill_while-in_year :
    (y fuel : ℕ)
    → y ≤ 9999
    → total_days y 0 12 ≤ fuel
    → fill_while (in_year y) fuel (record { year = y; month = 0; date = 1 }) ≡ months_from y 0 12
fill_while-in_year y fuel four enough =
    let rest = fuel - total_days y 0 12 in
    let after : Day = record { year = suc y; month = 0; date = 1 } in
    fill_while_months y 0 11 fuel rest four refl (omega arith)
    ∙ ap (λ xs. months_from y 0 12 ++ xs) (fill_while_over (in_year y) rest after (ground arith))
    ∙ append-nil (months_from y 0 12)

pub fill_while-in_month :
    (y m fuel : ℕ)
    → y ≤ 9999
    → m ≤ 11
    → days_in_month y m ≤ fuel
    → fill_while (in_month y m) fuel (record { year = y; month = m; date = 1 }) ≡ days_of_month y m
fill_while-in_month y m fuel four season enough =
    let rest = fuel - days_in_month y m in
    elim (Bool-cases (ltb m 11)) [
      | inl early ↦
          let after : Day = record { year = y; month = suc m; date = 1 } in
          fill_while_month (in_month y m) y m after fuel rest (λ k. ground arith)
            (month_end y m (ground arith)) (omega arith)
          ∙ ap (λ xs. days_of_month y m ++ xs)
              (fill_while_over (in_month y m) rest after (ground arith))
          ∙ append-nil (days_of_month y m)
      | inr december ↦
          let after : Day = record { year = suc y; month = 0; date = 1 } in
          fill_while_month (in_month y m) y m after fuel rest (λ k. ground arith)
            (year_end y m (ground arith)) (omega arith)
          ∙ ap (λ xs. days_of_month y m ++ xs)
              (fill_while_over (in_month y m) rest after (ground arith))
          ∙ append-nil (days_of_month y m)
    ]

pub total_days_year : (y : ℕ) → total_days y 0 12 ≡ 365 + (if is_leap y then 1 else 0)
unfolding days_in_month
total_days_year y = elim (Bool-cases (is_leap y)) [ inl e ↦ rw e refl | inr e ↦ rw e refl ]
