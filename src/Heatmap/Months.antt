-- ===== src/Heatmap/Months.antt =====
-- web/src/components/reports/heatmapGrid.ts: monthLabelColumns. A label is the number of its month, from 0.
-- A cell is found by its day, which is its text where the year has four digits.
pub mod Labels
use spen_drop.Base.{
  ℕ, zero, suc, ◌+◌, ◌-◌, ◌*◌, ◌/◌, ◌≤◌, ◌<◌, Bool, true, false, ◌&&◌, ◌==◌, if◌then◌else◌, Option,
  none, some, List, [], ◌∷◌, ◌++◌, replicate, length, get_elem?, ◌≡◌, ◌≢◌, refl, sym, ap, ◌∙◌, inl,
  inr, Bool-cases, Option-cases, ==_iff, arith,
}
use spen_drop.Heatmap.Calendar.{Day, days_in_month, days_in_month-le, monday_first}
use spen_drop.Heatmap.Year.{generate_year_dates, pad_start}
use spen_drop.Heatmap.Loops.{days_from, days_of_month, months_from, total_days, total_days_year}
use spen_drop.Heatmap.Columns.{length-days_from}
use spen_drop.Heatmap.Padding.{padded, year_padded, length-replicate, missing}

abbrev pub is_day : Day → Option Day → Bool
is_day d none = false
is_day d (some e) = (e.year == d.year) && ((e.month == d.month) && (e.date == d.date))

abbrev pub later_index : Option ℕ → Bool → Option ℕ
later_index (some i) here = some (suc i)
later_index none here = if here then some 0 else none

-- `positions.get(iso)`, the index set last
unfoldable pub position_of : Day → List (Option Day) → Option ℕ
position_of d [] = none
position_of d (cell ∷ cells) = later_index (position_of d cells) (is_day d cell)

-- `labels[column] = name`
unfoldable pub set_label : ℕ → ℕ → List (Option ℕ) → List (Option ℕ)
set_label c m [] = []
set_label zero m (l ∷ ls) = some m ∷ ls
set_label (suc c) m (l ∷ ls) = l ∷ set_label c m ls

unfoldable pub label_at : Option ℕ → ℕ → List (Option ℕ) → List (Option ℕ)
label_at none m labels = labels
label_at (some i) m labels = set_label (i / 7) m labels

abbrev pub first_day : ℕ → ℕ → Day
first_day year m = record { year = year; month = m; date = 1 }

-- the rounds of `MONTH_NAMES_SHORT.forEach` from a month on
unfoldable pub label_months : ℕ → ℕ → ℕ → List (Option Day) → List (Option ℕ) → List (Option ℕ)
label_months year m zero cells labels = labels
label_months year m (suc n) cells labels =
    label_months year (suc m) n cells (label_at (position_of (first_day year m) cells) m labels)

unfoldable pub month_label_columns : ℕ → List (Option Day) → List (Option ℕ)
month_label_columns year cells = label_months year 0 12 cells (replicate (length cells / 7) none)

-- Where a day stands in lists put together.
abbrev shift : ℕ → Option ℕ → Option ℕ
shift n none = none
shift n (some i) = some (n + i)

shift-zero : (o : Option ℕ) → shift 0 o ≡ o
shift-zero none = refl
shift-zero (some i) = ap some (omega arith)

shift-suc : (n : ℕ) (o : Option ℕ) → later_index (shift n o) false ≡ shift (suc n) o
shift-suc n none = refl
shift-suc n (some i) = ap some (omega arith)

position_of-blank :
    (d : Day) (n : ℕ) (cells : List (Option Day))
    → position_of d (replicate n none ++ cells) ≡ shift n (position_of d cells)
unfolding position_of
position_of-blank d zero cells = sym (shift-zero (position_of d cells))
position_of-blank d (suc n) cells =
    rw (position_of-blank d n cells) (shift-suc n (position_of d cells))

position_of-before :
    (d : Day) (xs ys : List (Option Day))
    → position_of d ys ≡ none
    → position_of d (xs ++ ys) ≡ position_of d xs
unfolding position_of
position_of-before d [] ys h = h
position_of-before d (x ∷ xs) ys h = rw (position_of-before d xs ys h) refl

position_of-behind :
    (d : Day) (xs ys : List (Option Day)) (i : ℕ)
    → position_of d ys ≡ some i
    → position_of d (xs ++ ys) ≡ some (length xs + i)
unfolding position_of
position_of-behind d [] ys i h = h ∙ ap some (omega arith)
position_of-behind d (x ∷ xs) ys i h = rw (position_of-behind d xs ys i h) (ap some (omega arith))

position_of-none : (d : Day) (n : ℕ) → position_of d (replicate n none) ≡ none
unfolding position_of
position_of-none d zero = refl
position_of-none d (suc n) = rw (position_of-none d n) refl

-- A month holds its own first day, at its start, and that of no other month.
position_of-later : (y m d n : ℕ) → 1 < d → position_of (first_day y m) (days_from y m d n) ≡ none
unfolding position_of
position_of-later y m d zero h = refl
position_of-later y m d (suc n) h =
    rw (position_of-later y m (d + 1) n (omega (arith, h))) (ground arith)

position_of-other :
    (y m m' d n : ℕ) → m ≢ m' → position_of (first_day y m) (days_from y m' d n) ≡ none
unfolding position_of
position_of-other y m m' d zero h = refl
position_of-other y m m' d (suc n) h = rw (position_of-other y m m' (d + 1) n h) (ground arith)

position_of-own : (y m n : ℕ) → 1 ≤ n → position_of (first_day y m) (days_from y m 1 n) ≡ some 0
unfolding position_of
position_of-own y m zero h = absurd (omega arith)
position_of-own y m (suc n) h = rw (position_of-later y m 2 n (omega arith)) (ground arith)

is_day_eq : (d : Day) (cell : Option Day) → is_day d cell ≡ true → cell ≡ some d
is_day_eq d none h = cc
is_day_eq d (some e) h =
    let y : e.year ≡ d.year = (==_iff e.year d.year).0 (ground (arith, h)) in
    let m : e.month ≡ d.month = (==_iff e.month d.month).0 (ground (arith, h)) in
    let n : e.date ≡ d.date = (==_iff e.date d.date).0 (ground (arith, h)) in
    ap some (rw (y, m, n) refl)

-- What stands at the position found.
pub position_of-get_elem :
    (d : Day) (cells : List (Option Day)) (i : ℕ)
    → position_of d cells ≡ some i
    → get_elem? cells i ≡ some (some d)
unfolding position_of
position_of-get_elem d [] i h = cc
position_of-get_elem d (cell ∷ cells) i h = elim (Option-cases (position_of d cells)) [
  | inr (k, e) ↦
      let same : suc k ≡ i = cc (rw e at h) in rw (sym same) (position_of-get_elem d cells k e)
  | inl e ↦ elim (Bool-cases (is_day d cell)) [
    | inl here ↦
        let same : 0 ≡ i = cc (rw (e, here) at h) in rw (sym same) (ap some (is_day_eq d cell here))
    | inr other ↦ cc (rw (e, other) at h)
  ]
]

position_of-missing :
    (y m m0 k : ℕ) → m < m0 → position_of (first_day y m) (months_from y m0 k) ≡ none
position_of-missing y m m0 zero h = unfold position_of in refl
position_of-missing y m m0 (suc k) h =
    position_of-before (first_day y m) (days_of_month y m0) (months_from y (suc m0) k)
      (position_of-missing y m (suc m0) k (omega (arith, h)))
    ∙ position_of-other y m m0 1 (days_in_month y m0) (λ e. absurd (omega (arith, h, e)))

position_of-months_from :
    (y m0 k j : ℕ)
    → j < k
    → position_of (first_day y (m0 + j)) (months_from y m0 k) ≡ some (total_days y m0 j)
position_of-months_from y m0 zero j h = absurd (omega arith)
position_of-months_from y m0 (suc k) zero h =
    let here : m0 + 0 ≡ m0 = omega arith in
    rw here (
      position_of-before (first_day y m0) (days_of_month y m0) (months_from y (suc m0) k)
        (position_of-missing y m0 (suc m0) k (omega arith))
      ∙ position_of-own y m0 (days_in_month y m0) (omega (arith, days_in_month-le y m0)))
position_of-months_from y m0 (suc k) (suc j) h =
    let next : m0 + suc j ≡ suc m0 + j = omega arith in
    rw next (
      position_of-behind (first_day y (suc m0 + j)) (days_of_month y m0) (months_from y (suc m0) k)
        (total_days y (suc m0) j) (position_of-months_from y (suc m0) k j (omega arith))
      ∙ ap (λ n. some (n + total_days y (suc m0) j)) (length-days_from y m0 1 (days_in_month y m0)))

-- The first day of a month stands behind the padding and the months before it.
pub position_of-year :
    (y m : ℕ)
    → 100 ≤ y
    → y ≤ 9999
    → m ≤ 11
    → position_of (first_day y m) (generate_year_dates y)
      ≡ some (monday_first (first_day y 0) + total_days y 0 m)
position_of-year y m late four season =
    let jan1 = first_day y 0 in
    let start : List (Option Day) = replicate (monday_first jan1) none in
    let days = months_from y 0 12 in
    let index : 0 + m ≡ m = omega arith in
    let inside = position_of-months_from y 0 12 m (omega arith) in
    rw
      (
        year_padded y late four,
        position_of-before (first_day y m) (start ++ days)
            (replicate (missing (length (start ++ days))) none)
            (position_of-none (first_day y m) (missing (length (start ++ days)))),
        position_of-blank (first_day y m) (monday_first jan1) days,
        rw index at inside,
      )
      refl
