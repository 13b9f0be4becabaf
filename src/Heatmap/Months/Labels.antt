-- ===== src/Heatmap/Months/Labels.antt =====
-- web/src/components/reports/heatmapGrid.ts: every month keeps its label, over the week of its first day.
use spen_drop.Base.{
  ℕ, zero, suc, ◌+◌, ◌*◌, ◌/◌, ◌%◌, ◌≤◌, ◌<◌, Bool, ◌&&◌, ◌==◌, if◌then◌else◌, Option, none, some,
  List, [], ◌∷◌, true, false, replicate, length, get_elem?, ◌≡◌, ◌≢◌, refl, ap, ◌∙◌, arith,
}
use spen_drop.Heatmap.Calendar.{Day, days_in_month, days_in_month-le, monday_first, is_leap}
use spen_drop.Heatmap.Grid.{to_week_rows, week_rows_from-at, at}
use spen_drop.Heatmap.Year.{generate_year_dates}
use spen_drop.Heatmap.Loops.{total_days}
use spen_drop.Heatmap.Columns.{length-generate_year_dates}
use spen_drop.Heatmap.Months.{
  first_day, position_of, position_of-get_elem, position_of-year, set_label, label_at, label_months,
  month_label_columns,
}

set_label-get_elem :
    (c m : ℕ) (ls : List (Option ℕ))
    → c < length ls
    → get_elem? (set_label c m ls) c ≡ some (some m)
unfolding set_label
set_label-get_elem c m [] h = absurd (omega arith)
set_label-get_elem zero m (l ∷ ls) h = refl
set_label-get_elem (suc c) m (l ∷ ls) h = set_label-get_elem c m ls (omega arith)

set_label-other :
    (c c' m : ℕ) (ls : List (Option ℕ)) → c ≢ c' → get_elem? (set_label c m ls) c' ≡ get_elem? ls c'
unfolding set_label
set_label-other c c' m [] h = refl
set_label-other zero zero m (l ∷ ls) h = absurd (h refl)
set_label-other zero (suc c') m (l ∷ ls) h = refl
set_label-other (suc c) zero m (l ∷ ls) h = refl
set_label-other (suc c) (suc c') m (l ∷ ls) h = set_label-other c c' m ls (λ e. h (ap suc e))

length-set_label : (c m : ℕ) (ls : List (Option ℕ)) → length (set_label c m ls) ≡ length ls
unfolding set_label
length-set_label c m [] = refl
length-set_label zero m (l ∷ ls) = refl
length-set_label (suc c) m (l ∷ ls) = ap suc (length-set_label c m ls)

-- the column of a month's first day, behind `start` cells of padding
abbrev column : ℕ → ℕ → ℕ → ℕ
column start y m = (start + total_days y 0 m) / 7

total_days-suc :
    (y m0 k : ℕ) → total_days y m0 (suc k) ≡ total_days y m0 k + days_in_month y (m0 + k)
total_days-suc y m0 zero = let here : m0 + 0 ≡ m0 = omega arith in rw here (omega arith)
total_days-suc y m0 (suc k) =
    let index : m0 + suc k ≡ suc m0 + k = omega arith in
    rw index (omega (arith, total_days-suc y (suc m0) k))

column-lt : (start y m k : ℕ) → column start y m < column start y (m + suc k)
column-lt start y m zero =
    let index : m + 1 ≡ suc m = omega arith in
    rw index (omega (arith, total_days-suc y 0 m, days_in_month-le y (0 + m)))
column-lt start y m (suc k) =
    let index : m + suc (suc k) ≡ suc (m + suc k) = omega arith in
    rw index (
      omega (
        arith,
        column-lt start y m k,
        total_days-suc y 0 (m + suc k),
        days_in_month-le y (0 + (m + suc k)),
      ))

-- The rounds from the month `m` on, where each finds its day behind the padding.
module _ (start y : ℕ) (cells : List (Option Day))
    (found : (m : ℕ)
      → m ≤ 11
      → position_of (first_day y m) cells ≡ some (start + total_days y 0 m)) where
  label_months-before :
      (n m c : ℕ) (ls : List (Option ℕ))
      → m + n ≤ 12
      → c < column start y m
      → get_elem? (label_months y m n cells ls) c ≡ get_elem? ls c
  unfolding label_months label_at
  label_months-before zero m c ls h lt = refl
  label_months-before (suc n) m c ls h lt =
      let next : m + 1 ≡ suc m = omega arith in
      let later : column start y m < column start y (suc m) = rw next at (column-lt start y m 0) in
      label_months-before n (suc m) c (label_at (position_of (first_day y m) cells) m ls)
        (omega arith) (omega (arith, lt, later))
      ∙ rw (found m (omega arith))
          (set_label-other (column start y m) c m ls (λ e. absurd (omega (arith, lt, e))))

  label_months-get_elem :
      (n m j : ℕ) (ls : List (Option ℕ))
      → m + n ≤ 12
      → j < n
      → column start y (m + j) < length ls
      → get_elem? (label_months y m n cells ls) (column start y (m + j)) ≡ some (some (m + j))
  unfolding label_months label_at
  label_months-get_elem zero m j ls h lt inside = absurd (omega arith)
  label_months-get_elem (suc n) m zero ls h lt inside =
      let here : m + 0 ≡ m = omega arith in
      let next : m + 1 ≡ suc m = omega arith in
      let inside' : column start y m < length ls = rw here at inside in
      rw here (
        label_months-before n (suc m) (column start y m)
          (label_at (position_of (first_day y m) cells) m ls) (omega arith)
          (rw next at (column-lt start y m 0))
        ∙ rw (found m (omega arith)) (set_label-get_elem (column start y m) m ls inside'))
  label_months-get_elem (suc n) m (suc j) ls h lt inside =
      let next : m + suc j ≡ suc m + j = omega arith in
      let size : length (label_at (position_of (first_day y m) cells) m ls) ≡ length ls =
        rw (found m (omega arith)) (length-set_label (column start y m) m ls) in
      rw next (
        label_months-get_elem n (suc m) j (label_at (position_of (first_day y m) cells) m ls)
          (omega arith) (omega arith) (rw size (rw next at inside)))

get_elem-lt :
    (cells : List (Option Day)) (i : ℕ) (cell : Option Day)
    → get_elem? cells i ≡ some cell
    → i < length cells
get_elem-lt [] i cell h = cc
get_elem-lt (x ∷ xs) zero cell h = omega arith
get_elem-lt (x ∷ xs) (suc i) cell h = omega (arith, get_elem-lt xs i cell h)

length-blank : (n : ℕ) → length {A = Option ℕ} (replicate n none) ≡ n
length-blank zero = refl
length-blank (suc n) = ap suc (length-blank n)

-- The cells of a year are whole weeks.
whole_weeks : (b : Bool) (n i : ℕ) → n ≡ (if b then 378 else 371) → i < n → i / 7 < n / 7
whole_weeks true n i size h = omega (arith, size, h)
whole_weeks false n i size h = omega (arith, size, h)

-- In a year of four digits every month has its label, over the very column whose week holds the month's
-- first day; no label takes the place of another.
pub month_label_columns-at :
    (y m : ℕ)
    → 1000 ≤ y
    → y ≤ 9999
    → m ≤ 11
    → (c : ℕ) × (r : ℕ) × (r < 7)
      × (at (to_week_rows (generate_year_dates y)) c r ≡ some (some (first_day y m)))
      × (get_elem? (month_label_columns y (generate_year_dates y)) c ≡ some (some m))
unfolding month_label_columns to_week_rows
month_label_columns-at y m late early season =
    let start = monday_first (first_day y 0) in
    let cells = generate_year_dates y in
    let i = start + total_days y 0 m in
    let found : (j : ℕ)
        → j ≤ 11
        → position_of (first_day y j) cells ≡ some (start + total_days y 0 j) =
      λ j h. position_of-year y j (omega arith) early h in
    let stands : get_elem? cells i ≡ some (some (first_day y m)) =
      position_of-get_elem (first_day y m) cells i (found m season) in
    let split : i / 7 * 7 + i % 7 ≡ i = omega arith in
    let inside : i < length cells = get_elem-lt cells i (some (first_day y m)) stands in
    let whole : i / 7 < length cells / 7 =
      whole_weeks (is_leap y && (start == 6)) (length cells) i
        (length-generate_year_dates y (omega arith) early) inside in
    let blank : List (Option ℕ) = replicate (length cells / 7) none in
    let room : i / 7 < length blank = omega (arith, whole, length-blank (length cells / 7)) in
    let index : 0 + m ≡ m = omega arith in
    let room' : (start + total_days y 0 (0 + m)) / 7 < length blank = rw index room in
    let label =
      label_months-get_elem start y cells found 12 0 m blank (omega arith) (omega arith) room' in
    (
      i / 7,
      i % 7,
      omega arith,
      week_rows_from-at (length cells) cells (i / 7) (i % 7) (omega arith) (omega arith)
          ∙ ap (get_elem? cells) split
          ∙ stands,
      rw index at label,
    )
