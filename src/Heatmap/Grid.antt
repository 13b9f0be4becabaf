-- ===== src/Heatmap/Grid.antt =====
-- web/src/components/reports/heatmapGrid.ts: the two layouts of the padded cells.
use spen_drop.Base.{
  ℕ, zero, suc, ◌+◌, ◌-◌, ◌*◌, ◌/◌, ◌≤◌, ◌<◌, ◌≡◌, refl, sym, ap, ◌∙◌, List, [], ◌∷◌, ◌++◌, map,
  Option, none, some, take, drop, get_elem?, length, arith,
}

module _ {ℓ} {A : Type ℓ} where
  -- `for (let i = 0; i < cells.length; i += 7) rows.push(cells.slice(i, i + 7))`, on fuel
  unfoldable pub week_rows_from : ℕ → List A → List (List A)
  week_rows_from zero cells = []
  week_rows_from (suc fuel) [] = []
  week_rows_from (suc fuel) (x ∷ xs) = take 7 (x ∷ xs) ∷ week_rows_from fuel (drop 7 (x ∷ xs))

  unfoldable pub to_week_rows : List A → List (List A)
  unfolding week_rows_from
  to_week_rows cells = week_rows_from (length cells) cells

  -- `for (let c = start; c < columns; c++) row.push(cells[c * 7 + r])`, a missing cell being undefined
  unfoldable pub weekday_row : List A → ℕ → ℕ → ℕ → List (Option A)
  weekday_row cells r zero c = []
  weekday_row cells r (suc columns) c =
      get_elem? cells (c * 7 + r) ∷ weekday_row cells r columns (c + 1)

  unfoldable pub to_weekday_rows : List A → List (List (Option A))
  unfolding weekday_row
  to_weekday_rows cells =
      map (λ r. weekday_row cells r ((length cells + 6) / 7) 0) (0 ∷ 1 ∷ 2 ∷ 3 ∷ 4 ∷ 5 ∷ 6 ∷ [])

  unfoldable pub concat : List (List A) → List A
  concat [] = []
  concat (xs ∷ xss) = xs ++ concat xss

  take-drop : (n : ℕ) (xs : List A) → take n xs ++ drop n xs ≡ xs
  take-drop zero xs = refl
  take-drop (suc n) [] = refl
  take-drop (suc n) (x ∷ xs) = ap (λ ys. x ∷ ys) (take-drop n xs)

  length-drop : (n : ℕ) (xs : List A) → length (drop n xs) ≡ length xs - n
  length-drop zero xs = omega arith
  length-drop (suc n) [] = omega arith
  length-drop (suc n) (x ∷ xs) = omega (arith, length-drop n xs)

  -- With fuel for every cell the weeks, put end to end, are the cells.
  week_rows_from-concat :
      (fuel : ℕ) (cells : List A) → length cells ≤ fuel → concat (week_rows_from fuel cells) ≡ cells
  unfolding week_rows_from concat
  week_rows_from-concat zero [] h = refl
  week_rows_from-concat zero (x ∷ xs) h = absurd (omega arith)
  week_rows_from-concat (suc fuel) [] h = refl
  week_rows_from-concat (suc fuel) (x ∷ xs) h =
      ap (λ ys. take 7 (x ∷ xs) ++ ys)
        (week_rows_from-concat fuel (drop 7 (x ∷ xs)) (omega (arith, length-drop 7 (x ∷ xs))))
      ∙ take-drop 7 (x ∷ xs)

  -- what stands in column `r` of the week `c`
  unfoldable pub at : List (List A) → ℕ → ℕ → Option A
  at [] c r = none
  at (row ∷ rows) zero r = get_elem? row r
  at (row ∷ rows) (suc c) r = at rows c r

  get_elem-take : (n i : ℕ) (xs : List A) → i < n → get_elem? (take n xs) i ≡ get_elem? xs i
  get_elem-take zero i xs h = absurd (omega arith)
  get_elem-take (suc n) i [] h = refl
  get_elem-take (suc n) zero (x ∷ xs) h = refl
  get_elem-take (suc n) (suc i) (x ∷ xs) h = get_elem-take n i xs (omega arith)

  get_elem-drop : (n i : ℕ) (xs : List A) → get_elem? (drop n xs) i ≡ get_elem? xs (i + n)
  get_elem-drop zero i xs = ap (get_elem? xs) (omega arith)
  get_elem-drop (suc n) i [] = refl
  get_elem-drop (suc n) i (x ∷ xs) =
      let index : suc (i + n) ≡ i + suc n = omega arith in
      get_elem-drop n i xs ∙ ap (get_elem? (x ∷ xs)) index

  pub week_rows_from-at :
      (fuel : ℕ) (cells : List A) (c r : ℕ)
      → length cells ≤ fuel
      → r < 7
      → at (week_rows_from fuel cells) c r ≡ get_elem? cells (c * 7 + r)
  unfolding week_rows_from at
  week_rows_from-at zero [] c r h k = refl
  week_rows_from-at zero (x ∷ xs) c r h k = absurd (omega arith)
  week_rows_from-at (suc fuel) [] c r h k = refl
  week_rows_from-at (suc fuel) (x ∷ xs) zero r h k =
      let index : r ≡ 0 * 7 + r = omega arith in
      get_elem-take 7 r (x ∷ xs) k ∙ ap (get_elem? (x ∷ xs)) index
  week_rows_from-at (suc fuel) (x ∷ xs) (suc c) r h k =
      let index : c * 7 + r + 7 ≡ suc c * 7 + r = omega arith in
      week_rows_from-at fuel (drop 7 (x ∷ xs)) c r (omega (arith, length-drop 7 (x ∷ xs))) k
      ∙ get_elem-drop 7 (c * 7 + r) (x ∷ xs)
      ∙ ap (get_elem? (x ∷ xs)) index

  weekday_row-get :
      (cells : List A) (r columns start i : ℕ)
      → i < columns
      → get_elem? (weekday_row cells r columns start) i
        ≡ some (get_elem? cells ((start + i) * 7 + r))
  unfolding weekday_row
  weekday_row-get cells r zero start i h = absurd (omega arith)
  weekday_row-get cells r (suc columns) start zero h =
      let index : start * 7 + r ≡ (start + 0) * 7 + r = omega arith in
      ap (λ k. some (get_elem? cells k)) index
  weekday_row-get cells r (suc columns) start (suc i) h =
      let index : (start + 1 + i) * 7 + r ≡ (start + suc i) * 7 + r = omega arith in
      weekday_row-get cells r columns (start + 1) i (omega arith)
      ∙ ap (λ k. some (get_elem? cells k)) index

  seven_rows :
      (f : ℕ → List (Option A)) (r : ℕ)
      → r < 7
      → get_elem? (map f (0 ∷ 1 ∷ 2 ∷ 3 ∷ 4 ∷ 5 ∷ 6 ∷ [])) r ≡ some (f r)
  seven_rows f zero h = refl
  seven_rows f (suc zero) h = refl
  seven_rows f (suc (suc zero)) h = refl
  seven_rows f (suc (suc (suc zero))) h = refl
  seven_rows f (suc (suc (suc (suc zero)))) h = refl
  seven_rows f (suc (suc (suc (suc (suc zero))))) h = refl
  seven_rows f (suc (suc (suc (suc (suc (suc zero)))))) h = refl
  seven_rows f (suc (suc (suc (suc (suc (suc (suc r))))))) h = absurd (omega arith)

  -- The weeks put end to end are the cells: no cell is lost, repeated or moved.
  pub to_week_rows-concat : (cells : List A) → concat (to_week_rows cells) ≡ cells
  unfolding to_week_rows
  to_week_rows-concat cells = week_rows_from-concat (length cells) cells (omega arith)

  -- The desktop grid is the phone grid transposed: in every column that has a cell, its row for a
  -- weekday holds what the week of that column holds on that weekday.
  pub to_weekday_rows-at :
      (cells : List A) (r c : ℕ)
      → r < 7
      → c * 7 < length cells
      → (row : List (Option A)) × (get_elem? (to_weekday_rows cells) r ≡ some row)
        × (get_elem? row c ≡ some (at (to_week_rows cells) c r))
  unfolding to_weekday_rows to_week_rows
  to_weekday_rows-at cells r c weekday inside =
      let columns = (length cells + 6) / 7 in
      let within : c < columns = omega arith in
      (
        weekday_row cells r columns 0,
        seven_rows (λ r'. weekday_row cells r' columns 0) r weekday,
        weekday_row-get cells r columns 0 c within
            ∙ ap some (
                ap (λ k. get_elem? cells (k * 7 + r)) (omega arith)
                ∙ sym (week_rows_from-at (length cells) cells c r (omega arith) weekday)),
      )
