-- ===== src/Heatmap/Heaviest/Earliest.antt =====
-- web/src/components/reports/heatmapGrid.ts: the search for the heaviest day finds the earliest of the days
-- with the greatest total.
use spen_drop.Base.{
  ℕ, ◌+◌, ◌≤◌, ◌<◌, ◌≡◌, refl, sym, ap, ◌∙◌, ==_iff, inl, inr, false, String, List, [], ◌∷◌, ◌++◌,
  append-nil, append_assoc, Option, none, some, find, leb, ◌==◌, length, arith, All, All-append,
  All-imp, Bool-cases,
}
use spen_drop.Base.Int.{ℤ}
use spen_drop.Heatmap.Heaviest.{
  Best, HeaviestDay, find-snoc, length-keep-snoc, below-find, below-reaching, consider-none,
  consider-passed, consider-better, consider-tied, value_of, consider, consider_all, heaviest_day,
  cell_value, reaching,
}

module _ (lookup : String → Option ℤ) where
  -- `best` is the maximum of the cells seen, first reached at its day, and tied as often as it says.
  abbrev pub IsBest : List (Option String) → Best → Type 0
  IsBest seen best =
      All (λ c. cell_value lookup c ≤ best.total) seen
      × ((day : String)
          → best.date ≡ some day
          → (0 < best.total)
            × (find (λ c. cell_value lookup c == best.total) seen ≡ some (some day))
            × (length (reaching lookup best.total seen) ≡ best.tied_with + 1))
      × (best.date ≡ none → best.total ≡ 0)

  -- A cell that stays below the best total, or that adds nothing, changes nothing.
  passed-IsBest :
      (seen : List (Option String)) (best : Best) (cell : Option String)
      → cell_value lookup cell ≤ best.total
      → (0 < best.total → (cell_value lookup cell == best.total) ≡ false)
      → IsBest seen best
      → IsBest (seen ++ cell ∷ []) best
  passed-IsBest seen best cell under apart (low, first, zero) = (
    All-append _ seen (cell ∷ []) low (under, tt),
    λ day e.
        let (some_total, found, ties) = first day e in
        (
          some_total,
          find-snoc lookup (λ c. cell_value lookup c == best.total) seen cell ∙ rw found refl,
          length-keep-snoc lookup (λ c. cell_value lookup c == best.total) seen cell
              ∙ ground (arith, ties, apart some_total),
        ),
    zero,
  )

  better-IsBest :
      (seen : List (Option String)) (best : Best) (day : String)
      → best.total < value_of lookup day
      → IsBest seen best
      → IsBest
          (seen ++ some day ∷ [])
          (record { date = some day; total = value_of lookup day; tied_with = 0 })
  better-IsBest seen best day over (low, first, zero) =
      let t = value_of lookup day in
      let below =
        All-imp _ (λ c. cell_value lookup c < t) (λ c h. omega (arith, h, over)) seen low in
      let itself = (==_iff t t).1 refl in
      (
        All-append _ seen (some day ∷ [])
            (All-imp _ (λ c. cell_value lookup c ≤ t) (λ c h. omega (arith, h, over)) seen low)
            (omega arith, tt),
        (λ other e. (
          omega (arith, over),
          find-snoc lookup (λ c. cell_value lookup c == t) seen (some day)
              ∙ rw (below-find lookup t seen below) (rw itself (ap some e)),
          length-keep-snoc lookup (λ c. cell_value lookup c == t) seen (some day)
              ∙ rw (below-reaching lookup t seen below) (rw itself (omega arith)),
        )),
        λ e. absurd (ground arith),
      )

  tied-IsBest :
      (seen : List (Option String)) (best : Best) (day : String)
      → value_of lookup day ≡ best.total
      → 0 < value_of lookup day
      → IsBest seen best
      → IsBest (seen ++ some day ∷ []) (record best { tied_with = best.tied_with + 1 })
  tied-IsBest seen best day same some_value (low, first, zero) = (
    All-append _ seen (some day ∷ []) low (omega (arith, same), tt),
    λ other e.
        let (some_total, found, ties) = first other e in
        (
          some_total,
          find-snoc lookup (λ c. cell_value lookup c == best.total) seen (some day) ∙ rw found refl,
          length-keep-snoc lookup (λ c. cell_value lookup c == best.total) seen (some day)
              ∙ ground (arith, ties, same),
        ),
    zero,
  )

  consider-IsBest :
      (seen : List (Option String)) (best : Best) (cell : Option String)
      → IsBest seen best
      → IsBest (seen ++ cell ∷ []) (consider lookup best cell)
  consider-IsBest seen best none h =
      rw (consider-none lookup best)
        (passed-IsBest seen best none (omega arith) (λ k. ground arith) h)
  consider-IsBest seen best (some day) h =
      elim (Bool-cases (leb (value_of lookup day) best.total)) [
        | inl e ↦ elim (Bool-cases (value_of lookup day == 0)) [
          | inl z ↦
              let nothing = (==_iff (value_of lookup day) 0).0 z in
              rw (consider-passed lookup best day (inl nothing)) (
                passed-IsBest seen best (some day) (omega (arith, nothing))
                  (λ k. ground (arith, nothing)) h)
          | inr z ↦ elim (Bool-cases (value_of lookup day == best.total)) [
            | inl same ↦
                let equal = (==_iff (value_of lookup day) best.total).0 same in
                rw (consider-tied lookup best day equal (ground arith))
                  (tied-IsBest seen best day equal (ground arith) h)
            | inr less ↦
                rw (consider-passed lookup best day (inr (ground arith)))
                  (passed-IsBest seen best (some day) (ground arith) (λ k. less) h)
          ]
        ]
        | inr e ↦
            let over : best.total < value_of lookup day = ground arith in
            rw (consider-better lookup best day over) (better-IsBest seen best day over h)
      ]

  consider_all-IsBest :
      (seen cells : List (Option String)) (best : Best)
      → IsBest seen best
      → IsBest (seen ++ cells) (consider_all lookup cells best)
  unfolding consider_all
  consider_all-IsBest seen [] best h = rw (append-nil seen) h
  consider_all-IsBest seen (cell ∷ cells) best h = rw (sym (append_assoc seen (cell ∷ []) cells)) (
      consider_all-IsBest (seen ++ cell ∷ []) cells (consider lookup best cell)
        (consider-IsBest seen best cell h))

  named : Best → Option HeaviestDay
  named best = elim best.date [
    | none ↦ none
    | some day ↦ some (record { day = day; amount = best.total; others = best.tied_with })
  ]

  -- What the search names is the first cell with the greatest total, and its count of other days is
  -- right; it names none just where no cell has spending.
  abbrev pub IsHeaviest : List (Option String) → Option HeaviestDay → Type 0
  IsHeaviest dates none = All (λ c. cell_value lookup c ≡ 0) dates
  IsHeaviest dates (some h) =
      (0 < h.amount)
      × All (λ c. cell_value lookup c ≤ h.amount) dates
      × (find (λ c. cell_value lookup c == h.amount) dates ≡ some (some h.day))
      × (length (reaching lookup h.amount dates) ≡ h.others + 1)

  IsBest-IsHeaviest :
      (dates : List (Option String)) (date : Option String) (total tied : ℕ)
      → IsBest dates (record { date = date; total = total; tied_with = tied })
      → IsHeaviest dates (named (record { date = date; total = total; tied_with = tied }))
  unfolding named
  IsBest-IsHeaviest dates none total tied (low, first, zero) =
      let nothing = zero refl in All-imp _ _ (λ c h. omega (arith, h, nothing)) dates low
  IsBest-IsHeaviest dates (some day) total tied (low, first, zero) =
      let (some_total, found, ties) = first day refl in (some_total, low, found, ties)

  -- The heaviest day is the earliest of the cells with the greatest positive total, with the number of
  -- other cells that share it; there is none just where no cell has spending.
  pub heaviest_day-IsHeaviest :
      (dates : List (Option String)) → IsHeaviest dates (heaviest_day lookup dates)
  unfolding heaviest_day named
  heaviest_day-IsHeaviest dates =
      let start : Best = record { date = none; total = 0; tied_with = 0 } in
      let best = consider_all lookup dates start in
      IsBest-IsHeaviest dates best.date best.total best.tied_with
        (consider_all-IsBest [] dates start (tt, (λ day e. absurd (ground arith)), (λ e. refl)))
