-- ===== src/Heatmap/Heaviest.antt =====
-- web/src/components/reports/heatmapGrid.ts: the heaviest day among the cells on screen. The look-up of
-- a day's net is a function, 0 for a day that has no entry.
pub mod Earliest
use spen_drop.Base.{
  ℕ, ◌+◌, ◌≤◌, ◌<◌, ◌≡◌, refl, sym, ap, ◌∙◌, ◌⊎◌, ==_iff, inl, inr, Bool, false, String, List, [],
  ◌∷◌, ◌++◌, append-nil, append_assoc, Option, none, some, keep, find, leb, ltb, ◌==◌,
  if◌then◌else◌, length, arith, All, All-append, All-imp, Bool-cases,
}
use spen_drop.Base.Int.{ℤ}
use spen_drop.Heatmap.Scale.{spent}

-- the best so far: the day, its total and how many other days share it
pub record Best : Type 0 where
  pub date : Option String
  pub total : ℕ
  pub tied_with : ℕ

pub record HeaviestDay : Type 0 where
  pub day : String
  pub amount : ℕ
  pub others : ℕ

module _ (lookup : String → Option ℤ) where
  -- `lookup.get(candidate) ?? 0`, where it is positive
  unfoldable pub value_of : String → ℕ
  value_of day = elim (lookup day) [ none ↦ 0 | some net ↦ spent net ]

  unfoldable pub consider : Best → Option String → Best
  unfolding value_of
  consider best none = best
  consider best (some day) =
      if value_of day == 0
      then best
      else if ltb best.total (value_of day)
      then record { date = some day; total = value_of day; tied_with = 0 }
      else if value_of day == best.total
      then record best { tied_with = best.tied_with + 1 }
      else best

  unfoldable pub consider_all : List (Option String) → Best → Best
  unfolding consider
  consider_all [] best = best
  consider_all (cell ∷ cells) best = consider_all cells (consider best cell)

  unfoldable pub heaviest_day : List (Option String) → Option HeaviestDay
  unfolding consider_all
  heaviest_day dates =
      let best = consider_all dates (record { date = none; total = 0; tied_with = 0 }) in
      elim best.date [
        | none ↦ none
        | some day ↦ some (record { day = day; amount = best.total; others = best.tied_with })
      ]

  -- what a cell of the grid adds up to: nothing for a padding cell
  abbrev pub cell_value : Option String → ℕ
  cell_value none = 0
  cell_value (some day) = value_of day

  -- the cells whose total is `t`
  abbrev pub reaching : ℕ → List (Option String) → List (Option String)
  reaching t cells = keep (λ c. cell_value c == t) cells

  pub find-snoc :
      (p : Option String → Bool) (xs : List (Option String)) (x : Option String)
      → find p (xs ++ x ∷ [])
        ≡ (elim (find p xs) [ some y ↦ some y | none ↦ if p x then some x else none ])
  find-snoc p [] x = refl
  find-snoc p (y ∷ ys) x = elim (Bool-cases (p y)) [
    | inl e ↦ simp (e) refl
    | inr e ↦ simp (e) (find-snoc p ys x)
  ]

  pub length-keep-snoc :
      (p : Option String → Bool) (xs : List (Option String)) (x : Option String)
      → length (keep p (xs ++ x ∷ [])) ≡ length (keep p xs) + (if p x then 1 else 0)
  length-keep-snoc p [] x = ground arith
  length-keep-snoc p (y ∷ ys) x = ground (arith, length-keep-snoc p ys x)

  -- No cell seen reaches a total above all of them.
  pub below-find :
      (t : ℕ) (seen : List (Option String))
      → All (λ c. cell_value c < t) seen
      → find (λ c. cell_value c == t) seen ≡ none
  below-find t [] h = refl
  below-find t (c ∷ seen) (p, h) = ground (arith, below-find t seen h)

  pub below-reaching :
      (t : ℕ) (seen : List (Option String))
      → All (λ c. cell_value c < t) seen
      → length (reaching t seen) ≡ 0
  below-reaching t [] h = refl
  below-reaching t (c ∷ seen) (p, h) = ground (arith, below-reaching t seen h)

  pub consider-none : (best : Best) → consider best none ≡ best
  unfolding consider
  consider-none best = refl

  pub consider-passed :
      (best : Best) (day : String)
      → (value_of day ≡ 0) ⊎ (value_of day < best.total)
      → consider best (some day) ≡ best
  unfolding consider
  consider-passed best day (inl e) = ground (arith, e)
  consider-passed best day (inr e) = ground (arith, e)

  pub consider-better :
      (best : Best) (day : String)
      → best.total < value_of day
      → consider best (some day) ≡ record { date = some day; total = value_of day; tied_with = 0 }
  unfolding consider
  consider-better best day e = ground (arith, e)

  pub consider-tied :
      (best : Best) (day : String)
      → value_of day ≡ best.total
      → 0 < value_of day
      → consider best (some day) ≡ record best { tied_with = best.tied_with + 1 }
  unfolding consider
  consider-tied best day e k = ground (arith, e, k)
