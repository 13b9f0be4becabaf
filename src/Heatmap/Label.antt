-- ===== src/Heatmap/Label.antt =====
-- web/src/components/reports/heatmapGrid.ts: the words under a cell. The order of ISO dates, the
-- formats of money, of a count and of a day are parameters.
use spen_drop.Base.{
  ℕ, ◌≡◌, inl, inr, Bool, not, ◌&&◌, ◌==◌, ltb, String, str_eq, if◌then◌else◌, arith, Bool-cases,
  ==_iff,
}
use spen_drop.Base.Int.{ℤ}
use spen_drop.Heatmap.Scale.{spent}

-- the phrase with its parts, `${…}` by position
pub data Phrase : Type 0 where
  no_spending : Phrase
  spent_phrase : (money : String) → Phrase
  net_across : (money : String) (count : ℕ) (plural : Bool) → Phrase

pub data CellLabel : Type 0 where
  upcoming : (day : String) → CellLabel
  told : (today : Bool) (day : String) (phrase : Phrase) → CellLabel

-- `later a b` is `a > b` on dates
unfoldable pub is_upcoming : (String → String → Bool) → String → String → Bool → Bool
is_upcoming later date today has_rows = not has_rows && later date today

unfoldable pub spending_summary_phrase : (ℤ → String) → ℤ → ℕ → Phrase
spending_summary_phrase format total count =
    if count == 0
    then no_spending
    else if ltb 0 (spent total)
    then spent_phrase (format total)
    else net_across (format total) count (not (count == 1))

unfoldable pub heatmap_cell_label :
    (String → String → Bool)
    → (String → String)
    → (ℤ → String)
    → String
    → ℤ
    → ℕ
    → String
    → CellLabel
unfolding is_upcoming spending_summary_phrase
heatmap_cell_label later full_date format date total count today =
    if is_upcoming later date today (not (count == 0))
    then upcoming (full_date date)
    else told (str_eq date today) (full_date date) (spending_summary_phrase format total count)

abbrev pub IsSilent : CellLabel → Type 0
IsSilent (upcoming day) = Unit
IsSilent (told today day no_spending) = Unit
IsSilent (told today day (spent_phrase money)) = ⊥
IsSilent (told today day (net_across money count plural)) = ⊥

-- A cell's label denies that anything happened exactly where the day has no rows, whatever the rows add
-- up to and whether or not the day lies ahead.
pub heatmap_cell_label-IsSilent :
    (later : String → String → Bool) (full_date : String → String) (format : ℤ → String)
    (date : String) (total : ℤ) (count : ℕ) (today : String)
    → (count ≡ 0 → IsSilent (heatmap_cell_label later full_date format date total count today))
      × (IsSilent (heatmap_cell_label later full_date format date total count today) → count ≡ 0)
unfolding heatmap_cell_label is_upcoming spending_summary_phrase
heatmap_cell_label-IsSilent later full_date format date total count today =
    elim (Bool-cases (count == 0)) [
      | inl e ↦ (
        (λ _. rw e (elim (Bool-cases (later date today)) [ inl l ↦ rw l tt | inr l ↦ rw l tt ])),
        λ _. (==_iff count 0).0 e,
      )
      | inr e ↦ (
        (λ z. absurd (ground arith)),
        rw e (elim (Bool-cases (ltb 0 (spent total))) [
          | inl l ↦ rw l (λ h. absurd h)
          | inr l ↦ rw l (λ h. absurd h)
        ]),
      )
    ]
