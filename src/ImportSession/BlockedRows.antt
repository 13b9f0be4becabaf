-- ===== src/ImportSession/BlockedRows.antt =====
-- The two sets of blocked rows: which rows they hold, each once.
use spen_drop.Base.{
  ℕ, ◌≡◌, Bool, not, ◌&&◌, ◌||◌, List, [], ◌∷◌, arith, ◌==◌, any, any_eq-append, Bool-cases, inl,
  inr, Distinct, Distinct-append,
}
use spen_drop.ImportSession.Wire.{ImportRow, ImportFieldError}
use spen_drop.ImportSession.Fields.{is_money_field}
use spen_drop.ImportSession.Gate.{
  Blocked, block, block_all, blocked_row_ids, active_field_errors, add_id,
}

-- `set.has(id)`
abbrev pub has : ℕ → List ℕ → Bool
has id ids = any (λ j. j == id) ids

has-add_id : (id j : ℕ) (ids : List ℕ) → has id (add_id j ids) ≡ (has id ids || (j == id))
has-add_id id j ids = ground (arith, any_eq-append j id ids)

abbrev pub names_money : ℕ → ImportFieldError → Bool
names_money id fe = (fe.row_id == id) && is_money_field fe.field

abbrev pub names_length : ℕ → ImportFieldError → Bool
names_length id fe = (fe.row_id == id) && not (is_money_field fe.field)

block_all-has_money :
    (id : ℕ) (fes : List ImportFieldError) (b : Blocked)
    → has id (block_all fes b).money_ids ≡ (has id b.money_ids || any (names_money id) fes)
unfolding block_all
block_all-has_money id [] b = ground arith
block_all-has_money id (fe ∷ fes) b =
    ground (arith, block_all-has_money id fes (block b fe), has-add_id id fe.row_id b.money_ids)

block_all-has_length :
    (id : ℕ) (fes : List ImportFieldError) (b : Blocked)
    → has id (block_all fes b).length_ids ≡ (has id b.length_ids || any (names_length id) fes)
unfolding block_all
block_all-has_length id [] b = ground arith
block_all-has_length id (fe ∷ fes) b =
    ground (arith, block_all-has_length id fes (block b fe), has-add_id id fe.row_id b.length_ids)

add_id-Distinct : (id : ℕ) (ids : List ℕ) → Distinct ids → Distinct (add_id id ids)
add_id-Distinct id ids h = elim (Bool-cases (has id ids)) [
  | inl old ↦ rw old h
  | inr new ↦ rw new (Distinct-append id ids new h)
]

abbrev AreDistinct : Blocked → Type 0
AreDistinct b = Distinct b.money_ids × Distinct b.length_ids

block-Distinct : (b : Blocked) (fe : ImportFieldError) → AreDistinct b → AreDistinct (block b fe)
block-Distinct b fe (m, l) = elim (Bool-cases (is_money_field fe.field)) [
  | inl money ↦ rw (money, Distinct) (add_id-Distinct fe.row_id b.money_ids m, l)
  | inr long ↦ rw (long, Distinct) (m, add_id-Distinct fe.row_id b.length_ids l)
]

block_all-Distinct :
    (fes : List ImportFieldError) (b : Blocked) → AreDistinct b → AreDistinct (block_all fes b)
unfolding block_all
block_all-Distinct [] b h = h
block_all-Distinct (fe ∷ fes) b h = block_all-Distinct fes (block b fe) (block-Distinct b fe h)

-- A row is in the money set just when an error on a row that is present and not skipped names it and
-- is about money, and in the length set just when such an error is about anything else; each set
-- counts a row once.
pub blocked_row_ids-Distinct :
    (fes : List ImportFieldError) (rows : List ImportRow) (id : ℕ)
    → (has id (blocked_row_ids fes rows).money_ids
        ≡ any (names_money id) (active_field_errors fes rows))
      × (has id (blocked_row_ids fes rows).length_ids
          ≡ any (names_length id) (active_field_errors fes rows))
      × Distinct (blocked_row_ids fes rows).money_ids
      × Distinct (blocked_row_ids fes rows).length_ids
unfolding blocked_row_ids
blocked_row_ids-Distinct fes rows id =
    let active = active_field_errors fes rows in
    let empty : Blocked = record { length_ids = []; money_ids = [] } in
    let (m, l) = block_all-Distinct active empty (tt, tt) in
    (block_all-has_money id active empty, block_all-has_length id active empty, m, l)
