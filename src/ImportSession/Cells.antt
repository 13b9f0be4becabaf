-- ===== src/ImportSession/Cells.antt =====
-- web/src/hooks/useImportSession.ts: the message under a cell of the preview.
use mathlib.Core.Bool.{and-eq-true_iff}
use spen_drop.Base.{
  ℕ, ◌≡◌, ◌≢◌, refl, sym, ap, ◌∙◌, inl, inr, Bool, true, false, not, String, List, [], ◌∷◌, ◌++◌,
  Option, none, some, arith, append-nil, ◌==◌, ==_iff, if◌then◌else◌, keep, find_last, Bool-cases,
  Option-cases,
}
use spen_drop.ImportSession.Wire.{Field, same_field, same_field_iff, ImportPreview}
use spen_drop.ImportSession.Gate.{CellError, is_cell, cell_errors, text_of, error_at}
use spen_drop.ImportSession.Machine.{set_cell, drop_cell}

-- the second search's element, or the first's
abbrev later {ℓ} : {A : Type ℓ} → Option A → Option A → Option A
later first (some y) = some y
later first none = first

module _ {ℓ} {A : Type ℓ} (p : A → Bool) where
  find_last-cons :
      (x : A) (o o' : Option A)
      → later (elim o [ some y ↦ some y | none ↦ if p x then some x else none ]) o'
        ≡ (elim (later o o') [ some y ↦ some y | none ↦ if p x then some x else none ])
  find_last-cons x o (some y) = refl
  find_last-cons x o none = refl

  find_last-append :
      (xs ys : List A) → find_last p (xs ++ ys) ≡ later (find_last p xs) (find_last p ys)
  find_last-append [] ys = elim (Option-cases (find_last p ys)) [
    | inl e ↦ rw e refl
    | inr (y, e) ↦ rw e refl
  ]
  find_last-append (x ∷ xs) ys =
      rw (find_last-append xs ys) (sym (find_last-cons x (find_last p xs) (find_last p ys)))

  -- A filter that only drops what the search would not find does not change the search.
  find_last-keep :
      (q : A → Bool) (xs : List A)
      → ((x : A) → p x ≡ true → q x ≡ true)
      → find_last p (keep q xs) ≡ find_last p xs
  find_last-keep q [] h = refl
  find_last-keep q (x ∷ xs) h = elim (Option-cases (find_last p xs)) [
    | inl e ↦ ground (arith, e, find_last-keep q xs h, h x)
    | inr (y, e) ↦ ground (arith, e, find_last-keep q xs h, h x)
  ]

  find_last-kept_out :
      (q : A → Bool) (xs : List A)
      → ((x : A) → p x ≡ true → q x ≡ false)
      → find_last p (keep q xs) ≡ none
  find_last-kept_out q [] h = refl
  find_last-kept_out q (x ∷ xs) h = ground (arith, find_last-kept_out q xs h, h x)

-- the server's flags in cells, below which stand the rejected PATCHes
flags : Option ImportPreview → List CellError
flags shown = cell_errors shown []

cell_errors-split :
    (shown : Option ImportPreview) (es : List CellError) → cell_errors shown es ≡ flags shown ++ es
unfolding flags cell_errors
cell_errors-split none es = refl
cell_errors-split (some p) es = ap (λ xs. xs ++ es) (sym (append-nil _))

cell-error_at :
    (id : ℕ) (field : Field) (shown : Option ImportPreview) (es : List CellError)
    → error_at id field (cell_errors shown es)
      ≡ text_of
          (later (find_last (is_cell id field) (flags shown)) (find_last (is_cell id field) es))
unfolding error_at
cell-error_at id field shown es =
    ap (λ xs. text_of (find_last (is_cell id field) xs)) (cell_errors-split shown es)
    ∙ ap text_of (find_last-append (is_cell id field) (flags shown) es)

same_cell :
    (id id' : ℕ) (field field' : Field) (e : CellError)
    → is_cell id field e ≡ true
    → is_cell id' field' e ≡ true
    → (id ≡ id') × (field ≡ field')
same_cell id id' field field' e h h' =
    let (rows, fields) = (and-eq-true_iff (e.row_id == id) (same_field e.field field)).0 h in
    let (rows', fields') = (and-eq-true_iff (e.row_id == id') (same_field e.field field')).0 h' in
    (
      sym ((==_iff e.row_id id).0 rows) ∙ (==_iff e.row_id id').0 rows',
      sym ((same_field_iff e.field field).0 fields) ∙ (same_field_iff e.field field').0 fields',
    )

-- The cell's own test fails on what another cell's test finds.
other_cell :
    (id id' : ℕ) (field field' : Field)
    → ((id ≡ id') → (field ≢ field'))
    → (e : CellError) → is_cell id' field' e ≡ true
    → not (is_cell id field e) ≡ true
other_cell id id' field field' other e h = elim (Bool-cases (is_cell id field e)) [
  | inl same ↦
      let (ids, fields) = same_cell id id' field field' e same h in absurd (other ids fields)
  | inr different ↦ ap not different
]

abbrev cell : ℕ → Field → String → CellError
cell id field message = record { row_id = id; field = field; text = message }

is_cell_self :
    (id : ℕ) (field : Field) (message : String) → is_cell id field (cell id field message) ≡ true
is_cell_self id field message =
    (and-eq-true_iff (id == id) (same_field field field)).1
      ((==_iff id id).1 refl, (same_field_iff field field).1 refl)

set_cell_self :
    (id : ℕ) (field : Field) (message : String) (es : List CellError)
    → find_last (is_cell id field) (set_cell id field message es) ≡ some (cell id field message)
unfolding set_cell
set_cell_self id field message es =
    let kept = keep (λ e. not (is_cell id field e)) es in
    find_last-append (is_cell id field) kept (cell id field message ∷ [])
    ∙ ap
        (λ b.
          later (find_last (is_cell id field) kept)
            (if b then some (cell id field message) else none))
        (is_cell_self id field message)

new_other :
    (id id' : ℕ) (field field' : Field) (message : String)
    → ((id ≡ id') → (field ≢ field'))
    → is_cell id' field' (cell id field message) ≡ false
new_other id id' field field' message other =
    let e = cell id field message in
    elim (Bool-cases (is_cell id' field' e)) [
      | inl h ↦
          let bad : true ≡ false =
            sym (other_cell id id' field field' other e h)
            ∙ ap not (is_cell_self id field message) in
          absurd (ground arith)
      | inr h ↦ h
    ]

set_cell-other :
    (id id' : ℕ) (field field' : Field) (message : String) (es : List CellError)
    → ((id ≡ id') → (field ≢ field'))
    → find_last (is_cell id' field') (set_cell id field message es)
      ≡ find_last (is_cell id' field') es
unfolding set_cell
set_cell-other id id' field field' message es other =
    let p = is_cell id' field' in
    let new = cell id field message in
    let kept = keep (λ e. not (is_cell id field e)) es in
    find_last-append p kept (new ∷ [])
    ∙ ap (λ b. later (find_last p kept) (if b then some new else none))
        (new_other id id' field field' message other)
    ∙ find_last-keep p (λ e. not (is_cell id field e)) es
        (λ e h. other_cell id id' field field' other e h)

-- After a rejected PATCH its cell shows the rejection, over any flag of the server's there, and every
-- other cell shows what it showed.
pub set_cell-error_at :
    (id : ℕ) (field : Field) (message : String) (shown : Option ImportPreview) (es : List CellError)
    → (error_at id field (cell_errors shown (set_cell id field message es)) ≡ some message)
      × ((id' : ℕ) (field' : Field)
          → ((id ≡ id') → (field ≢ field'))
          → error_at id' field' (cell_errors shown (set_cell id field message es))
            ≡ error_at id' field' (cell_errors shown es))
set_cell-error_at id field message shown es = (
  cell-error_at id field shown (set_cell id field message es)
      ∙ ap (λ o. text_of (later (find_last (is_cell id field) (flags shown)) o))
          (set_cell_self id field message es),
  λ id' field' other.
      cell-error_at id' field' shown (set_cell id field message es)
      ∙ ap (λ o. text_of (later (find_last (is_cell id' field') (flags shown)) o))
          (set_cell-other id id' field field' message es other)
      ∙ sym (cell-error_at id' field' shown es),
)

-- After an accepted PATCH its cell shows the server's flag, if there is one, and every other cell shows
-- what it showed.
pub drop_cell-error_at :
    (id : ℕ) (field : Field) (shown : Option ImportPreview) (es : List CellError)
    → (error_at id field (cell_errors shown (drop_cell id field es))
        ≡ error_at id field (cell_errors shown []))
      × ((id' : ℕ) (field' : Field)
          → ((id ≡ id') → (field ≢ field'))
          → error_at id' field' (cell_errors shown (drop_cell id field es))
            ≡ error_at id' field' (cell_errors shown es))
unfolding drop_cell
drop_cell-error_at id field shown es = (
  cell-error_at id field shown (drop_cell id field es)
      ∙ ap (λ o. text_of (later (find_last (is_cell id field) (flags shown)) o))
          (find_last-kept_out (is_cell id field) (λ e. not (is_cell id field e)) es
            (λ e h. ap not h))
      ∙ sym (cell-error_at id field shown []),
  λ id' field' other.
      cell-error_at id' field' shown (drop_cell id field es)
      ∙ ap (λ o. text_of (later (find_last (is_cell id' field') (flags shown)) o))
          (find_last-keep (is_cell id' field') (λ e. not (is_cell id field e)) es
            (λ e h. other_cell id id' field field' other e h))
      ∙ sym (cell-error_at id' field' shown es),
)
