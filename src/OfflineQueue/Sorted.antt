-- ===== src/OfflineQueue/Sorted.antt =====
-- web/src/lib/offline-queue.ts: the rows are handed out in order of capture, none lost.
use mathlib.Core.List.{Perm}
use mathlib.Core.List.Perm
use spen_drop.Base.{◌≡◌, List, [], ◌∷◌, arith, All, All-imp, Bool-cases, inl, inr, true, false}
use spen_drop.OfflineQueue.Store.{Row, is_before, insert_sorted, sort_rows}

module _ {ℓ} {P : Type ℓ} where
  is_before_trans :
      (a b c : Row P) → is_before a b ≡ true → is_before b c ≡ true → is_before a c ≡ true
  is_before_trans a b c h k = ground arith

  is_before_total : (a b : Row P) → is_before a b ≡ false → is_before b a ≡ true
  is_before_total a b h = ground arith

  module _ {κ} (Q : Row P → Type κ) where
    All-insert_sorted :
        (r : Row P) (xs : List (Row P)) → Q r → All Q xs → All Q (insert_sorted r xs)
    unfolding insert_sorted
    All-insert_sorted r [] q h = (q, tt)
    All-insert_sorted r (x ∷ xs) q h = elim (Bool-cases (is_before r x)) [
      | inl first ↦ rw first (q, h)
      | inr later ↦ rw later (h.0, All-insert_sorted r xs q h.1)
    ]

    pub All-sort_rows : (xs : List (Row P)) → All Q xs → All Q (sort_rows xs)
    unfolding sort_rows
    All-sort_rows [] h = tt
    All-sort_rows (x ∷ xs) h = All-insert_sorted x (sort_rows xs) h.0 (All-sort_rows xs h.1)

  -- Oldest first, and the smaller key first among captures of one millisecond.
  abbrev pub IsFifo : List (Row P) → Type 0
  IsFifo [] = Unit
  IsFifo (x ∷ xs) = All (λ y. is_before x y ≡ true) xs × IsFifo xs

  insert_sorted-IsFifo : (r : Row P) (xs : List (Row P)) → IsFifo xs → IsFifo (insert_sorted r xs)
  unfolding insert_sorted
  insert_sorted-IsFifo r [] h = (tt, tt)
  insert_sorted-IsFifo r (x ∷ xs) h = elim (Bool-cases (is_before r x)) [
    | inl first ↦
        rw first ((first, All-imp _ _ (λ y after. is_before_trans r x y first after) xs h.0), h)
    | inr later ↦
        rw later
          (All-insert_sorted _ r xs (is_before_total r x later) h.0, insert_sorted-IsFifo r xs h.1)
  ]

  pub sort_rows-IsFifo : (xs : List (Row P)) → IsFifo (sort_rows xs)
  unfolding sort_rows
  sort_rows-IsFifo [] = tt
  sort_rows-IsFifo (x ∷ xs) = insert_sorted-IsFifo x (sort_rows xs) (sort_rows-IsFifo xs)

  insert_sorted-perm : (r : Row P) (xs : List (Row P)) → Perm (insert_sorted r xs) (r ∷ xs)
  unfolding insert_sorted
  insert_sorted-perm r [] = Perm.refl (r ∷ [])
  insert_sorted-perm r (x ∷ xs) = elim (Bool-cases (is_before r x)) [
    | inl first ↦ rw first (Perm.refl (r ∷ x ∷ xs))
    | inr later ↦ rw later (Perm.trans (Perm.cons x (insert_sorted-perm r xs)) (Perm.swap r x xs))
  ]

  pub sort_rows-perm : (xs : List (Row P)) → Perm (sort_rows xs) xs
  unfolding sort_rows
  sort_rows-perm [] = Perm.refl []
  sort_rows-perm (x ∷ xs) =
      Perm.trans (insert_sorted-perm x (sort_rows xs)) (Perm.cons x (sort_rows-perm xs))
