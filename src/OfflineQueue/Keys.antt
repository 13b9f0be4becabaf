-- ===== src/OfflineQueue/Keys.antt =====
-- web/src/lib/offline-queue.ts: the keys of a store stay distinct and ascending, and rows are found by
-- them.
use spen_drop.Base.{
  ℕ, suc, ◌+◌, ◌≤◌, ◌<◌, ◌≡◌, refl, List, [], ◌∷◌, ◌++◌, none, some, arith, ◌==◌, if◌then◌else◌,
  All, Bool-cases, inl, inr,
}
use spen_drop.OfflineQueue.Store.{Row, Store, new_row, add, put_row, put, delete_row, find_row}

module _ {ℓ} {P : Type ℓ} where
  pub find_row-put_row :
      (k : ℕ) (r : Row P) (xs : List (Row P))
      → find_row k (put_row r xs) ≡ (if r.id == k then some r else find_row k xs)
  unfolding find_row put_row
  find_row-put_row k r [] = refl
  find_row-put_row k r (x ∷ xs) = ground (arith, find_row-put_row k r xs)

  pub find_row-delete_row :
      (k j : ℕ) (xs : List (Row P))
      → find_row k (delete_row j xs) ≡ (if j == k then none else find_row k xs)
  unfolding find_row delete_row
  find_row-delete_row k j [] = ground arith
  find_row-delete_row k j (x ∷ xs) = ground (arith, find_row-delete_row k j xs)

  -- Keys ascend strictly, from `lo` on and below `hi`.
  abbrev pub Keyed : ℕ → ℕ → List (Row P) → Type 0
  Keyed lo hi [] = lo ≤ hi
  Keyed lo hi (x ∷ xs) = (lo ≤ x.id) × Keyed (suc x.id) hi xs

  pub Keyed-le : (lo hi : ℕ) (xs : List (Row P)) → Keyed lo hi xs → lo ≤ hi
  Keyed-le lo hi [] h = h
  Keyed-le lo hi (x ∷ xs) h = omega (arith, Keyed-le (suc x.id) hi xs h.1)

  Keyed-weaken : (lo lo' hi : ℕ) (xs : List (Row P)) → lo' ≤ lo → Keyed lo hi xs → Keyed lo' hi xs
  Keyed-weaken lo lo' hi [] e h = omega arith
  Keyed-weaken lo lo' hi (x ∷ xs) e h = (omega arith, h.1)

  pub Keyed-put_row :
      (r : Row P) (lo hi : ℕ) (xs : List (Row P))
      → lo ≤ r.id
      → r.id < hi
      → Keyed lo hi xs
      → Keyed lo hi (put_row r xs)
  unfolding put_row
  Keyed-put_row r lo hi [] l u h = (l, u)
  Keyed-put_row r lo hi (x ∷ xs) l u h = ground (arith, Keyed-put_row r (suc x.id) hi xs)

  pub Keyed-delete_row :
      (k lo hi : ℕ) (xs : List (Row P)) → Keyed lo hi xs → Keyed lo hi (delete_row k xs)
  unfolding delete_row
  Keyed-delete_row k lo hi [] h = h
  Keyed-delete_row k lo hi (x ∷ xs) h = ground (
    arith,
    Keyed-delete_row k (suc x.id) hi xs h.1,
    Keyed-weaken (suc x.id) lo hi (delete_row k xs),
  )

  Keyed-append :
      (r : Row P) (lo hi : ℕ) (xs : List (Row P))
      → r.id ≡ hi
      → Keyed lo hi xs
      → Keyed lo (hi + 1) (xs ++ r ∷ [])
  Keyed-append r lo hi [] e h = (omega arith, omega arith)
  Keyed-append r lo hi (x ∷ xs) e h = (h.0, Keyed-append r (suc x.id) hi xs e h.1)

  Keyed-widen : (lo hi hi' : ℕ) (xs : List (Row P)) → hi ≤ hi' → Keyed lo hi xs → Keyed lo hi' xs
  Keyed-widen lo hi hi' [] e h = omega arith
  Keyed-widen lo hi hi' (x ∷ xs) e h = (h.0, Keyed-widen (suc x.id) hi hi' xs e h.1)

  -- A store whose keys ascend and lie below the key generator.
  abbrev pub IsKeyed : Store P → Type 0
  IsKeyed s = Keyed 1 s.next_key s.rows

  pub add-IsKeyed : (p : P) (now : ℕ) (s : Store P) → IsKeyed s → IsKeyed (add p now s)
  unfolding add
  add-IsKeyed p now s h = Keyed-append _ 1 s.next_key s.rows refl h

  pub put-IsKeyed : (r : Row P) (s : Store P) → 1 ≤ r.id → IsKeyed s → IsKeyed (put r s)
  unfolding put
  put-IsKeyed r s l h =
      Keyed-put_row r 1 _ s.rows l (omega arith) (Keyed-widen 1 _ _ s.rows (omega arith) h)

  pub find_row_below :
      (k lo hi : ℕ) (xs : List (Row P)) → Keyed lo hi xs → k < lo → find_row k xs ≡ none
  unfolding find_row
  find_row_below k lo hi [] h b = refl
  find_row_below k lo hi (x ∷ xs) h b = ground (arith, find_row_below k (suc x.id) hi xs)

  pub find_row_append :
      (k lo : ℕ) (r : Row P) (xs : List (Row P))
      → Keyed lo r.id xs
      → find_row k (xs ++ r ∷ []) ≡ (if r.id == k then some r else find_row k xs)
  unfolding find_row
  find_row_append k lo r [] h = refl
  find_row_append k lo r (x ∷ xs) h =
      ground (arith, find_row_append k (suc x.id) r xs h.1, Keyed-le (suc x.id) r.id xs h.1)

  pub found_below :
      (k lo hi : ℕ) (r : Row P) (xs : List (Row P))
      → Keyed lo hi xs
      → find_row k xs ≡ some r
      → (r.id ≡ k) × (k < hi)
  unfolding find_row
  found_below k lo hi r [] h e = absurd (ground arith)
  found_below k lo hi r (x ∷ xs) h e =
      ground (arith, found_below k (suc x.id) hi r xs h.1, Keyed-le (suc x.id) hi xs h.1)

  pub find_row-add :
      (k now : ℕ) (p : P) (s : Store P)
      → IsKeyed s
      → (r : Row P) → find_row k s.rows ≡ some r
      → find_row k (add p now s).rows ≡ some r
  unfolding add
  find_row-add k now p s h r e = ground (
    arith,
    found_below k 1 s.next_key r s.rows h e,
    find_row_append k 1 (new_row p now s) s.rows h,
  )

  none_below :
      (k lo hi : ℕ) (r : Row P) (xs : List (Row P))
      → Keyed lo hi xs
      → k < lo
      → All (λ x. x.id ≡ k → x ≡ r) xs
  none_below k lo hi r [] h b = tt
  none_below k lo hi r (x ∷ xs) h b =
      (λ e. absurd (omega arith), none_below k (suc x.id) hi r xs h.1 (omega arith))

  -- Where keys are distinct, every row with a key is the one that a lookup finds.
  pub found_is_only :
      (k lo hi : ℕ) (r : Row P) (xs : List (Row P))
      → Keyed lo hi xs
      → find_row k xs ≡ some r
      → All (λ x. x.id ≡ k → x ≡ r) xs
  unfolding find_row
  found_is_only k lo hi r [] h e = tt
  found_is_only k lo hi r (x ∷ xs) h e = elim (Bool-cases (x.id == k)) [
    | inl same ↦
        let same_row : x ≡ r = ground arith in
        (λ _. same_row, none_below k (suc x.id) hi r xs h.1 (ground arith))
    | inr other ↦
        (λ i. absurd (ground arith), found_is_only k (suc x.id) hi r xs h.1 (ground arith))
  ]
