-- ===== src/Heatmap/Rank.antt =====
-- web/src/components/reports/heatmapGrid.ts: the rank of a total counts the spending days at or below it.
use spen_drop.Base.{
  ℕ, ◌+◌, ◌≤◌, ◌<◌, ◌≡◌, refl, sym, ◌∙◌, inl, inr, List, [], ◌∷◌, map, keep, leb, ltb, length,
  arith, All, All-imp, Bool-cases, leb→le,
}
use spen_drop.Base.Int.{ℤ}
use spen_drop.Heatmap.Scale.{spent, insert_total, sort_totals, spending, rank_of}

-- how many totals are at or below `t`
unfoldable pub count_le : ℕ → List ℕ → ℕ
count_le t xs = length (keep (λ x. leb x t) xs)

abbrev IsAscending : List ℕ → Type 0
IsAscending [] = Unit
IsAscending (x ∷ xs) = All (λ y. x ≤ y) xs × IsAscending xs

insert_total-All :
    (P : ℕ → Type 0) (x : ℕ) (xs : List ℕ) → P x → All P xs → All P (insert_total x xs)
unfolding insert_total
insert_total-All P x [] p h = (p, tt)
insert_total-All P x (y ∷ ys) p (q, h) = elim (Bool-cases (leb x y)) [
  | inl e ↦ rw e (p, (q, h))
  | inr e ↦ rw e (q, insert_total-All P x ys p h)
]

insert_total-IsAscending : (x : ℕ) (xs : List ℕ) → IsAscending xs → IsAscending (insert_total x xs)
unfolding insert_total
insert_total-IsAscending x [] h = (tt, tt)
insert_total-IsAscending x (y ∷ ys) (low, h) = elim (Bool-cases (leb x y)) [
  | inl e ↦
      let below : x ≤ y = leb→le x y e in
      rw e ((below, All-imp _ _ (λ z k. omega (arith, below, k)) ys low), (low, h))
  | inr e ↦
      let above : y ≤ x = ground arith in
      rw e (insert_total-All (λ z. y ≤ z) x ys above low, insert_total-IsAscending x ys h)
]

sort_totals-IsAscending : (xs : List ℕ) → IsAscending (sort_totals xs)
unfolding sort_totals
sort_totals-IsAscending [] = tt
sort_totals-IsAscending (x ∷ xs) =
    insert_total-IsAscending x (sort_totals xs) (sort_totals-IsAscending xs)

count_le-insert : (t x : ℕ) (xs : List ℕ) → count_le t (insert_total x xs) ≡ count_le t (x ∷ xs)
unfolding insert_total count_le
count_le-insert t x [] = refl
count_le-insert t x (y ∷ ys) = ground (arith, count_le-insert t x ys)

count_le-sort : (t : ℕ) (xs : List ℕ) → count_le t (sort_totals xs) ≡ count_le t xs
unfolding sort_totals count_le
count_le-sort t [] = refl
count_le-sort t (x ∷ xs) = ground (arith, count_le-insert t x (sort_totals xs), count_le-sort t xs)

count_le-none : (t : ℕ) (xs : List ℕ) → All (λ y. t < y) xs → count_le t xs ≡ 0
unfolding count_le
count_le-none t [] h = refl
count_le-none t (x ∷ xs) (p, h) = ground (arith, count_le-none t xs h)

rank_of-count_le : (t : ℕ) (xs : List ℕ) → IsAscending xs → rank_of t xs ≡ count_le t xs
unfolding rank_of count_le
rank_of-count_le t [] h = refl
rank_of-count_le t (x ∷ xs) (low, h) = elim (Bool-cases (leb x t)) [
  | inl e ↦ rw e (ground (arith, rank_of-count_le t xs h))
  | inr e ↦
      let above : t < x = ground arith in
      rw e (sym (count_le-none t xs (All-imp _ _ (λ z k. omega (arith, above, k)) xs low)))
]

-- the days that the scale is about, in the order they came in
unfoldable pub spending_days : List ℤ → List ℕ
spending_days totals = keep (λ x. ltb 0 x) (map spent totals)

-- The rank of a total is the number of spending days at or below it, whatever their order.
pub rank_of-spending :
    (t : ℕ) (totals : List ℤ) → rank_of t (spending totals) ≡ count_le t (spending_days totals)
unfolding spending spending_days
rank_of-spending t totals =
    let days = keep (λ x. ltb 0 x) (map spent totals) in
    rank_of-count_le t (sort_totals days) (sort_totals-IsAscending days) ∙ count_le-sort t days

length-insert : (x : ℕ) (xs : List ℕ) → length (insert_total x xs) ≡ length xs + 1
unfolding insert_total
length-insert x [] = refl
length-insert x (y ∷ ys) = ground (arith, length-insert x ys)

length-sort : (xs : List ℕ) → length (sort_totals xs) ≡ length xs
unfolding sort_totals
length-sort [] = refl
length-sort (x ∷ xs) = ground (arith, length-insert x (sort_totals xs), length-sort xs)

pub length-spending : (totals : List ℤ) → length (spending totals) ≡ length (spending_days totals)
unfolding spending spending_days
length-spending totals = length-sort (keep (λ x. ltb 0 x) (map spent totals))
