-- ===== src/Heatmap/Quartile.antt =====
-- web/src/components/reports/heatmapGrid.ts: which stop of the intensity scale a total is given.
use spen_drop.Base.{
  ℕ, ◌+◌, ◌-◌, ◌*◌, ◌/◌, ◌%◌, ◌≤◌, ◌<◌, ◌≡◌, refl, sym, ap, ◌∙◌, inl, inr, List, [], ◌∷◌, leb, ltb,
  ◌==◌, if◌then◌else◌, length, length-keep-le, arith, All, Bool-cases,
}
use Prim.Native.Nat.{min}
use native.Mathlib.Nat.{mul-le-mul_left}
use spen_drop.Base.Int.{ℤ}
use spen_drop.Heatmap.Scale.{spent, opacity_stop, spending, bucket_of, build_intensity_scale}
use spen_drop.Heatmap.Rank.{count_le, spending_days, rank_of-spending, length-spending}

-- The bucket's quarter holds the rank: it ends at or above it and starts below it.
abbrev pub IsQuartile : ℕ → ℕ → ℕ → Type 0
IsQuartile rank n bucket = (n * bucket < 4 * rank) × (4 * rank ≤ n * (bucket + 1)) × (bucket ≤ 3)

below : (n a b : ℕ) → n * a < n * b → a < b
below n a b h = elim (Bool-cases (ltb a b)) [
  | inl e ↦ ground arith
  | inr e ↦ let over : b ≤ a = ground arith in absurd (omega (arith, mul-le-mul_left n over, h))
]

quarter :
    (p m rank n : ℕ)
    → 1 ≤ rank
    → p ≤ 3
    → (p + 1) * n + m ≡ 4 * rank + (n - 1)
    → m < n
    → IsQuartile rank n p
quarter p m rank n low small split rest = (omega arith, omega arith, small)

-- a quotient that rounds up, less one
ceiling :
    (q m rank n : ℕ)
    → 1 ≤ rank
    → rank ≤ n
    → q * n + m ≡ 4 * rank + (n - 1)
    → m < n
    → IsQuartile rank n (min 3 (q - 1))
ceiling q m rank n low high split rest =
    let some_q : 1 ≤ q = omega (arith, below n 0 q (omega arith)) in
    let at_most : q < 5 = below n q 5 (omega arith) in
    let clamped : min 3 (q - 1) ≡ q - 1 = omega arith in
    let back : q ≡ q - 1 + 1 = omega arith in
    let shifted : (q - 1 + 1) * n + m ≡ 4 * rank + (n - 1) =
      ap (λ k. k * n + m) (sym back) ∙ split in
    rw clamped (quarter (q - 1) m rank n low (omega arith) shifted rest)

bucket_of-IsQuartile : (rank n : ℕ) → 1 ≤ rank → rank ≤ n → IsQuartile rank n (bucket_of rank n)
unfolding bucket_of
bucket_of-IsQuartile rank n low high =
    let q = (4 * rank + (n - 1)) / n in
    let split : q * n + (4 * rank + (n - 1)) % n ≡ 4 * rank + (n - 1) = omega (arith, low, high) in
    let rest : (4 * rank + (n - 1)) % n < n = omega (arith, low, high) in
    ceiling q ((4 * rank + (n - 1)) % n) rank n low high split rest

-- A quarter further on holds a greater rank.
quartile_mono : (n r s b c : ℕ) → IsQuartile r n b → IsQuartile s n c → r ≤ s → b ≤ c
quartile_mono n r s b c (lo, hi, top) (lo', hi', top') h =
    let step : n * b < n * (c + 1) = omega arith in omega (arith, below n b (c + 1) step)

count_le_mono : (a b : ℕ) (xs : List ℕ) → a ≤ b → count_le a xs ≤ count_le b xs
unfolding count_le
count_le_mono a b [] h = omega arith
count_le_mono a b (x ∷ xs) h = ground (arith, count_le_mono a b xs h)

count_le-all : (t : ℕ) (xs : List ℕ) → All (λ x. x ≤ t) xs → count_le t xs ≡ length xs
unfolding count_le
count_le-all t [] h = refl
count_le-all t (x ∷ xs) (p, h) = ground (arith, count_le-all t xs h)

opacity_stop_mono : (a b : ℕ) → a ≤ b → opacity_stop a ≤ opacity_stop b
opacity_stop_mono a b h = ground arith

module _ (totals : List ℤ) where
  abbrev days : List ℕ
  days = spending_days totals

  -- The scale as a function of the count of the spending days at or below a total.
  scale_lem :
      (total : ℤ)
      → build_intensity_scale totals total ≡ (
          if spent total == 0
          then 30
          else if length days == 0
          then 100
          else opacity_stop (bucket_of (count_le (spent total) days) (length days)))
  unfolding build_intensity_scale
  scale_lem total =
      ap
        (λ r.
          if spent total == 0
          then 30
          else if length (spending totals) == 0
          then 100
          else opacity_stop (bucket_of r (length (spending totals))))
        (rank_of-spending (spent total) totals)
      ∙ ap
          (λ n.
            if spent total == 0
            then 30
            else if n == 0
            then 100
            else opacity_stop (bucket_of (count_le (spent total) days) n))
          (length-spending totals)

bucket_of-zero : (n : ℕ) → 1 ≤ n → bucket_of 0 n ≡ 0
unfolding bucket_of
bucket_of-zero n h =
    let q = (4 * 0 + (n - 1)) / n in
    let split : q * n + (4 * 0 + (n - 1)) % n ≡ 4 * 0 + (n - 1) = omega (arith, h) in
    let none_left : q < 1 = below n q 1 (omega (arith, split, h)) in omega (arith, none_left)

bucket_of_mono : (n r s : ℕ) → 1 ≤ n → r ≤ s → s ≤ n → bucket_of r n ≤ bucket_of s n
bucket_of_mono n r s some_day h top = elim (Bool-cases (r == 0)) [
  | inl e ↦
      let none_below : r ≡ 0 = ground arith in
      rw none_below (rw (bucket_of-zero n some_day) (omega arith))
  | inr e ↦
      quartile_mono n r s _ _ (bucket_of-IsQuartile r n (ground arith) (omega arith))
        (bucket_of-IsQuartile s n (ground arith) top) h
]

count_le-bound : (t : ℕ) (xs : List ℕ) → count_le t xs ≤ length xs
unfolding count_le
count_le-bound t xs = length-keep-le (λ x. leb x t) xs

opacity_stop-palest : (b : ℕ) → 30 ≤ opacity_stop b
opacity_stop-palest b = ground arith

painted_mono :
    (a b n x y : ℕ)
    → a ≤ b
    → (1 ≤ n → x ≤ y)
    → 30 ≤ y
    → (if a == 0 then 30 else if n == 0 then 100 else x)
      ≤ (if b == 0 then 30 else if n == 0 then 100 else y)
painted_mono a b n x y h step pale = ground (arith, step)

-- A greater net is never painted paler, by the scale of any population of days.
pub build_intensity_scale_mono :
    (totals : List ℤ) (a b : ℤ)
    → spent a ≤ spent b
    → build_intensity_scale totals a ≤ build_intensity_scale totals b
build_intensity_scale_mono totals a b h =
    let all_days = spending_days totals in
    let n = length all_days in
    let r = count_le (spent a) all_days in
    let s = count_le (spent b) all_days in
    rw (scale_lem totals a) (
      rw (scale_lem totals b) (
        painted_mono (spent a) (spent b) n (opacity_stop (bucket_of r n))
          (opacity_stop (bucket_of s n)) h
          (λ some_day. opacity_stop_mono (bucket_of r n) (bucket_of s n) (
            bucket_of_mono n r s some_day (count_le_mono (spent a) (spent b) all_days h)
              (count_le-bound (spent b) all_days)))
          (opacity_stop-palest (bucket_of s n))))

bucket_of-whole : (n : ℕ) → 1 ≤ n → bucket_of n n ≡ 3
bucket_of-whole n h =
    let (low, high, small) = bucket_of-IsQuartile n n h (omega arith) in
    let past : 3 < bucket_of n n + 1 =
      below n 3 (bucket_of n n + 1) (omega (arith, low, high, h)) in
    omega (arith, past, small)

full :
    (t n b : ℕ)
    → 0 < t
    → (1 ≤ n → b ≡ 3)
    → (if t == 0 then 30 else if n == 0 then 100 else opacity_stop b) ≡ 100
full t n b h last = ground (arith, last)

-- A spending day at or above every other is painted at full opacity, however few days there are.
pub build_intensity_scale-top :
    (totals : List ℤ) (total : ℤ)
    → 0 < spent total
    → All (λ x. x ≤ spent total) (spending_days totals)
    → build_intensity_scale totals total ≡ 100
build_intensity_scale-top totals total h all_below =
    let n = length (spending_days totals) in
    let whole = count_le-all (spent total) (spending_days totals) all_below in
    rw (scale_lem totals total)
      (rw whole (full (spent total) n (bucket_of n n) h (λ k. bucket_of-whole n k)))

-- A spending day is painted by the quarter of the spending days that its rank falls in: the number of
-- them at or below it, and not their amounts, decides the stop.
pub build_intensity_scale-IsQuartile :
    (totals : List ℤ) (total : ℤ)
    → 0 < spent total
    → 1 ≤ count_le (spent total) (spending_days totals)
    → (bucket : ℕ) × (build_intensity_scale totals total ≡ opacity_stop bucket)
      × IsQuartile
          (count_le (spent total) (spending_days totals))
          (length (spending_days totals))
          bucket
build_intensity_scale-IsQuartile totals total h ranked =
    let all_days = spending_days totals in
    let n = length all_days in
    let r = count_le (spent total) all_days in
    let some_day : 1 ≤ n = omega (arith, count_le-bound (spent total) all_days, ranked) in
    (
      bucket_of r n,
      rw (scale_lem totals total) (ground (arith, h, some_day)),
      bucket_of-IsQuartile r n ranked (count_le-bound (spent total) all_days),
    )
