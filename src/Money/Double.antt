-- ===== src/Money/Double.antt =====
-- The numbers of web/src/lib/currency.ts: doubles that are not negative, with the rounding to the nearest,
-- ties to even, of IEEE 754 on 53 bits. The range of exponents is not modelled: there is no overflow.
use spen_drop.Base.{
  ℕ, zero, suc, ◌+◌, ◌*◌, ◌/◌, ◌%◌, ◌^◌, true, false, ltb, leb, if◌then◌else◌, ◌≡◌, refl, arith,
}
use native.Mathlib.Nat.{div-eq_of_lt}

pub record Double : Type 0 where
  pub num : ℕ
  pub den : ℕ

-- how often `n` has to be doubled to have 53 bits over `d`, and how often `d`
unfoldable pub doublings : ℕ → ℕ → ℕ → ℕ
doublings zero n d = 0
doublings (suc fuel) n d = elim (leb (2 ^ 52 * d) n) [
  | true ↦ 0
  | false ↦ suc (doublings fuel (2 * n) d)
]

unfoldable pub halvings : ℕ → ℕ → ℕ → ℕ
halvings zero n d = 0
halvings (suc fuel) n d = elim (ltb n (2 ^ 53 * d)) [
  | true ↦ 0
  | false ↦ suc (halvings fuel n (2 * d))
]

-- the whole number nearest to `n / d`, the even one of two
unfoldable pub half_even : ℕ → ℕ → ℕ
half_even n d =
    let q = n / d in
    let r = n % d in if ltb (2 * r) d then q else (if ltb d (2 * r) then q + 1 else q + q % 2)

-- more than a double's exponents have
abbrev exponents : ℕ
exponents = 2200

-- the double nearest to `n / d`
unfoldable pub nearest : ℕ → ℕ → Double
unfolding doublings halvings half_even
nearest zero d = record { num = 0; den = 1 }
nearest (suc n) d =
    let k = doublings exponents (suc n) d in
    let j = halvings exponents (suc n) d in
    record { num = half_even (suc n * 2 ^ k) (d * 2 ^ j) * 2 ^ j; den = 2 ^ k }

-- `a * b` and `a / b`
unfoldable pub product : Double → Double → Double
unfolding nearest
product a b = nearest (a.num * b.num) (a.den * b.den)

unfoldable pub quotient : Double → Double → Double
unfolding nearest
quotient a b = nearest (a.num * b.den) (a.den * b.num)

-- `Math.round`
unfoldable pub math_round : Double → ℕ
math_round a = (2 * a.num + a.den) / (2 * a.den)

nearest-zero : (n d : ℕ) → n ≡ 0 → (nearest n d).num ≡ 0
unfolding nearest
nearest-zero zero d h = refl
nearest-zero (suc n) d h = absurd (omega arith)

pub product-zero : (a b : Double) → a.num ≡ 0 → (product a b).num ≡ 0
unfolding product
product-zero a b h = nearest-zero (a.num * b.num) (a.den * b.den) (rw h (omega arith))

pub quotient-zero : (a b : Double) → a.num ≡ 0 → (quotient a b).num ≡ 0
unfolding quotient
quotient-zero a b h = nearest-zero (a.num * b.den) (a.den * b.num) (rw h (omega arith))

half_of : (d : ℕ) → (2 * 0 + d) / (2 * d) ≡ 0
half_of zero = refl
half_of (suc d) = div-eq_of_lt (omega arith)

pub math_round-zero : (a : Double) → a.num ≡ 0 → math_round a ≡ 0
unfolding math_round
math_round-zero a h = rw h (half_of a.den)
