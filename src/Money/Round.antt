-- ===== src/Money/Round.antt =====
-- web/src/lib/currency.ts: rounding. An amount is written as a whole number of ten-thousandths of a unit of
-- its currency, and the code computes with the double nearest to it.
use spen_drop.Base.{ℕ, zero, suc, ◌*◌, Bool, true, false, ◌≡◌, refl, sym, ap, ◌∙◌, arith}
use spen_drop.Base.Int.{ℤ, pos, negsuc}
use spen_drop.Money.Double.{
  Double, nearest, product, quotient, math_round, product-zero, quotient-zero, math_round-zero,
}

abbrev pub neg : ℕ → ℤ
neg zero = pos 0
neg (suc n) = negsuc n

abbrev pub negate : ℤ → ℤ
negate (pos n) = neg n
negate (negsuc n) = pos (suc n)

-- `Math.abs`
abbrev pub abs : ℤ → ℕ
abs (pos n) = n
abs (negsuc n) = suc n

-- `x < 0`
abbrev pub is_below_zero : ℤ → Bool
is_below_zero (pos n) = false
is_below_zero (negsuc n) = true

-- `Math.sign(x) * n`, without a negative zero
abbrev pub signed_like : ℤ → ℕ → ℤ
signed_like (pos k) n = pos n
signed_like (negsuc k) n = neg n

-- cents, as an amount
abbrev pub cents_of : ℤ → ℤ
cents_of x = signed_like x (100 * abs x)

-- A number in ten-thousandths, as the double that its text denotes
abbrev pub double_of : ℕ → Double
double_of n = nearest n 10000

abbrev pub hundred : Double
hundred = record { num = 100; den = 1 }

-- `roundHalfAwayFromZero(n)`, for the number with the sign of `x` and the magnitude `n`
unfoldable pub round_half_away_from_zero : ℤ → Double → ℤ
unfolding math_round
round_half_away_from_zero x n = signed_like x (math_round n)

unfoldable pub dollars_to_cents : ℤ → ℤ
unfolding round_half_away_from_zero nearest product
dollars_to_cents x = round_half_away_from_zero x (product (double_of (abs x)) hundred)

-- `roundToPreview(n)`, for such a number: `n * factor`, rounded, then `/ factor`, which gives the double
-- that the cents denote
unfoldable pub round_to_preview : ℤ → Double → ℤ
unfolding round_half_away_from_zero product
round_to_preview x n = cents_of (round_half_away_from_zero x (product n hundred))

abs-neg : (n : ℕ) → abs (neg n) ≡ n
abs-neg zero = refl
abs-neg (suc n) = refl

pub abs-signed_like : (x : ℤ) (n : ℕ) → abs (signed_like x n) ≡ n
abs-signed_like (pos k) n = refl
abs-signed_like (negsuc k) n = abs-neg n

pub abs-negate : (x : ℤ) → abs (negate x) ≡ abs x
abs-negate (pos n) = abs-neg n
abs-negate (negsuc n) = refl

negate-neg : (n : ℕ) → negate (neg n) ≡ pos n
negate-neg zero = refl
negate-neg (suc n) = refl

-- A function of the magnitude that keeps 0 is the same on both sides of zero.
signed_like-negate :
    (f : ℕ → ℕ) (x : ℤ)
    → f 0 ≡ 0
    → signed_like (negate x) (f (abs (negate x))) ≡ negate (signed_like x (f (abs x)))
signed_like-negate f (pos zero) h = rw h refl
signed_like-negate f (pos (suc n)) h = refl
signed_like-negate f (negsuc n) h = sym (negate-neg (f (suc n)))

-- A rounded number turns its sign with the number, as long as a zero has the magnitude zero.
round_half_away_from_zero-negate :
    (x : ℤ) (f : ℕ → Double)
    → (f 0).num ≡ 0
    → round_half_away_from_zero (negate x) (f (abs (negate x)))
      ≡ negate (round_half_away_from_zero x (f (abs x)))
unfolding round_half_away_from_zero
round_half_away_from_zero-negate x f h =
    signed_like-negate (λ n. math_round (f n)) x (math_round-zero (f 0) h)

double_of_zero : (double_of 0).num ≡ 0
unfolding nearest
double_of_zero = refl

pub dollars_to_cents-negate : (x : ℤ) → dollars_to_cents (negate x) ≡ negate (dollars_to_cents x)
unfolding dollars_to_cents
dollars_to_cents-negate x =
    round_half_away_from_zero-negate x (λ n. product (double_of n) hundred)
      (product-zero (double_of 0) hundred double_of_zero)

cents_of-negate : (x : ℤ) → cents_of (negate x) ≡ negate (cents_of x)
cents_of-negate x = signed_like-negate (λ n. 100 * n) x (omega arith)

pub round_to_preview-negate :
    (x : ℤ) (rate : Double)
    → round_to_preview (negate x) (quotient (double_of (abs (negate x))) rate)
      ≡ negate (round_to_preview x (quotient (double_of (abs x)) rate))
unfolding round_to_preview
round_to_preview-negate x rate =
    let zero_cents =
      product-zero (quotient (double_of 0) rate) hundred
        (quotient-zero (double_of 0) rate double_of_zero) in
    ap cents_of (
      round_half_away_from_zero-negate x (λ n. product (quotient (double_of n) rate) hundred)
        zero_cents)
    ∙ cents_of-negate
        (round_half_away_from_zero x (product (quotient (double_of (abs x)) rate) hundred))
