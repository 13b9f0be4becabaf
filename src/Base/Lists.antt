-- ===== src/Base/Lists.antt =====
-- Lists measured by native numbers, Boolean searches, and predicates that hold all along a list.
use Prim.Native.Nat.{ℕ, zero, suc, ◌+◌, ◌≤◌, min}
use mathlib.Core.Path.{◌≡◌, refl}
use mathlib.Core.Bool.{Bool, true, false, ◌&&◌, ◌||◌, not}
use mathlib.Core.List.{map, List, [], ◌∷◌, ◌++◌}
use mathlib.Core.Option.{Option, none, some}
use native.Mathlib.Omega.{arith}
use mathlib.Core.Logic.{◌↔◌}
use spen_drop.Base.Tests.{if◌then◌else◌, ◌==◌}

module _ {ℓ} {A : Type ℓ} where
  abbrev pub length : List A → ℕ
  length [] = 0
  length (x ∷ xs) = suc (length xs)

  abbrev pub take : ℕ → List A → List A
  take zero xs = []
  take (suc n) [] = []
  take (suc n) (x ∷ xs) = x ∷ take n xs

  abbrev pub drop : ℕ → List A → List A
  drop zero xs = xs
  drop (suc n) [] = []
  drop (suc n) (x ∷ xs) = drop n xs

  abbrev pub replicate : ℕ → A → List A
  replicate zero a = []
  replicate (suc n) a = a ∷ replicate n a

  abbrev pub get_elem? : List A → ℕ → Option A
  get_elem? [] i = none
  get_elem? (x ∷ xs) zero = some x
  get_elem? (x ∷ xs) (suc i) = get_elem? xs i

  -- `xs.filter(p)`
  abbrev pub keep : (A → Bool) → List A → List A
  keep p [] = []
  keep p (x ∷ xs) = if p x then x ∷ keep p xs else keep p xs

  -- `xs.some(p)`
  abbrev pub any : (A → Bool) → List A → Bool
  any p [] = false
  any p (x ∷ xs) = p x || any p xs

  -- `xs.every(p)`
  abbrev pub all : (A → Bool) → List A → Bool
  all p [] = true
  all p (x ∷ xs) = p x && all p xs

  -- `xs.find(p)`
  abbrev pub find : (A → Bool) → List A → Option A
  find p [] = none
  find p (x ∷ xs) = if p x then some x else find p xs

  pub any-append_left : (p : A → Bool) (xs ys : List A) → any p xs ≡ true → any p (xs ++ ys) ≡ true
  any-append_left p [] ys h = cc
  any-append_left p (x ∷ xs) ys h = ground (arith, any-append_left p xs ys)

  pub any-append_right : (p : A → Bool) (xs ys : List A) → any p ys ≡ true → any p (xs ++ ys) ≡ true
  any-append_right p [] ys h = h
  any-append_right p (x ∷ xs) ys h = ground (arith, any-append_right p xs ys)

  pub any-append_miss :
      (p : A → Bool) (xs ys : List A) → any p xs ≡ false → any p (xs ++ ys) ≡ any p ys
  any-append_miss p [] ys h = refl
  any-append_miss p (x ∷ xs) ys h = ground (arith, any-append_miss p xs ys)

  pub length-append : (xs ys : List A) → length (xs ++ ys) ≡ length xs + length ys
  length-append [] ys = omega arith
  length-append (x ∷ xs) ys = omega (arith, length-append xs ys)

  pub length-take-le : (n : ℕ) (xs : List A) → length (take n xs) ≤ n
  length-take-le zero xs = omega arith
  length-take-le (suc n) [] = omega arith
  length-take-le (suc n) (x ∷ xs) = omega (arith, length-take-le n xs)

  pub length-take : (n : ℕ) (xs : List A) → length (take n xs) ≡ min n (length xs)
  length-take zero xs = omega arith
  length-take (suc n) [] = omega arith
  length-take (suc n) (x ∷ xs) = omega (arith, length-take n xs)

  pub length-keep-le : (p : A → Bool) (xs : List A) → length (keep p xs) ≤ length xs
  length-keep-le p [] = omega arith
  length-keep-le p (x ∷ xs) = ground (arith, length-keep-le p xs)

module _ {ℓ κ} {A : Type ℓ} (P : A → Type κ) where
  abbrev pub All : List A → Type κ
  All [] = Unit
  All (x ∷ xs) = P x × All xs

  pub All-append : (xs ys : List A) → All xs → All ys → All (xs ++ ys)
  All-append [] ys h k = k
  All-append (x ∷ xs) ys (p, h) k = (p, All-append xs ys h k)

  pub All-keep : (p : A → Bool) (xs : List A) → All xs → All (keep p xs)
  All-keep p [] h = tt
  All-keep p (x ∷ xs) (q, h) = pick (p x) q (All-keep p xs h)
    where
      pick : (b : Bool) → P x → All (keep p xs) → All (if b then x ∷ keep p xs else keep p xs)
      pick true q k = (q, k)
      pick false q k = k

module _ {ℓ κ ρ} {A : Type ℓ} (P : A → Type κ) (Q : A → Type ρ) where
  pub All-imp : ((x : A) → P x → Q x) → (xs : List A) → All P xs → All Q xs
  All-imp f [] h = tt
  All-imp f (x ∷ xs) (p, h) = (f x p, All-imp f xs h)

-- the last element, from the end of which a `Map` built in order answers
module _ {ℓ} {A : Type ℓ} where
  abbrev pub find_last : (A → Bool) → List A → Option A
  find_last p [] = none
  find_last p (x ∷ xs) = elim (find_last p xs) [
    | some y ↦ some y
    | none ↦ if p x then some x else none
  ]

abbrev pub map_option {ℓ} : {A B : Type ℓ} → (A → B) → Option A → Option B
map_option f none = none
map_option f (some x) = some (f x)

found-map {ℓ} :
    {A : Type ℓ} (p : A → Bool) (f : A → A) (x : A)
    → p (f x) ≡ p x
    → (o : Option A)
    → (elim (map_option f o) [ some y ↦ some y | none ↦ if p (f x) then some (f x) else none ])
      ≡ map_option f (elim o [ some y ↦ some y | none ↦ if p x then some x else none ])
found-map p f x same (some y) = refl
found-map p f x same none = ground (arith, same)

-- A function that the test does not see is applied to the element found.
pub find_last-map {ℓ} :
    {A : Type ℓ} (p : A → Bool) (f : A → A)
    → ((x : A) → p (f x) ≡ p x)
    → (xs : List A) → find_last p (map f xs) ≡ map_option f (find_last p xs)
find_last-map p f same [] = refl
find_last-map p f same (x ∷ xs) =
    rw (find_last-map p f same xs) (found-map p f x (same x) (find_last p xs))

-- No number occurs twice.
abbrev pub Distinct : List ℕ → Type 0
Distinct [] = Unit
Distinct (x ∷ xs) = (any (λ j. j == x) xs ≡ false) × Distinct xs

pub any_eq-append :
    (x y : ℕ) (xs : List ℕ) → any (λ j. j == y) (xs ++ x ∷ []) ≡ (any (λ j. j == y) xs || (x == y))
any_eq-append x y [] = ground arith
any_eq-append x y (z ∷ xs) = ground (arith, any_eq-append x y xs)

pub Distinct-append :
    (x : ℕ) (xs : List ℕ) → any (λ j. j == x) xs ≡ false → Distinct xs → Distinct (xs ++ x ∷ [])
Distinct-append x [] new h = (refl, tt)
Distinct-append x (y ∷ xs) new h =
    (ground (arith, any_eq-append x y xs, h.0), Distinct-append x xs (ground arith) h.1)

module _ {ℓ} {A : Type ℓ} where
  pub length-keep-eq_zero :
      (p : A → Bool) (xs : List A) → (length (keep p xs) == 0) ≡ all (λ x. not (p x)) xs
  length-keep-eq_zero p [] = refl
  length-keep-eq_zero p (x ∷ xs) = ground (arith, length-keep-eq_zero p xs)

  pub not-any : (p : A → Bool) (xs : List A) → not (any p xs) ≡ all (λ x. not (p x)) xs
  not-any p [] = refl
  not-any p (x ∷ xs) = ground (arith, not-any p xs)

  pub all-All : (p : A → Bool) (xs : List A) → (all p xs ≡ true) ↔ All (λ x. p x ≡ true) xs
  all-All p [] = (λ _. tt, λ _. refl)
  all-All p (x ∷ xs) = (
    (λ h. (ground arith, (all-All p xs).0 (ground arith))),
    λ h. ground (arith, (all-All p xs).1 h.1),
  )

pub length-map {ℓ} : {A B : Type ℓ} (f : A → B) (xs : List A) → length (map f xs) ≡ length xs
length-map f [] = refl
length-map f (x ∷ xs) = rw (length-map f xs) refl
