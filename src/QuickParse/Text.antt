-- ===== src/QuickParse/Text.antt =====
-- The texts of web/src/lib/quick-parse.ts, as lists of code units, with the operations and the classes
-- of its regular expressions.
use Prim.Native.Char.{code}
use spen_drop.Base.{
  ℕ, Bool, true, false, ◌&&◌, ◌||◌, Option, none, some, List, [], ◌∷◌, ◌++◌, ◌==◌, leb,
  if◌then◌else◌, ◌≡◌, refl, ap₂, arith, ==_iff, String,
}

abbrev pub Text : Type 0
Text = List ℕ

-- code units of a literal; every literal below is ASCII
abbrev pub codes : String → Text
codes String.[] = []
codes (String.◌∷◌ c s) = code c ∷ codes s

infix 50 ◌=ₜ◌
unfoldable pub ◌=ₜ◌ : Text → Text → Bool
[] =ₜ [] = true
(a ∷ s) =ₜ (b ∷ t) = a == b && s =ₜ t
_ =ₜ _ = false

pub =ₜ_eq : (s t : Text) → (s =ₜ t) ≡ true → s ≡ t
unfolding ◌=ₜ◌
=ₜ_eq [] [] h = refl
=ₜ_eq [] (b ∷ t) h = cc
=ₜ_eq (a ∷ s) [] h = cc
=ₜ_eq (a ∷ s) (b ∷ t) h = ap₂ (◌∷◌) ((==_iff a b).0 (ground arith)) (=ₜ_eq s t (ground arith))

abbrev pub is_empty : Text → Bool
is_empty [] = true
is_empty (c ∷ s) = false

abbrev within : ℕ → ℕ → ℕ → Bool
within lo hi c = leb lo c && leb c hi

-- `\s`, which is also what `trim` removes
unfoldable pub is_space : ℕ → Bool
is_space c =
    within 9 13 c
    || c == 32
    || c == 160
    || c == 5760
    || within 8192 8202 c
    || within 8232 8233 c
    || c == 8239
    || c == 8287
    || c == 12288
    || c == 65279

-- `\d`
unfoldable pub is_digit : ℕ → Bool
is_digit c = within b'0' b'9' c

-- `\w`
unfoldable pub is_word : ℕ → Bool
is_word c = within b'a' b'z' c || within b'A' b'Z' c || within b'0' b'9' c || c == b'_'

abbrev pub is_blank : Text → Bool
is_blank [] = true
is_blank (c ∷ s) = is_space c && is_blank s

unfoldable pub trim_start : Text → Text
trim_start [] = []
trim_start (c ∷ s) = if is_space c then trim_start s else c ∷ s

unfoldable pub trim_end : Text → Text
trim_end [] = []
trim_end (c ∷ s) = if is_blank (c ∷ s) then [] else c ∷ trim_end s

unfoldable pub trim : Text → Text
unfolding trim_start trim_end
trim s = trim_end (trim_start s)

-- `s.split(/\s+/)`: `gap` tells that the last character was a space
unfoldable pub split_from : Bool → Text → Text → List Text
split_from gap cur [] = cur ∷ []
split_from gap cur (c ∷ s) =
    if is_space c
    then if gap then split_from true cur s else cur ∷ split_from true [] s
    else split_from false (cur ++ c ∷ []) s

abbrev pub split_spaces : Text → List Text
split_spaces = split_from false []

-- `words.join(' ')`
unfoldable pub join : List Text → Text
join [] = []
join (w ∷ []) = w
join (w ∷ v ∷ vs) = w ++ 32 ∷ join (v ∷ vs)

unfoldable pub starts_with : Text → Text → Bool
starts_with [] s = true
starts_with (a ∷ p) [] = false
starts_with (a ∷ p) (c ∷ s) = a == c && starts_with p s

abbrev pub put : ℕ → Option Text → Option Text
put c none = none
put c (some t) = some (c ∷ t)

-- what stands before a suffix: `s.slice(0, -sym.length)` where `s.endsWith(sym)`
unfoldable pub before_suffix : Text → Text → Option Text
before_suffix sym [] = if is_empty sym then some [] else none
before_suffix sym (c ∷ s) = if (c ∷ s) =ₜ sym then some [] else put c (before_suffix sym s)
