-- ===== src/QuickParse/Category.antt =====
-- `matchCategory`. A regular expression that holds only an escaped name is a search for the name as it
-- stands.
use spen_drop.Base.{
  ℕ, Bool, true, not, ◌&&◌, ◌||◌, Option, none, some, List, [], ◌∷◌, ◌++◌, ltb, if◌then◌else◌,
  length, drop,
}
use spen_drop.QuickParse.Text.{Text, is_empty, is_word, starts_with, trim}

pub record Category : Type 0 where
  pub id : ℕ
  pub name : Text
  pub is_active : Bool

-- `(?:\W|$)`
abbrev pub at_boundary : Text → Bool
at_boundary [] = true
at_boundary (c ∷ s) = not (is_word c)

abbrev pub word_here : Text → Text → Bool
word_here name s = starts_with name s && at_boundary (drop (length name) s)

-- `(?:^|\W)name(?:\W|$)` from one position on; `edge` tells that `^` or `\W` stands before it
unfoldable pub has_word : Bool → Text → Text → Bool
has_word edge name [] = edge && word_here name []
has_word edge name (c ∷ s) = edge && word_here name (c ∷ s) || has_word (not (is_word c)) name s

-- the hit kept in the loop
pub record Best : Type 0 where
  pub id : ℕ
  pub len : ℕ

abbrev pub is_longer : ℕ → Option Best → Bool
is_longer len none = true
is_longer len (some best) = ltb best.len len

abbrev pub id_of : Option Best → Option ℕ
id_of none = none
id_of (some best) = some best.id

module _ (to_lower : Text → Text) where
  abbrev pub wanted : Category → Text
  wanted c = to_lower (trim c.name)

  unfoldable pub is_hit : Text → Category → Bool
  is_hit hay c = c.is_active && not (is_empty (wanted c)) && has_word true (wanted c) hay

  unfoldable pub best_from : Text → Option Best → List Category → Option Best
  best_from hay best [] = best
  best_from hay best (c ∷ cs) =
      best_from hay
        (if is_hit hay c && is_longer (length (wanted c)) best
          then some (record { id = c.id; len = length (wanted c) })
          else best)
        cs

  abbrev pub padded : Text → Text
  padded description = 32 ∷ (to_lower description ++ 32 ∷ [])

  unfoldable pub match_category : Text → List Category → Option ℕ
  match_category description categories =
      if is_empty description then none else id_of (best_from (padded description) none categories)
