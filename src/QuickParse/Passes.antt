-- ===== src/QuickParse/Passes.antt =====
-- Three passes over the tokens, one for each kind of token that the loop of `parseQuickEntry` reads.
pub mod Token
pub mod Steps
use spen_drop.Base.{
  ℕ, Bool, true, false, not, ◌&&◌, ◌||◌, Option, none, some, List, [], ◌∷◌, ◌++◌, append_assoc,
  append-nil, if◌then◌else◌, ◌≡◌, ◌⊎◌, refl, sym, ap, ◌∙◌, arith, Option-cases, Bool-cases, inl,
  inr,
}
use spen_drop.QuickParse.Text.{Text}
use spen_drop.QuickParse.Amount.{Symbol, Parsed}
use spen_drop.QuickParse.Entry.{
  Platform, Reading, tag_of, has_code, amount_of, adopted, described, read_word, read_token,
  read_tokens, initial,
}

-- One pass reads the tokens that `f` knows: all of them, or the first.
module _ {ℓ} {A : Type ℓ} (f : Text → Option A) where
  abbrev pub found : List Text → List A
  found [] = []
  found (tok ∷ toks) = elim (f tok) [ some a ↦ a ∷ found toks | none ↦ found toks ]

  abbrev pub others : List Text → List Text
  others [] = []
  others (tok ∷ toks) = elim (f tok) [ some a ↦ others toks | none ↦ tok ∷ others toks ]

  abbrev pub first : List Text → Option A
  first [] = none
  first (tok ∷ toks) = elim (f tok) [ some a ↦ some a | none ↦ first toks ]

  abbrev pub without_first : List Text → List Text
  without_first [] = []
  without_first (tok ∷ toks) = elim (f tok) [ some a ↦ toks | none ↦ tok ∷ without_first toks ]

-- A pass at one token.
module _ {ℓ} {A : Type ℓ} (f : Text → Option A) (tok : Text) (toks : List Text) where
  pub found-some : (a : A) → f tok ≡ some a → found f (tok ∷ toks) ≡ a ∷ found f toks
  found-some a e = rw (e, found) refl

  pub found-none : f tok ≡ none → found f (tok ∷ toks) ≡ found f toks
  found-none e = rw (e, found) refl

  pub others-some : (a : A) → f tok ≡ some a → others f (tok ∷ toks) ≡ others f toks
  others-some a e = rw (e, others) refl

  pub others-none : f tok ≡ none → others f (tok ∷ toks) ≡ tok ∷ others f toks
  others-none e = rw (e, others) refl

  pub first-some : (a : A) → f tok ≡ some a → first f (tok ∷ toks) ≡ some a
  first-some a e = rw (e, first) refl

  pub first-none : f tok ≡ none → first f (tok ∷ toks) ≡ first f toks
  first-none e = rw (e, first) refl

  pub without_first-some : (a : A) → f tok ≡ some a → without_first f (tok ∷ toks) ≡ toks
  without_first-some a e = rw (e, without_first) refl

  pub without_first-none : f tok ≡ none → without_first f (tok ∷ toks) ≡ tok ∷ without_first f toks
  without_first-none e = rw (e, without_first) refl

abbrev pub is_some {ℓ} : {A : Type ℓ} → Option A → Bool
is_some none = false
is_some (some a) = true

module _ (platform : Platform) (codes : List Text) (symbols : List Symbol) where
  abbrev pub code_of : Text → Option Text
  code_of tok =
      if has_code platform codes (platform.to_upper tok) then some (platform.to_upper tok) else none

  -- The passes: `coded` tells that a code has been read, `priced` that an amount has.
  abbrev pub left_of_codes : Bool → List Text → List Text
  left_of_codes coded plain = if coded then plain else without_first code_of plain

  abbrev pub code_in : Bool → List Text → Option Text
  code_in coded plain = if coded then none else first code_of plain

  abbrev pub amount_in : Bool → List Text → Option Parsed
  amount_in priced left = if priced then none else first (amount_of platform codes symbols) left

  abbrev pub left_of_amount : Bool → List Text → List Text
  left_of_amount priced left =
      if priced then left else without_first (amount_of platform codes symbols) left

  abbrev pub symbol_by : Bool → Text → Option Text → Text
  symbol_by coded currency none = currency
  symbol_by coded currency (some code) = if coded then currency else code

  abbrev pub currency_by : Bool → Text → Option Text → Option Parsed → Text
  currency_by coded currency (some code) parsed = code
  currency_by coded currency none (some parsed) = symbol_by coded currency parsed.currency
  currency_by coded currency none none = currency

  abbrev pub amount_by : Option ℕ → Option Parsed → Option ℕ
  amount_by amount none = amount
  amount_by amount (some parsed) = some parsed.value

  abbrev pub passes_on : Reading → List Text → List Text → Reading
  passes_on r tags plain =
      let left = left_of_codes r.currency_from_token plain in
      let code = code_in r.currency_from_token plain in
      let parsed = amount_in r.amount_consumed left in
      record {
        tag_words = r.tag_words ++ tags;
        desc_words = r.desc_words ++ left_of_amount r.amount_consumed left;
        amount = amount_by r.amount parsed;
        currency = currency_by r.currency_from_token r.currency code parsed;
        amount_consumed = r.amount_consumed || is_some parsed;
        currency_from_token = r.currency_from_token || is_some code;
      }

  unfoldable pub passes_from : Reading → List Text → Reading
  passes_from r toks = passes_on r (found tag_of toks) (others tag_of toks)

  -- the reading that the passes give
  abbrev pub three_passes : Text → List Text → Reading
  three_passes base_currency toks =
      let plain = others tag_of toks in
      let left = without_first code_of plain in
      let parsed = first (amount_of platform codes symbols) left in
      record {
        tag_words = found tag_of toks;
        desc_words = without_first (amount_of platform codes symbols) left;
        amount = amount_by none parsed;
        currency = currency_by false base_currency (first code_of plain) parsed;
        amount_consumed = is_some parsed;
        currency_from_token = is_some (first code_of plain);
      }
