-- ===== src/QuickParse/Passes/Token.antt =====
-- One token that is a tag, a currency code or an amount.
use spen_drop.Base.{
  Bool, true, false, not, ◌&&◌, Option, none, some, List, ◌∷◌, append_assoc, ◌≡◌, refl, Bool-cases,
  inl, inr,
}
use spen_drop.QuickParse.Text.{Text}
use spen_drop.QuickParse.Amount.{Symbol, Parsed}
use spen_drop.QuickParse.Entry.{Platform, Reading, tag_of, has_code, amount_of, adopted, read_token}
use spen_drop.QuickParse.Passes.{
  others, found-some, found-none, others-some, others-none, first-some, first-none,
  without_first-some, without_first-none, code_of, left_of_codes, code_in, symbol_by, currency_by,
  passes_from,
}

module _ (platform : Platform) (codes : List Text) (symbols : List Symbol) where
  pub step-tag :
      (r : Reading) (tok t : Text) (toks : List Text)
      → tag_of tok ≡ some t
      → passes_from platform codes symbols (read_token platform codes symbols r tok) toks
        ≡ passes_from platform codes symbols r (tok ∷ toks)
  unfolding passes_from
  step-tag r tok t toks e =
      rw (found-some tag_of tok toks t e, others-some tag_of tok toks t e, e, append_assoc) refl

  code_of-known :
      (tok : Text)
      → has_code platform codes (platform.to_upper tok) ≡ true
      → code_of platform codes symbols tok ≡ some (platform.to_upper tok)
  code_of-known tok known = rw known refl

  currency_by-coded :
      (currency : Text) (parsed : Option Parsed)
      → currency_by platform codes symbols true currency none parsed ≡ currency
  currency_by-coded currency none = refl
  currency_by-coded currency (some parsed) = symbol_by-coded parsed.currency
    where
      symbol_by-coded :
          (code : Option Text) → symbol_by platform codes symbols true currency code ≡ currency
      symbol_by-coded none = refl
      symbol_by-coded (some code) = refl

  adopted-symbol_by :
      (r : Reading) (code : Option Text)
      → adopted platform codes symbols r code
        ≡ symbol_by platform codes symbols r.currency_from_token r.currency code
  adopted-symbol_by r none = refl
  adopted-symbol_by r (some code) = refl

  currency_by-priced :
      (coded : Bool) (currency : Text) (code : Option Text) (parsed : Parsed)
      → currency_by platform codes symbols coded
          (symbol_by platform codes symbols coded currency parsed.currency)
          code
          none
        ≡ currency_by platform codes symbols coded currency code (some parsed)
  currency_by-priced coded currency none parsed = refl
  currency_by-priced coded currency (some code) parsed = refl

  -- A token that is not read as a code passes the codes by.
  module _ (coded : Bool) (tok : Text) (plain : List Text) where
    code_of-unknown :
        has_code platform codes (platform.to_upper tok) ≡ false
        → code_of platform codes symbols tok ≡ none
    code_of-unknown e = rw e refl

    pub left_of_codes-skip :
        (not coded && has_code platform codes (platform.to_upper tok)) ≡ false
        → left_of_codes platform codes symbols coded (tok ∷ plain)
          ≡ tok ∷ left_of_codes platform codes symbols coded plain
    left_of_codes-skip h = elim (Bool-cases coded) [
      | inl done ↦ rw done refl
      | inr early ↦
          rw
            (
              early,
              without_first-none (code_of platform codes symbols) tok plain
                  (code_of-unknown (rw early at h)),
            )
            refl
    ]

    pub code_in-skip :
        (not coded && has_code platform codes (platform.to_upper tok)) ≡ false
        → code_in platform codes symbols coded (tok ∷ plain)
          ≡ code_in platform codes symbols coded plain
    code_in-skip h = elim (Bool-cases coded) [
      | inl done ↦ rw done refl
      | inr early ↦
          rw
            (
              early,
              first-none (code_of platform codes symbols) tok plain
                  (code_of-unknown (rw early at h)),
            )
            refl
    ]

  pub step-code :
      (r : Reading) (tok : Text) (toks : List Text)
      → tag_of tok ≡ none
      → r.currency_from_token ≡ false
      → has_code platform codes (platform.to_upper tok) ≡ true
      → passes_from platform codes symbols (read_token platform codes symbols r tok) toks
        ≡ passes_from platform codes symbols r (tok ∷ toks)
  unfolding passes_from
  step-code r tok toks e early known =
      let knows = code_of-known tok known in
      let up = platform.to_upper tok in
      rw
        (
          found-none tag_of tok toks e,
          others-none tag_of tok toks e,
          e,
          early,
          known,
          first-some (code_of platform codes symbols) tok (others tag_of toks) up knows,
          without_first-some (code_of platform codes symbols) tok (others tag_of toks) up knows,
          currency_by-coded,
        )
        refl

  pub step-priced :
      (r : Reading) (tok : Text) (parsed : Parsed) (toks : List Text)
      → tag_of tok ≡ none
      → (not r.currency_from_token && has_code platform codes (platform.to_upper tok)) ≡ false
      → r.amount_consumed ≡ false
      → amount_of platform codes symbols tok ≡ some parsed
      → passes_from platform codes symbols (read_token platform codes symbols r tok) toks
        ≡ passes_from platform codes symbols r (tok ∷ toks)
  unfolding passes_from
  step-priced r tok parsed toks e skipped early price =
      let plain = others tag_of toks in
      let left = left_of_codes platform codes symbols r.currency_from_token plain in
      rw
        (
          found-none tag_of tok toks e,
          others-none tag_of tok toks e,
          left_of_codes-skip r.currency_from_token tok plain skipped,
          code_in-skip r.currency_from_token tok plain skipped,
          e,
          skipped,
          early,
          price,
          first-some (amount_of platform codes symbols) tok left parsed price,
          without_first-some (amount_of platform codes symbols) tok left parsed price,
          adopted-symbol_by,
          currency_by-priced,
        )
        refl
