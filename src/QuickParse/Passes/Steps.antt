-- ===== src/QuickParse/Passes/Steps.antt =====
-- The loop of `parseQuickEntry` against the three passes, one token at a time.
use spen_drop.Base.{
  Bool, true, false, not, ◌&&◌, ◌||◌, none, List, [], ◌∷◌, append_assoc, append-nil, if◌then◌else◌,
  ◌≡◌, ◌⊎◌, refl, sym, ◌∙◌, arith, Option-cases, Bool-cases, inl, inr,
}
use spen_drop.QuickParse.Text.{Text}
use spen_drop.QuickParse.Amount.{Symbol}
use spen_drop.QuickParse.Entry.{
  Platform, Reading, tag_of, has_code, amount_of, described, read_token, read_tokens, initial,
}
use spen_drop.QuickParse.Passes.{
  others, found-none, others-none, first-none, without_first-none, left_of_codes, code_in,
  amount_in, left_of_amount, passes_from, three_passes,
}
use spen_drop.QuickParse.Passes.Token.{
  code_in-skip, left_of_codes-skip, step-code, step-priced, step-tag,
}

module _ (platform : Platform) (codes : List Text) (symbols : List Symbol) where
  -- A token that is not read as the amount passes the amount by.
  module _ (priced : Bool) (tok : Text) (left : List Text) where
    left_of_amount-skip :
        (priced ≡ true) ⊎ (amount_of platform codes symbols tok ≡ none)
        → left_of_amount platform codes symbols priced (tok ∷ left)
          ≡ tok ∷ left_of_amount platform codes symbols priced left
    left_of_amount-skip (inl done) = rw done refl
    left_of_amount-skip (inr unread) = elim (Bool-cases priced) [
      | inl done ↦ rw done refl
      | inr early ↦
          rw (early, without_first-none (amount_of platform codes symbols) tok left unread) refl
    ]

    amount_in-skip :
        (priced ≡ true) ⊎ (amount_of platform codes symbols tok ≡ none)
        → amount_in platform codes symbols priced (tok ∷ left)
          ≡ amount_in platform codes symbols priced left
    amount_in-skip (inl done) = rw done refl
    amount_in-skip (inr unread) = elim (Bool-cases priced) [
      | inl done ↦ rw done refl
      | inr early ↦ rw (early, first-none (amount_of platform codes symbols) tok left unread) refl
    ]

  read_token-described :
      (r : Reading) (tok : Text)
      → tag_of tok ≡ none
      → (not r.currency_from_token && has_code platform codes (platform.to_upper tok)) ≡ false
      → (r.amount_consumed ≡ true) ⊎ (amount_of platform codes symbols tok ≡ none)
      → read_token platform codes symbols r tok ≡ described platform codes symbols r tok
  read_token-described r tok e skipped (inl done) = rw (e, skipped, done) refl
  read_token-described r tok e skipped (inr unread) =
      rw (e, skipped, unread) (either r.amount_consumed)
    where
      either :
          (b : Bool)
          → (if not b
              then described platform codes symbols r tok
              else described platform codes symbols r tok)
            ≡ described platform codes symbols r tok
      either true = refl
      either false = refl

  step-described :
      (r : Reading) (tok : Text) (toks : List Text)
      → tag_of tok ≡ none
      → (not r.currency_from_token && has_code platform codes (platform.to_upper tok)) ≡ false
      → (r.amount_consumed ≡ true) ⊎ (amount_of platform codes symbols tok ≡ none)
      → passes_from platform codes symbols (read_token platform codes symbols r tok) toks
        ≡ passes_from platform codes symbols r (tok ∷ toks)
  unfolding passes_from
  step-described r tok toks e skipped reason =
      let plain = others tag_of toks in
      let left = left_of_codes platform codes symbols r.currency_from_token plain in
      rw
        (
          read_token-described r tok e skipped reason,
          found-none tag_of tok toks e,
          others-none tag_of tok toks e,
          left_of_codes-skip platform codes symbols r.currency_from_token tok plain skipped,
          code_in-skip platform codes symbols r.currency_from_token tok plain skipped,
          left_of_amount-skip r.amount_consumed tok left reason,
          amount_in-skip r.amount_consumed tok left reason,
          append_assoc,
        )
        refl

  step-untagged :
      (r : Reading) (tok : Text) (toks : List Text)
      → tag_of tok ≡ none
      → passes_from platform codes symbols (read_token platform codes symbols r tok) toks
        ≡ passes_from platform codes symbols r (tok ∷ toks)
  step-untagged r tok toks e =
      elim (Bool-cases
        (not r.currency_from_token && has_code platform codes (platform.to_upper tok))) [
          | inl coded ↦
              step-code platform codes symbols r tok toks e (ground (arith, coded))
                (ground (arith, coded))
          | inr skipped ↦ elim (Bool-cases r.amount_consumed) [
            | inl done ↦ step-described r tok toks e skipped (inl done)
            | inr early ↦ elim (Option-cases (amount_of platform codes symbols tok)) [
              | inl unread ↦ step-described r tok toks e skipped (inr unread)
              | inr (parsed, price) ↦
                  step-priced platform codes symbols r tok parsed toks e skipped early price
            ]
          ]
        ]

  left_of_codes-nil : (coded : Bool) → left_of_codes platform codes symbols coded [] ≡ []
  left_of_codes-nil true = refl
  left_of_codes-nil false = refl

  code_in-nil : (coded : Bool) → code_in platform codes symbols coded [] ≡ none
  code_in-nil true = refl
  code_in-nil false = refl

  left_of_amount-nil : (priced : Bool) → left_of_amount platform codes symbols priced [] ≡ []
  left_of_amount-nil true = refl
  left_of_amount-nil false = refl

  amount_in-nil : (priced : Bool) → amount_in platform codes symbols priced [] ≡ none
  amount_in-nil true = refl
  amount_in-nil false = refl

  or-false : (b : Bool) → (b || false) ≡ b
  or-false true = refl
  or-false false = refl

  passes_from-nil : (r : Reading) → passes_from platform codes symbols r [] ≡ r
  unfolding passes_from
  passes_from-nil r =
      rw
        (
          left_of_codes-nil r.currency_from_token,
          code_in-nil r.currency_from_token,
          left_of_amount-nil r.amount_consumed,
          amount_in-nil r.amount_consumed,
          append-nil r.tag_words,
          append-nil r.desc_words,
          or-false r.amount_consumed,
          or-false r.currency_from_token,
        )
        refl

  read_tokens-passes_from :
      (r : Reading) (toks : List Text)
      → read_tokens platform codes symbols r toks ≡ passes_from platform codes symbols r toks
  unfolding read_tokens
  read_tokens-passes_from r [] = sym (passes_from-nil r)
  read_tokens-passes_from r (tok ∷ toks) =
      read_tokens-passes_from (read_token platform codes symbols r tok) toks
      ∙ elim (Option-cases (tag_of tok)) [
        | inl e ↦ step-untagged r tok toks e
        | inr (t, e) ↦ step-tag platform codes symbols r tok t toks e
      ]

-- One round of the loop per token reads what three passes read: the tags; the first known currency code
-- among the other tokens; the first amount among what is left, whose symbol gives the currency only
-- where no code does; and all else, in order, as the description.
pub read_tokens-three_passes :
    (platform : Platform) (codes : List Text) (symbols : List Symbol) (base_currency : Text)
    (toks : List Text)
    → read_tokens platform codes symbols (initial base_currency) toks
      ≡ three_passes platform codes symbols base_currency toks
unfolding passes_from
read_tokens-three_passes platform codes symbols base_currency toks =
    read_tokens-passes_from platform codes symbols (initial base_currency) toks
