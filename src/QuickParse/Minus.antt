-- ===== src/QuickParse/Minus.antt =====
-- The tokens that none of the three kinds takes stay in the description; among them those with a minus.
use spen_drop.Base.{
  ℕ, ◌+◌, ◌-◌, ◌*◌, Bool, true, false, not, ◌||◌, Option, none, some, List, [], ◌∷◌, ◌==◌, any, all,
  length, drop, ◌≡◌, refl, sym, ap, ◌∙◌, arith, Option-cases, Bool-cases, inl, inr,
}
use spen_drop.QuickParse.Text.{Text, is_digit, starts_with, before_suffix, ◌=ₜ◌, =ₜ_eq}
use spen_drop.QuickParse.Amount.{
  Symbol, strip_symbol, hundredths, hundredths_from, cents, checked, try_parse_amount,
}
use spen_drop.QuickParse.Entry.{Platform, tag_of, has_code, amount_of, read_tokens, initial}
use spen_drop.QuickParse.Passes.{others, without_first, code_of}
use spen_drop.QuickParse.Passes.Steps.{read_tokens-three_passes}

abbrev pub has_minus : Text → Bool
has_minus s = any (λ c. c == b'-') s

cents_minus : (units : ℕ) (s : Text) → has_minus s ≡ true → cents units s ≡ none
unfolding cents is_digit
cents_minus units [] h = refl
cents_minus units (d ∷ []) h = ground arith
cents_minus units (d ∷ e ∷ []) h = ground arith
cents_minus units (d ∷ e ∷ f ∷ s) h = refl

hundredths_from_minus : (units : ℕ) (s : Text) → has_minus s ≡ true → hundredths_from units s ≡ none
unfolding hundredths_from is_digit
hundredths_from_minus units [] h = cc
hundredths_from_minus units (c ∷ s) h =
    ground (arith, hundredths_from_minus (units * 10 + (c - b'0')) s, cents_minus units s)

hundredths_minus : (s : Text) → has_minus s ≡ true → hundredths s ≡ none
unfolding hundredths is_digit
hundredths_minus [] h = cc
hundredths_minus (c ∷ s) h = ground (arith, hundredths_from_minus (c - b'0') s)

drop_minus :
    (s' s : Text)
    → has_minus s' ≡ false
    → starts_with s' s ≡ true
    → has_minus (drop (length s') s) ≡ has_minus s
unfolding starts_with
drop_minus [] s h p = refl
drop_minus (a ∷ s') [] h p = cc
drop_minus (a ∷ s') (c ∷ s) h p = ground (arith, drop_minus s' s)

eq_minus : (s t : Text) → (s =ₜ t) ≡ true → has_minus s ≡ has_minus t
unfolding ◌=ₜ◌
eq_minus [] [] h = refl
eq_minus [] (b ∷ t) h = cc
eq_minus (a ∷ s) [] h = cc
eq_minus (a ∷ s) (b ∷ t) h = ground (arith, eq_minus s t)

before_suffix_minus :
    (s' s t : Text) → has_minus s' ≡ false → before_suffix s' s ≡ some t → has_minus t ≡ has_minus s
unfolding before_suffix
before_suffix_minus [] [] t h e = let same : [] ≡ t = cc e in ap has_minus (sym same)
before_suffix_minus (a ∷ s') [] t h e = cc
before_suffix_minus s' (c ∷ s) t h e = elim (Bool-cases ((c ∷ s) =ₜ s')) [
  | inl all ↦
      let same : [] ≡ t = cc (rw all at e) in
      ap has_minus (sym same) ∙ sym (eq_minus (c ∷ s) s' all ∙ h)
  | inr more ↦ elim (Option-cases (before_suffix s' s)) [
    | inl none_left ↦ cc (rw (more, none_left) at e)
    | inr (t', here) ↦
        let same : c ∷ t' ≡ t = cc (rw (more, here) at e) in
        rw (sym same) (ap (λ b. (c == b'-') || b) (before_suffix_minus s' s t' h here))
  ]
]

-- no symbol of a currency holds a minus
abbrev pub Unsigned : List Symbol → Type 0
Unsigned symbols = all (λ m. not (has_minus m.sym)) symbols ≡ true

strip_symbol_minus :
    (s : Text) (symbols : List Symbol)
    → Unsigned symbols
    → has_minus (strip_symbol s symbols).rest ≡ has_minus s
unfolding strip_symbol
strip_symbol_minus s [] h = refl
strip_symbol_minus s (m ∷ ms) h =
    let plain : has_minus m.sym ≡ false = ground (arith, h) in
    let others : Unsigned ms = ground (arith, h) in
    elim (Bool-cases (starts_with m.sym s)) [
      | inl first ↦ rw first (drop_minus m.sym s plain first)
      | inr later ↦ elim (Option-cases (before_suffix m.sym s)) [
        | inl none_here ↦ rw (later, none_here) (strip_symbol_minus s ms others)
        | inr (t, here) ↦ rw (later, here) (before_suffix_minus m.sym s t plain here)
      ]
    ]

pub try_parse_amount_minus :
    (is_finite : ℕ → Bool) (tok : Text) (symbols : List Symbol)
    → Unsigned symbols
    → has_minus tok ≡ true
    → try_parse_amount is_finite tok symbols ≡ none
unfolding try_parse_amount checked
try_parse_amount_minus is_finite tok symbols plain minus =
    rw
      (hundredths_minus (strip_symbol tok symbols).rest
        (strip_symbol_minus tok symbols plain ∙ minus))
      refl

abbrev pub occurs : Text → List Text → Bool
occurs tok toks = any (λ w. w =ₜ tok) toks

-- A token that a pass does not know stays behind it.
module _ {ℓ} {A : Type ℓ} (f : Text → Option A) (tok : Text) (unknown : f tok ≡ none) where
  occurs-others : (toks : List Text) → occurs tok toks ≡ true → occurs tok (others f toks) ≡ true
  occurs-others [] h = cc
  occurs-others (w ∷ toks) h = elim (Bool-cases (w =ₜ tok)) [
    | inl here ↦ rw (others, ap f (=ₜ_eq w tok here) ∙ unknown, here) refl
    | inr there ↦ elim (Option-cases (f w)) [
      | inl e ↦ rw (others, e, there) (occurs-others toks (rw there at h))
      | inr (a, e) ↦ rw (others, e) (occurs-others toks (rw there at h))
    ]
  ]

  occurs-without_first :
      (toks : List Text) → occurs tok toks ≡ true → occurs tok (without_first f toks) ≡ true
  occurs-without_first [] h = cc
  occurs-without_first (w ∷ toks) h = elim (Bool-cases (w =ₜ tok)) [
    | inl here ↦ rw (without_first, ap f (=ₜ_eq w tok here) ∙ unknown, here) refl
    | inr there ↦ elim (Option-cases (f w)) [
      | inl e ↦ rw (without_first, e, there) (occurs-without_first toks (rw there at h))
      | inr (a, e) ↦ rw (without_first, e) (rw there at h)
    ]
  ]

-- A token with a minus is never read as an amount: where it is neither a tag nor a known code and no
-- symbol holds a minus, it stands among the words of the description.
pub read_tokens_minus :
    (platform : Platform) (codes : List Text) (symbols : List Symbol) (base_currency tok : Text)
    (toks : List Text)
    → Unsigned symbols
    → has_minus tok ≡ true
    → tag_of tok ≡ none
    → has_code platform codes (platform.to_upper tok) ≡ false
    → occurs tok toks ≡ true
    → occurs tok (read_tokens platform codes symbols (initial base_currency) toks).desc_words ≡ true
read_tokens_minus platform codes symbols base_currency tok toks plain minus untagged unknown here =
    rw (read_tokens-three_passes platform codes symbols base_currency toks) (
      occurs-without_first (amount_of platform codes symbols) tok
        (try_parse_amount_minus platform.is_finite tok symbols plain minus)
        (without_first (code_of platform codes symbols) (others tag_of toks))
        (occurs-without_first (code_of platform codes symbols) tok (rw unknown refl)
          (others tag_of toks) (occurs-others tag_of tok untagged toks here)))
