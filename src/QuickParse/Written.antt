-- ===== src/QuickParse/Written.antt =====
-- An entry written out as a line and read back.
use spen_drop.Base.{
  ℕ, true, false, ◌||◌, Option, none, some, List, [], ◌∷◌, ◌++◌, append-nil, map, any, all, ◌==◌,
  All, All-append, All-imp, ◌≡◌, ◌≢◌, refl, ap, ◌∙◌, arith,
}
use spen_drop.QuickParse.Text.{Text, is_space, is_word, join}
use spen_drop.QuickParse.Amount.{Symbol, Parsed}
use spen_drop.QuickParse.Category.{Category, match_category}
use spen_drop.QuickParse.Entry.{
  Platform, Currency, tag_of, code_set, symbol_to_code, amount_of, parse_quick_entry, collected,
}
use spen_drop.QuickParse.Passes.{
  found, others, first, without_first, code_of, others-none, others-some, found-none, found-some,
  first-none, first-some, without_first-none, without_first-some, three_passes, symbol_by,
}
use spen_drop.QuickParse.Passes.Steps.{read_tokens-three_passes}
use spen_drop.QuickParse.Line.{IsToken, split_spaces-join, trim-join, is_empty-join}

abbrev pub hashed : Text → Text
hashed tag = b'#' ∷ tag

abbrev pub IsTag : Text → Type 0
IsTag tag = tag_of (hashed tag) ≡ some tag

-- A pass leaves the words alone that it does not know.
module _ {ℓ} {A : Type ℓ} (f : Text → Option A) where
  abbrev pub Unknown : Text → Type ℓ
  Unknown tok = f tok ≡ none

  first-Unknown : (ws toks : List Text) → All Unknown ws → first f (ws ++ toks) ≡ first f toks
  first-Unknown [] toks h = refl
  first-Unknown (w ∷ ws) toks (h, hs) = first-none f w (ws ++ toks) h ∙ first-Unknown ws toks hs

  without_first-Unknown :
      (ws toks : List Text)
      → All Unknown ws
      → without_first f (ws ++ toks) ≡ ws ++ without_first f toks
  without_first-Unknown [] toks h = refl
  without_first-Unknown (w ∷ ws) toks (h, hs) =
      without_first-none f w (ws ++ toks) h ∙ ap (λ t. w ∷ t) (without_first-Unknown ws toks hs)

  others-Unknown :
      (ws toks : List Text) → All Unknown ws → others f (ws ++ toks) ≡ ws ++ others f toks
  others-Unknown [] toks h = refl
  others-Unknown (w ∷ ws) toks (h, hs) =
      others-none f w (ws ++ toks) h ∙ ap (λ t. w ∷ t) (others-Unknown ws toks hs)

  found-Unknown : (ws toks : List Text) → All Unknown ws → found f (ws ++ toks) ≡ found f toks
  found-Unknown [] toks h = refl
  found-Unknown (w ∷ ws) toks (h, hs) = found-none f w (ws ++ toks) h ∙ found-Unknown ws toks hs

word_no_space : (c : ℕ) → is_word c ≡ true → is_space c ≡ false
unfolding is_word is_space
word_no_space c h = ground arith

tail_no_space : (s : Text) → all (λ d. is_word d || d == b'-') s ≡ true → any is_space s ≡ false
unfolding is_space
tail_no_space [] h = refl
tail_no_space (c ∷ s) h = ground (arith, word_no_space c, tail_no_space s)

hashed-IsToken : (tag : Text) → IsTag tag → IsToken (hashed tag)
unfolding is_space tag_of
hashed-IsToken [] h = (refl, refl)
hashed-IsToken (c ∷ s) h = (refl, ground (arith, word_no_space c, tail_no_space s))

found-tags : (tags : List Text) → All IsTag tags → found tag_of (map hashed tags) ≡ tags
found-tags [] h = refl
found-tags (t ∷ ts) (h, hs) =
    found-some tag_of (hashed t) (map hashed ts) t h ∙ ap (λ rest. t ∷ rest) (found-tags ts hs)

others-tags : (tags : List Text) → All IsTag tags → others tag_of (map hashed tags) ≡ []
others-tags [] h = refl
others-tags (t ∷ ts) (h, hs) = others-some tag_of (hashed t) (map hashed ts) t h ∙ others-tags ts hs

abbrev pub or_base : Text → Option Text → Text
or_base base_currency none = base_currency
or_base base_currency (some code) = code

append-cons-ne-nil : (ws : List Text) (w : Text) (vs : List Text) → ws ++ w ∷ vs ≢ []
append-cons-ne-nil [] w vs h = cc
append-cons-ne-nil (v ∷ ws) w vs h = cc

hashed-All : (tags : List Text) → All IsTag tags → All IsToken (map hashed tags)
hashed-All [] h = tt
hashed-All (t ∷ ts) (h, hs) = (hashed-IsToken t h, hashed-All ts hs)

parse_quick_entry-join :
    (platform : Platform) (categories : List Category) (currencies : List Currency)
    (base_currency : Text) (ws : List Text)
    → ws ≢ []
    → All IsToken ws
    → parse_quick_entry platform categories currencies base_currency (join ws)
      ≡ collected platform categories (
          three_passes platform
            (code_set platform currencies)
            (symbol_to_code platform currencies)
            base_currency
            ws)
unfolding parse_quick_entry
parse_quick_entry-join platform categories currencies base_currency [] h _ = absurd (h refl)
parse_quick_entry-join platform categories currencies base_currency (w ∷ ws) h all =
    rw
      (
        trim-join (w ∷ ws) all,
        is_empty-join w ws all.0,
        split_spaces-join (w ∷ ws) h all,
        read_tokens-three_passes platform (code_set platform currencies)
            (symbol_to_code platform currencies) base_currency (w ∷ ws),
      )
      refl

symbol_by-or_base :
    (platform : Platform) (codes : List Text) (symbols : List Symbol) (base_currency : Text)
    (code : Option Text)
    → symbol_by platform codes symbols false base_currency code ≡ or_base base_currency code
symbol_by-or_base platform codes symbols base_currency none = refl
symbol_by-or_base platform codes symbols base_currency (some code) = refl

-- What the passes find in the words of a description, an amount and tags.
module _ (platform : Platform) (currencies : List Currency) where
  abbrev pub known : Text → Option Text
  known = code_of platform (code_set platform currencies) (symbol_to_code platform currencies)

  abbrev pub price_of : Text → Option Parsed
  price_of = amount_of platform (code_set platform currencies) (symbol_to_code platform currencies)

  -- a word that is no tag, no code and no amount
  abbrev pub Plain : Text → Type 0
  Plain w = IsToken w × Unknown tag_of w × Unknown known w × Unknown price_of w

  abbrev pub line_of : List Text → Text → List Text → List Text
  line_of words price tags = words ++ price ∷ map hashed tags

  module _ (words : List Text) (price : Text) (tags : List Text) (parsed : Parsed)
      (plain : All Plain words) (single : IsToken price) (untagged : Unknown tag_of price)
      (no_code : Unknown known price) (amount : price_of price ≡ some parsed)
      (tagged : All IsTag tags) where
    plain-line_of : others tag_of (line_of words price tags) ≡ words ++ price ∷ []
    plain-line_of =
        others-Unknown tag_of words (price ∷ map hashed tags) (All-imp _ _ (λ w p. p.1) words plain)
        ∙ ap (λ rest. words ++ rest)
            (others-none tag_of price (map hashed tags) untagged
              ∙ ap (λ rest. price ∷ rest) (others-tags tags tagged))

    tags-line_of : found tag_of (line_of words price tags) ≡ tags
    tags-line_of =
        found-Unknown tag_of words (price ∷ map hashed tags) (All-imp _ _ (λ w p. p.1) words plain)
        ∙ found-none tag_of price (map hashed tags) untagged
        ∙ found-tags tags tagged

    uncoded : All (Unknown known) words
    uncoded = All-imp _ _ (λ w p. p.2) words plain

    unpriced : All (Unknown price_of) words
    unpriced = All-imp _ _ (λ w p. p.3) words plain

    code-line_of : first known (words ++ price ∷ []) ≡ none
    code-line_of =
        first-Unknown known words (price ∷ []) uncoded ∙ first-none known price [] no_code

    left-line_of : without_first known (words ++ price ∷ []) ≡ words ++ price ∷ []
    left-line_of =
        without_first-Unknown known words (price ∷ []) uncoded
        ∙ ap (λ rest. words ++ rest) (without_first-none known price [] no_code)

    amount-line_of : first price_of (words ++ price ∷ []) ≡ some parsed
    amount-line_of =
        first-Unknown price_of words (price ∷ []) unpriced
        ∙ first-some price_of price [] parsed amount

    words-line_of : without_first price_of (words ++ price ∷ []) ≡ words
    words-line_of =
        without_first-Unknown price_of words (price ∷ []) unpriced
        ∙ ap (λ rest. words ++ rest) (without_first-some price_of price [] parsed amount)
        ∙ append-nil words

    tokens-line_of : All IsToken (line_of words price tags)
    tokens-line_of =
        All-append IsToken words (price ∷ map hashed tags) (All-imp _ _ (λ w p. p.0) words plain)
          (single, hashed-All tags tagged)

    not-nil : line_of words price tags ≢ []
    not-nil = append-cons-ne-nil words price (map hashed tags)

    -- A line is read back: words that are no tag, no code and no amount, then one amount, then tags, with
    -- one space between them, give the words as the description, the amount with its symbol's currency or
    -- the base currency, and the tags; the category is the one that the words match.
    pub parse_quick_entry-line_of :
        (categories : List Category) (base_currency : Text)
        → parse_quick_entry platform categories currencies base_currency
            (join (line_of words price tags))
          ≡ record {
            amount = some parsed.value;
            currency = or_base base_currency parsed.currency;
            description = join words;
            tags = join tags;
            category_id = match_category platform.to_lower (join words) categories;
          }
    parse_quick_entry-line_of categories base_currency =
        parse_quick_entry-join platform categories currencies base_currency
          (line_of words price tags) not-nil tokens-line_of
        ∙ rw
            (
              plain-line_of,
              tags-line_of,
              code-line_of,
              left-line_of,
              amount-line_of,
              words-line_of,
              trim-join words (All-imp _ _ (λ w p. p.0) words plain),
              symbol_by-or_base,
            )
            refl
