-- ===== src/QuickParse/Entry.antt =====
-- `parseQuickEntry`. What `toUpperCase`, `toLowerCase` and `Number.isFinite` answer is an argument.
use spen_drop.Base.{
  ℕ, Bool, true, false, not, ◌&&◌, ◌||◌, Option, none, some, List, [], ◌∷◌, ◌++◌, ◌==◌, map, any,
  all, keep, length, if◌then◌else◌,
}
use spen_drop.QuickParse.Text.{Text, ◌=ₜ◌, is_empty, is_word, trim, split_spaces, join}
use spen_drop.QuickParse.Amount.{Symbol, Parsed, try_parse_amount}
use spen_drop.QuickParse.Category.{Category, match_category}

pub record Currency : Type 0 where
  pub code : Text
  pub symbol : Text

pub record ParsedQuickEntry : Type 0 where
  pub amount : Option ℕ
  pub currency : Text
  pub description : Text
  pub tags : Text
  pub category_id : Option ℕ

pub record Platform : Type 0 where
  pub to_upper : Text → Text
  pub to_lower : Text → Text
  pub is_finite : ℕ → Bool

-- the variables of the loop
pub record Reading : Type 0 where
  pub tag_words : List Text
  pub desc_words : List Text
  pub amount : Option ℕ
  pub currency : Text
  pub amount_consumed : Bool
  pub currency_from_token : Bool

-- `^#(\w[\w-]*)$`
unfoldable pub tag_of : Text → Option Text
tag_of (h ∷ c ∷ s) =
    if h == b'#' && is_word c && all (λ d. is_word d || d == b'-') s then some (c ∷ s) else none
tag_of _ = none

module _ (platform : Platform) where
  abbrev pub code_set : List Currency → List Text
  code_set currencies = map (λ c. platform.to_upper c.code) currencies

  abbrev pub has_code : List Text → Text → Bool
  has_code codes up = any (λ c. c =ₜ up) codes

  -- `c.symbol && symbolCounts.get(c.symbol) === 1`
  abbrev pub is_unique : List Currency → Currency → Bool
  is_unique currencies c =
      not (is_empty c.symbol) && length (keep (λ d. d.symbol =ₜ c.symbol) currencies) == 1

  unfoldable pub symbol_to_code : List Currency → List Symbol
  symbol_to_code currencies =
      map (λ c. record { sym = c.symbol; code = platform.to_upper c.code })
        (keep (is_unique currencies) currencies)

module _ (platform : Platform) (codes : List Text) (symbols : List Symbol) where
  abbrev pub amount_of : Text → Option Parsed
  amount_of tok = try_parse_amount platform.is_finite tok symbols

  abbrev pub adopted : Reading → Option Text → Text
  adopted r none = r.currency
  adopted r (some code) = if r.currency_from_token then r.currency else code

  abbrev pub described : Reading → Text → Reading
  described r tok = record r { desc_words = r.desc_words ++ tok ∷ [] }

  abbrev pub priced : Reading → Text → Option Parsed → Reading
  priced r tok none = described r tok
  priced r tok (some parsed) = record r {
    amount = some parsed.value;
    currency = adopted r parsed.currency;
    amount_consumed = true;
  }

  -- one round of the loop, on what the expression of a tag finds
  abbrev pub read_word : Reading → Text → Option Text → Reading
  read_word r tok (some tag) = record r { tag_words = r.tag_words ++ tag ∷ [] }
  read_word r tok none =
      let up = platform.to_upper tok in
      if not r.currency_from_token && has_code platform codes up
      then record r { currency = up; currency_from_token = true }
      else if not r.amount_consumed
      then priced r tok (amount_of tok)
      else described r tok

  abbrev pub read_token : Reading → Text → Reading
  read_token r tok = read_word r tok (tag_of tok)

  unfoldable pub read_tokens : Reading → List Text → Reading
  read_tokens r [] = r
  read_tokens r (tok ∷ toks) = read_tokens (read_token r tok) toks

abbrev pub initial : Text → Reading
initial base_currency = record {
  tag_words = [];
  desc_words = [];
  amount = none;
  currency = base_currency;
  amount_consumed = false;
  currency_from_token = false;
}

abbrev pub collected : Platform → List Category → Reading → ParsedQuickEntry
collected platform categories r =
    let description = trim (join r.desc_words) in
    record {
      amount = r.amount;
      currency = r.currency;
      description = description;
      tags = join r.tag_words;
      category_id = match_category platform.to_lower description categories;
    }

abbrev pub nothing_read : Text → ParsedQuickEntry
nothing_read base_currency = record {
  amount = none;
  currency = base_currency;
  description = [];
  tags = [];
  category_id = none;
}

unfoldable pub parse_quick_entry :
    Platform → List Category → List Currency → Text → Text → ParsedQuickEntry
parse_quick_entry platform categories currencies base_currency raw =
    let text = trim raw in
    if is_empty text
    then nothing_read base_currency
    else collected platform categories (
        read_tokens platform (code_set platform currencies) (symbol_to_code platform currencies)
          (initial base_currency) (split_spaces text))
