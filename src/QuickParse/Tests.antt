-- ===== src/QuickParse/Tests.antt =====
-- Lines read in the browser that writes capitals as ASCII does.
use spen_drop.Base.{
  ℕ, ◌+◌, ◌-◌, String, Bool, true, false, ◌&&◌, none, some, List, [], ◌∷◌, ◌++◌, leb, if◌then◌else◌,
  ◌≡◌, refl, ◌↔◌,
}
use spen_drop.QuickParse.Text.{
  Text, codes, ◌=ₜ◌, is_space, is_digit, is_word, trim, trim_start, trim_end, split_from, join,
  starts_with, before_suffix,
}
use spen_drop.QuickParse.Amount.{
  Symbol, strip_symbol, cents, hundredths, hundredths_from, checked, try_parse_amount,
}
use spen_drop.QuickParse.Category.{Category, has_word, is_hit, best_from, match_category, padded}
use spen_drop.QuickParse.Entry.{
  Platform, Currency, ParsedQuickEntry, tag_of, code_set, symbol_to_code, read_tokens, initial,
  parse_quick_entry,
}
use spen_drop.QuickParse.Passes.{three_passes}
use spen_drop.QuickParse.Passes.Steps.{read_tokens-three_passes}
use spen_drop.QuickParse.Minus.{read_tokens_minus, occurs}
use spen_drop.QuickParse.Longest.{Chosen, match_category-Chosen}
use spen_drop.QuickParse.Word.{StandsIn, has_word_iff}
use spen_drop.QuickParse.Written.{parse_quick_entry-line_of, line_of}

program : Unit {0}
unfolding ◌=ₜ◌ is_space is_digit is_word trim trim_start trim_end split_from join starts_with
    before_suffix strip_symbol cents hundredths hundredths_from checked try_parse_amount has_word
    is_hit best_from match_category tag_of symbol_to_code read_tokens parse_quick_entry
program = tt

abbrev in_ascii : (ℕ → ℕ) → ℕ → ℕ → Text → Text
in_ascii f lo hi [] = []
in_ascii f lo hi (c ∷ s) = (if leb lo c && leb c hi then f c else c) ∷ in_ascii f lo hi s

abbrev browser : Platform
browser = record {
  to_upper = in_ascii (λ c. c - 32) b'a' b'z';
  to_lower = in_ascii (λ c. c + 32) b'A' b'Z';
  is_finite = λ n. true;
}

-- the dollar of two currencies, and the euro's sign
abbrev currencies : List Currency
currencies =
    record { code = codes "EUR"; symbol = 8364 ∷ [] }
    ∷ record { code = codes "USD"; symbol = codes "$" }
    ∷ record { code = codes "AUD"; symbol = codes "$" }
    ∷ []

abbrev category : ℕ → String → Bool → Category
category id name is_active = record { id = id; name = codes name; is_active = is_active }

abbrev categories : List Category
categories =
    category 1 "Food" true ∷ category 2 "Fast food" true ∷ category 3 "Late fast food" false ∷ []

abbrev parse : Text → ParsedQuickEntry
parse = parse_quick_entry browser categories currencies (codes "USD")

reads_lunch : parse (codes " Fast  food 12,5 #work -3 7") ≡ record {
  amount = some 1250;
  currency = codes "USD";
  description = codes "Fast food -3 7";
  tags = codes "work";
  category_id = some 2;
}
unfolding program
reads_lunch = refl

reads_symbol : (parse (codes "taxi 20" ++ 8364 ∷ [])).currency ≡ codes "EUR"
unfolding program
reads_symbol = refl

reads_late_code : (parse (8364 ∷ codes "20 taxi aud")).currency ≡ codes "AUD"
unfolding program
reads_late_code = refl

reads_foodie : (parse (codes "foodie $5 0")).category_id ≡ none
unfolding program
reads_foodie = refl

reads_nothing : parse (codes "  ") ≡ record {
  amount = none;
  currency = codes "USD";
  description = [];
  tags = [];
  category_id = none;
}
unfolding program
reads_nothing = refl

abbrev known_codes : List Text
known_codes = code_set browser currencies

abbrev euro : List Symbol
euro = record { sym = 8364 ∷ []; code = codes "EUR" } ∷ []

abbrev tokens : List Text
tokens = codes "taxi" ∷ codes "-5" ∷ codes "#work" ∷ codes "aud" ∷ codes "7" ∷ codes "eur" ∷ []

read_tokens-three_passes_example :
    read_tokens browser known_codes euro (initial (codes "USD")) tokens
    ≡ three_passes browser known_codes euro (codes "USD") tokens
read_tokens-three_passes_example =
    read_tokens-three_passes browser known_codes euro (codes "USD") tokens

read_tokens_minus_example :
    occurs
      (codes "-5")
      (read_tokens browser known_codes euro (initial (codes "USD")) tokens).desc_words
    ≡ true
unfolding program
read_tokens_minus_example =
    read_tokens_minus browser known_codes euro (codes "USD") (codes "-5") tokens refl refl refl refl
      refl

match_category-Chosen_example :
    Chosen browser.to_lower
      (padded browser.to_lower (codes "My fast food"))
      categories
      (match_category browser.to_lower (codes "My fast food") categories)
match_category-Chosen_example =
    match_category-Chosen browser.to_lower (codes "My fast food") categories refl

finds_food :
    (has_word true (codes "food") (codes " fast food ") ≡ true)
    ↔ StandsIn true (codes "food") (codes " fast food ")
finds_food = has_word_iff (codes "food") (codes " fast food ")

abbrev lunch : List Text
lunch = codes "Fast" ∷ codes "food" ∷ []

parse_quick_entry-line_of_example :
    parse_quick_entry browser categories currencies
      (codes "USD")
      (join (line_of browser currencies lunch (8364 ∷ codes "12.50") (codes "work" ∷ [])))
    ≡ record {
      amount = some 1250;
      currency = codes "EUR";
      description = join lunch;
      tags = join (codes "work" ∷ []);
      category_id = match_category browser.to_lower (join lunch) categories;
    }
unfolding program
parse_quick_entry-line_of_example =
    parse_quick_entry-line_of browser currencies lunch (8364 ∷ codes "12.50") (codes "work" ∷ [])
      (record { value = 1250; currency = some (codes "EUR") })
      (((refl, refl), refl, refl, refl), (((refl, refl), refl, refl, refl), tt)) (refl, refl) refl
      refl refl (refl, tt) categories (codes "USD")
