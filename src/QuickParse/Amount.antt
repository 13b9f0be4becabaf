-- ===== src/QuickParse/Amount.antt =====
-- `tryParseAmount`. An amount is a whole number of hundredths, exactly.
use spen_drop.Base.{
  ℕ, ◌+◌, ◌-◌, ◌*◌, Bool, not, ◌&&◌, ◌||◌, Option, none, some, List, [], ◌∷◌, ◌==◌, if◌then◌else◌,
  length, drop,
}
use spen_drop.QuickParse.Text.{Text, is_digit, starts_with, before_suffix}

-- a symbol and the code that it stands for, in the order of the `Map`
pub record Symbol : Type 0 where
  pub sym : Text
  pub code : Text

pub record Parsed : Type 0 where
  pub value : ℕ
  pub currency : Option Text

pub record Stripped : Type 0 where
  pub rest : Text
  pub currency : Option Text

abbrev pub ended : Symbol → Stripped → Option Text → Stripped
ended m rest none = rest
ended m rest (some t) = record { rest = t; currency = some m.code }

-- the loop over the symbols
unfoldable pub strip_symbol : Text → List Symbol → Stripped
strip_symbol s [] = record { rest = s; currency = none }
strip_symbol s (m ∷ ms) =
    let rest = strip_symbol s ms in
    if starts_with m.sym s
    then record { rest = drop (length m.sym) s; currency = some m.code }
    else ended m rest (before_suffix m.sym s)

-- the value of `[.,]\d{1,2}`, of one digit or two, behind the units read so far
unfoldable pub cents : ℕ → Text → Option ℕ
cents units (d ∷ []) = if is_digit d then some (units * 100 + (d - b'0') * 10) else none
cents units (d ∷ e ∷ []) =
    if is_digit d && is_digit e then some (units * 100 + (d - b'0') * 10 + (e - b'0')) else none
cents units _ = none

abbrev pub is_separator : ℕ → Bool
is_separator c = c == b'.' || c == b','

-- `^\d+(?:[.,]\d{1,2})?$` behind the first digit, and the number it spells
unfoldable pub hundredths_from : ℕ → Text → Option ℕ
hundredths_from units [] = some (units * 100)
hundredths_from units (c ∷ s) =
    let rest = hundredths_from (units * 10 + (c - b'0')) s in
    if is_digit c then rest else if is_separator c then cents units s else none

unfoldable pub hundredths : Text → Option ℕ
hundredths [] = none
hundredths (c ∷ s) = if is_digit c then hundredths_from (c - b'0') s else none

-- `Number.isFinite` of the number read is an argument.
unfoldable pub checked : (ℕ → Bool) → Option Text → Option ℕ → Option Parsed
checked is_finite currency none = none
checked is_finite currency (some value) =
    if not (is_finite value) || value == 0
    then none
    else some (record { value = value; currency = currency })

unfoldable pub try_parse_amount : (ℕ → Bool) → Text → List Symbol → Option Parsed
try_parse_amount is_finite token symbol_to_code =
    let s = strip_symbol token symbol_to_code in checked is_finite s.currency (hundredths s.rest)
