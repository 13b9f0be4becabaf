-- ===== src/Money/Price.antt =====
-- web/src/lib/currency.ts: what `toCreatePayload` makes of a foreign amount.
use spen_drop.Base.{String, Option, none, some}
use spen_drop.Base.Int.{ℤ}
use spen_drop.Money.Round.{negate}
use spen_drop.Money.Convert.{Converted, payload, no_rate}

abbrev pub negate_original : Option (ℤ × String) → Option (ℤ × String)
negate_original none = none
negate_original (some (amount, code)) = some (negate amount, code)

abbrev pub negate_converted : Converted → Converted
negate_converted (payload money) =
    payload (record { amount = negate money.amount; original = negate_original money.original })
negate_converted (no_rate code) = no_rate code
