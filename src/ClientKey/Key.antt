-- ===== src/ClientKey/Key.antt =====
-- web/src/lib/client-key.ts: newClientKey. A key is its groups of hexadecimal digits; the sixteen random
-- bytes are a function of their index, and what `crypto.randomUUID` gives is a parameter.
use spen_drop.Base.{
  ℕ, zero, suc, ◌+◌, ◌/◌, ◌%◌, ◌≤◌, Option, none, some, List, [], ◌∷◌, ◌==◌, take, drop, length,
  if◌then◌else◌, ◌≡◌, refl, arith,
}

-- what `globalThis.crypto` offers
pub data Crypto : Type 0 where
  with_uuid : (uuid : List (List ℕ)) → Crypto
  with_values : (bytes : ℕ → ℕ) → Crypto
  without_source : Crypto

-- `(b & 0x0f) | 0x40` and `(b & 0x3f) | 0x80`
abbrev pub version_4 : ℕ → ℕ
version_4 b = b % 16 + 64

abbrev pub variant_10 : ℕ → ℕ
variant_10 b = b % 64 + 128

abbrev pub stamped : (ℕ → ℕ) → ℕ → ℕ
stamped bytes i =
    if i == 6 then version_4 (bytes 6) else (if i == 8 then variant_10 (bytes 8) else bytes i)

-- the digits of `b.toString(16).padStart(2, '0')`, for the `n` bytes from one on
unfoldable pub hex_from : (ℕ → ℕ) → ℕ → ℕ → List ℕ
hex_from bytes i zero = []
hex_from bytes i (suc n) = bytes i / 16 ∷ bytes i % 16 ∷ hex_from bytes (suc i) n

-- `hex.slice(from, from + size)`
abbrev pub slice : ℕ → ℕ → List ℕ → List ℕ
slice from size hex = take size (drop from hex)

unfoldable pub groups : List ℕ → List (List ℕ)
groups hex = slice 0 8 hex ∷ slice 8 4 hex ∷ slice 12 4 hex ∷ slice 16 4 hex ∷ drop 20 hex ∷ []

-- `none` is the `TypeError`.
unfoldable pub new_client_key : Crypto → Option (List (List ℕ))
new_client_key (with_uuid uuid) = some uuid
new_client_key (with_values bytes) = some (groups (hex_from (stamped bytes) 0 16))
new_client_key without_source = none

abbrev pub first_digit : List ℕ → ℕ
first_digit [] = 0
first_digit (d ∷ ds) = d

-- five groups of 8, 4, 4, 4 and 12 digits, of version 4 and variant 10
abbrev pub IsV4 : List (List ℕ) → Type 0
IsV4 (a ∷ b ∷ c ∷ d ∷ e ∷ []) =
    (length a ≡ 8)
    × (length b ≡ 4)
    × (length c ≡ 4)
    × (length d ≡ 4)
    × (length e ≡ 12)
    × (first_digit c ≡ 4)
    × (8 ≤ first_digit d)
    × (first_digit d ≤ 11)
IsV4 _ = ⊥

abbrev pub AllV4 : Option (List (List ℕ)) → Type 0
AllV4 none = ⊥
AllV4 (some key) = IsV4 key

-- Any random bytes make a key of five groups of 8, 4, 4, 4 and 12 digits, with version 4 and variant
-- 10 in their places.
pub new_client_key-IsV4 : (bytes : ℕ → ℕ) → AllV4 (new_client_key (with_values bytes))
unfolding new_client_key groups hex_from
new_client_key-IsV4 bytes = (refl, refl, refl, refl, refl, omega arith, omega arith, omega arith)
