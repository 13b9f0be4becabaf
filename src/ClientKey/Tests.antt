-- ===== src/ClientKey/Tests.antt =====
-- Keys of concrete bytes.
use spen_drop.Base.{ℕ, ◌+◌, ◌*◌, ◌==◌, if◌then◌else◌, some, [], ◌∷◌, ◌≡◌, refl, arith}
use spen_drop.ClientKey.Key.{with_values, hex_from, groups, new_client_key}
use spen_drop.ClientKey.Distinct.{random_bits, new_client_key-random_bits}

program : Unit {0}
unfolding hex_from groups new_client_key
program = tt

abbrev ramp : ℕ → ℕ
ramp i = 17 * i

-- the same random bits under another version
abbrev ramp' : ℕ → ℕ
ramp' i = if i == 6 then 17 * 6 + 16 else 17 * i

ramp_key :
    new_client_key (with_values ramp)
    ≡ some (
        (0 ∷ 0 ∷ 1 ∷ 1 ∷ 2 ∷ 2 ∷ 3 ∷ 3 ∷ [])
        ∷ (4 ∷ 4 ∷ 5 ∷ 5 ∷ [])
        ∷ (4 ∷ 6 ∷ 7 ∷ 7 ∷ [])
        ∷ (8 ∷ 8 ∷ 9 ∷ 9 ∷ [])
        ∷ (10 ∷ 10 ∷ 11 ∷ 11 ∷ 12 ∷ 12 ∷ 13 ∷ 13 ∷ 14 ∷ 14 ∷ 15 ∷ 15 ∷ [])
        ∷ [])
unfolding program
ramp_key = refl

new_client_key-random_bits_example : random_bits ramp 6 ≡ random_bits ramp' 6
unfolding program
new_client_key-random_bits_example = new_client_key-random_bits ramp ramp' 6 (omega arith) refl
