-- ===== src/ClientKey/Distinct.antt =====
-- web/src/lib/client-key.ts: the key keeps every random bit but the six it fixes.
use spen_drop.Base.{
  ℕ, zero, suc, ◌+◌, ◌/◌, ◌%◌, ◌<◌, Option, none, some, List, [], ◌∷◌, ◌++◌, ◌==◌, if◌then◌else◌,
  ◌≡◌, refl, ap, sym, ◌∙◌, Bool-cases, inl, inr, arith,
}
use spen_drop.ClientKey.Key.{with_values, stamped, hex_from, groups, new_client_key}

abbrev flat : List (List ℕ) → List ℕ
flat [] = []
flat (g ∷ gs) = g ++ flat gs

abbrev flat_key : Option (List (List ℕ)) → List ℕ
flat_key none = []
flat_key (some key) = flat key

flat-new_client_key :
    (bytes : ℕ → ℕ) → flat_key (new_client_key (with_values bytes)) ≡ hex_from (stamped bytes) 0 16
unfolding new_client_key groups hex_from
flat-new_client_key bytes = refl

-- The digits of a run of bytes give the bytes back.
hex_from-bytes :
    (f g : ℕ → ℕ) (i n k : ℕ) → k < n → hex_from f i n ≡ hex_from g i n → f (i + k) ≡ g (i + k)
unfolding hex_from
hex_from-bytes f g i zero k h e = absurd (omega arith)
hex_from-bytes f g i (suc n) zero h e =
    let high : f i / 16 ≡ g i / 16 = cc e in
    let low : f i % 16 ≡ g i % 16 = cc e in
    let here : i + 0 ≡ i = omega arith in ap f here ∙ omega (arith, high, low) ∙ sym (ap g here)
hex_from-bytes f g i (suc n) (suc k) h e =
    let rest : hex_from f (suc i) n ≡ hex_from g (suc i) n = cc e in
    let there : i + suc k ≡ suc i + k = omega arith in
    ap f there ∙ hex_from-bytes f g (suc i) n k (omega arith) rest ∙ sym (ap g there)

-- the bits of a byte that the key does not fix
abbrev pub random_bits : (ℕ → ℕ) → ℕ → ℕ
random_bits bytes i = if i == 6 then bytes 6 % 16 else (if i == 8 then bytes 8 % 64 else bytes i)

stamped-random_bits :
    (f g : ℕ → ℕ) (i : ℕ) → stamped f i ≡ stamped g i → random_bits f i ≡ random_bits g i
stamped-random_bits f g i e = elim (Bool-cases (i == 6)) [
  | inl six ↦ rw six (omega (arith, rw six at e))
  | inr other ↦ elim (Bool-cases (i == 8)) [
    | inl eight ↦ rw (other, eight) (omega (arith, rw (other, eight) at e))
    | inr plain ↦ rw (other, plain) (rw (other, plain) at e)
  ]
]

-- Two sets of random bytes make the same key only if they agree in every byte, in all its bits but
-- the four high ones of the byte 6 and the two high ones of the byte 8.
pub new_client_key-random_bits :
    (f g : ℕ → ℕ) (i : ℕ)
    → i < 16
    → new_client_key (with_values f) ≡ new_client_key (with_values g)
    → random_bits f i ≡ random_bits g i
new_client_key-random_bits f g i h e =
    let here : 0 + i ≡ i = omega arith in
    let same =
      hex_from-bytes (stamped f) (stamped g) 0 16 i h
        (sym (flat-new_client_key f) ∙ ap flat_key e ∙ flat-new_client_key g) in
    stamped-random_bits f g i (rw here at same)
