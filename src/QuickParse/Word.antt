-- ===== src/QuickParse/Word.antt =====
-- The search of `matchCategory`, against the places where a name can stand.
use spen_drop.Base.{
  ℕ, Bool, true, not, ◌&&◌, [], ◌∷◌, ◌++◌, ==_iff, ◌≡◌, ◌↔◌, refl, sym, ap, ap₂, arith, length,
  drop, Bool-cases, inl, inr,
}
use spen_drop.QuickParse.Text.{Text, is_word, starts_with}
use spen_drop.QuickParse.Category.{at_boundary, word_here, has_word}

-- what stands before the name: nothing, behind `edge`, or a text whose last character is no word character
abbrev pub ends_at_edge : Bool → Text → Bool
ends_at_edge edge [] = edge
ends_at_edge edge (c ∷ pre) = ends_at_edge (not (is_word c)) pre

pub record StandsIn (edge : Bool) (name s : Text) : Type 0 where
  pub pre : Text
  pub post : Text
  pub split : s ≡ pre ++ (name ++ post)
  pub opens : ends_at_edge edge pre ≡ true
  pub closes : at_boundary post ≡ true

starts_with-append : (name post : Text) → starts_with name (name ++ post) ≡ true
unfolding starts_with
starts_with-append [] post = refl
starts_with-append (a ∷ name) post = ground (arith, starts_with-append name post)

drop-append : (name post : Text) → drop (length name) (name ++ post) ≡ post
drop-append [] post = refl
drop-append (a ∷ name) post = drop-append name post

starts_with-split : (name s : Text) → starts_with name s ≡ true → s ≡ name ++ drop (length name) s
unfolding starts_with
starts_with-split [] s h = refl
starts_with-split (a ∷ name) [] h = cc
starts_with-split (a ∷ name) (c ∷ s) h =
    ap₂ (◌∷◌) (sym ((==_iff a c).0 (ground arith))) (starts_with-split name s (ground arith))

word_here-StandsIn :
    (edge : Bool) (name s : Text) → (edge && word_here name s) ≡ true → StandsIn edge name s
word_here-StandsIn edge name s h = record {
  pre = [];
  post = drop (length name) s;
  split = starts_with-split name s (ground (arith, h));
  opens = ground (arith, h);
  closes = ground (arith, h);
}

later :
    {edge : Bool} {name s : Text} (c : ℕ)
    → StandsIn (not (is_word c)) name s
    → StandsIn edge name (c ∷ s)
later c w = record {
  pre = c ∷ w.pre;
  post = w.post;
  split = ap (λ s. c ∷ s) w.split;
  opens = w.opens;
  closes = w.closes;
}

has_word-StandsIn :
    (edge : Bool) (name s : Text) → has_word edge name s ≡ true → StandsIn edge name s
unfolding has_word
has_word-StandsIn edge name [] h = word_here-StandsIn edge name [] h
has_word-StandsIn edge name (c ∷ s) h = elim (Bool-cases (edge && word_here name (c ∷ s))) [
  | inl here ↦ word_here-StandsIn edge name (c ∷ s) here
  | inr there ↦ later c (has_word-StandsIn (not (is_word c)) name s (rw there at h))
]

word_here-append :
    (name post : Text) → at_boundary post ≡ true → word_here name (name ++ post) ≡ true
word_here-append name post h = rw (starts_with-append name post, drop-append name post) h

has_word_here :
    (edge : Bool) (name s : Text) → (edge && word_here name s) ≡ true → has_word edge name s ≡ true
unfolding has_word
has_word_here edge name [] h = h
has_word_here edge name (c ∷ s) h = rw h refl

has_word-append :
    (edge : Bool) (name pre post : Text)
    → ends_at_edge edge pre ≡ true
    → at_boundary post ≡ true
    → has_word edge name (pre ++ (name ++ post)) ≡ true
unfolding has_word
has_word-append edge name [] post o c =
    has_word_here edge name (name ++ post) (rw (o, word_here-append name post c) refl)
has_word-append edge name (d ∷ pre) post o c =
    ground (arith, has_word-append (not (is_word d)) name pre post o c)

-- The search finds a name exactly where the text is split round it so that the start, or a character
-- that is no word character, stands before it, and the end or such a character behind it.
pub has_word_iff : (name s : Text) → (has_word true name s ≡ true) ↔ StandsIn true name s
has_word_iff name s = (
  has_word-StandsIn true name s,
  λ w. rw w.split (has_word-append true name w.pre w.post w.opens w.closes),
)
