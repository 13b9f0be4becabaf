-- ===== src/QuickParse/Line.antt =====
-- A line of words with one space between them is read word by word.
use spen_drop.Base.{
  true, false, List, [], ◌∷◌, ◌++◌, append_assoc, append-nil, All, ◌≡◌, ◌≢◌, refl, sym, arith, any,
}
use spen_drop.QuickParse.Text.{
  Text, is_space, is_blank, is_empty, trim, trim_start, trim_end, split_from, split_spaces, join,
}

-- A word is not empty and holds no space.
abbrev pub IsToken : Text → Type 0
IsToken w = (is_empty w ≡ false) × (any is_space w ≡ false)

split_from-append :
    (w cur s : Text)
    → any is_space w ≡ false
    → split_from false cur (w ++ s) ≡ split_from false (cur ++ w) s
unfolding split_from
split_from-append [] cur s h = rw append-nil refl
split_from-append (c ∷ w) cur s h =
    ground (arith, split_from-append w (cur ++ c ∷ []) s, append_assoc cur (c ∷ []) w)

split_from_gap :
    (w s : Text) → IsToken w → split_from true [] (w ++ s) ≡ split_from false [] (w ++ s)
unfolding split_from
split_from_gap [] s (h, k) = cc
split_from_gap (c ∷ w) s (h, k) = ground arith

split_from_space : (cur s : Text) → split_from false cur (32 ∷ s) ≡ cur ∷ split_from true [] s
unfolding split_from is_space
split_from_space cur s = refl

-- what `join` puts behind the first word
join_tail : List Text → Text
join_tail [] = []
join_tail (v ∷ vs) = 32 ∷ join (v ∷ vs)

join-cons : (w : Text) (ws : List Text) → join (w ∷ ws) ≡ w ++ join_tail ws
unfolding join join_tail
join-cons w [] = sym (append-nil w)
join-cons w (v ∷ vs) = refl

split_from_end : (cur : Text) → split_from false cur [] ≡ cur ∷ []
unfolding split_from
split_from_end cur = refl

split_from-join :
    (w : Text) (ws : List Text)
    → All IsToken (w ∷ ws)
    → split_from false [] (join (w ∷ ws)) ≡ w ∷ ws
unfolding join_tail
split_from-join w [] (h, _) =
    rw (join-cons w [], split_from-append w [] (join_tail []) h.1) (split_from_end w)
split_from-join w (v ∷ vs) (h, hs) =
    rw
      (
        join-cons w (v ∷ vs),
        split_from-append w [] (join_tail (v ∷ vs)) h.1,
        split_from_space w (join (v ∷ vs)),
        join-cons v vs,
        split_from_gap v (join_tail vs) hs.0,
        sym (join-cons v vs),
        split_from-join v vs hs,
      )
      refl

trim_end-word : (w : Text) → any is_space w ≡ false → trim_end w ≡ w
unfolding trim_end
trim_end-word [] h = refl
trim_end-word (c ∷ w) h = ground (arith, trim_end-word w)

is_blank-append : (s t : Text) → is_blank t ≡ false → is_blank (s ++ t) ≡ false
is_blank-append [] t h = h
is_blank-append (c ∷ s) t h = ground (arith, is_blank-append s t)

trim_end-append : (s t : Text) → is_blank t ≡ false → trim_end t ≡ t → trim_end (s ++ t) ≡ s ++ t
unfolding trim_end
trim_end-append [] t h e = e
trim_end-append (c ∷ s) t h e = ground (arith, trim_end-append s t, is_blank-append s t)

is_blank-word : (w : Text) → IsToken w → is_blank w ≡ false
is_blank-word [] (h, k) = cc
is_blank-word (c ∷ w) (h, k) = ground arith

is_blank-join :
    (w : Text) (ws : List Text) → All IsToken (w ∷ ws) → is_blank (join (w ∷ ws)) ≡ false
unfolding join
is_blank-join w [] (h, _) = is_blank-word w h
is_blank-join w (v ∷ vs) (h, hs) =
    is_blank-append w (32 ∷ join (v ∷ vs)) (ground (arith, is_blank-join v vs hs))

trim_end-join :
    (w : Text) (ws : List Text) → All IsToken (w ∷ ws) → trim_end (join (w ∷ ws)) ≡ join (w ∷ ws)
unfolding join
trim_end-join w [] (h, _) = trim_end-word w h.1
trim_end-join w (v ∷ vs) (h, hs) =
    trim_end-append w (32 ∷ join (v ∷ vs)) (ground (arith, is_blank-join v vs hs))
      (trim_end-append (32 ∷ []) (join (v ∷ vs)) (is_blank-join v vs hs) (trim_end-join v vs hs))

trim_start-token : (w s : Text) → IsToken w → trim_start (w ++ s) ≡ w ++ s
unfolding trim_start
trim_start-token [] s (h, k) = cc
trim_start-token (c ∷ w) s (h, k) = ground arith

pub trim-join : (ws : List Text) → All IsToken ws → trim (join ws) ≡ join ws
unfolding trim trim_start trim_end join
trim-join [] h = refl
trim-join (w ∷ ws) h =
    rw (join-cons w ws, trim_start-token w (join_tail ws) h.0, sym (join-cons w ws))
      (trim_end-join w ws h)

pub is_empty-join : (w : Text) (ws : List Text) → IsToken w → is_empty (join (w ∷ ws)) ≡ false
is_empty-join [] ws (h, k) = cc
is_empty-join (c ∷ w) ws h = rw (join-cons (c ∷ w) ws) refl

pub split_spaces-join : (ws : List Text) → ws ≢ [] → All IsToken ws → split_spaces (join ws) ≡ ws
split_spaces-join [] h _ = absurd (h refl)
split_spaces-join (w ∷ ws) h all = split_from-join w ws all
