-- ===== src/QuickParse/Longest.antt =====
-- What `matchCategory` chooses.
use spen_drop.Base.{
  ℕ, ◌<◌, ◌≤◌, true, false, ◌&&◌, Option, none, some, List, [], ◌∷◌, ◌++◌, append_assoc, append-nil,
  ◌≡◌, refl, sym, ap, ◌∙◌, arith, length, All, All-append, All-imp, Bool-cases, ◌⊎◌, inl, inr,
  ltb→lt,
}
use spen_drop.QuickParse.Text.{Text, is_empty}
use spen_drop.QuickParse.Category.{
  Category, Best, wanted, is_hit, is_longer, id_of, best_from, padded, match_category,
}

module _ (to_lower : Text → Text) (hay : Text) where
  -- a hit is shorter than `len`, or no longer
  abbrev pub Shorter : ℕ → Category → Type 0
  Shorter len c = (is_hit to_lower hay c ≡ false) ⊎ (length (wanted to_lower c) < len)

  abbrev pub NoLonger : ℕ → Category → Type 0
  NoLonger len c = (is_hit to_lower hay c ≡ false) ⊎ (length (wanted to_lower c) ≤ len)

  -- The first of the longest hits of `cs` has the id `id`.
  pub record IsLongest (cs : List Category) (id : ℕ) : Type 0 where
    pub before : List Category
    pub chosen : Category
    pub after : List Category
    pub split : cs ≡ before ++ chosen ∷ after
    pub id_eq : chosen.id ≡ id
    pub hit : is_hit to_lower hay chosen ≡ true
    pub shorter : All (Shorter (length (wanted to_lower chosen))) before
    pub no_longer : All (NoLonger (length (wanted to_lower chosen))) after

  abbrev pub Chosen : List Category → Option ℕ → Type 0
  Chosen cs none = All (λ c. is_hit to_lower hay c ≡ false) cs
  Chosen cs (some id) = IsLongest cs id

  -- the same for the hit kept, with the length that it keeps
  abbrev Kept : List Category → Option Best → Type 0
  Kept cs none = All (λ c. is_hit to_lower hay c ≡ false) cs
  Kept cs (some best) = (l : IsLongest cs best.id) × (length (wanted to_lower l.chosen) ≡ best.len)

  miss-NoLonger :
      (len : ℕ) (best : Best) (c : Category)
      → len ≡ best.len
      → (is_hit to_lower hay c && is_longer (length (wanted to_lower c)) (some best)) ≡ false
      → NoLonger len c
  miss-NoLonger len best c e miss = elim (Bool-cases (is_hit to_lower hay c)) [
    | inl hit ↦ inr (ground (arith, rw hit at miss, e))
    | inr other ↦ inl other
  ]

  -- A longer name is longer than what was chosen, and than all that it outdid.
  Shorter-lt : (m n : ℕ) → m < n → (c : Category) → Shorter m c → Shorter n c
  Shorter-lt m n lt c (inl miss) = inl miss
  Shorter-lt m n lt c (inr less) = inr (omega (arith, lt, less))

  Shorter-NoLonger : (m n : ℕ) → m < n → (c : Category) → NoLonger m c → Shorter n c
  Shorter-NoLonger m n lt c (inl miss) = inl miss
  Shorter-NoLonger m n lt c (inr less) = inr (omega (arith, lt, less))

  outdone :
      (seen : List Category) (best : Option Best) (n : ℕ)
      → Kept seen best
      → is_longer n best ≡ true
      → All (Shorter n) seen
  outdone seen none n h longer = All-imp _ _ (λ d miss. inl miss) seen h
  outdone seen (some best) n (l, e) longer =
      let m = length (wanted to_lower l.chosen) in
      let lt : m < n = omega (arith, ltb→lt best.len n longer, e) in
      rw l.split (
        All-append _ l.before (l.chosen ∷ l.after)
          (All-imp _ _ (Shorter-lt m n lt) l.before l.shorter)
          (inr lt, All-imp _ _ (Shorter-NoLonger m n lt) l.after l.no_longer))

  Kept-miss :
      (seen : List Category) (best : Option Best) (c : Category)
      → Kept seen best
      → (is_hit to_lower hay c && is_longer (length (wanted to_lower c)) best) ≡ false
      → Kept (seen ++ c ∷ []) best
  Kept-miss seen none c h miss = All-append _ seen (c ∷ []) h (ground (arith, miss), tt)
  Kept-miss seen (some best) c (l, e) miss = (
    record {
      before = l.before;
      chosen = l.chosen;
      after = l.after ++ c ∷ [];
      split = ap (λ cs. cs ++ c ∷ []) l.split ∙ append_assoc l.before (l.chosen ∷ l.after) (c ∷ []);
      id_eq = l.id_eq;
      hit = l.hit;
      shorter = l.shorter;
      no_longer =
          All-append _ l.after (c ∷ []) l.no_longer
            (miss-NoLonger (length (wanted to_lower l.chosen)) best c e miss, tt);
    },
    e,
  )

  Kept-hit :
      (seen : List Category) (best : Option Best) (c : Category)
      → Kept seen best
      → is_hit to_lower hay c ≡ true
      → is_longer (length (wanted to_lower c)) best ≡ true
      → Kept (seen ++ c ∷ []) (some (record { id = c.id; len = length (wanted to_lower c) }))
  Kept-hit seen best c h hit longer = (
    record {
      before = seen;
      chosen = c;
      after = [];
      split = refl;
      id_eq = refl;
      hit = hit;
      shorter = outdone seen best (length (wanted to_lower c)) h longer;
      no_longer = tt;
    },
    refl,
  )

  Kept-best_from :
      (cs seen : List Category) (best : Option Best)
      → Kept seen best
      → Kept (seen ++ cs) (best_from to_lower hay best cs)
  unfolding best_from
  Kept-best_from [] seen best h = rw append-nil h
  Kept-best_from (c ∷ cs) seen best h =
      let here = is_hit to_lower hay c && is_longer (length (wanted to_lower c)) best in
      rw (sym (append_assoc seen (c ∷ []) cs)) (elim (Bool-cases here) [
        | inl better ↦ rw better (
            Kept-best_from cs (seen ++ c ∷ []) _
              (Kept-hit seen best c h (ground (arith, better)) (ground (arith, better))))
        | inr worse ↦
            rw worse (Kept-best_from cs (seen ++ c ∷ []) best (Kept-miss seen best c h worse))
      ])

Kept-Chosen :
    (to_lower : Text → Text) (hay : Text) (cs : List Category) (best : Option Best)
    → Kept to_lower hay cs best
    → Chosen to_lower hay cs (id_of best)
Kept-Chosen to_lower hay cs none h = h
Kept-Chosen to_lower hay cs (some best) (l, e) = l

-- A description that is not empty gets the first of the categories with the longest name, among those
-- that are active and whose name, trimmed and in lower case, is not empty and stands in it as a whole
-- word; it gets none exactly where there is no such category.
pub match_category-Chosen :
    (to_lower : Text → Text) (description : Text) (categories : List Category)
    → is_empty description ≡ false
    → Chosen to_lower
        (padded to_lower description)
        categories
        (match_category to_lower description categories)
unfolding match_category
match_category-Chosen to_lower description categories h = rw h (
    Kept-Chosen to_lower (padded to_lower description) categories _
      (Kept-best_from to_lower (padded to_lower description) categories [] none tt))
