-- ===== src/ApiClient/Confirmed.antt =====
-- web/src/api/import.ts and web/src/hooks/useImportSession.ts: what the server's answer to a confirm does to
-- the session that is on screen.
use spen_drop.Base.{
  ℕ, ◌≡◌, refl, sym, ap, ◌∙◌, inl, inr, ◌⊎◌, Bool, false, String, str_eq, str_eq_iff, Option, none,
  some, map_option, ◌==◌, if◌then◌else◌, ◌||◌, ==_iff, Bool-cases,
}
use spen_drop.ImportSession.Wire.{ImportPreview, ImportResult}
use spen_drop.ImportSession.Machine.{
  Session, Refusal, done, drop_id, refused_preview, refused_text, confirm_accepted, confirm_refused,
}
use spen_drop.ApiClient.Outcome.{is_ok, or_text}
use spen_drop.ApiClient.Confirm.{
  ConfirmReply, ConfirmFetched, replied, unreached, json_body, unreadable, list_or_empty, conflict,
  confirm_import,
}

-- `confirmImport` of the hook, from the call of the API client on
unfoldable pub confirm_settled : ImportResult ⊎ Refusal → Session → Session
unfolding confirm_accepted confirm_refused
confirm_settled (inl result) s = confirm_accepted result s
confirm_settled (inr refusal) s = confirm_refused refusal s

-- whether a code is a given one
abbrev pub is_code : Option String → String → Bool
is_code o code = elim o [ none ↦ false | some c ↦ str_eq c code ]

-- the lists of a preview that a 409 replaces by its body's, each by its own code
abbrev pub with_slice : ConfirmReply → ImportPreview → ImportPreview
with_slice b p = record p {
  collision_groups =
      if is_code b.code "UNRESOLVED_COLLISIONS"
      then list_or_empty b.collision_groups
      else p.collision_groups;
  unresolved_categories =
      if is_code b.code "UNRESOLVED_CATEGORIES"
      then list_or_empty b.unresolved_categories_list
      else p.unresolved_categories;
  field_errors =
      if is_code b.code "FIELD_TOO_LONG" || is_code b.code "MONEY_ERRORS"
      then list_or_empty b.field_errors
      else p.field_errors;
}

-- the preview after an answer, and whether the session has been imported
abbrev pub shown_after : ConfirmFetched → ImportPreview → ImportPreview
shown_after (unreached message) p = p
shown_after (replied status unreadable) p = p
shown_after (replied status (json_body b)) p = if status == 409 then with_slice b p else p

abbrev pub is_imported : ConfirmFetched → Bool
is_imported (unreached message) = false
is_imported (replied status unreadable) = false
is_imported (replied status (json_body b)) = is_ok status

-- the banner of a 409: the remedy for its code, or else the server's own words
abbrev pub remedy : Option String → String → String
remedy none words = words
remedy (some code) words =
    if str_eq code "UNRESOLVED_COLLISIONS"
    then "Unresolved collisions — please fix or skip the highlighted rows"
    else if str_eq code "UNRESOLVED_CATEGORIES"
    then "Some categories have no destination — choose one for each, or skip those rows"
    else if str_eq code "FIELD_TOO_LONG"
    then "Some rows are too long — please shorten or skip the highlighted rows"
    else if str_eq code "MONEY_ERRORS"
    then "Some rows have money SpenDrop cannot resolve — fix or skip the highlighted rows"
    else words

-- One of the four codes, or none of them.
CodeCases : Option String → Type 0
CodeCases o =
    (o ≡ some "UNRESOLVED_COLLISIONS")
    ⊎ ((o ≡ some "UNRESOLVED_CATEGORIES")
        ⊎ ((o ≡ some "FIELD_TOO_LONG")
            ⊎ ((o ≡ some "MONEY_ERRORS")
                ⊎ ((is_code o "UNRESOLVED_COLLISIONS" ≡ false)
                    × (is_code o "UNRESOLVED_CATEGORIES" ≡ false)
                    × (is_code o "FIELD_TOO_LONG" ≡ false)
                    × (is_code o "MONEY_ERRORS" ≡ false)))))

code_cases : (o : Option String) → CodeCases o
unfolding CodeCases
code_cases none = inr (inr (inr (inr (refl, refl, refl, refl))))
code_cases (some c) = elim (Bool-cases (str_eq c "UNRESOLVED_COLLISIONS")) [
  | inl e ↦ inl (ap some ((str_eq_iff c _).0 e))
  | inr n1 ↦ elim (Bool-cases (str_eq c "UNRESOLVED_CATEGORIES")) [
    | inl e ↦ inr (inl (ap some ((str_eq_iff c _).0 e)))
    | inr n2 ↦ elim (Bool-cases (str_eq c "FIELD_TOO_LONG")) [
      | inl e ↦ inr (inr (inl (ap some ((str_eq_iff c _).0 e))))
      | inr n3 ↦ elim (Bool-cases (str_eq c "MONEY_ERRORS")) [
        | inl e ↦ inr (inr (inr (inl (ap some ((str_eq_iff c _).0 e)))))
        | inr n4 ↦ inr (inr (inr (inr (n1, n2, n3, n4))))
      ]
    ]
  ]
]

remedy-words :
    (o : Option String) (words : String)
    → is_code o "UNRESOLVED_COLLISIONS" ≡ false
    → is_code o "UNRESOLVED_CATEGORIES" ≡ false
    → is_code o "FIELD_TOO_LONG" ≡ false
    → is_code o "MONEY_ERRORS" ≡ false
    → remedy o words ≡ words
remedy-words none words a b c d = refl
remedy-words (some code) words a b c d = rw (a, b, c, d) refl

conflict-refused :
    (b : ConfirmReply) (p : ImportPreview)
    → (refused_preview (conflict b) p ≡ with_slice b p)
      × (refused_text (conflict b) ≡ remedy b.code (or_text b.error "HTTP 409"))
unfolding conflict refused_preview refused_text CodeCases
conflict-refused b p = elim (code_cases b.code) [
  | inl e ↦ rw e (refl, refl)
  | inr (inl e) ↦ rw e (refl, refl)
  | inr (inr (inl e)) ↦ rw e (refl, refl)
  | inr (inr (inr (inl e))) ↦ rw e (refl, refl)
  | inr (inr (inr (inr (n1, n2, n3, n4)))) ↦
      rw (n1, n2, n3, n4) (refl, sym (remedy-words b.code _ n1 n2 n3 n4))
]

module _ (http : ℕ → String) (syntax : String) where
  -- the banner after an answer, which an import leaves as it was
  abbrev pub banner : ConfirmFetched → Option String → Option String
  banner (unreached message) shown = some message
  banner (replied status unreadable) shown =
      some (if status == 409 then "HTTP 409" else if is_ok status then syntax else http status)
  banner (replied status (json_body b)) shown =
      if status == 409
      then some (remedy b.code (or_text b.error "HTTP 409"))
      else if is_ok status
      then shown
      else some (or_text b.error (http status))

  -- Only a readable success ends the session, and only a 409 with one of the four codes changes the
  -- preview on screen: its code's list, collisions, categories or field errors, becomes that of the
  -- answer, and the banner names that code's remedy. The rows and the edits in the lane stay in any
  -- case; after every other failure the banner says what the server or the browser said.
  pub confirm_settled-shown :
      (f : ConfirmFetched) (s : Session) (p : ImportPreview)
      → s.shown ≡ some p
      → let t = confirm_settled (confirm_import http syntax f) s in
        (t.shown ≡ some (shown_after f p))
        × (t.import_step ≡ (if is_imported f then done else s.import_step))
        × (t.error ≡ banner f s.error)
        × (t.lane ≡ s.lane)
  unfolding confirm_settled confirm_import confirm_accepted confirm_refused refused_preview
      refused_text drop_id
  confirm_settled-shown (unreached message) s p e = (ap (map_option (λ q. q)) e, refl, refl, refl)
  confirm_settled-shown (replied status unreadable) s p e = elim (Bool-cases (status == 409)) [
    | inl c ↦ rw c (ap (map_option (λ q. q)) e, refl, refl, refl)
    | inr n ↦ elim (Bool-cases (is_ok status)) [
      | inl c ↦ rw (n, c) (ap (map_option (λ q. q)) e, refl, refl, refl)
      | inr o ↦ rw (n, o) (ap (map_option (λ q. q)) e, refl, refl, refl)
    ]
  ]
  confirm_settled-shown (replied status (json_body b)) s p e = elim (Bool-cases (status == 409)) [
    | inl c ↦
        let conflicting : status ≡ 409 = (==_iff status 409).0 c in
        let (kept, told) = conflict-refused b p in
        rw conflicting (
          ap (map_option (refused_preview (conflict b))) e ∙ ap some kept,
          refl,
          ap some told,
          refl,
        )
    | inr n ↦ elim (Bool-cases (is_ok status)) [
      | inl c ↦ rw (n, c) (e, refl, refl, refl)
      | inr o ↦ rw (n, o) (ap (map_option (λ q. q)) e, refl, refl, refl)
    ]
  ]
