-- ===== src/ApiClient/Known.antt =====
-- web/src/api/client.ts: an `ApiError` is a refusal by the server, and nothing else is.
use spen_drop.Base.{
  ℕ, ◌≡◌, refl, sym, ap, ◌∙◌, inl, inr, ◌↔◌, Bool, true, false, String, Option, none, ◌==◌, leb,
  if◌then◌else◌, arith, ==_iff, Bool-cases,
}
use spen_drop.ApiClient.Outcome.{
  Body, json, no_json, Response, Cause, Fetched, answered, rejected, Outcome, returned, api_error,
  network_error, malformed, is_ok, error_text, to_network_error, parsed, request,
}
use spen_drop.ApiClient.Save.{is_retryable_save_failure}

-- The outcome says that the server refused with the status.
abbrev pub IsRefusal {ℓ} : {T : Type ℓ} → ℕ → Outcome T → Type 0
IsRefusal status (returned value) = ⊥
IsRefusal status (api_error message code) = code ≡ status
IsRefusal status (network_error kind) = ⊥
IsRefusal status malformed = ⊥

abbrev pub IsUnanswered {ℓ} : {T : Type ℓ} → Outcome T → Type 0
IsUnanswered (returned value) = ⊥
IsUnanswered (api_error message code) = ⊥
IsUnanswered (network_error kind) = Unit
IsUnanswered malformed = ⊥

-- The answer that a refusal with the status comes from.
abbrev pub IsRefused {ℓ} : {T : Type ℓ} → ℕ → Fetched T → Type 0
IsRefused status (answered r) = (r.status ≡ status) × (is_ok status ≡ false)
IsRefused status (rejected is_offline cause) = ⊥

abbrev pub IsRejected {ℓ} : {T : Type ℓ} → Fetched T → Type 0
IsRejected (answered r) = ⊥
IsRejected (rejected is_offline cause) = Unit

never : true ≡ false → ⊥
never e = absurd (ground arith)

module _ {ℓ} {T : Type ℓ} (http : ℕ → String) (error_key message_key : T → Option String) where
  -- what an accepting response comes to
  abbrev received : Response T → Outcome T
  received r = if r.status == 204 then returned none else parsed http error_key message_key r.body

  parsed-none :
      (status : ℕ) (b : Body T)
      → (IsRefusal status (parsed http error_key message_key b) → ⊥)
        × (IsUnanswered (parsed http error_key message_key b) → ⊥)
  parsed-none status (json value) = ((λ h. h), (λ h. h))
  parsed-none status no_json = ((λ h. h), (λ h. h))

  received-none :
      (status : ℕ) (r : Response T)
      → (IsRefusal status (received r) → ⊥) × (IsUnanswered (received r) → ⊥)
  received-none status r = elim (Bool-cases (r.status == 204)) [
    | inl e ↦ rw e ((λ h. h), (λ h. h))
    | inr e ↦ rw e (parsed-none status r.body)
  ]

  request-rejected :
      (is_offline : Bool) (cause : Cause)
      → request http error_key message_key (rejected is_offline cause)
        ≡ network_error (to_network_error is_offline cause)
  unfolding request
  request-rejected is_offline cause = refl

  request-ok :
      (r : Response T)
      → is_ok r.status ≡ true
      → request http error_key message_key (answered r) ≡ received r
  unfolding request
  request-ok r h = ground (arith, h)

  refusal_text : Response T → String
  refusal_text r =
      if r.status == 401 then "Unauthorized" else error_text http error_key message_key r

  request-not_ok :
      (r : Response T)
      → is_ok r.status ≡ false
      → request http error_key message_key (answered r) ≡ api_error (refusal_text r) r.status
  unfolding request refusal_text
  request-not_ok r h = elim (Bool-cases (r.status == 401)) [
    | inl e ↦ rw e (ap (api_error "Unauthorized") (sym ((==_iff r.status 401).0 e)))
    | inr e ↦ rw e (rw h refl)
  ]

  -- An outcome is an `ApiError` with a status exactly where the server answered with that status and it
  -- is no success, and a `NetworkError` exactly where `fetch` brought no answer.
  pub request-IsRefusal :
      (f : Fetched T) (status : ℕ)
      → (IsRefusal status (request http error_key message_key f) ↔ IsRefused status f)
        × (IsUnanswered (request http error_key message_key f) ↔ IsRejected f)
  request-IsRefusal (rejected is_offline cause) status =
      rw (request-rejected is_offline cause) (((λ h. h), (λ h. h)), ((λ h. h), (λ h. h)))
  request-IsRefusal (answered r) status = elim (Bool-cases (is_ok r.status)) [
    | inl ok ↦
        let (no_refusal, no_silence) = received-none status r in
        rw (request-ok r ok) (
          ((λ h. absurd (no_refusal h)), λ h. absurd (never (sym ok ∙ ap is_ok h.0 ∙ h.1))),
          ((λ h. absurd (no_silence h)), λ h. absurd h),
        )
    | inr refused ↦
        rw (request-not_ok r refused)
          (((λ h. (h, ap is_ok (sym h) ∙ refused)), λ h. h.0), ((λ h. absurd h), λ h. absurd h))
  ]

  -- Trying again is offered for every request that was not answered, and for a refused one exactly
  -- from status 500 on.
  pub is_retryable_save_failure-request :
      (r : Response T) (is_offline : Bool) (cause : Cause)
      → (is_retryable_save_failure (request http error_key message_key (rejected is_offline cause))
          ≡ true)
        × (is_ok r.status ≡ false
            → is_retryable_save_failure (request http error_key message_key (answered r))
              ≡ leb 500 r.status)
  unfolding is_retryable_save_failure
  is_retryable_save_failure-request r is_offline cause =
      (rw (request-rejected is_offline cause) refl, λ h. rw (request-not_ok r h) refl)
