-- ===== src/ApiClient/Outcome.antt =====
-- web/src/api/client.ts: the errors of a request. `fetch` is an argument: a response with its body, or
-- what it was rejected with. The text of a status code in decimal is a parameter.
use spen_drop.Base.{
  ℕ, Bool, false, not, ◌&&◌, ◌||◌, String, str_eq, Option, none, some, ◌==◌, leb, if◌then◌else◌,
}

pub data NetworkErrorKind : Type 0 where
  offline timeout unreachable : NetworkErrorKind

-- What `fetch` is rejected with: a `NetworkError`, an error with its name, or anything else.
pub data Cause : Type 0 where
  network : (kind : NetworkErrorKind) → Cause
  named : (name : String) → Cause
  unnamed : Cause

-- A body: a JSON value, of whatever type the caller casts it to, or no JSON at all.
pub data Body {ℓ} (T : Type ℓ) : Type ℓ where
  json : (value : T) → Body T
  no_json : Body T

pub record Response {ℓ} (T : Type ℓ) : Type ℓ where
  pub status : ℕ
  pub body : Body T

pub data Fetched {ℓ} (T : Type ℓ) : Type ℓ where
  answered : (response : Response T) → Fetched T
  rejected : (is_offline : Bool) (cause : Cause) → Fetched T

-- `returned none` is `undefined`; `malformed` is the `SyntaxError` of a body that is no JSON.
pub data Outcome {ℓ} (T : Type ℓ) : Type ℓ where
  returned : (value : Option T) → Outcome T
  api_error : (message : String) (status : ℕ) → Outcome T
  network_error : (kind : NetworkErrorKind) → Outcome T
  malformed : Outcome T

unfoldable pub is_abort : Cause → Bool
is_abort (network kind) = false
is_abort (named name) = str_eq name "AbortError" || str_eq name "TimeoutError"
is_abort unnamed = false

unfoldable pub to_network_error : Bool → Cause → NetworkErrorKind
unfolding is_abort
to_network_error is_offline (network kind) = kind
to_network_error is_offline (named name) =
    if is_abort (named name) then timeout else if is_offline then offline else unreachable
to_network_error is_offline unnamed = if is_offline then offline else unreachable

-- `response.ok`
abbrev pub is_ok : ℕ → Bool
is_ok status = leb 200 status && leb status 299

-- `text || fallback`, where `text` may be absent
abbrev pub or_text : Option String → String → String
or_text none fallback = fallback
or_text (some s) fallback = if str_eq s "" then fallback else s

-- `http n` is the text `HTTP n`; the keys read a JSON value that may not have them.
module _ {ℓ} {T : Type ℓ} (http : ℕ → String) (error_key message_key : T → Option String) where
  -- the message of `apiErrorFrom`
  unfoldable pub error_text : Response T → String
  error_text r = elim r.body [
    | json value ↦ or_text (error_key value) (or_text (message_key value) (http r.status))
    | no_json ↦ http r.status
  ]

  abbrev pub parsed : Body T → Outcome T
  parsed (json value) = returned (some value)
  parsed no_json = malformed

  unfoldable pub request : Fetched T → Outcome T
  unfolding to_network_error error_text
  request (rejected is_offline cause) = network_error (to_network_error is_offline cause)
  request (answered r) =
      if r.status == 401
      then api_error "Unauthorized" 401
      else if not (is_ok r.status)
      then api_error (error_text r) r.status
      else if r.status == 204
      then returned none
      else parsed r.body
