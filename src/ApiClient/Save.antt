-- ===== src/ApiClient/Save.antt =====
-- web/src/lib/save-failure.ts: how a failed save is told.
use spen_drop.Base.{Bool, true, false, String, str_eq, leb, if◌then◌else◌}
use spen_drop.ApiClient.Outcome.{Outcome, returned, api_error, network_error, malformed}

abbrev pub unknown_outcome : String
unknown_outcome = "Couldn’t confirm the save — Retry won’t create a duplicate."

module _ {ℓ} {T : Type ℓ} where
  -- for the outcomes that throw; a save that returned has no message
  unfoldable pub save_failure_message : Outcome T → String
  save_failure_message (returned value) = ""
  save_failure_message (api_error message status) =
      if str_eq message "" then "Failed to save transaction" else message
  save_failure_message (network_error kind) = unknown_outcome
  save_failure_message malformed = unknown_outcome

  unfoldable pub is_retryable_save_failure : Outcome T → Bool
  is_retryable_save_failure (returned value) = false
  is_retryable_save_failure (api_error message status) = leb 500 status
  is_retryable_save_failure (network_error kind) = true
  is_retryable_save_failure malformed = true
