-- ===== src/ApiClient/Tests.antt =====
-- Requests and confirms on concrete answers. The JSON value here is an error's text, or nothing.
use spen_drop.Base.{ℕ, ◌≡◌, String, [], Option, none, some, if◌then◌else◌, true, false, refl}
use spen_drop.ApiClient.Outcome.{json, Response}
use spen_drop.ApiClient.Confirm.{ConfirmFetched, replied, json_body, confirm_import}
use spen_drop.ApiClient.Confirmed.{
  shown_after, is_imported, banner, confirm_settled, confirm_settled-shown,
}
use spen_drop.ImportSession.Wire.{ImportPreview}
use spen_drop.ImportSession.Machine.{Session, preview, done}
use spen_drop.ImportSession.Events.{mounted}

abbrev http : ℕ → String
http n = "HTTP"

abbrev error_key : Option String → Option String
error_key e = e

abbrev no_key : Option String → Option String
no_key e = none

abbrev broken : Response (Option String)
broken = record { status = 503; body = json (some "database is locked") }

abbrev conflicting : ConfirmFetched
conflicting = replied 409 (
    json_body (record {
      code = some "MONEY_ERRORS";
      collision_groups = none;
      field_errors = some [];
      unresolved_categories_list = none;
      error = none;
      cast = record { imported = 0; skipped = 0; total = 0 };
    }))

abbrev sheet : ImportPreview
sheet = record {
  import_id = "a";
  row_count = 0;
  rows = [];
  columns = [];
  unique_categories = [];
  collision_groups = [];
  field_errors = [];
  unresolved_categories = [];
}

abbrev reviewing : Session
reviewing = record (mounted (some "a") false true) { shown = some sheet; import_step = preview }

confirm_settled-shown_example :
    let t = confirm_settled (confirm_import http "syntax" conflicting) reviewing in
    (t.shown ≡ some (shown_after conflicting sheet))
    × (t.import_step ≡ (if is_imported conflicting then done else preview))
    × (t.error ≡ banner http "syntax" conflicting none)
    × (t.lane ≡ [])
confirm_settled-shown_example = confirm_settled-shown http "syntax" conflicting reviewing sheet refl
