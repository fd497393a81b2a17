-- ===== src/Api/Error.antt =====
-- crates/api/src/error.rs: what a handler refuses with. The text of a `Uuid` is the crate uuid's.
use stellartrace.Prelude.{String, [], ◌∷◌}
use stellartrace.Prelude.Text.{format}
use stellartrace.Platform.{Uuid}
use stellartrace.Common.{debug_status}
use stellartrace.Alerts.{AlertError, not_found as alert_not_found, invalid_transition}

pub data StatusCode : Type 0 where
  not_found_404 bad_request_400 forbidden_403 internal_500 unauthorized_401 : StatusCode

pub record ApiError : Type 0 where
  pub status : StatusCode
  pub message : String

abbrev pub not_found : String → ApiError
not_found msg = record { status = not_found_404; message = msg }

abbrev pub bad_request : String → ApiError
bad_request msg = record { status = bad_request_400; message = msg }

abbrev pub forbidden : String → ApiError
forbidden msg = record { status = forbidden_403; message = msg }

abbrev pub internal : String → ApiError
internal msg = record { status = internal_500; message = msg }

-- `impl Display for Uuid`
pub record UuidText : Type 0 where
  pub display : Uuid → String

abbrev pub alert_missing : ⦃text : UuidText⦄ → Uuid → ApiError
alert_missing ⦃text⦄ alert_id =
    not_found (format ("alert not found: " ∷ text.display alert_id ∷ []))

-- `impl From<AlertError> for ApiError`
abbrev pub from_alert_error : ⦃text : UuidText⦄ → AlertError → ApiError
from_alert_error (alert_not_found alert_id) = alert_missing alert_id
from_alert_error (invalid_transition from to) =
    bad_request (
      format
        ("invalid status transition from " ∷ debug_status from ∷ " to " ∷ debug_status to ∷ []))
