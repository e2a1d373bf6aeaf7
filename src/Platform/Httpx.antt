-- ===== src/Platform/Httpx.antt =====
-- user-order-api/internal/platform/httpx: the application errors. `Err` is kept as a marker that a cause is wrapped,
-- since the response shows only status, code and message.
use codex_go_web_api.Prelude.{ℕ, String, Bool, true, false}

pub record AppError : Type 0 where
  pub status : ℕ
  pub code : String
  pub message : String
  pub wraps : Bool

abbrev plain : ℕ → String → String → AppError
plain status code message = record {
  status = status;
  code = code;
  message = message;
  wraps = false;
}

abbrev pub bad_request_code : String → String → AppError
bad_request_code = plain 400

abbrev pub bad_request : String → AppError
bad_request = bad_request_code "INVALID_REQUEST"

abbrev pub unauthorized_code : String → String → AppError
unauthorized_code = plain 401

abbrev pub forbidden_code : String → String → AppError
forbidden_code = plain 403

abbrev pub not_found_code : String → String → AppError
not_found_code = plain 404

abbrev pub method_not_allowed : AppError
method_not_allowed = plain 405 "METHOD_NOT_ALLOWED" "method not allowed"

abbrev pub conflict_code : String → String → AppError
conflict_code = plain 409

abbrev pub too_many_requests_code : String → String → AppError
too_many_requests_code = plain 429

abbrev pub service_unavailable_code : String → String → AppError
service_unavailable_code = plain 503

abbrev pub internal : String → AppError
internal message = record { status = 500; code = "INTERNAL_ERROR"; message = message; wraps = true }
