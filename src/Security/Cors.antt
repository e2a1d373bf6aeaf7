-- ===== src/Security/Cors.antt =====
-- user-order-api/internal/platform/security/cors.go: the headers that a request from another origin is given.
use codex_go_web_api.Prelude.{
  Bool, true, false, not, ◌&&◌, ◌||◌, List, [], ◌∷◌, ◌==◌, text_eq, Text, codes, is_empty,
  if◌then◌else◌,
}

-- What the middleware has set before the next handler runs or the answer is sent.
pub record Headers : Type 0 where
  pub allow_origin : Text
  pub allow_credentials : Bool
  pub vary_origin : Bool

pub data Reply : Type 0 where
  -- 204 with the allowed methods and headers
  preflight : Headers → Reply
  -- the next handler's answer
  passes : Headers → Reply

abbrev pub is_allowed : Text → List Text → Bool
is_allowed origin [] = false
is_allowed origin (o ∷ origins) = o == origin || is_allowed origin origins

abbrev pub no_headers : Headers
no_headers = record { allow_origin = []; allow_credentials = false; vary_origin = false }

abbrev pub headers_for : Text → Headers
headers_for origin = record { allow_origin = origin; allow_credentials = true; vary_origin = true }

-- `origin` and `request_method` are the headers Origin and Access-Control-Request-Method.
unfoldable pub cors_middleware : List Text → Text → Text → Text → Reply
cors_middleware origins origin method request_method =
    if is_allowed origin origins
    then (if method == codes "OPTIONS" && not (is_empty request_method)
        then preflight (headers_for origin)
        else passes (headers_for origin))
    else passes no_headers
