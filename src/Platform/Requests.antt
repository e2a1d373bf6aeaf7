-- ===== src/Platform/Requests.antt =====
-- user-order-api/internal/platform/httpx: reading an ID from a path and a page request from a query, and the pieces
-- of a path that the handlers look at.
pub mod Limits
use codex_go_web_api.Prelude.{
  ℕ, String, Bool, true, false, ◌&&◌, ◌||◌, Option, none, some, List, [], ◌∷◌, length, take, drop,
  ltb, leb, if◌then◌else◌, Text, text_beq, is_empty, nat_beq, ℤ, pos, negsuc,
}
use codex_go_web_api.Prelude.Decimal.{parse_int}
use codex_go_web_api.Prelude.Outcome.{Result, ok, err}
use codex_go_web_api.Platform.Httpx.{AppError, bad_request}
use codex_go_web_api.Platform.Page.{Request}

-- `strings.TrimPrefix`
abbrev pub trim_prefix : Text → Text → Text
trim_prefix s prefix =
    if text_beq (take (length prefix) s) prefix then drop (length prefix) s else s

trim_left_slashes : Text → Text
trim_left_slashes [] = []
trim_left_slashes (c ∷ s) = let rest = trim_left_slashes s in if nat_beq c b'/' then rest else c ∷ s

trim_right_slashes : Text → Text
trim_right_slashes [] = []
trim_right_slashes (c ∷ s) =
    let rest = trim_right_slashes s in if nat_beq c b'/' && is_empty rest then [] else c ∷ rest

-- `strings.Trim(s, "/")`
unfoldable pub trim_slashes : Text → Text
unfolding trim_left_slashes trim_right_slashes
trim_slashes s = trim_right_slashes (trim_left_slashes s)

abbrev push : ℕ → List Text → List Text
push c [] = (c ∷ []) ∷ []
push c (part ∷ parts) = (c ∷ part) ∷ parts

-- `strings.Split(s, "/")`
unfoldable pub split_slash : Text → List Text
split_slash [] = [] ∷ []
split_slash (c ∷ s) = let rest = split_slash s in if nat_beq c b'/' then [] ∷ rest else push c rest

-- A parsed int64 that is positive.
abbrev pub positive : Option ℤ → Option ℕ
positive none = none
positive (some (negsuc n)) = none
positive (some (pos n)) = if ltb 0 n then some n else none

abbrev id_or_error : Option ℕ → Result AppError ℕ
id_or_error none = err (bad_request "invalid id")
id_or_error (some id) = ok id

-- `PathID`
unfoldable pub path_id : Text → Text → Result AppError ℕ
path_id path prefix =
    let raw = trim_slashes (trim_prefix path prefix) in
    if is_empty raw then err (bad_request "missing id") else id_or_error (positive (parse_int raw))

abbrev in_limits : Option ℕ → Option ℕ
in_limits none = none
in_limits (some n) = if leb n 100 then some n else none

-- An empty text leaves the default, and one that does not parse is an error.
abbrev value_or : String → ℕ → Text → Option ℕ → Result AppError ℕ
value_or message default raw parsed =
    if is_empty raw
    then ok default
    else elim parsed [ none ↦ err (bad_request message) | some n ↦ ok n ]

abbrev with_cursor : ℕ → Result AppError ℕ → Result AppError Request
with_cursor limit (err e) = err e
with_cursor limit (ok after_id) = ok (record { limit = limit; after_id = after_id })

abbrev with_limit : Result AppError ℕ → Result AppError ℕ → Result AppError Request
with_limit (err e) cursor = err e
with_limit (ok limit) cursor = with_cursor limit cursor

-- `ParsePageRequest` on the query's `limit` and `afterId`.
unfoldable pub parse_page_request : Text → Text → Result AppError Request
parse_page_request raw_limit raw_after_id =
    with_limit
      (value_or "limit must be between 1 and 100" 20 raw_limit
        (in_limits (positive (parse_int raw_limit))))
      (value_or "afterId must be a positive integer" 0 raw_after_id
        (positive (parse_int raw_after_id)))
