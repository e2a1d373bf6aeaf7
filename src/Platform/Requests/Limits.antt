-- ===== src/Platform/Requests/Limits.antt =====
-- What the repositories get from a page request that parses.
use codex_go_web_api.Prelude.{
  ℕ, String, ◌≤◌, ◌≡◌, refl, Option, none, some, [], ◌∷◌, arith, Text, ℤ, pos, negsuc,
}
use codex_go_web_api.Prelude.Decimal.{parse_int}
use codex_go_web_api.Prelude.Outcome.{Result, ok, err}
use codex_go_web_api.Platform.Httpx.{AppError}
use codex_go_web_api.Platform.Page.{Request}
use codex_go_web_api.Platform.Requests.{
  in_limits, positive, parse_page_request, value_or, with_limit,
}

limit-bounds :
    (message : String) (raw : Text) (parsed : Option ℤ) (n : ℕ)
    → value_or message 20 raw (in_limits (positive parsed)) ≡ ok n
    → (1 ≤ n) × (n ≤ 100)
limit-bounds message [] parsed n h = ground arith
limit-bounds message (c ∷ raw) none n h = cc
limit-bounds message (c ∷ raw) (some (negsuc m)) n h = cc
limit-bounds message (c ∷ raw) (some (pos m)) n h = ground arith

with_limit-bounds :
    (limit cursor : Result AppError ℕ) (request : Request)
    → ((n : ℕ) → limit ≡ ok n → (1 ≤ n) × (n ≤ 100))
    → with_limit limit cursor ≡ ok request
    → (1 ≤ request.limit) × (request.limit ≤ 100)
with_limit-bounds (err e) cursor request f h = cc
with_limit-bounds (ok n) (err e) request f h = cc
with_limit-bounds (ok n) (ok c) request f h = ground (arith, f n refl)

-- A page request that is accepted has a limit from 1 to 100.
pub parse_page_request-bounds :
    (raw_limit raw_after_id : Text) (request : Request)
    → parse_page_request raw_limit raw_after_id ≡ ok request
    → (1 ≤ request.limit) × (request.limit ≤ 100)
unfolding parse_page_request
parse_page_request-bounds raw_limit raw_after_id request h =
    with_limit-bounds _ _ request (limit-bounds _ raw_limit (parse_int raw_limit)) h
