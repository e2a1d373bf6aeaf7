-- ===== src/Order/Handler.antt =====
-- user-order-api/internal/order/handler.go. A request enters as what the handler reads of it: the principal of its
-- context, the method, the path, the query, the decoded body and the header Idempotency-Key.
pub mod Ownership
pub mod Creation
pub mod Pages
use codex_go_web_api.Prelude.{
  ℕ, String, Bool, true, false, not, ◌&&◌, ◌||◌, Option, none, some, List, [], ◌∷◌, ◌++◌,
  if◌then◌else◌, ◌==◌, int_eq, is_some, Text, codes, text_beq, ℤ, pos,
}
use codex_go_web_api.Prelude.Outcome.{Result, ok, err}
use codex_go_web_api.Platform.Httpx.{
  AppError, unauthorized_code, forbidden_code, not_found_code, method_not_allowed,
}
use codex_go_web_api.Platform.Page.{Request, Page, ListError}
use codex_go_web_api.Platform.Principal.{Principal, is_admin}
use codex_go_web_api.Platform.Requests.{
  path_id, parse_page_request, trim_prefix, trim_slashes, split_slash,
}
use codex_go_web_api.Order.{Order, CreateOrderRequest}
use codex_go_web_api.Order.Service.{Repository, FindUserError, State}
use codex_go_web_api.Order.Service

pub data Method : Type 0 where
  get post other_method : Method

pub data Response : Type 0 where
  order_reply : ℕ → Order → Response
  page_reply : Page Order → Response
  error_reply : AppError → Response
  -- 405 with its `Allow` header
  refused_method : String → AppError → Response

pub record HttpRequest : Type 0 where
  pub principal : Option Principal
  pub method : Method
  pub path : Text
  pub limit : Text
  pub after_id : Text
  pub body : Result AppError CreateOrderRequest
  pub idempotency_key : Option Text

abbrev pub unauthenticated : Response
unauthenticated = error_reply (unauthorized_code "UNAUTHENTICATED" "unauthenticated")

abbrev pub forbidden : Response
forbidden = error_reply (forbidden_code "FORBIDDEN" "insufficient permissions")

abbrev pub route_not_found : Response
route_not_found = error_reply (not_found_code "ROUTE_NOT_FOUND" "route not found")

abbrev pub can_access : Principal → ℤ → Bool
can_access p user_id = is_admin p || p.user_id == user_id

abbrev pub key_or_empty : Option Text → Text
key_or_empty none = []
key_or_empty (some k) = k

-- The user of a body without one is the principal, unless that is an admin.
abbrev pub own_user : Principal → CreateOrderRequest → CreateOrderRequest
own_user p input =
    if input.user_id == pos 0 && not (is_admin p)
    then record input { user_id = p.user_id }
    else input

abbrev pub with_key : Option Text → CreateOrderRequest → CreateOrderRequest
with_key key input = record {
  user_id = input.user_id;
  amount = input.amount;
  idempotency_key = key_or_empty key;
  idempotency_key_provided = is_some key;
}

abbrev pub page_or_error : Result AppError (Page Order) → Response
page_or_error (ok page) = page_reply page
page_or_error (err e) = error_reply e

abbrev pub order_or_error : Result AppError Order → Response
order_or_error (ok o) = order_reply 200 o
order_or_error (err e) = error_reply e

abbrev pub created_or_error : Result AppError (Order × Bool) → Response
created_or_error (ok (o, replayed)) = order_reply (if replayed then 200 else 201) o
created_or_error (err e) = error_reply e

-- `strings.Split` gives at least one part.
abbrev pub first_part : List Text → Text
first_part [] = []
first_part (part ∷ parts) = part

pub data Action : Type 0 where
  pay cancel unknown : Action

abbrev pub action_of : Text → Action
action_of part =
    if text_beq part (codes "pay")
    then pay
    else if text_beq part (codes "cancel")
    then cancel
    else unknown

module _ {R : Type 0} (repository : Repository R)
    (find_user : ℤ → Result FindUserError (Unit {0})) where
  unfoldable pub list_orders : Bool → HttpRequest → Principal → State R → State R × Response
  list_orders done q p s = elim (parse_page_request q.limit q.after_id) [
    | err e ↦ (s, error_reply e)
    | ok request ↦ (
      s,
      page_or_error (
          if is_admin p
          then Service.list repository done request s
          else Service.list_by_user_id repository done p.user_id request s),
    )
  ]

  unfoldable pub create_order :
      Bool → ℕ → HttpRequest → Principal → CreateOrderRequest → State R → State R × Response
  create_order done now q p input s =
      if can_access p input.user_id
      then (let (s', result) =
            Service.create repository find_user done (with_key q.idempotency_key input) now s in
          (s', created_or_error result))
      else (s, forbidden)

  -- `Handler.orders`
  unfoldable pub orders : Bool → ℕ → HttpRequest → State R → State R × Response
  unfolding list_orders create_order
  orders done now q s = elim q.principal [
    | none ↦ (s, unauthenticated)
    | some p ↦ elim q.method [
      | get ↦ list_orders done q p s
      | post ↦ elim q.body [
        | err e ↦ (s, error_reply e)
        | ok input ↦ create_order done now q p (own_user p input) s
      ]
      | other_method ↦ (s, refused_method "GET, POST" method_not_allowed)
    ]
  ]

  unfoldable pub show_order : Bool → ℕ → Method → Principal → State R → State R × Response
  show_order done id get p s = elim (Service.find_by_id repository done id s) [
    | err e ↦ (s, error_reply e)
    | ok o ↦ (s, if can_access p o.user_id then order_reply 200 o else forbidden)
  ]
  show_order done id _ p s = (s, refused_method "GET" method_not_allowed)

  unfoldable pub act : Bool → ℕ → Action → State R → State R × Response
  act done id pay s =
      let (s', result) = Service.pay repository done id s in (s', order_or_error result)
  act done id cancel s =
      let (s', result) = Service.cancel repository done id s in (s', order_or_error result)
  act done id unknown s = (s, route_not_found)

  unfoldable pub change_order : Bool → ℕ → Text → Method → Principal → State R → State R × Response
  unfolding act
  change_order done id part post p s = elim (Service.find_by_id repository done id s) [
    | err e ↦ (s, error_reply e)
    | ok existing ↦
        if can_access p existing.user_id then act done id (action_of part) s else (s, forbidden)
  ]
  change_order done id part _ p s = (s, refused_method "POST" method_not_allowed)

  unfoldable pub route_order :
      Bool → ℕ → List Text → Method → Principal → State R → State R × Response
  unfolding show_order change_order
  route_order done id (part ∷ []) method p s = show_order done id method p s
  route_order done id (part ∷ action ∷ []) method p s = change_order done id action method p s
  route_order done id _ method p s = (s, route_not_found)

  -- `Handler.orderByID`
  unfoldable pub order_by_id : Bool → HttpRequest → State R → State R × Response
  unfolding route_order
  order_by_id done q s = elim q.principal [
    | none ↦ (s, unauthenticated)
    | some p ↦
        let parts = split_slash (trim_slashes (trim_prefix q.path (codes "/orders/"))) in
        elim (path_id (codes "/orders/" ++ first_part parts) (codes "/orders/")) [
          | err e ↦ (s, error_reply e)
          | ok id ↦ route_order done id parts q.method p s
        ]
  ]
