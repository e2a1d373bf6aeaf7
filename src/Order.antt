-- ===== src/Order.antt =====
-- user-order-api/internal/order/model.go. Times are nanoseconds since Go's zero time; an ID is a positive int64, so
-- IDs that were handed out are numbers, and those that a request names are integers.
pub mod Memory
pub mod Service
pub mod Handler
pub mod Mysql
use codex_go_web_api.Prelude.{ℕ, ◌≡◌, Bool, true, false, ◌↔◌, arith, Eq, Text, ℤ, pos}

pub data Status : Type 0 where
  pending paid cancelled : Status
  -- the empty string, Go's zero value
  unset : Status

abbrev pub status_beq : Status → Status → Bool
status_beq pending pending = true
status_beq paid paid = true
status_beq cancelled cancelled = true
status_beq unset unset = true
status_beq _ _ = false

pub status_beq_iff : (a b : Status) → (status_beq a b ≡ true) ↔ (a ≡ b)
status_beq_iff pending _ = ground arith
status_beq_iff paid _ = ground arith
status_beq_iff cancelled _ = ground arith
status_beq_iff unset _ = ground arith

instance abbrev pub status_eq : Eq Status
status_eq = record { beq = status_beq; beq_iff = status_beq_iff }

pub record Order : Type 0 where
  pub id : ℕ
  pub user_id : ℤ
  pub amount : ℤ
  pub status : Status
  pub created_at : ℕ

pub record CreateOrderRequest : Type 0 where
  pub user_id : ℤ
  pub amount : ℤ
  pub idempotency_key : Text
  pub idempotency_key_provided : Bool

-- `Order{}`
abbrev pub zero_order : Order
zero_order = record { id = 0; user_id = pos 0; amount = pos 0; status = unset; created_at = 0 }

-- Errors of the order repositories; `failed` is an error of the driver that is wrapped, and
-- `context_done` the error of a cancelled context.
pub data RepoError : Type 0 where
  not_found idempotency_conflict invalid_state user_not_found context_done failed : RepoError
