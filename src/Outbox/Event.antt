-- ===== src/Outbox/Event.antt =====
-- user-order-api/internal/platform/outbox/event.go: events and their validation. A payload is kept as the value that
-- its bytes write, with every member of an object, a repeated key too; `wide` is `unicode.ToLower` beyond ASCII.
pub mod Sensitive
use codex_go_web_api.Prelude.{
  ℕ, Bool, true, false, not, ◌||◌, ◌&&◌, List, [], ◌∷◌, select, if◌then◌else◌, ◌==◌, text_eq,
  nat_beq, Text, codes, is_empty, trim_space, to_lower, ℤ, is_pos,
}
use codex_go_web_api.Prelude.Outcome.{Result, ok, err}

mutual
  pub data Json : Type 0 where
    null : Json
    bool : Bool → Json
    number : Text → Json
    text : Text → Json
    array : Items → Json
    object : Fields → Json

  pub data Items : Type 0 where
    nil : Items
    cons : Json → Items → Items

  pub data Fields : Type 0 where
    end : Fields
    field : Text → Json → Fields → Fields

-- `json.RawMessage`: blank bytes, bytes that are no JSON, or a value.
pub data RawMessage : Type 0 where
  blank : RawMessage
  malformed : RawMessage
  value : Json → RawMessage

pub record Event : Type 0 where
  pub event_id : Text
  pub event_type : Text
  pub aggregate_type : Text
  pub aggregate_id : ℤ
  pub payload : RawMessage
  pub occurred_at : ℕ

pub data EventError : Type 0 where
  event_id_required event_type_required aggregate_type_required : EventError
  aggregate_id_not_positive payload_required payload_not_json payload_sensitive : EventError

abbrev sensitive_keys : List Text
sensitive_keys =
    codes "password"
    ∷ codes "passwordhash"
    ∷ codes "accesstoken"
    ∷ codes "refreshtoken"
    ∷ codes "cookie"
    ∷ codes "setcookie"
    ∷ codes "authorization"
    ∷ []

pub one_of : Text → List Text → Bool
one_of s [] = false
one_of s (t ∷ l) = s == t || one_of s l

-- Both `ReplaceAll` calls: no `_` and no `-` is left.
abbrev normalized : (ℕ → ℕ) → Text → Text
normalized wide key =
    to_lower wide (select (λ c. not (nat_beq c b'-')) (select (λ c. not (nat_beq c b'_')) key))

unfoldable pub is_sensitive : (ℕ → ℕ) → Text → Bool
unfolding one_of
is_sensitive wide key = one_of (normalized wide key) sensitive_keys

-- The loops of `containsSensitiveKey` over an array and over an object.
unfoldable mutual
  pub contains_sensitive_key : (ℕ → ℕ) → Json → Bool
  contains_sensitive_key wide null = false
  contains_sensitive_key wide (bool b) = false
  contains_sensitive_key wide (number n) = false
  contains_sensitive_key wide (text t) = false
  contains_sensitive_key wide (array l) = items_contain wide l
  contains_sensitive_key wide (object fs) = fields_contain wide fs

  pub items_contain : (ℕ → ℕ) → Items → Bool
  items_contain wide nil = false
  items_contain wide (cons v l) = contains_sensitive_key wide v || items_contain wide l

  pub fields_contain : (ℕ → ℕ) → Fields → Bool
  fields_contain wide end = false
  fields_contain wide (field k v fs) =
      is_sensitive wide k || (contains_sensitive_key wide v || fields_contain wide fs)

abbrev has_field : Text → Fields → Bool
has_field key end = false
has_field key (field k v fs) = k == key || has_field key fs

-- `json.Unmarshal` into an `any`: of the members of an object with one key, the last is kept.
unfoldable mutual
  pub decoded : Json → Json
  decoded null = null
  decoded (bool b) = bool b
  decoded (number n) = number n
  decoded (text t) = text t
  decoded (array l) = array (decoded_items l)
  decoded (object fs) = object (decoded_fields fs)

  pub decoded_items : Items → Items
  decoded_items nil = nil
  decoded_items (cons v l) = cons (decoded v) (decoded_items l)

  pub decoded_fields : Fields → Fields
  decoded_fields end = end
  decoded_fields (field k v fs) =
      let rest = decoded_fields fs in
      let kept = field k (decoded v) rest in if has_field k fs then rest else kept

abbrev validate_payload : (ℕ → ℕ) → RawMessage → Result EventError (Unit {0})
validate_payload wide blank = err payload_required
validate_payload wide (value null) = err payload_required
validate_payload wide malformed = err payload_not_json
validate_payload wide (value v) =
    if contains_sensitive_key wide (decoded v) then err payload_sensitive else ok tt

unfoldable pub validate : (ℕ → ℕ) → Event → Result EventError (Unit {0})
validate wide e =
    if is_empty (trim_space e.event_id)
    then err event_id_required
    else if is_empty (trim_space e.event_type)
    then err event_type_required
    else if is_empty (trim_space e.aggregate_type)
    then err aggregate_type_required
    else if is_pos e.aggregate_id
    then validate_payload wide e.payload
    else err aggregate_id_not_positive

-- `NewEvent` with the ID that `NewEventID` draws; `now` falls back to the clock at the zero time.
unfoldable pub new_event :
    (ℕ → ℕ) → Text → Text → Text → ℤ → RawMessage → ℕ → ℕ → Result EventError Event
unfolding validate
new_event wide event_id event_type aggregate_type aggregate_id payload now clock =
    elim (validate wide event) [ ok _ ↦ ok event | err e ↦ err e ]
  where
    event : Event
    event = record {
      event_id = event_id;
      event_type = event_type;
      aggregate_type = aggregate_type;
      aggregate_id = aggregate_id;
      payload = payload;
      occurred_at = if nat_beq now 0 then clock else now;
    }
