-- ===== src/Messages.antt =====
-- The message of an outbox event: `OutboxMessage` of internal/publisher/outbox_publisher.go, which
-- marshals it, and of internal/consumer/event_consumer.go, which unmarshals it. What encoding/json
-- does with a struct of strings and a `RawMessage` is written out.
pub mod Decoding
use Prim.Native.Char.{Char, code}
use go_order_service.Prelude.{
  ℕ, String, Bool, true, false, ◌&&◌, Option, none, some, ltb, leb, ◌-◌, if◌then◌else◌, ◌==◌,
  nat_eq,
}
use go_order_service.Encoding.{Json, null, str, obj, Fields, end, field, Bytes, encoded, malformed}

pub record OutboxMessage : Type 0 where
  pub id : String
  pub aggregate_type : String
  pub aggregate_id : String
  pub event_type : String
  pub payload : Bytes

-- The zero value.
abbrev pub no_message : OutboxMessage
no_message = record {
  id = "";
  aggregate_type = "";
  aggregate_id = "";
  event_type = "";
  payload = malformed;
}

-- `json.Marshal` of a `RawMessage`, which a payload column never makes fail: it holds a JSON value.
abbrev pub raw_json : Bytes → Json
raw_json (encoded v) = v
raw_json malformed = null

unfoldable pub marshal_message : OutboxMessage → Json
marshal_message m = obj (
    field "id" (str m.id) (
      field "aggregate_type" (str m.aggregate_type) (
        field "aggregate_id" (str m.aggregate_id)
          (field "event_type" (str m.event_type) (field "payload" (raw_json m.payload) end)))))

-- Names of fields are compared without regard to case. Of the code points outside ASCII only the
-- long s and the Kelvin sign are another case of a letter in ASCII.
abbrev pub fold : Char → ℕ
fold c =
    let n = code c in
    if leb 97 n && leb n 122
    then n - 32
    else if n == 0x17f
    then 0x53
    else (if n == 0x212a then 0x4b else n)

unfoldable pub same_name : String → String → Bool
same_name String.[] String.[] = true
same_name String.[] (String.◌∷◌ d t) = false
same_name (String.◌∷◌ c s) String.[] = false
same_name (String.◌∷◌ c s) (String.◌∷◌ d t) = fold c == fold d && same_name s t

-- A value for a string field that holds `old`: null leaves it alone, and any other value than a text
-- is an error.
abbrev pub read_text : String → Json → Option String
read_text old (str s) = some s
read_text old null = some old
read_text old _ = none

abbrev pub put_text : {A : Type 0} → (String → A) → Option String → Option A
put_text set none = none
put_text set (some s) = some (set s)

-- One field of the object; a name that the struct does not have is passed over.
unfoldable pub read_field : String → Json → OutboxMessage → Option OutboxMessage
read_field name v m =
    if same_name name "id"
    then put_text (λ s. record m { id = s }) (read_text m.id v)
    else if same_name name "aggregate_type"
    then put_text (λ s. record m { aggregate_type = s }) (read_text m.aggregate_type v)
    else if same_name name "aggregate_id"
    then put_text (λ s. record m { aggregate_id = s }) (read_text m.aggregate_id v)
    else if same_name name "event_type"
    then put_text (λ s. record m { event_type = s }) (read_text m.event_type v)
    else if same_name name "payload"
    then some (record m { payload = encoded v })
    else some m

abbrev pub continue_with : {A : Type 0} → Option A → (A → Option A) → Option A
continue_with none f = none
continue_with (some m) f = f m

unfoldable pub read_fields : Fields → OutboxMessage → Option OutboxMessage
read_fields end m = some m
read_fields (field name v rest) m = continue_with (read_field name v m) (read_fields rest)

-- `json.Unmarshal(payload, &message)`.
unfoldable pub unmarshal_message : Bytes → Option OutboxMessage
unmarshal_message (encoded (obj fields)) = read_fields fields no_message
unmarshal_message (encoded null) = some no_message
unmarshal_message _ = none

-- `json.Unmarshal(message.Payload, &eventData)`, for the `user_id` of its `eventPayload`.
unfoldable pub read_user_field : String → Json → String → Option String
read_user_field name v user_id =
    if same_name name "user_id" then read_text user_id v else some user_id

unfoldable pub read_user_fields : Fields → String → Option String
read_user_fields end user_id = some user_id
read_user_fields (field name v rest) user_id =
    continue_with (read_user_field name v user_id) (read_user_fields rest)

unfoldable pub unmarshal_user_id : Bytes → Option String
unmarshal_user_id (encoded (obj fields)) = read_user_fields fields ""
unmarshal_user_id (encoded null) = some ""
unmarshal_user_id _ = none
