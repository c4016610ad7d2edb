-- ===== src/Api/Requests.antt =====
-- internal/api/order_handler.go and auth_handler.go: the structs that request bodies are decoded to,
-- with what encoding/json does with their fields. A number in a body is an integer.
use go_order_service.Prelude.{String, Bool, ◌&&◌, Option, none, some, if◌then◌else◌}
use go_order_service.Prelude.Int.{ℤ, pos, negsuc, leb_ℤ}
use go_order_service.Encoding.{Json, null, num, obj, Fields, end, field, Bytes, encoded}
use go_order_service.Messages.{same_name, read_text, put_text, continue_with}

pub record CreateOrderRequest : Type 0 where
  pub amount_cents : ℤ
  pub currency : String
  pub description : String

pub record RegisterRequest : Type 0 where
  pub email : String
  pub password : String
  pub role : String

pub record LoginRequest : Type 0 where
  pub email : String
  pub password : String

-- The bounds of `int64`.
abbrev pub is_int64 : ℤ → Bool
is_int64 n = leb_ℤ (negsuc 9223372036854775807) n && leb_ℤ n (pos 9223372036854775807)

-- A value for an `int64` field that holds `old`.
abbrev pub read_int64 : ℤ → Json → Option ℤ
read_int64 old (num n) = if is_int64 n then some n else none
read_int64 old null = some old
read_int64 old _ = none

abbrev pub put_int64 : {A : Type 0} → (ℤ → A) → Option ℤ → Option A
put_int64 set none = none
put_int64 set (some n) = some (set n)

-- `json.NewDecoder(body).Decode(&req)` for a struct: its fields one by one, null as nothing.
unfoldable pub decode_fields : {A : Type 0} → (String → Json → A → Option A) → Fields → A → Option A
decode_fields read end r = some r
decode_fields read (field name v rest) r = continue_with (read name v r) (decode_fields read rest)

abbrev pub decode : {A : Type 0} → (String → Json → A → Option A) → A → Bytes → Option A
decode read zero_value (encoded (obj fields)) = decode_fields read fields zero_value
decode read zero_value (encoded null) = some zero_value
decode read zero_value _ = none

unfoldable pub create_order_field : String → Json → CreateOrderRequest → Option CreateOrderRequest
create_order_field name v r =
    if same_name name "amount_cents"
    then put_int64 (λ n. record r { amount_cents = n }) (read_int64 r.amount_cents v)
    else if same_name name "currency"
    then put_text (λ s. record r { currency = s }) (read_text r.currency v)
    else if same_name name "description"
    then put_text (λ s. record r { description = s }) (read_text r.description v)
    else some r

unfoldable pub decode_create_order : Bytes → Option CreateOrderRequest
decode_create_order body =
    decode create_order_field (record { amount_cents = pos 0; currency = ""; description = "" })
      body

unfoldable pub register_field : String → Json → RegisterRequest → Option RegisterRequest
register_field name v r =
    if same_name name "email"
    then put_text (λ s. record r { email = s }) (read_text r.email v)
    else if same_name name "password"
    then put_text (λ s. record r { password = s }) (read_text r.password v)
    else if same_name name "role"
    then put_text (λ s. record r { role = s }) (read_text r.role v)
    else some r

unfoldable pub decode_register : Bytes → Option RegisterRequest
decode_register body = decode register_field (record { email = ""; password = ""; role = "" }) body

unfoldable pub login_field : String → Json → LoginRequest → Option LoginRequest
login_field name v r =
    if same_name name "email"
    then put_text (λ s. record r { email = s }) (read_text r.email v)
    else if same_name name "password"
    then put_text (λ s. record r { password = s }) (read_text r.password v)
    else some r

unfoldable pub decode_login : Bytes → Option LoginRequest
decode_login body = decode login_field (record { email = ""; password = "" }) body
