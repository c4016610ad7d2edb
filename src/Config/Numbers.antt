-- ===== src/Config/Numbers.antt =====
-- What internal/config/config.go uses of package `strconv`, and its conversion to `int32`.
use Prim.Native.Char.{code}
use go_order_service.Prelude.{
  ℕ, zero, suc, String, ◌+◌, ◌-◌, ◌*◌, ◌%◌, Bool, true, false, ◌&&◌, ◌||◌, Option, none, some, ltb,
  leb, if◌then◌else◌, ◌==◌, nat_eq, string_eq,
}
use go_order_service.Prelude.Int.{ℤ, pos, negsuc}

-- The digits of a text after a number.
unfoldable pub digits_from : ℕ → String → Option ℕ
digits_from n String.[] = some n
digits_from n (String.◌∷◌ c s) =
    let rest = digits_from (n * 10 + (code c - 48)) s in
    if leb 48 (code c) && leb (code c) 57 then rest else none

unfoldable pub digits : String → Option ℕ
digits String.[] = none
digits (String.◌∷◌ c s) = digits_from 0 (String.◌∷◌ c s)

-- The range of `int`.
abbrev pub in_range : ℕ → Option ℕ → (ℕ → ℤ) → Option ℤ
in_range bound none sign = none
in_range bound (some n) sign = if leb n bound then some (sign n) else none

abbrev pub negative : ℕ → ℤ
negative zero = pos 0
negative (suc n) = negsuc n

-- `strconv.Atoi`.
unfoldable pub atoi : String → Option ℤ
atoi String.[] = none
atoi (String.◌∷◌ c s) =
    if code c == 0x2d
    then in_range 9223372036854775808 (digits s) negative
    else if code c == 0x2b
    then in_range 9223372036854775807 (digits s) pos
    else in_range 9223372036854775807 (digits (String.◌∷◌ c s)) pos

-- `strconv.ParseBool`.
unfoldable pub parse_bool : String → Option Bool
parse_bool s =
    if s == "1" || s == "t" || s == "T" || s == "TRUE" || s == "true" || s == "True"
    then some true
    else if s == "0" || s == "f" || s == "F" || s == "FALSE" || s == "false" || s == "False"
    then some false
    else none

-- `int32(n)`: the low 32 bits, as a signed number.
abbrev pub signed32 : ℕ → ℤ
signed32 m = if ltb m 2147483648 then pos m else negsuc (4294967295 - m)

abbrev pub to_int32 : ℤ → ℤ
to_int32 (pos n) = signed32 (n % 4294967296)
to_int32 (negsuc n) = signed32 (4294967295 - n % 4294967296)
