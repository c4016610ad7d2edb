-- ===== src/Prelude/Strings.antt =====
-- What the source uses of Go's packages `strings` and `strconv`, over texts as lists of code points.
use Prim.Native.Nat.{ℕ, zero, suc, ◌/◌, ◌%◌}
use Prim.Native.Char.{Char, code}
use Prim.Native.String.{String}
use mathlib.Core.Bool.{Bool, false, ◌&&◌, ◌||◌}
use mathlib.Core.Option.{Option, none, some}
use mathlib.Core.List.{List, [], ◌∷◌}
use go_order_service.Prelude.Tests.{ltb, leb, if◌then◌else◌}
use go_order_service.Prelude.Equality.{◌==◌, nat_eq, string_eq}

-- `unicode.IsSpace`.
abbrev pub is_space : ℕ → Bool
is_space c =
    leb 9 c && leb c 13
    || c == 32
    || c == 0x85
    || c == 0xa0
    || c == 0x1680
    || leb 0x2000 c && leb c 0x200a
    || c == 0x2028
    || c == 0x2029
    || c == 0x202f
    || c == 0x205f
    || c == 0x3000

-- `strings.TrimLeftFunc(s, unicode.IsSpace)`.
pub trim_left : String → String
trim_left String.[] = String.[]
trim_left (String.◌∷◌ c s) = if is_space (code c) then trim_left s else String.◌∷◌ c s

abbrev cons_trimmed : Char → String → String
cons_trimmed c String.[] = if is_space (code c) then String.[] else String.◌∷◌ c String.[]
cons_trimmed c (String.◌∷◌ d s) = String.◌∷◌ c (String.◌∷◌ d s)

-- `strings.TrimRightFunc(s, unicode.IsSpace)`.
pub trim_right : String → String
trim_right String.[] = String.[]
trim_right (String.◌∷◌ c s) = cons_trimmed c (trim_right s)

-- `strings.TrimSpace`.
unfoldable pub trim_space : String → String
unfolding trim_left trim_right
trim_space s = trim_right (trim_left s)

-- `strings.Map`, which `ToLower` and `ToUpper` are at `unicode.ToLower` and `unicode.ToUpper`.
unfoldable pub map_chars : (Char → Char) → String → String
map_chars f String.[] = String.[]
map_chars f (String.◌∷◌ c s) = String.◌∷◌ (f c) (map_chars f s)

-- `strings.HasSuffix`.
unfoldable pub has_suffix : String → String → Bool
has_suffix String.[] t = String.[] == t
has_suffix (String.◌∷◌ c s) t = String.◌∷◌ c s == t || has_suffix s t

-- `strings.ContainsRune`, for a code point.
unfoldable pub mentions : ℕ → String → Bool
mentions c String.[] = false
mentions c (String.◌∷◌ d s) = code d == c || mentions c s

-- A text with U+0000, which a text column of PostgreSQL refuses, as a value or where there may be null.
abbrev pub has_nul : String → Bool
has_nul = mentions 0

abbrev pub has_nul_or_null : Option String → Bool
has_nul_or_null none = false
has_nul_or_null (some s) = has_nul s

-- The first part of `strings.Split` at a separator of one code point.
unfoldable pub before : ℕ → String → String
before c String.[] = String.[]
before c (String.◌∷◌ d s) =
    let rest = before c s in if code d == c then String.[] else String.◌∷◌ d rest

abbrev cons_first : Char → Option (String × String) → Option (String × String)
cons_first d none = none
cons_first d (some (s, t)) = some (String.◌∷◌ d s, t)

-- What stands before and after the first of a code point.
unfoldable pub cut : ℕ → String → Option (String × String)
cut c String.[] = none
cut c (String.◌∷◌ d s) =
    let rest = cut c s in if code d == c then some (String.[], s) else cons_first d rest

abbrev cons_last : ℕ → Char → String → Option (String × String) → Option (String × String)
cons_last c d s (some (t, u)) = some (String.◌∷◌ d t, u)
cons_last c d s none = if code d == c then some (String.[], s) else none

-- What stands before and after the last of a code point.
unfoldable pub cut_last : ℕ → String → Option (String × String)
cut_last c String.[] = none
cut_last c (String.◌∷◌ d s) = cons_last c d s (cut_last c s)

abbrev cons_field : String → List String → List String
cons_field String.[] fs = fs
cons_field (String.◌∷◌ c s) fs = String.◌∷◌ c s ∷ fs

-- The field that a text begins with, and the fields after it.
unfoldable pub split_fields : String → String × List String
split_fields String.[] = (String.[], [])
split_fields (String.◌∷◌ c s) =
    let (f, fs) = split_fields s in
    if is_space (code c) then (String.[], cons_field f fs) else (String.◌∷◌ c f, fs)

-- `strings.Fields`.
unfoldable pub fields : String → List String
fields s = let (f, fs) = split_fields s in cons_field f fs

abbrev digit : ℕ → Char
digit n =
    if n == 0
    then "0"
    else if n == 1
    then "1"
    else if n == 2
    then "2"
    else if n == 3
    then "3"
    else if n == 4
    then "4"
    else if n == 5
    then "5"
    else if n == 6
    then "6"
    else if n == 7
    then "7"
    else (if n == 8 then "8" else "9")

-- The digits of a number before a text; `n + 1` rounds are enough, since each divides by ten.
unfoldable pub decimal_before : ℕ → ℕ → String → String
decimal_before zero n rest = rest
decimal_before (suc fuel) n rest =
    let more = decimal_before fuel (n / 10) (String.◌∷◌ (digit (n % 10)) rest) in
    if ltb n 10 then String.◌∷◌ (digit n) rest else more

-- `strconv.Itoa`, and the verb `%d`, of a number that is not negative.
unfoldable pub decimal : ℕ → String
decimal n = decimal_before (suc n) n String.[]
