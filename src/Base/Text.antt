-- ===== src/Base/Text.antt =====
-- Text as bytes, and the functions of the C library that read numbers from it and write them.
use Prim.Native.Char.{code}
use Prim.Native.String.{String}
use remote_avapps.Base.{
  ℕ, zero, suc, ◌+◌, ◌-◌, ◌*◌, ◌/◌, ◌%◌, ltb, leb, ◌==◌, if◌then◌else◌, min, Bool, true, false,
  ◌&&◌, ◌||◌, List, [], ◌∷◌, Option, none, some, drop, length,
}

-- The bytes of an ASCII text.
abbrev pub codes : String → List ℕ
codes String.[] = []
codes (String.◌∷◌ c s) = code c ∷ codes s

abbrev pub crlf : List ℕ
crlf = 13 ∷ 10 ∷ []

-- `memcmp(s, p, strlen(p)) == 0` and `strncmp`, for a text that may end first.
unfoldable pub starts_with : List ℕ → List ℕ → Bool
starts_with [] s = true
starts_with (c ∷ p) [] = false
starts_with (c ∷ p) (d ∷ s) = c == d && starts_with p s

unfoldable pub to_lower : ℕ → ℕ
to_lower c = if leb 65 c && leb c 90 then c + 32 else c

-- `strncasecmp(s, p, strlen(p)) == 0`
unfoldable pub starts_with_case : List ℕ → List ℕ → Bool
unfolding to_lower
starts_with_case [] s = true
starts_with_case (c ∷ p) [] = false
starts_with_case (c ∷ p) (d ∷ s) = to_lower c == to_lower d && starts_with_case p s

abbrev pub is_decimal : ℕ → Bool
is_decimal c = leb 48 c && leb c 57

-- The digits at the front of a text, read on from a value.
unfoldable pub decimal_from : ℕ → List ℕ → ℕ
decimal_from n [] = n
decimal_from n (c ∷ s) =
    let rest = decimal_from (n * 10 + (c - 48)) s in if is_decimal c then rest else n

abbrev pub is_hex : ℕ → Bool
is_hex c = is_decimal c || leb 97 c && leb c 102 || leb 65 c && leb c 70

unfoldable pub hex_digit : ℕ → ℕ
hex_digit c = if ltb c 58 then c - 48 else if ltb c 71 then c - 55 else c - 87

-- The value of hexadecimal digits, read on from a value.
unfoldable pub hex_from : ℕ → List ℕ → ℕ
unfolding hex_digit
hex_from n [] = n
hex_from n (c ∷ s) = hex_from (n * 16 + hex_digit c) s

abbrev pub long_max : ℕ
long_max = 9223372036854775807

-- `strtol(s, NULL, 16)` of a text of hexadecimal digits, which stops at the largest `long`.
unfoldable pub strtol16 : List ℕ → ℕ
unfolding hex_from
strtol16 s = min long_max (hex_from 0 s)

-- A digit of `%zx`.
unfoldable pub hex_char : ℕ → ℕ
hex_char d = if ltb d 10 then d + 48 else d + 87

-- `%zx`: the digits of a number in front of a text. The fuel is the digits of a 64-bit number.
unfoldable pub hex_onto : ℕ → ℕ → List ℕ → List ℕ
unfolding hex_char
hex_onto zero n s = s
hex_onto (suc fuel) n s =
    let more = hex_onto fuel (n / 16) (hex_char (n % 16) ∷ s) in
    if ltb n 16 then hex_char n ∷ s else more

unfoldable pub format_hex : ℕ → List ℕ
unfolding hex_onto
format_hex n = hex_onto 16 n []

-- `%d`: the digits of a number in front of a text. The fuel is the digits of a 64-bit number.
unfoldable pub decimal_onto : ℕ → ℕ → List ℕ → List ℕ
decimal_onto zero n s = s
decimal_onto (suc fuel) n s =
    let more = decimal_onto fuel (n / 10) ((n % 10 + 48) ∷ s) in
    if ltb n 10 then (n + 48) ∷ s else more

unfoldable pub format_decimal : ℕ → List ℕ
unfolding decimal_onto
format_decimal n = decimal_onto 20 n []

-- A text up to the byte 0, which stands behind the last byte too.
unfoldable pub c_str : List ℕ → List ℕ
c_str [] = []
c_str (c ∷ s) = let rest = c ∷ c_str s in if c == 0 then [] else rest

-- `strstr`: the text from the first place of a pattern on.
unfoldable pub find : List ℕ → List ℕ → Option (List ℕ)
unfolding starts_with
find p [] = if starts_with p [] then some [] else none
find p (c ∷ s) = let later = find p s in if starts_with p (c ∷ s) then some (c ∷ s) else later

unfoldable pub contains : List ℕ → List ℕ → Bool
unfolding starts_with
contains p [] = starts_with p []
contains p (c ∷ s) = starts_with p (c ∷ s) || contains p s

-- The text behind the first place of a pattern.
unfoldable pub behind : List ℕ → List ℕ → Option (List ℕ)
unfolding find
behind p s = elim (find p s) [ none ↦ none | some t ↦ some (drop (length p) t) ]

-- The text before the first place of a byte, if there is one.
unfoldable pub before_byte : ℕ → List ℕ → Option (List ℕ)
before_byte b [] = none
before_byte b (c ∷ s) =
    let rest : Option (List ℕ) = elim (before_byte b s) [ none ↦ none | some t ↦ some (c ∷ t) ] in
    if c == b then some [] else rest
