-- ===== src/Prelude/Uri.antt =====
-- `encodeURIComponent`: unreserved characters stay, all else is the percent form of its UTF-8 bytes.
pub mod Plain
use Prim.Native.Char.{Char, code}
use Prim.Native.String
use Prim.Native.String.{String, ◌++◌}
use Prim.Native.Nat.{ℕ, zero, suc, ◌+◌, ◌-◌, ◌*◌, ◌/◌, ◌%◌}
use mathlib.Core.Path.{◌≡◌, refl, ap}
use mathlib.Core.Bool.{Bool, true, false, ◌&&◌, ◌||◌}
use codex_memory.Prelude.Tests.{ltb, leb, nat_eq, if◌then◌else◌}

abbrev pub hex_letter : ℕ → String
hex_letter zero = "A"
hex_letter (suc zero) = "B"
hex_letter (suc (suc zero)) = "C"
hex_letter (suc (suc (suc zero))) = "D"
hex_letter (suc (suc (suc (suc zero)))) = "E"
hex_letter _ = "F"

abbrev pub hex_digit : ℕ → String
hex_digit n = if ltb n 10 then codex_memory.Prelude.Text.digit n else hex_letter (n - 10)

abbrev pub percent : ℕ → String
percent b = "%" ++ (hex_digit (b / 16) ++ hex_digit (b % 16))

-- The percent form of one code point.
escape_code : ℕ → String
escape_code c =
    if ltb c 0x80
    then percent c
    else if ltb c 0x800
    then percent (0xc0 + c / 64) ++ percent (0x80 + c % 64)
    else if ltb c 0x10000
    then percent (0xe0 + c / 4096) ++ (percent (0x80 + c / 64 % 64) ++ percent (0x80 + c % 64))
    else percent (0xf0 + c / 262144)
      ++ (percent (0x80 + c / 4096 % 64)
          ++ (percent (0x80 + c / 64 % 64) ++ percent (0x80 + c % 64)))

-- `A-Z a-z 0-9 - _ . ! ~ * ' ( )`
unfoldable pub is_unreserved : ℕ → Bool
is_unreserved c =
    (leb b'A' c && leb c b'Z')
    || (leb b'a' c && leb c b'z')
    || (leb b'0' c && leb c b'9')
    || nat_eq c b'-'
    || nat_eq c b'_'
    || nat_eq c b'.'
    || nat_eq c b'!'
    || nat_eq c b'~'
    || nat_eq c b'*'
    || nat_eq c 39
    || nat_eq c b'('
    || nat_eq c b')'

unfoldable pub encode_uri_component : String → String
unfolding is_unreserved escape_code
encode_uri_component String.[] = ""
encode_uri_component (String.◌∷◌ c s) =
    if is_unreserved (code c)
    then String.◌∷◌ c (encode_uri_component s)
    else escape_code (code c) ++ encode_uri_component s

encodes_slash : encode_uri_component "a/é中" ≡ "a%2F%C3%A9%E4%B8%AD"
unfolding encode_uri_component
encodes_slash = refl
