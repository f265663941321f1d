-- ===== src/Credential/Uri/Chars.antt =====
-- The byte classes of capability.go.
use adtp.Prelude.{
  ℕ, ◌+◌, ◌-◌, ◌<◌, ◌≡◌, Bool, ◌||◌, Option, none, some, ltb, arith, ℕ-eq, ◌==◌, if◌then◌else◌,
  in_range,
}

unfoldable pub is_unreserved : ℕ → Bool
is_unreserved c =
    in_range b'A' b'Z' c
    || in_range b'a' b'z' c
    || in_range b'0' b'9' c
    || c == b'-'
    || c == b'.'
    || c == b'_'
    || c == b'~'

unfoldable pub is_sub_delim : ℕ → Bool
is_sub_delim c =
    c == b'!'
    || c == b'$'
    || c == b'&'
    || c == 39
    || c == b'('
    || c == b')'
    || c == b'*'
    || c == b'+'
    || c == b','
    || c == b';'
    || c == b'='

unfoldable pub is_reg_name_byte : ℕ → Bool
unfolding is_unreserved is_sub_delim
is_reg_name_byte c = is_unreserved c || is_sub_delim c

unfoldable pub is_allowed_path_literal : ℕ → Bool
unfolding is_unreserved is_sub_delim
is_allowed_path_literal c = is_unreserved c || is_sub_delim c || c == b':' || c == b'@' || c == b'/'

unfoldable pub from_hex_digit : ℕ → Option ℕ
from_hex_digit c =
    if in_range b'0' b'9' c
    then some (c - b'0')
    else if in_range b'a' b'f' c
    then some (c - b'a' + 10)
    else if in_range b'A' b'F' c
    then some (c - b'A' + 10)
    else none

-- upperHexDigits[d], for d below 16
unfoldable pub upper_hex_digit : ℕ → ℕ
upper_hex_digit d = if ltb d 10 then b'0' + d else b'A' + d - 10

pub from_hex_digit-upper_hex_digit : (d : ℕ) → d < 16 → from_hex_digit (upper_hex_digit d) ≡ some d
unfolding from_hex_digit upper_hex_digit
from_hex_digit-upper_hex_digit d h = ground arith
