-- ===== src/Credential/Uri/Authority.antt =====
-- internal/credential/capability.go: canonicalScheme, canonicalAuthority and what they call.
use adtp.Prelude.{
  ℕ, zero, suc, ◌+◌, ◌/◌, ◌%◌, Bool, true, false, ◌&&◌, ◌||◌, Option, none, some, [], ◌∷◌, ◌++◌,
  ltb, Text, Text-eq, ℕ-eq, codes, ◌==◌, if◌then◌else◌, Result, ok, err, ◌>>=◌, ◌>>◌, fail_if,
  break_at, cut_last, has_byte, all_bytes, in_range, to_lower, drop_last, non_empty_value,
}
use adtp.Credential.Uri.Chars.{is_reg_name_byte}

pub data UriErr : Type 0 where
  invalid_uri invalid_scheme non_ascii_host userinfo_not_allowed query_or_fragment : UriErr
  encoded_separator dot_segment invalid_percent_encoding invalid_port : UriErr

is_lower : ℕ → Bool
is_lower c = in_range b'a' b'z' c

is_scheme_byte : ℕ → Bool
unfolding is_lower
is_scheme_byte c = is_lower c || in_range b'0' b'9' c || c == b'+' || c == b'-' || c == b'.'

-- The loop of canonicalScheme over the lowered scheme.
scheme_ok : Text → Bool
unfolding is_scheme_byte all_bytes
scheme_ok [] = true
scheme_ok (c ∷ s) = is_lower c && all_bytes is_scheme_byte s

unfoldable pub canonical_scheme : Text → Result UriErr Text
unfolding scheme_ok to_lower
canonical_scheme [] = err invalid_scheme
canonical_scheme (c ∷ s) =
    let lower = to_lower (c ∷ s) in if scheme_ok lower then ok lower else err invalid_scheme

is_ipv6_byte : ℕ → Bool
is_ipv6_byte c =
    in_range b'0' b'9' c || in_range b'a' b'f' c || in_range b'A' b'F' c || c == b':' || c == b'.'

-- The loop over a registered name: the first bad byte decides the error.
reg_name : Text → Option UriErr
unfolding is_reg_name_byte
reg_name [] = none
reg_name (c ∷ s) =
    let rest = reg_name s in
    if ltb c 0x80
    then if is_reg_name_byte c then rest else some invalid_uri
    else some non_ascii_host

-- An IPv6 literal between its brackets.
ipv6_host : Text → Result UriErr Text
unfolding is_ipv6_byte all_bytes to_lower
ipv6_host [] = err invalid_uri
ipv6_host (c ∷ s) =
    if all_bytes is_ipv6_byte (c ∷ s)
    then ok (b'[' ∷ to_lower (c ∷ s) ++ b']' ∷ [])
    else err invalid_uri

canonical_host : Text → Result UriErr Text
unfolding ipv6_host reg_name
canonical_host [] = err invalid_uri
canonical_host (c ∷ s) =
    if c == b'['
    then ipv6_host (drop_last s)
    else elim (reg_name (c ∷ s)) [ none ↦ ok (to_lower (c ∷ s)) | some e ↦ err e ]

-- Atoi and the range check of canonicalPort, for a value from 0 to 65535.
port_value : Text → Option ℕ
unfolding non_empty_value
port_value [] = none
port_value (c ∷ s) = elim (non_empty_value (if (c == b'-') || (c == b'+') then s else c ∷ s)) [
  | none ↦ none
  | some n ↦ if (c == b'-') && ltb 0 n || ltb 65535 n then none else some n
]

-- strconv.Itoa of a number below 10 ^ fuel.
digits : ℕ → ℕ → Text
digits zero n = []
digits (suc f) n =
    let more = digits f (n / 10) in
    if ltb n 10 then (b'0' + n) ∷ [] else more ++ (b'0' + n % 10) ∷ []

itoa : ℕ → Text
unfolding digits
itoa n = digits 5 n

default_port : Text → Option ℕ
default_port scheme =
    if (scheme == codes "http") || (scheme == codes "ws")
    then some 80
    else if (scheme == codes "https") || (scheme == codes "wss")
    then some 443
    else none

is_default : Option ℕ → ℕ → Bool
is_default none n = false
is_default (some d) n = d == n

canonical_port : Text → Text → Result UriErr Text
unfolding port_value itoa default_port is_default
canonical_port [] scheme = ok []
canonical_port (c ∷ s) scheme = elim (port_value (c ∷ s)) [
  | none ↦ err invalid_port
  | some n ↦ if is_default (default_port scheme) n then ok [] else ok (itoa n)
]

-- The host and the port of an authority, not yet canonical. Behind an IPv6 literal stands nothing
-- or a colon.
ipv6_tail : Text → Text → Result UriErr (Text × Text)
ipv6_tail host [] = ok (host, [])
ipv6_tail host (c ∷ port) = if c == b':' then ok (host, port) else err invalid_uri

split_ipv6 : Text × Text → Result UriErr (Text × Text)
unfolding ipv6_tail
split_ipv6 (inside, []) = err invalid_uri
split_ipv6 (inside, c ∷ tail) = ipv6_tail (inside ++ c ∷ []) tail

split_authority : Text → Result UriErr (Text × Text)
unfolding split_ipv6 cut_last break_at
split_authority [] = err invalid_uri
split_authority (c ∷ s) =
    if c == b'[' then split_ipv6 (break_at b']' (c ∷ s)) else elim (cut_last b':' (c ∷ s)) [
      | some (host, port) ↦ ok (host, port)
      | none ↦ ok (c ∷ s, [])
    ]

join_port : Text → Text → Text
join_port host [] = host
join_port host (c ∷ port) = host ++ b':' ∷ c ∷ port

unfoldable pub canonical_authority : Text → Text → Result UriErr Text
unfolding split_authority canonical_host canonical_port join_port has_byte
canonical_authority [] scheme = err invalid_uri
canonical_authority (c ∷ s) scheme = do
  fail_if (has_byte b'@' (c ∷ s)) userinfo_not_allowed
  parts ← split_authority (c ∷ s)
  host ← canonical_host parts.0
  port ← canonical_port parts.1 scheme
  ok (join_port host port)
