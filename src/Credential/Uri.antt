-- ===== src/Credential/Uri.antt =====
-- internal/credential/capability.go (CanonicalizeURI and its parts) and uri_covers.go.
-- A URI is its bytes. The texts of the errors are left out, their sentinels kept.
-- docs/PROTOCOL.md, 7.2, states another rule of coverage than uri_covers.go: a prefix of whole segments.
mod Chars
mod Authority
mod Tests
pub mod Covers
pub use Chars.*
unfoldable pub use Authority.*
use adtp.Prelude.{
  ℕ, zero, suc, ◌+◌, ◌-◌, ◌*◌, ◌/◌, ◌%◌, ◌^◌, Bool, true, false, not, ◌&&◌, ◌||◌, Option, none,
  some, List, [], ◌∷◌, ◌++◌, ltb, Text, Text-eq, ℕ-eq, codes, ◌==◌, if◌then◌else◌, Result, ok, err,
  ◌>>=◌, ◌>>◌, fail_if, cut, break_at, cut_last, split_on, has_byte, all_bytes, in_range, to_lower,
  drop_last, strip_prefix,
}

abbrev pub scheme_sep : Text
scheme_sep = codes "://"

contains_text : Text → Text → Bool
unfolding cut
contains_text sub s = elim (cut sub s) [ none ↦ false | some _ ↦ true ]

-- An encoded slash, backslash or NUL, in either case of the hex digits.
has_encoded_separator : Text → Bool
unfolding contains_text to_lower
has_encoded_separator path =
    let lower = to_lower path in
    contains_text (codes "%2f") lower
    || contains_text (codes "%5c") lower
    || contains_text (codes "%00") lower

-- One escape: the byte itself if it is unreserved, and upper-case hex otherwise.
write_escape : ℕ → ℕ → Text
unfolding is_unreserved upper_hex_digit
write_escape hi lo =
    if is_unreserved (hi * 16 + lo)
    then (hi * 16 + lo) ∷ []
    else b'%' ∷ upper_hex_digit hi ∷ upper_hex_digit lo ∷ []

abbrev prepend : Text → Result UriErr Text → Result UriErr Text
prepend s (ok t) = ok (s ++ t)
prepend s (err e) = err e

unescape : Option ℕ → Option ℕ → Result UriErr Text → Result UriErr Text
unfolding write_escape
unescape (some hi) (some lo) rest = prepend (write_escape hi lo) rest
unescape _ _ rest = err invalid_percent_encoding

-- A byte that stands for itself. The loop stops at the first error, so an error here comes before
-- any in the rest.
literal : ℕ → Result UriErr Text → Result UriErr Text
unfolding is_allowed_path_literal
literal c rest = if is_allowed_path_literal c then prepend (c ∷ []) rest else err invalid_uri

-- The loop of canonicalPath.
decode_path : Text → Result UriErr Text
unfolding unescape literal from_hex_digit
decode_path [] = ok []
decode_path (c ∷ []) = if c == b'%' then err invalid_percent_encoding else literal c (ok [])
decode_path (c ∷ d ∷ []) =
    let rest = decode_path (d ∷ []) in
    if c == b'%' then err invalid_percent_encoding else literal c rest
decode_path (c ∷ d ∷ e ∷ s) = elim (c == b'%') [
  | true ↦ unescape (from_hex_digit d) (from_hex_digit e) (decode_path s)
  | false ↦ literal c (decode_path (d ∷ e ∷ s))
]

is_dot_segment : Text → Bool
is_dot_segment s = (s == codes ".") || (s == codes "..")

any_dot_segment : List Text → Bool
unfolding is_dot_segment
any_dot_segment [] = false
any_dot_segment (s ∷ ss) = is_dot_segment s || any_dot_segment ss

canonical_path : Text → Result UriErr Text
unfolding has_encoded_separator decode_path any_dot_segment split_on
canonical_path [] = ok []
canonical_path (c ∷ s) = do
  fail_if (has_encoded_separator (c ∷ s)) encoded_separator
  decoded ← decode_path (c ∷ s)
  fail_if (any_dot_segment (split_on b'/' decoded)) dot_segment
  ok decoded

-- A separator at the start, or none, is refused.
split_scheme : Option (Text × Text) → Result UriErr (Text × Text)
split_scheme none = err invalid_uri
split_scheme (some ([], rest)) = err invalid_uri
split_scheme (some (c ∷ scheme, rest)) = ok (c ∷ scheme, rest)

unfoldable pub canonicalize_uri : Text → Result UriErr Text
unfolding split_scheme canonical_scheme canonical_authority canonical_path cut has_byte break_at
canonicalize_uri raw = do
  parts ← split_scheme (cut scheme_sep raw)
  scheme ← canonical_scheme parts.0
  fail_if (has_byte b'?' parts.1 || has_byte b'#' parts.1) query_or_fragment
  authority ← canonical_authority (break_at b'/' parts.1).0 scheme
  path ← canonical_path (break_at b'/' parts.1).1
  ok (scheme ++ scheme_sep ++ authority ++ path)

pub record UriParts : Type 0 where
  pub scheme : Text
  pub authority : Text
  pub path : Text

-- splitCanonicalURI
pub split_canonical_uri : Text → Result UriErr UriParts
unfolding split_scheme cut break_at
split_canonical_uri u = do
  parts ← split_scheme (cut scheme_sep u)
  let (authority, path) = break_at b'/' parts.1
  ok (record { scheme = parts.0; authority = authority; path = path })

-- The loop of URICovers: `*` covers one segment that is not empty.
segment_covers : Text → Text → Bool
segment_covers p c = if p == codes "*" then not (c == []) else p == c

segments_cover : List Text → List Text → Bool
unfolding segment_covers
segments_cover [] [] = true
segments_cover (p ∷ ps) (c ∷ cs) = segment_covers p c && segments_cover ps cs
segments_cover _ _ = false

parts_cover : UriParts → UriParts → Bool
unfolding segments_cover split_on
parts_cover p c =
    (p.scheme == c.scheme)
    && (p.authority == c.authority)
    && segments_cover (split_on b'/' p.path) (split_on b'/' c.path)

-- Both URIs decompose, and their parts match.
splits_cover : Result UriErr UriParts → Result UriErr UriParts → Bool
unfolding parts_cover
splits_cover (err e) rc = false
splits_cover (ok pp) (err e) = false
splits_cover (ok pp) (ok cp) = parts_cover pp cp

canonical_covers : Text → Text → Bool
unfolding split_canonical_uri splits_cover
canonical_covers p c =
    if p == c then true else splits_cover (split_canonical_uri p) (split_canonical_uri c)

results_cover : Result UriErr Text → Result UriErr Text → Bool
unfolding canonical_covers
results_cover (err e) rc = false
results_cover (ok p) (err e) = false
results_cover (ok p) (ok c) = canonical_covers p c

unfoldable pub uri_covers : Text → Text → Bool
unfolding canonicalize_uri results_cover
uri_covers parent child = results_cover (canonicalize_uri parent) (canonicalize_uri child)
