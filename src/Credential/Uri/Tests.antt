-- ===== src/Credential/Uri/Tests.antt =====
-- Runs of the URI profile.
use adtp.Prelude.{◌≡◌, refl, ◌↔◌, Text, true, false, codes, text_eq, ok, err}
use adtp.Credential.Uri.Covers.{Matches, uri_covers_iff, uri_covers_trans}
use adtp.Credential.Uri.{
  canonicalize_uri, uri_covers, encoded_separator, dot_segment, userinfo_not_allowed, invalid_port,
}

canonical_run :
    canonicalize_uri (codes "HTTPS://ExAmple.com:443/a%2Db/%3f")
    ≡ ok (codes "https://example.com/a-b/%3F")
unfolding canonicalize_uri text_eq
canonical_run = refl

canonical_ipv6 : canonicalize_uri (codes "tool://[::F]:+080/x") ≡ ok (codes "tool://[::f]:80/x")
unfolding canonicalize_uri text_eq
canonical_ipv6 = refl

encoded_slash : canonicalize_uri (codes "tool://a/b%2Fc") ≡ err encoded_separator
unfolding canonicalize_uri text_eq
encoded_slash = refl

encoded_dots : canonicalize_uri (codes "tool://a/%2e%2e/c") ≡ err dot_segment
unfolding canonicalize_uri text_eq
encoded_dots = refl

user_info : canonicalize_uri (codes "tool://u@a/c") ≡ err userinfo_not_allowed
unfolding canonicalize_uri text_eq
user_info = refl

bad_port : canonicalize_uri (codes "tool://a:65536/c") ≡ err invalid_port
unfolding canonicalize_uri text_eq
bad_port = refl

covers_wildcard : uri_covers (codes "tool://x/*/b") (codes "tool://X/a/b") ≡ true
unfolding uri_covers text_eq
covers_wildcard = refl

covers_one_segment : uri_covers (codes "tool://x/*") (codes "tool://x/a/b") ≡ false
unfolding uri_covers text_eq
covers_one_segment = refl

-- Not so by the rule of PROTOCOL.md.
covers_no_prefix : uri_covers (codes "tool://h/x") (codes "tool://h/x/y") ≡ false
unfolding uri_covers text_eq
covers_no_prefix = refl

covers_no_empty : uri_covers (codes "tool://x/*") (codes "tool://x/") ≡ false
unfolding uri_covers text_eq
covers_no_empty = refl

uri_covers_iff_example : (uri_covers (codes "tool://x/*") (codes "TOOL://x/a") ≡ true) ↔ (
    (p : Text) × (c : Text) × (canonicalize_uri (codes "tool://x/*") ≡ ok p)
    × (canonicalize_uri (codes "TOOL://x/a") ≡ ok c)
    × Matches p c)
uri_covers_iff_example = uri_covers_iff (codes "tool://x/*") (codes "TOOL://x/a")

wide_covers : uri_covers (codes "tool://x/*/*") (codes "tool://x/*/b") ≡ true
unfolding uri_covers text_eq
wide_covers = refl

uri_covers_trans_example : uri_covers (codes "tool://x/*/*") (codes "tool://X/a/b") ≡ true
uri_covers_trans_example =
    uri_covers_trans (codes "tool://x/*/*") (codes "tool://x/*/b") (codes "tool://X/a/b")
      wide_covers covers_wildcard
