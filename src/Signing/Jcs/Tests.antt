-- ===== src/Signing/Jcs/Tests.antt =====
-- The canonicalizer on a decoder that is a list of tokens.
use adtp.Prelude.{
  err-ne-ok, false-ne-true, ◌≡◌, refl, ℕ, Bool, true, false, List, [], ◌∷◌, ◌++◌, Text, Text-eq,
  text_eq, text_eq_iff, codes, ok, err, Result, ℕ-eq, ◌==◌, swap, ◌≤◌, ◌<◌, suc, ap, length, ◌||◌,
  arith,
}
use adtp.Signing.Jcs.{
  JcsErr, lone_surrogate, duplicate_key, Decoder, Token, DecodeErr, end_of_input, Member,
  write_object, write_string, canonicalize_value,
}
use adtp.Signing.Jcs
use adtp.Signing.Jcs.Tree.{
  Json, object, number, boolean, field, no_fields, Reads, read_object, read_field, read_number,
  read_boolean, end_fields, canonical,
}
use adtp.Signing.Jcs.Document.Whole.{Consumes, canonicalize_lem}
use adtp.Signing.Jcs.Order.{write_object-Shuffle}
use adtp.Signing.Jcs.Strings.{write_string_injective}
use adtp.Signing.Jcs.Document.{canonicalize, validate_text_encoding, scan_outside}

abbrev token : List Token → List Token × Result DecodeErr Token
token [] = ([], err end_of_input)
token (t ∷ ts) = (ts, ok t)

abbrev more : List Token → Bool
more [] = false
more (Jcs.delim c ∷ ts) = (c == b'{') || (c == b'[')
more (t ∷ ts) = true

abbrev decoder : Decoder (List Token)
decoder = record { token = token; more = more }

abbrev utf16 : Text → List ℕ
utf16 s = s

-- {"b": 1, "a": true}
abbrev tokens : List Token
tokens =
    Jcs.delim b'{'
    ∷ Jcs.string (codes "b")
    ∷ Jcs.number (codes "1")
    ∷ Jcs.string (codes "a")
    ∷ Jcs.boolean true
    ∷ Jcs.delim b'}'
    ∷ []

abbrev tree : Json
tree = object (field (codes "b") (number (codes "1")) (field (codes "a") (boolean true) no_fields))

abbrev field_a : Member
field_a = record { key = codes "a"; key16 = codes "a"; value = codes "true" }

abbrev field_b : Member
field_b = record { key = codes "b"; key16 = codes "b"; value = codes "1" }

read_run : Reads decoder tokens tree []
read_run = read_object _ refl (
    read_field (codes "b") _ _ refl refl (read_number (codes "1") refl)
      (read_field (codes "a") _ _ refl refl (read_boolean true refl) (end_fields refl refl)))

abbrev text : Text
text = codes "{\"b\":1,\"a\":true}"

consumes : Consumes decoder length
consumes [] d' t g = absurd (err-ne-ok (ap (λ p. p.1) g))
consumes (x ∷ d) d' t g = shorter d d' (ap (λ p. p.0) g)
  where
    shorter : (d d' : List Token) → d ≡ d' → length d' < suc (length d)
    shorter d d' h = ground (arith, ap length h)

short : length tokens ≤ length text
short = omega arith

canonicalize_lem_example :
    canonicalize decoder (λ _. tokens) utf16 (λ _. true) text ≡ canonical utf16 tree
unfolding validate_text_encoding scan_outside
canonicalize_lem_example =
    canonicalize_lem decoder length consumes (λ _. tokens) utf16 (λ _. true) text tree [] [] refl
      short read_run refl

canonical_run : canonical utf16 tree ≡ ok (write_object (field_a ∷ field_b ∷ []))
unfolding canonical text_eq
canonical_run = refl

-- A lone surrogate is refused.
surrogate_run : scan_outside (b'"' ∷ b'\\' ∷ codes "ud800" ++ b'"' ∷ []) ≡ err lone_surrogate
unfolding scan_outside
surrogate_run = refl

repeated_run :
    canonicalize decoder
      (λ _.
        Jcs.delim b'{' ∷ Jcs.string [] ∷ Jcs.null ∷ Jcs.string [] ∷ Jcs.null ∷ Jcs.delim b'}' ∷ [])
      utf16
      (λ _. true)
      (codes "123456789")
    ≡ err duplicate_key
unfolding canonicalize text_eq
repeated_run = refl

abbrev one : Member
one = record { key = codes "b"; key16 = codes "b"; value = codes "1" }

abbrev two : Member
two = record { key = codes "a"; key16 = codes "a"; value = codes "2" }

apart_keys : ¬ (◌≡◌ {A = Text} (codes "b") (codes "a"))
unfolding text_eq
apart_keys h = false-ne-true ((text_eq_iff (codes "b") (codes "a")).1 h)

write_object-Shuffle_example : write_object (one ∷ two ∷ []) ≡ write_object (two ∷ one ∷ [])
write_object-Shuffle_example = write_object-Shuffle (swap one two []) ((apart_keys, tt), (tt, tt))

write_string_injective_example : (codes "a" ≡ codes "a") × (codes ",1" ≡ codes ",1")
write_string_injective_example =
    write_string_injective (codes "a") (codes "a") (codes ",1") (codes ",1") refl
