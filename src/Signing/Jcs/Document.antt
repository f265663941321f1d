-- ===== src/Signing/Jcs/Document.antt =====
-- internal/signing/jcs.go: Canonicalize, ValidateIJSON and the check of the text's encoding. utf8.Valid and
-- json.NewDecoder are parameters.
pub mod Whole
use adtp.Prelude.{
  ℕ, suc, ◌+◌, ◌-◌, ◌*◌, Bool, true, false, not, ◌&&◌, ◌||◌, Option, none, some, List, [], ◌∷◌, ltb,
  Text, ℕ-eq, ◌==◌, if◌then◌else◌, Result, ok, err, ◌>>=◌, ◌>>◌, fail_if, in_range, length,
}
use adtp.Signing.Jcs.{
  JcsErr, invalid_json, invalid_utf8, lone_surrogate, trailing_data, Decoder, Token, DecodeErr,
  end_of_input, canonicalize_value,
}

hex_value : ℕ → Option ℕ
hex_value b =
    if in_range b'0' b'9' b
    then some (b - b'0')
    else if in_range b'a' b'f' b
    then some (b - b'a' + 10)
    else if in_range b'A' b'F' b
    then some (b - b'A' + 10)
    else none

-- One round of hex4's loop: v << 4 | digit.
shift_in : Option ℕ → Option ℕ → Option ℕ
shift_in none d = none
shift_in (some v) none = none
shift_in (some v) (some d) = some (v * 16 + d)

hex4 : ℕ → ℕ → ℕ → ℕ → Option ℕ
unfolding hex_value shift_in
hex4 a b c d =
    shift_in (shift_in (shift_in (hex_value a) (hex_value b)) (hex_value c)) (hex_value d)

is_surrogate : ℕ → Bool
is_surrogate c = in_range 0xD800 0xDFFF c

-- utf16.DecodeRune finds a pair: a high half and a low half.
is_pair : ℕ → ℕ → Bool
is_pair hi lo = in_range 0xD800 0xDBFF hi && in_range 0xDC00 0xDFFF lo

-- The loop of validateTextEncoding: outside a string, in one, behind a \u, and behind a surrogate. A data[i]
-- out of range is the end of the list.
unfoldable mutual
  unfolding hex4 is_surrogate is_pair

  pub scan_outside : Text → Result JcsErr Unit
  scan_outside [] = ok tt
  scan_outside (c ∷ s) = elim (c == b'"') [ true ↦ scan_string s | false ↦ scan_outside s ]

  pub scan_string : Text → Result JcsErr Unit
  scan_string [] = ok tt
  scan_string (c ∷ []) = if c == b'\\' then err invalid_json else ok tt
  scan_string (c ∷ d ∷ s) = elim (c == b'"') [
    | true ↦ scan_outside (d ∷ s)
    | false ↦ elim (c == b'\\') [
      | false ↦ scan_string (d ∷ s)
      | true ↦ elim (d == b'u') [ true ↦ scan_escape s | false ↦ scan_string s ]
    ]
  ]

  pub scan_escape : Text → Result JcsErr Unit
  scan_escape (a ∷ b ∷ c ∷ d ∷ s) = elim (hex4 a b c d) [
    | none ↦ err invalid_json
    | some hi ↦ elim (is_surrogate hi) [ true ↦ scan_low hi s | false ↦ scan_string s ]
  ]
  scan_escape _ = err invalid_json

  pub scan_low : ℕ → Text → Result JcsErr Unit
  scan_low hi (x ∷ y ∷ a ∷ b ∷ c ∷ d ∷ s) = elim (hex4 a b c d) [
    | none ↦ err lone_surrogate
    | some lo ↦ elim ((x == b'\\') && (y == b'u') && is_pair hi lo) [
      | true ↦ scan_string s
      | false ↦ err lone_surrogate
    ]
  ]
  scan_low hi _ = err lone_surrogate

unfoldable pub validate_text_encoding : (Text → Bool) → Text → Result JcsErr Unit
unfolding scan_outside
validate_text_encoding utf8_valid text = do
  fail_if (not (utf8_valid text)) invalid_utf8
  scan_outside text

-- The token behind the value must be the end of input.
at_end : Text → Result DecodeErr Token → Result JcsErr Text
at_end out (err end_of_input) = ok out
at_end out _ = err trailing_data

module _ {D : Type 0} (decoder : Decoder D) (new_decoder : Text → D) (utf16 : Text → List ℕ)
    (utf8_valid : Text → Bool) where
  finished : D × Result JcsErr Text → Result JcsErr Text
  unfolding at_end
  finished (d, err e) = err e
  finished (d, ok out) = at_end out ((decoder.token d).1)

  -- Canonicalize. Of two rounds one at least reads a token, which has a byte: twice the length is fuel enough.
  unfoldable pub canonicalize : Text → Result JcsErr Text
  unfolding validate_text_encoding canonicalize_value finished
  canonicalize text = do
    validate_text_encoding utf8_valid text
    finished (canonicalize_value decoder utf16 (length text + length text) (new_decoder text))

  -- ValidateIJSON
  unfoldable pub validate_ijson : Text → Result JcsErr Unit
  unfolding canonicalize
  validate_ijson text = do out ← canonicalize text; ok tt
