-- ===== src/Signing/Jcs.antt =====
-- internal/signing/jcs.go: the canonical form of JSON. Go's json.Decoder is the parameter `Decoder`, and the
-- UTF-16 encoding of a key the parameter `utf16`. An output buffer is the text that a call returns; what a
-- failed call wrote is dropped, as Canonicalize does.
pub mod Tree
pub mod Canonical
pub mod Order
pub mod Strings
pub mod Document
pub mod Tests
use adtp.Prelude.{
  ℕ, zero, suc, ◌+◌, ◌-◌, ◌*◌, ◌/◌, ◌%◌, Bool, true, false, not, ◌&&◌, ◌||◌, Option, none, some,
  List, [], ◌∷◌, ◌++◌, ltb, leb, Text, Text-eq, ℕ-eq, codes, ◌==◌, contains, if◌then◌else◌, Result,
  ok, err, ℤ, pos, negsuc, ltb_ℤ, has_byte, in_range, fail_if, sort_by,
}
use adtp.Prelude.Steps.{Steps, ◌>>=◌, ◌>>◌, pure, lift}

-- `out_of_fuel` belongs to the model only.
pub data JcsErr : Type 0 where
  duplicate_key non_integer trailing_data invalid_json invalid_utf8 lone_surrogate out_of_fuel :
      JcsErr

hex_digit : ℕ → ℕ
hex_digit d = if ltb d 10 then b'0' + d else b'a' + (d - 10)

-- The escape of a byte, or the byte.
unfoldable pub escape : ℕ → Text
unfolding hex_digit
escape b =
    if b == b'"'
    then b'\\' ∷ b'"' ∷ []
    else if b == b'\\'
    then b'\\' ∷ b'\\' ∷ []
    else if b == 8
    then b'\\' ∷ b'b' ∷ []
    else if b == 9
    then b'\\' ∷ b't' ∷ []
    else if b == 10
    then b'\\' ∷ b'n' ∷ []
    else if b == 12
    then b'\\' ∷ b'f' ∷ []
    else if b == 13
    then b'\\' ∷ b'r' ∷ []
    else if ltb b 0x20
    then b'\\' ∷ b'u' ∷ b'0' ∷ b'0' ∷ hex_digit (b / 16) ∷ hex_digit (b % 16) ∷ []
    else b ∷ []

unfoldable pub escape_all : Text → Text
unfolding escape
escape_all [] = []
escape_all (b ∷ s) = escape b ++ escape_all s

-- writeString
unfoldable pub write_string : Text → Text
unfolding escape_all
write_string s = b'"' ∷ escape_all s ++ b'"' ∷ []

-- writeNumber, of the literal that the decoder read.
unfoldable pub write_number : Text → Result JcsErr Text
unfolding has_byte
write_number s =
    if has_byte b'.' s || has_byte b'e' s || has_byte b'E' s
    then err non_integer
    else ok (if s == codes "-0" then codes "0" else s)

unfoldable pub compare_utf16 : List ℕ → List ℕ → ℤ
compare_utf16 [] [] = pos 0
compare_utf16 [] (b ∷ t) = negsuc 0
compare_utf16 (a ∷ s) [] = pos 1
compare_utf16 (a ∷ s) (b ∷ t) =
    let rest = compare_utf16 s t in if a == b then rest else if ltb a b then negsuc 0 else pos 1

pub record Member : Type 0 where
  pub key : Text
  pub key16 : List ℕ
  pub value : Text

unfoldable pub member_less : Member → Member → Bool
unfolding compare_utf16
member_less m n = ltb_ℤ (compare_utf16 m.key16 n.key16) (pos 0)

write_member : Member → Text
unfolding write_string
write_member m = write_string m.key ++ b':' ∷ m.value

-- Members or elements with commas between them.
commas : List Text → Text
commas [] = []
commas (t ∷ []) = t
commas (t ∷ u ∷ ts) = t ++ b',' ∷ commas (u ∷ ts)

map_members : List Member → List Text
unfolding write_member
map_members [] = []
map_members (m ∷ ms) = write_member m ∷ map_members ms

-- What canonicalizeObject writes of the members that it read.
unfoldable pub write_object : List Member → Text
unfolding member_less sort_by commas map_members
write_object ms = b'{' ∷ commas (map_members (sort_by member_less ms)) ++ b'}' ∷ []

unfoldable pub write_array : List Text → Text
unfolding commas
write_array ts = b'[' ∷ commas ts ++ b']' ∷ []

-- json.Token; a closing delimiter is one of `delim`.
pub data Token : Type 0 where
  delim : ℕ → Token
  string : Text → Token
  number : Text → Token
  boolean : Bool → Token
  null : Token

pub data DecodeErr : Type 0 where
  end_of_input syntax : DecodeErr

-- json.Decoder with UseNumber: Token and More.
pub record Decoder (D : Type 0) : Type 0 where
  pub token : D → D × Result DecodeErr Token
  pub more : D → Bool

wrapped : {D : Type 0} → D × Result DecodeErr Token → D × Result JcsErr Token
wrapped (d, ok t) = (d, ok t)
wrapped (d, err _) = (d, err invalid_json)

module _ {D : Type 0} (decoder : Decoder D) (utf16 : Text → List ℕ) where
  unfoldable pub next : Steps D JcsErr Token
  unfolding wrapped
  next d = wrapped (decoder.token d)

  -- An object's key.
  key_of : Token → Result JcsErr Text
  key_of (string key) = ok key
  key_of _ = err invalid_json

  -- canonicalizeToken, with what reads the members of an object and the elements of an array.
  unfoldable pub canonicalize_token :
      Steps D JcsErr (List Member) → Steps D JcsErr (List Text) → Token → Steps D JcsErr Text
  unfolding ◌>>=◌ lift pure write_string write_number write_object write_array
  canonicalize_token members elements (delim c) = elim (c == b'{') [
    | true ↦ members >>= λ ms. pure (write_object ms)
    | false ↦ elim (c == b'[') [
      | true ↦ elements >>= λ ts. pure (write_array ts)
      | false ↦ lift (err invalid_json)
    ]
  ]
  canonicalize_token members elements (string s) = pure (write_string s)
  canonicalize_token members elements (number n) = lift (write_number n)
  canonicalize_token members elements (boolean true) = pure (codes "true")
  canonicalize_token members elements (boolean false) = pure (codes "false")
  canonicalize_token members elements null = pure (codes "null")

  unfoldable mutual
    unfolding canonicalize_token next ◌>>=◌ lift pure key_of contains write_string write_number
        write_object write_array

    -- canonicalizeValue
    pub canonicalize_value : ℕ → Steps D JcsErr Text
    canonicalize_value zero = lift (err out_of_fuel)
    canonicalize_value (suc fuel) =
        next >>= canonicalize_token (object_members fuel [] []) (array_elements fuel)

    -- The loop of canonicalizeObject, with the keys seen and the members so far, up to the closing brace.
    pub object_members : ℕ → List Text → List Member → Steps D JcsErr (List Member)
    object_members zero seen ms d = (d, err out_of_fuel)
    object_members (suc fuel) seen ms d = elim (decoder.more d) [
      | false ↦ (next >>= λ _. pure ms) d
      | true ↦
          (do
            token ← next
            key ← lift (key_of token)
            lift (fail_if (contains seen key) duplicate_key)
            value ← canonicalize_value fuel
            object_members fuel (key ∷ seen)
                (ms ++ record { key = key; key16 = utf16 key; value = value } ∷ []))
            d
    ]

    -- The loop of canonicalizeArray.
    pub array_elements : ℕ → Steps D JcsErr (List Text)
    array_elements zero d = (d, err out_of_fuel)
    array_elements (suc fuel) d = elim (decoder.more d) [
      | false ↦ (next >>= λ _. pure []) d
      | true ↦
          (do value ← canonicalize_value fuel; rest ← array_elements fuel; pure (value ∷ rest)) d
    ]
