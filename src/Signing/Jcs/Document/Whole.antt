-- ===== src/Signing/Jcs/Document/Whole.antt =====
-- Canonicalize on a whole document, with fuel that is enough.
use adtp.Prelude.{
  ℕ, ◌+◌, ◌≤◌, ◌<◌, ◌≡◌, refl, ap, ◌∙◌, Bool, List, arith, Text, Result, ok, err, length,
}
use adtp.Signing.Jcs.{JcsErr, Token, end_of_input, Decoder, canonicalize_value}
use adtp.Signing.Jcs.Tree.{
  Json, Fields, Items, rounds, rounds_fields, rounds_items, Gives, Reads, ReadsFields, ReadsItems,
  canonical, read_string, read_number, read_boolean, read_null, read_object, read_array, end_fields,
  read_field, end_items, read_item,
}
use adtp.Signing.Jcs.Canonical.{canonicalize_value_lem}
use adtp.Signing.Jcs.Document.{canonicalize, validate_text_encoding, finished, at_end}

module _ {D : Type 0} (decoder : Decoder D) (left : D → ℕ) where
  -- A token takes at least one byte of those that are left.
  abbrev pub Consumes : Type 0
  Consumes = (d d' : D) (t : Token) → Gives decoder d t d' → left d' < left d

  finished-at_end :
      (new_decoder : Text → D) (utf16 : Text → List ℕ) (utf8_valid : Text → Bool) (d d' : D)
      (p : D × Result JcsErr Text) (c : Result JcsErr Text)
      → p.1 ≡ c
      → ((t : Text) → c ≡ ok t → p ≡ (d, ok t))
      → decoder.token d ≡ (d', err end_of_input)
      → finished decoder new_decoder utf16 utf8_valid p ≡ c
  unfolding finished at_end
  finished-at_end new_decoder utf16 utf8_valid d d' p (err e) q h end =
      ap (λ r. finished decoder new_decoder utf16 utf8_valid (p.0, r)) q
  finished-at_end new_decoder utf16 utf8_valid d d' p (ok t) q h end =
      ap (finished decoder new_decoder utf16 utf8_valid) (h t refl) ∙ ap (λ x. at_end t x.1) end

  module _ (consumes : Consumes) where
    mutual
      unfolding rounds

      value_rounds :
          (d d' : D) (v : Json)
          → Reads decoder d v d'
          → rounds v + 1 + left d' + left d' ≤ left d + left d
      value_rounds d d' _ (read_string s g) = omega (arith, consumes _ _ _ g)
      value_rounds d d' _ (read_number n g) = omega (arith, consumes _ _ _ g)
      value_rounds d d' _ (read_boolean b g) = omega (arith, consumes _ _ _ g)
      value_rounds d d' _ (read_null g) = omega (arith, consumes _ _ _ g)
      value_rounds d d' _ (read_object {m = m} fs g r) =
          omega (arith, consumes _ _ _ g, fields_rounds m d' fs r)
      value_rounds d d' _ (read_array {m = m} is g r) =
          omega (arith, consumes _ _ _ g, items_rounds m d' is r)

      fields_rounds :
          (d d' : D) (fs : Fields)
          → ReadsFields decoder d fs d'
          → rounds_fields fs + 1 + left d' + left d' ≤ left d + left d
      fields_rounds d d' _ (end_fields more g) = omega (arith, consumes _ _ _ g)
      fields_rounds d d' _ (read_field {m = m} {n = n} key v fs more g r rs) =
          omega (arith, consumes _ _ _ g, value_rounds m n v r, fields_rounds n d' fs rs)

      items_rounds :
          (d d' : D) (is : Items)
          → ReadsItems decoder d is d'
          → rounds_items is + 1 + left d' + left d' ≤ left d + left d
      items_rounds d d' _ (end_items more g) = omega (arith, consumes _ _ _ g)
      items_rounds d d' _ (read_item {m = m} v is more r rs) =
          omega (arith, value_rounds d m v r, items_rounds m d' is rs)

    -- On a text with a valid encoding whose tokens spell a JSON tree and then end, Canonicalize returns the
    -- canonical form of the tree, or the error that this has (a repeated key, a number that is no integer), and never runs out of fuel. A
    -- token of the decoder is assumed to take a byte at least.
    pub canonicalize_lem :
        (new_decoder : Text → D) (utf16 : Text → List ℕ) (utf8_valid : Text → Bool) (text : Text)
        (v : Json) (d d' : D)
        → validate_text_encoding utf8_valid text ≡ ok tt
        → left (new_decoder text) ≤ length text
        → Reads decoder (new_decoder text) v d
        → decoder.token d ≡ (d', err end_of_input)
        → canonicalize decoder new_decoder utf16 utf8_valid text ≡ canonical utf16 v
    unfolding canonicalize
    canonicalize_lem new_decoder utf16 utf8_valid text v d d' valid enough r end =
        let fuel = length text + length text in
        let start = new_decoder text in
        let (result, whole) =
          canonicalize_value_lem decoder utf16 fuel start d v r
            (omega (arith, value_rounds start d v r)) in
        rw valid (
          finished-at_end new_decoder utf16 utf8_valid d d'
            (canonicalize_value decoder utf16 fuel start) (canonical utf16 v) result whole end)
