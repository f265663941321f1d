-- ===== src/Signing/Jcs/Tree.antt =====
-- JSON values as trees: what the canonical form of one is, and when a decoder reads one.
use adtp.Prelude.{
  ℕ, suc, ◌+◌, ◌≡◌, Bool, true, false, List, [], ◌∷◌, Text, Text-eq, codes, contains, Result, ok,
  ◌>>=◌, ◌>>◌, fail_if,
}
use adtp.Signing.Jcs.{
  JcsErr, duplicate_key, Member, Token, Decoder, write_string, write_number, write_object,
  write_array,
}
use adtp.Signing.Jcs

mutual
  pub data Json : Type 0 where
    string : Text → Json
    number : Text → Json
    boolean : Bool → Json
    null : Json
    object : Fields → Json
    array : Items → Json

  pub data Fields : Type 0 where
    no_fields : Fields
    field : Text → Json → Fields → Fields

  pub data Items : Type 0 where
    no_items : Items
    item : Json → Items → Items

module _ (utf16 : Text → List ℕ) where
  unfoldable mutual
    unfolding contains write_string write_number write_object write_array

    -- The canonical form of a tree, by recursion on it.
    pub canonical : Json → Result JcsErr Text
    canonical (string s) = ok (write_string s)
    canonical (number n) = write_number n
    canonical (boolean true) = ok (codes "true")
    canonical (boolean false) = ok (codes "false")
    canonical null = ok (codes "null")
    canonical (object fs) = canonical_fields [] fs >>= λ ms. ok (write_object ms)
    canonical (array is) = canonical_items is >>= λ ts. ok (write_array ts)

    pub canonical_fields : List Text → Fields → Result JcsErr (List Member)
    canonical_fields seen no_fields = ok []
    canonical_fields seen (field key v fs) = do
      fail_if (contains seen key) duplicate_key
      value ← canonical v
      rest ← canonical_fields (key ∷ seen) fs
      ok (record { key = key; key16 = utf16 key; value = value } ∷ rest)

    pub canonical_items : Items → Result JcsErr (List Text)
    canonical_items no_items = ok []
    canonical_items (item v is) = do
      value ← canonical v
      rest ← canonical_items is
      ok (value ∷ rest)

-- The rounds that a tree takes.
unfoldable mutual
  pub rounds : Json → ℕ
  rounds (object fs) = suc (rounds_fields fs)
  rounds (array is) = suc (rounds_items is)
  rounds _ = 1

  pub rounds_fields : Fields → ℕ
  rounds_fields no_fields = 1
  rounds_fields (field key v fs) = suc (rounds v + rounds_fields fs)

  pub rounds_items : Items → ℕ
  rounds_items no_items = 1
  rounds_items (item v is) = suc (rounds v + rounds_items is)

module _ {D : Type 0} (decoder : Decoder D) where
  -- `token d` gives the token and leaves `d'`.
  abbrev pub Gives : D → Token → D → Type 0
  Gives d t d' = decoder.token d ≡ (d', ok t)

  mutual
    -- From `d` the decoder's tokens are those of the tree, which leaves `d'`.
    pub data Reads : D → Json → D → Type 0 where
      read_string : {d d' : D} (s : Text) → Gives d (Jcs.string s) d' → Reads d (string s) d'
      read_number : {d d' : D} (n : Text) → Gives d (Jcs.number n) d' → Reads d (number n) d'
      read_boolean : {d d' : D} (b : Bool) → Gives d (Jcs.boolean b) d' → Reads d (boolean b) d'
      read_null : {d d' : D} → Gives d Jcs.null d' → Reads d null d'
      read_object :
          {d m d' : D} (fs : Fields)
          → Gives d (Jcs.delim b'{') m
          → ReadsFields m fs d'
          → Reads d (object fs) d'
      read_array :
          {d m d' : D} (is : Items)
          → Gives d (Jcs.delim b'[') m
          → ReadsItems m is d'
          → Reads d (array is) d'

    pub data ReadsFields : D → Fields → D → Type 0 where
      end_fields :
          {d d' : D}
          → decoder.more d ≡ false
          → Gives d (Jcs.delim b'}') d'
          → ReadsFields d no_fields d'
      read_field :
          {d m n d' : D} (key : Text) (v : Json) (fs : Fields)
          → decoder.more d ≡ true
          → Gives d (Jcs.string key) m
          → Reads m v n
          → ReadsFields n fs d'
          → ReadsFields d (field key v fs) d'

    pub data ReadsItems : D → Items → D → Type 0 where
      end_items :
          {d d' : D}
          → decoder.more d ≡ false
          → Gives d (Jcs.delim b']') d'
          → ReadsItems d no_items d'
      read_item :
          {d m d' : D} (v : Json) (is : Items)
          → decoder.more d ≡ true
          → Reads d v m
          → ReadsItems m is d'
          → ReadsItems d (item v is) d'
