-- ===== src/Signing/Jcs/Canonical.antt =====
-- The canonicalizer on a decoder's tokens is the canonical form of the tree that they spell.
use mathlib.Core.List.{append_assoc, append-nil}
use adtp.Prelude.{
  ℕ, zero, suc, ◌+◌, ◌≤◌, ◌≡◌, refl, sym, ap, ap₂, subst, ◌∙◌, Bool, true, false, List, [], ◌∷◌,
  ◌++◌, arith, Text, Text-eq, codes, ℕ-eq, ◌==◌, contains, Result, ok, err, fail_if,
}
use adtp.Prelude
use adtp.Prelude.Steps.{
  Steps, ◌>>=◌, pure, lift, Ends, after-Ends, lift-Ends, pure-Ends, same-Ends, >>=-Ends, equal-Ends,
}
use adtp.Signing.Jcs
use adtp.Signing.Jcs.{
  JcsErr, duplicate_key, Member, Token, Decoder, next, wrapped, key_of, canonicalize_token,
  canonicalize_value, object_members, array_elements, write_object, write_array, write_string,
  write_number,
}
use adtp.Signing.Jcs.Tree.{
  Json, Fields, Items, string, number, boolean, null, object, array, canonical, canonical_fields,
  canonical_items, rounds, rounds_fields, rounds_items, Gives, Reads, ReadsFields, ReadsItems,
  read_string, read_number, read_boolean, read_null, read_object, read_array, end_fields,
  read_field, end_items, read_item,
}

-- `r >>= ok` is `r`.
bind-ok : {A : Type 0} (r : Result JcsErr A) → (Prelude.◌>>=◌ r (λ a. ok a)) ≡ r
bind-ok (ok a) = refl
bind-ok (err e) = refl

reassoc :
    (x : Result JcsErr Unit) (y : Result JcsErr Text) (z : Result JcsErr (List Member))
    (ms : List Member) (member : Text → Member)
    → Prelude.◌>>=◌ x (λ _.
      Prelude.◌>>=◌ y (λ value. Prelude.◌>>=◌ z (λ rest. ok ((ms ++ member value ∷ []) ++ rest))))
      ≡ Prelude.◌>>=◌
          (Prelude.◌>>=◌ x
            (λ _. Prelude.◌>>=◌ y (λ value. Prelude.◌>>=◌ z (λ rest. ok (member value ∷ rest)))))
          (λ rest. ok (ms ++ rest))
reassoc (err e) y z ms member = refl
reassoc (ok _) (err e) z ms member = refl
reassoc (ok _) (ok value) (err e) ms member = refl
reassoc (ok _) (ok value) (ok rest) ms member = ap ok (append_assoc ms (member value ∷ []) rest)

lift-ok : {D : Type 0} (key : Text) (d : D) → lift {E = JcsErr} (ok key) d ≡ (d, ok key)
unfolding lift
lift-ok key d = refl

positive : (v : Json) → rounds v ≤ 0 → ⊥
unfolding rounds
positive (string s) h = omega arith
positive (number n) h = omega arith
positive (boolean b) h = omega arith
positive null h = omega arith
positive (object fs) h = omega arith
positive (array is) h = omega arith

module _ {D : Type 0} (decoder : Decoder D) (utf16 : Text → List ℕ) where
  next_token : {d d' : D} (t : Token) → Gives decoder d t d' → next decoder utf16 d ≡ (d', ok t)
  unfolding next wrapped
  next_token t h = ap wrapped h

  -- A key's member.
  abbrev member : Text → Text → Member
  member key value = record { key = key; key16 = utf16 key; value = value }

  -- The rounds of the three loops, by the token that each begins with.
  token-Ends :
      (fuel : ℕ) {d n d' : D} (t : Token) {r : Result JcsErr Text}
      → Gives decoder d t n
      → Ends
          (canonicalize_token decoder utf16
            (object_members decoder utf16 fuel [] [])
            (array_elements decoder utf16 fuel)
            t)
          n
          r
          d'
      → Ends (canonicalize_value decoder utf16 (suc fuel)) d r d'
  unfolding canonicalize_value
  token-Ends fuel t g h =
      after-Ends (next decoder utf16)
        (canonicalize_token decoder utf16 (object_members decoder utf16 fuel [] [])
          (array_elements decoder utf16 fuel))
        t (next_token t g) h

  fields_end :
      (fuel : ℕ) (seen : List Text) (ms : List Member) {d d' : D} (t : Token)
      → decoder.more d ≡ false
      → Gives decoder d t d'
      → Ends (object_members decoder utf16 (suc fuel) seen ms) d (ok ms) d'
  unfolding object_members
  fields_end fuel seen ms t more g =
      same-Ends (object_members decoder utf16 (suc fuel) seen ms)
        (next decoder utf16 >>= λ _. pure ms) (rw more refl)
        (after-Ends (next decoder utf16) (λ _. pure ms) t (next_token t g) (pure-Ends ms _))

  field-Ends :
      (fuel : ℕ) (seen : List Text) (ms : List Member) {d n d' : D} (key : Text)
      {r : Result JcsErr (List Member)}
      → decoder.more d ≡ true
      → Gives decoder d (Jcs.string key) n
      → Ends
          (lift (fail_if (contains seen key) duplicate_key) >>= λ _.
            canonicalize_value decoder utf16 fuel >>= λ value.
            object_members decoder utf16 fuel (key ∷ seen) (ms ++ member key value ∷ []))
          n
          r
          d'
      → Ends (object_members decoder utf16 (suc fuel) seen ms) d r d'
  unfolding object_members key_of
  field-Ends fuel seen ms {n = n} key more g h =
      let checked : Text → Steps D JcsErr (List Member) = λ k.
        lift (fail_if (contains seen k) duplicate_key) >>= λ _.
        canonicalize_value decoder utf16 fuel >>= λ value.
        object_members decoder utf16 fuel (k ∷ seen) (ms ++ member k value ∷ []) in
      let keyed : Token → Steps D JcsErr (List Member) =
        λ t. lift (key_of decoder utf16 t) >>= checked in
      same-Ends (object_members decoder utf16 (suc fuel) seen ms) (next decoder utf16 >>= keyed)
        (rw more refl)
        (after-Ends (next decoder utf16) keyed (Jcs.string key) (next_token (Jcs.string key) g)
          (after-Ends (lift (ok key)) checked key (lift-ok key n) h))

  items_end :
      (fuel : ℕ) {d d' : D} (t : Token)
      → decoder.more d ≡ false
      → Gives decoder d t d'
      → Ends (array_elements decoder utf16 (suc fuel)) d (ok []) d'
  unfolding array_elements
  items_end fuel t more g =
      same-Ends (array_elements decoder utf16 (suc fuel)) (next decoder utf16 >>= λ _. pure [])
        (rw more refl)
        (after-Ends (next decoder utf16) (λ _. pure []) t (next_token t g) (pure-Ends [] _))

  item-Ends :
      (fuel : ℕ) {d d' : D} {r : Result JcsErr (List Text)}
      → decoder.more d ≡ true
      → Ends
          (canonicalize_value decoder utf16 fuel >>= λ value.
            array_elements decoder utf16 fuel >>= λ rest. pure (value ∷ rest))
          d
          r
          d'
      → Ends (array_elements decoder utf16 (suc fuel)) d r d'
  unfolding array_elements
  item-Ends fuel more h =
      same-Ends (array_elements decoder utf16 (suc fuel))
        (canonicalize_value decoder utf16 fuel >>= λ value.
          array_elements decoder utf16 fuel >>= λ rest. pure (value ∷ rest))
        (rw more refl) h

  mutual
    unfolding canonical canonicalize_token rounds

    value-Ends :
        (fuel : ℕ) {d d' : D} (v : Json)
        → Reads decoder d v d'
        → rounds v ≤ fuel
        → Ends (canonicalize_value decoder utf16 fuel) d (canonical utf16 v) d'
    value-Ends zero v r h = absurd (positive v h)
    value-Ends (suc fuel) _ (read_string s g) h =
        token-Ends fuel (Jcs.string s) g (pure-Ends (write_string s) _)
    value-Ends (suc fuel) _ (read_number n g) h =
        token-Ends fuel (Jcs.number n) g (lift-Ends (write_number n) _)
    value-Ends (suc fuel) _ (read_boolean true g) h =
        token-Ends fuel (Jcs.boolean true) g (pure-Ends (codes "true") _)
    value-Ends (suc fuel) _ (read_boolean false g) h =
        token-Ends fuel (Jcs.boolean false) g (pure-Ends (codes "false") _)
    value-Ends (suc fuel) _ (read_null g) h =
        token-Ends fuel Jcs.null g (pure-Ends (codes "null") _)
    value-Ends (suc fuel) _ (read_object fs g r) h = token-Ends fuel (Jcs.delim b'{') g (
        >>=-Ends (object_members decoder utf16 fuel [] []) (λ ms. pure (write_object ms))
          (λ ms. ok (write_object ms)) (canonical_fields utf16 [] fs)
          (equal-Ends (object_members decoder utf16 fuel [] [])
            (bind-ok (canonical_fields utf16 [] fs)) (fields-Ends fuel [] [] fs r (omega arith)))
          (λ ms _. pure-Ends (write_object ms) _))
    value-Ends (suc fuel) _ (read_array is g r) h = token-Ends fuel (Jcs.delim b'[') g (
        >>=-Ends (array_elements decoder utf16 fuel) (λ ts. pure (write_array ts))
          (λ ts. ok (write_array ts)) (canonical_items utf16 is)
          (items-Ends fuel is r (omega arith)) (λ ts _. pure-Ends (write_array ts) _))

    fields-Ends :
        (fuel : ℕ) (seen : List Text) (ms : List Member) {d d' : D} (fs : Fields)
        → ReadsFields decoder d fs d'
        → rounds_fields fs ≤ fuel
        → Ends
            (object_members decoder utf16 fuel seen ms)
            d
            (Prelude.◌>>=◌ (canonical_fields utf16 seen fs) (λ rest. ok (ms ++ rest)))
            d'
    fields-Ends zero seen ms _ (end_fields more g) h = absurd (omega arith)
    fields-Ends zero seen ms _ (read_field key v fs more g r rs) h = absurd (omega arith)
    fields-Ends (suc fuel) seen ms _ (end_fields more g) h =
        equal-Ends (object_members decoder utf16 (suc fuel) seen ms) (ap ok (sym (append-nil ms)))
          (fields_end fuel seen ms (Jcs.delim b'}') more g)
    fields-Ends (suc fuel) seen ms _ (read_field key v fs more g r rs) h =
        let unseen = fail_if (contains seen key) duplicate_key in
        let all = λ (value : Text).
          Prelude.◌>>=◌ (canonical_fields utf16 (key ∷ seen) fs)
            (λ rest. ok ((ms ++ member key value ∷ []) ++ rest)) in
        equal-Ends (object_members decoder utf16 (suc fuel) seen ms)
          (reassoc unseen (canonical utf16 v) (canonical_fields utf16 (key ∷ seen) fs) ms
            (member key))
          (field-Ends fuel seen ms key more g (
            >>=-Ends (lift unseen)
              (λ _. canonicalize_value decoder utf16 fuel >>= λ value.
                object_members decoder utf16 fuel (key ∷ seen) (ms ++ member key value ∷ []))
              (λ _. Prelude.◌>>=◌ (canonical utf16 v) all) unseen (lift-Ends unseen _)
              (λ _ _.
                >>=-Ends (canonicalize_value decoder utf16 fuel)
                  (λ value.
                    object_members decoder utf16 fuel (key ∷ seen) (ms ++ member key value ∷ []))
                  all (canonical utf16 v) (value-Ends fuel v r (omega arith))
                  (λ value _.
                    fields-Ends fuel (key ∷ seen) (ms ++ member key value ∷ []) fs rs
                      (omega arith)))))

    items-Ends :
        (fuel : ℕ) {d d' : D} (is : Items)
        → ReadsItems decoder d is d'
        → rounds_items is ≤ fuel
        → Ends (array_elements decoder utf16 fuel) d (canonical_items utf16 is) d'
    items-Ends zero _ (end_items more g) h = absurd (omega arith)
    items-Ends zero _ (read_item v is more r rs) h = absurd (omega arith)
    items-Ends (suc fuel) _ (end_items more g) h = items_end fuel (Jcs.delim b']') more g
    items-Ends (suc fuel) _ (read_item v is more r rs) h =
        let all =
          λ (value : Text). Prelude.◌>>=◌ (canonical_items utf16 is) (λ rest. ok (value ∷ rest)) in
        item-Ends fuel more (
          >>=-Ends (canonicalize_value decoder utf16 fuel)
            (λ value. array_elements decoder utf16 fuel >>= λ rest. pure (value ∷ rest)) all
            (canonical utf16 v) (value-Ends fuel v r (omega arith))
            (λ value _.
              >>=-Ends (array_elements decoder utf16 fuel) (λ rest. pure (value ∷ rest))
                (λ rest. ok (value ∷ rest)) (canonical_items utf16 is)
                (items-Ends fuel is rs (omega arith)) (λ rest _. pure-Ends (value ∷ rest) _)))

  -- On a decoder that reads a JSON tree, `canonicalizeValue` with the rounds that the tree takes, or more, returns
  -- the canonical form of the tree, or the error that this has, a repeated key included; when it succeeds it has read
  -- exactly the tree's tokens.
  pub canonicalize_value_lem :
      (fuel : ℕ) (d d' : D) (v : Json)
      → Reads decoder d v d'
      → rounds v ≤ fuel
      → ((canonicalize_value decoder utf16 fuel d).1 ≡ canonical utf16 v)
        × ((t : Text)
            → canonical utf16 v ≡ ok t
            → canonicalize_value decoder utf16 fuel d ≡ (d', ok t))
  canonicalize_value_lem fuel d d' v r h =
      let e = value-Ends fuel v r h in
      (ap (λ p. p.1) e.runs, λ t q. e.runs ∙ ap₂ (λ x y. (x, y)) (e.there t q) q)
