-- ===== src/Signing/Jcs/Order.antt =====
-- The order of an object's members does not show in its canonical form.
use adtp.Prelude.{
  ℕ, ◌≡◌, ◌≢◌, refl, ap, ap₂, Bool-cases, ◌⊎◌, inl, inr, Bool, true, false, List, [], ◌∷◌, ◌++◌,
  arith, ℕ-eq, ◌==◌, eq_iff, All, pos, ltb_ℤ, IsOrder, Apart, AllApart, Shuffle, sort_by-Shuffle,
}
use adtp.Signing.Jcs.{compare_utf16, Member, member_less, map_members, commas, write_object}

-- compareUTF16 as a test.
before : List ℕ → List ℕ → Bool
unfolding compare_utf16
before a b = ltb_ℤ (compare_utf16 a b) (pos 0)

before-asymmetric : (a b : List ℕ) → before a b ≡ true → before b a ≡ false
unfolding before
before-asymmetric [] [] h = cc
before-asymmetric [] (y ∷ b) h = refl
before-asymmetric (x ∷ a) [] h = cc
before-asymmetric (x ∷ a) (y ∷ b) h = ground (arith, before-asymmetric a b)

before-between : (a b c : List ℕ) → before a c ≡ true → (before a b ≡ true) ⊎ (before b c ≡ true)
unfolding before
before-between [] [] [] h = cc
before-between [] [] (z ∷ c) h = inr refl
before-between [] (y ∷ b) c h = inl refl
before-between (x ∷ a) b [] h = cc
before-between (x ∷ a) [] (z ∷ c) h = inr refl
before-between (x ∷ a) (y ∷ b) (z ∷ c) h = ground (arith, before-between a b c)

before-apart : (a b : List ℕ) → a ≢ b → (before a b ≡ true) ⊎ (before b a ≡ true)
unfolding before
before-apart [] [] n = absurd (n refl)
before-apart [] (y ∷ b) n = inl refl
before-apart (x ∷ a) [] n = inr refl
before-apart (x ∷ a) (y ∷ b) n = elim (Bool-cases (x == y)) [
  | inl q ↦
      ground (arith, before-apart a b (λ same. n (ap₂ (λ z zs. z ∷ zs) ((eq_iff x y).0 q) same)))
  | inr q ↦ ground arith
]

member_less-IsOrder : IsOrder member_less
unfolding member_less before
member_less-IsOrder = record {
  asymmetric = λ m n. before-asymmetric m.key16 n.key16;
  between = λ m n o. before-between m.key16 n.key16 o.key16;
}

-- No two members have the same UTF-16 key.
abbrev pub DistinctKeys : List Member → Type 0
DistinctKeys [] = Unit
DistinctKeys (m ∷ ms) = All (λ n. m.key16 ≢ n.key16) ms × DistinctKeys ms

Apart-one : (m n : Member) → m.key16 ≢ n.key16 → Apart member_less m n
unfolding member_less before
Apart-one m n h = before-apart m.key16 n.key16 h

DistinctKeys-AllApart : (ms : List Member) → DistinctKeys ms → AllApart member_less ms
DistinctKeys-AllApart [] h = tt
DistinctKeys-AllApart (m ∷ ms) (h, hs) = (apart ms h, DistinctKeys-AllApart ms hs)
  where
    apart : (ns : List Member) → All (λ n. m.key16 ≢ n.key16) ns → All (Apart member_less m) ns
    apart [] h = tt
    apart (n ∷ ns) (h, hs) = (Apart-one m n h, apart ns hs)

-- What canonicalizeObject writes of members whose UTF-16 keys differ does not depend on the order in which they
-- come.
pub write_object-Shuffle :
    {ms ns : List Member} → Shuffle ms ns → DistinctKeys ms → write_object ms ≡ write_object ns
unfolding write_object
write_object-Shuffle {ms = ms} s h =
    ap (λ xs. b'{' ∷ commas (map_members xs) ++ b'}' ∷ [])
      (sort_by-Shuffle member_less member_less-IsOrder s (DistinctKeys-AllApart ms h))
