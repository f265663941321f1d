-- ===== src/Prelude/Sort.antt =====
-- Go's sort.Strings and sort.Slice. sort.Slice is not stable; the program sorts by keys that differ,
-- where the result does not depend on the algorithm.
use mathlib.Core.Path.{◌≡◌, refl, ap, ◌∙◌}
use mathlib.Core.Logic.{◌↔◌, ◌⊎◌, inl, inr}
use mathlib.Core.Bool.{Bool, true, false}
use mathlib.Core.List.{List, [], ◌∷◌}
use native.Mathlib.Omega.{arith}
use adtp.Prelude.Tests.{ltb, nat_eq, if◌then◌else◌}
use adtp.Prelude.Strings.{Text}
use adtp.Prelude.Lists.{All, Occurs}

-- Go's `<` on strings: by bytes, a prefix first.
unfoldable pub text_ltb : Text → Text → Bool
text_ltb [] [] = false
text_ltb [] (b ∷ t) = true
text_ltb (a ∷ s) [] = false
text_ltb (a ∷ s) (b ∷ t) = let rest = text_ltb s t in if nat_eq a b then rest else ltb a b

module _ {A : Type 0} (less : A → A → Bool) where
  unfoldable pub insert_sorted : A → List A → List A
  insert_sorted x [] = x ∷ []
  insert_sorted x (y ∷ ys) =
      let rest = insert_sorted x ys in if less y x then y ∷ rest else x ∷ y ∷ ys

  unfoldable pub sort_by : List A → List A
  unfolding insert_sorted
  sort_by [] = []
  sort_by (x ∷ xs) = insert_sorted x (sort_by xs)

  Occurs-insert_sorted :
      (a x : A) (xs : List A) → Occurs a (insert_sorted x xs) ↔ ((a ≡ x) ⊎ Occurs a xs)
  unfolding insert_sorted
  Occurs-insert_sorted a x [] = ground arith
  Occurs-insert_sorted a x (y ∷ ys) = ground (arith, Occurs-insert_sorted a x ys)

  pub Occurs-sort_by : (a : A) (xs : List A) → Occurs a (sort_by xs) ↔ Occurs a xs
  unfolding sort_by
  Occurs-sort_by a [] = ground arith
  Occurs-sort_by a (x ∷ xs) =
      ground (arith, Occurs-insert_sorted a x (sort_by xs), Occurs-sort_by a xs)

-- What a comparison of sort keys promises.
pub record IsOrder {A : Type 0} (less : A → A → Bool) : Type 0 where
  pub asymmetric : (a b : A) → less a b ≡ true → less b a ≡ false
  pub between : (a b c : A) → less a c ≡ true → (less a b ≡ true) ⊎ (less b c ≡ true)

-- Keys of which one comes before the other.
abbrev pub Apart : {A : Type 0} → (A → A → Bool) → A → A → Type 0
Apart less a b = (less a b ≡ true) ⊎ (less b a ≡ true)

-- Every two members are apart.
abbrev pub AllApart : {A : Type 0} → (A → A → Bool) → List A → Type 0
AllApart less [] = Unit
AllApart less (x ∷ xs) = All (Apart less x) xs × AllApart less xs

-- The same members in another order.
pub data Shuffle {A : Type 0} : List A → List A → Type 0 where
  done : Shuffle [] []
  keep : (x : A) {xs ys : List A} → Shuffle xs ys → Shuffle (x ∷ xs) (x ∷ ys)
  swap : (x y : A) (xs : List A) → Shuffle (x ∷ y ∷ xs) (y ∷ x ∷ xs)
  chain : {xs ys zs : List A} → Shuffle xs ys → Shuffle ys zs → Shuffle xs zs

pub All-Shuffle :
    {A : Type 0} (P : A → Type 0) {xs ys : List A} → Shuffle xs ys → All P xs → All P ys
All-Shuffle P done h = h
All-Shuffle P (keep x d) (h, hs) = (h, All-Shuffle P d hs)
All-Shuffle P (swap x y xs) (h, (k, hs)) = (k, (h, hs))
All-Shuffle P (chain c d) h = All-Shuffle P d (All-Shuffle P c h)

flip : {A : Type 0} (less : A → A → Bool) (a b : A) → Apart less a b → Apart less b a
flip less a b (inl h) = inr h
flip less a b (inr h) = inl h

AllApart-Shuffle :
    {A : Type 0} (less : A → A → Bool) {xs ys : List A}
    → Shuffle xs ys
    → AllApart less xs
    → AllApart less ys
AllApart-Shuffle less done h = h
AllApart-Shuffle less (keep x d) (h, hs) =
    (All-Shuffle (Apart less x) d h, AllApart-Shuffle less d hs)
AllApart-Shuffle less (swap x y xs) ((h, hs), (ks, rest)) = ((flip less x y h, ks), (hs, rest))
AllApart-Shuffle less (chain c d) h = AllApart-Shuffle less d (AllApart-Shuffle less c h)

module _ {A : Type 0} (less : A → A → Bool) (o : IsOrder less) where
  insert_sorted_comm :
      (x y : A) (xs : List A)
      → (less x y ≡ true) ⊎ (less y x ≡ true)
      → insert_sorted less x (insert_sorted less y xs)
        ≡ insert_sorted less y (insert_sorted less x xs)
  unfolding insert_sorted
  insert_sorted_comm x y [] h = ground (arith, o.asymmetric x y, o.asymmetric y x)
  insert_sorted_comm x y (z ∷ zs) h = ground (
    arith,
    insert_sorted_comm x y zs h,
    o.asymmetric x y,
    o.asymmetric y x,
    o.between z x y,
    o.between z y x,
  )

  -- Sorting members that are apart gives one result for every order that they come in.
  pub sort_by-Shuffle :
      {xs ys : List A} → Shuffle xs ys → AllApart less xs → sort_by less xs ≡ sort_by less ys
  unfolding sort_by
  sort_by-Shuffle done h = refl
  sort_by-Shuffle (keep x d) (h, hs) = ap (insert_sorted less x) (sort_by-Shuffle d hs)
  sort_by-Shuffle (swap x y xs) ((h, hs), rest) = insert_sorted_comm x y (sort_by less xs) h
  sort_by-Shuffle (chain c d) h =
      sort_by-Shuffle c h ∙ sort_by-Shuffle d (AllApart-Shuffle less c h)

-- No member comes before the one that it follows.
abbrev pub Ascending : {A : Type 0} → (A → A → Bool) → List A → Type 0
Ascending less [] = Unit
Ascending less (x ∷ []) = Unit
Ascending less (x ∷ y ∷ ys) = (less y x ≡ false) × Ascending less (y ∷ ys)

module _ {A : Type 0} (less : A → A → Bool) (o : IsOrder less) where
  insert_sorted-Ascending :
      (x : A) (xs : List A) → Ascending less xs → Ascending less (insert_sorted less x xs)
  unfolding insert_sorted
  insert_sorted-Ascending x [] h = tt
  insert_sorted-Ascending x (y ∷ []) h = ground (arith, o.asymmetric y x)
  insert_sorted-Ascending x (y ∷ z ∷ zs) h =
      ground (arith, o.asymmetric y x, insert_sorted-Ascending x (z ∷ zs))

  pub sort_by-Ascending : (xs : List A) → Ascending less (sort_by less xs)
  unfolding sort_by
  sort_by-Ascending [] = tt
  sort_by-Ascending (x ∷ xs) = insert_sorted-Ascending x (sort_by less xs) (sort_by-Ascending xs)

text_ltb-asymmetric : (s t : Text) → text_ltb s t ≡ true → text_ltb t s ≡ false
unfolding text_ltb
text_ltb-asymmetric [] [] h = cc
text_ltb-asymmetric [] (b ∷ t) h = refl
text_ltb-asymmetric (a ∷ s) [] h = cc
text_ltb-asymmetric (a ∷ s) (b ∷ t) h = ground (arith, text_ltb-asymmetric s t)

text_ltb-between :
    (a b c : Text) → text_ltb a c ≡ true → (text_ltb a b ≡ true) ⊎ (text_ltb b c ≡ true)
unfolding text_ltb
text_ltb-between [] [] [] h = cc
text_ltb-between [] [] (z ∷ c) h = inr refl
text_ltb-between [] (y ∷ b) c h = inl refl
text_ltb-between (x ∷ a) b [] h = cc
text_ltb-between (x ∷ a) [] (z ∷ c) h = inr refl
text_ltb-between (x ∷ a) (y ∷ b) (z ∷ c) h = ground (arith, text_ltb-between a b c)

pub text-IsOrder : IsOrder text_ltb
text-IsOrder = record { asymmetric = text_ltb-asymmetric; between = text_ltb-between }
