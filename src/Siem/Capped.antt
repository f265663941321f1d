-- ===== src/Siem/Capped.antt =====
-- A buffer within its cap keeps its newest entries, in their order.
use adtp.Prelude.{ℕ, zero, suc, ◌-◌, ◌≤◌, ◌≡◌, refl, List, [], ◌∷◌, ◌++◌, arith, length}
use adtp.Audit.{AuditEntry}
use adtp.Siem.{drop, capped}

-- `xs` comes from `ys` by leaving entries out: the order is kept, and none comes twice.
pub data IsSublist {A : Type 0} : List A → List A → Type 0 where
  nil : IsSublist [] []
  keep : {x : A} {xs ys : List A} → IsSublist xs ys → IsSublist (x ∷ xs) (x ∷ ys)
  skip : {y : A} {xs ys : List A} → IsSublist xs ys → IsSublist xs (y ∷ ys)

module _ {A : Type 0} where
  sub_refl : (xs : List A) → IsSublist xs xs
  sub_refl [] = nil
  sub_refl (x ∷ xs) = keep (sub_refl xs)

  pub sub_trans :
      {ys zs : List A} → IsSublist ys zs → {xs : List A} → IsSublist xs ys → IsSublist xs zs
  sub_trans nil p = p
  sub_trans (keep q) (keep p) = keep (sub_trans q p)
  sub_trans (keep q) (skip p) = skip (sub_trans q p)
  sub_trans (skip q) p = skip (sub_trans q p)

  pub sub_append :
      {xs ys : List A} (zs : List A) → IsSublist xs ys → IsSublist (xs ++ zs) (ys ++ zs)
  sub_append zs nil = sub_refl zs
  sub_append zs (keep p) = keep (sub_append zs p)
  sub_append zs (skip p) = skip (sub_append zs p)

  pub sub_behind :
      (zs : List A) {xs ys : List A} → IsSublist xs ys → IsSublist (zs ++ xs) (zs ++ ys)
  sub_behind [] p = p
  sub_behind (z ∷ zs) p = keep (sub_behind zs p)

  drop-sub : (n : ℕ) (xs : List A) → IsSublist (drop n xs) xs
  unfolding drop
  drop-sub zero xs = sub_refl xs
  drop-sub (suc n) [] = nil
  drop-sub (suc n) (x ∷ xs) = skip (drop-sub n xs)

  length-drop : (n : ℕ) (xs : List A) → length (drop n xs) ≡ length xs - n
  unfolding drop
  length-drop zero xs = omega arith
  length-drop (suc n) [] = omega arith
  length-drop (suc n) (x ∷ xs) = omega (arith, length-drop n xs)

pub capped-sub : (cap : ℕ) (xs : List AuditEntry) → IsSublist (capped cap xs) xs
unfolding capped
capped-sub cap xs = drop-sub (length xs - cap) xs

pub length-capped : (cap : ℕ) (xs : List AuditEntry) → length (capped cap xs) ≤ cap
unfolding capped
length-capped cap xs = omega (arith, length-drop (length xs - cap) xs)

pub capped_whole : (cap : ℕ) (xs : List AuditEntry) → length xs ≤ cap → capped cap xs ≡ xs
unfolding capped drop
capped_whole cap xs h = let q : length xs - cap ≡ 0 = omega arith in rw q refl
