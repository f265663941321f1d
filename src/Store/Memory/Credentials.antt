-- ===== src/Store/Memory/Credentials.antt =====
-- What PutCredential does to the stored credentials, and what holds of them at all times.
use adtp.Prelude.{
  err-ne-ok, ◌≡◌, refl, sym, ap, subst, ◌∙◌, ◌↔◌, ◌⊎◌, inl, inr, Bool, true, false, Option, none,
  some, List, [], ◌∷◌, ◌++◌, arith, Text, Text-eq, ◌==◌, eq_iff, if◌then◌else◌, ok, ok_inj, ok_or,
  lookup, lookup-insert, Occurs, Bool-cases,
}
use adtp.Signing.{Crypto}
use adtp.Credential.Cid.{compute_cid}
use adtp.Store.Memory.{
  MemoryStore, credential_not_found, put_credential, ordered, get, list_credentials,
}

-- No member twice.
abbrev pub Distinct : List Text → Type 0
Distinct [] = Unit
Distinct (x ∷ xs) = (¬ Occurs x xs) × Distinct xs

Occurs-append : (a : Text) (xs ys : List Text) → Occurs a (xs ++ ys) ↔ (Occurs a xs ⊎ Occurs a ys)
Occurs-append a [] ys = ground arith
Occurs-append a (x ∷ xs) ys = ground (arith, Occurs-append a xs ys)

Distinct-snoc : (xs : List Text) (a : Text) → Distinct xs → ¬ Occurs a xs → Distinct (xs ++ a ∷ [])
Distinct-snoc [] a d n = (λ o. o, tt)
Distinct-snoc (x ∷ xs) a (m, d) n = (
  λ o. elim ((Occurs-append x xs (a ∷ [])).0 o) [
    | inl i ↦ m i
    | inr (inl q) ↦ n (inl (sym q))
    | inr (inr e) ↦ e
  ],
  Distinct-snoc xs a d (λ o. n (inr o)),
)

ok_or_if :
    {E : Type 0} (e : E) (t : Bool) (x : Text) (o : Option Text)
    → ok_or e (if t then some x else o) ≡ (if t then ok x else ok_or e o)
ok_or_if e true x o = refl
ok_or_if e false x o = refl

module _ (crypto : Crypto) where
  -- What holds of a store at all times.
  pub record IsAddressed (s : MemoryStore) : Type 0 where
    pub addressed : (cid raw : Text) → get s cid ≡ ok raw → compute_cid crypto.sha256 raw ≡ cid
    pub listed :
        (cid : Text) → Occurs cid (list_credentials s) ↔ ((raw : Text) × (get s cid ≡ ok raw))
    pub distinct : Distinct (list_credentials s)

  pub get-put_credential :
      (s : MemoryStore) (raw cid : Text)
      → get ((put_credential crypto s raw).0) cid
        ≡ (if compute_cid crypto.sha256 raw == cid then ok raw else get s cid)
  unfolding get put_credential
  get-put_credential s raw cid =
      let new = compute_cid crypto.sha256 raw in
      ap (ok_or credential_not_found) (lookup-insert new cid raw s.credentials)
      ∙ ok_or_if credential_not_found (new == cid) raw (lookup cid s.credentials)

  -- The calls that leave the credentials as they are.
  pub same_credentials :
      (s s' : MemoryStore)
      → (s'.credentials ≡ s.credentials) × (s'.cred_order ≡ s.cred_order)
      → IsAddressed s
      → IsAddressed s'
  unfolding get list_credentials
  same_credentials s s' (p, q) h =
      let same : (cid : Text) → get s' cid ≡ get s cid =
        λ cid. ap (λ m. ok_or credential_not_found (lookup cid m)) p in
      record {
        addressed = λ cid raw g. h.addressed cid raw (sym (same cid) ∙ g);
        listed = λ cid. (
          λ o. let (raw, g) = (h.listed cid).0 (subst (Occurs cid) q o) in (raw, same cid ∙ g),
          λ (raw, g). subst (Occurs cid) (sym q) ((h.listed cid).1 (raw, sym (same cid) ∙ g)),
        );
        distinct = subst Distinct (sym q) h.distinct;
      }

  -- What `ordered` lists, and no CID twice.
  ordered_iff :
      (s : MemoryStore) (raw cid : Text) (o : Option Text)
      → lookup (compute_cid crypto.sha256 raw) s.credentials ≡ o
      → IsAddressed s
      → (Occurs cid (ordered o (compute_cid crypto.sha256 raw) s.cred_order)
          ↔ ((cid ≡ compute_cid crypto.sha256 raw) ⊎ Occurs cid s.cred_order))
        × Distinct (ordered o (compute_cid crypto.sha256 raw) s.cred_order)
  unfolding ordered get list_credentials
  ordered_iff s raw cid none q h =
      let new = compute_cid crypto.sha256 raw in
      (
        ground (arith, Occurs-append cid s.cred_order (new ∷ [])),
        Distinct-snoc s.cred_order new h.distinct (λ o.
            let (held, g) = (h.listed new).0 o in
            err-ne-ok (sym (ap (ok_or credential_not_found) q) ∙ g)),
      )
  ordered_iff s raw cid (some held) q h = (
    (
      λ o. inr o,
      λ o. elim o [
        | inl e ↦
            subst (λ x. Occurs x s.cred_order) (sym e)
              ((h.listed _).1 (held, ap (ok_or credential_not_found) q))
        | inr i ↦ i
      ],
    ),
    h.distinct,
  )

  pub put_credential-IsAddressed :
      (s : MemoryStore) (raw : Text) → IsAddressed s → IsAddressed ((put_credential crypto s raw).0)
  unfolding put_credential list_credentials
  put_credential-IsAddressed s raw h =
      let new = compute_cid crypto.sha256 raw in
      let at : (cid : Text)
          → (new == cid) ≡ true
          → get ((put_credential crypto s raw).0) cid ≡ ok raw =
        λ cid t. get-put_credential s raw cid ∙ ap (λ b. if b then ok raw else get s cid) t in
      let off : (cid : Text)
          → (new == cid) ≡ false
          → get ((put_credential crypto s raw).0) cid ≡ get s cid =
        λ cid f. get-put_credential s raw cid ∙ ap (λ b. if b then ok raw else get s cid) f in
      record {
        addressed = λ cid r g. elim (Bool-cases (new == cid)) [
          | inl t ↦
              ap (compute_cid crypto.sha256) (ok_inj (sym g ∙ at cid t)) ∙ (eq_iff new cid).0 t
          | inr f ↦ h.addressed cid r (sym (off cid f) ∙ g)
        ];
        listed = λ cid.
            let order = (ordered_iff s raw cid (lookup new s.credentials) refl h).0 in
            elim (Bool-cases (new == cid)) [
              | inl t ↦ (λ o. (raw, at cid t), λ _. order.1 (inl (sym ((eq_iff new cid).0 t))))
              | inr f ↦ (
                λ o. elim (order.0 o) [
                  | inl e ↦ absurd (ground (arith, eq_iff new cid))
                  | inr i ↦ let (r, g) = (h.listed cid).0 i in (r, off cid f ∙ g)
                ],
                λ (r, g). order.1 (inr ((h.listed cid).1 (r, sym (off cid f) ∙ g))),
              )
            ];
        distinct = (ordered_iff s raw new (lookup new s.credentials) refl h).1;
      }
