-- ===== src/Revocation/Cache/Sequence.antt =====
-- Sequences in the cache: an entry gives way only to one with a higher sequence.
use adtp.Prelude.{
  ◌≡◌, ◌≢◌, refl, false-ne-true, ◌↔◌, ◌⊎◌, inl, inr, sym, ap, ◌∙◌, subst, false, ◌||◌, some, List,
  [], ◌∷◌, arith, Text, Text-eq, ◌==◌, eq_iff, Result, ok, err, Result-cases, Option-cases,
  Bool-cases, Occurs, ◌≤ℤ◌, ◌<ℤ◌, leb_ℤ, lookup, insert, lookup-insert,
}
use adtp.Signing.{Crypto}
use adtp.Revocation.Entry.Authentic.{
  IsAuthentic, IsAuthentic-accepted, verify_entry_self_signature-IsAuthentic,
}
use adtp.Credential.Capability.{is_empty, is_empty_iff, is_empty-false}
use adtp.Revocation.Entry.{
  RevocationEntry, RevocationList, EntryCodec, RevocationErr, subject_key,
  verify_entry_self_signature, verify_revocation_list,
}
use adtp.Revocation.Cache.{
  MemoryRevocationCache, rolls_back, absorb, absorb_all, revoke, update_from_list,
}

abbrev pub Entries : Type 0
Entries = List (Text × RevocationEntry)

-- `new` is `old`, or has a higher sequence.
abbrev pub Supersedes : RevocationEntry → RevocationEntry → Type 0
Supersedes new old = (new ≡ old) ⊎ (old.seq <ℤ new.seq)

Supersedes-trans : (a b c : RevocationEntry) → Supersedes c b → Supersedes b a → Supersedes c a
Supersedes-trans a b c (inl e) h = subst (λ x. Supersedes x a) (sym e) h
Supersedes-trans a b c (inr l) (inl e) = inr (subst (λ x. x.seq <ℤ c.seq) e l)
Supersedes-trans a b c (inr l) (inr k) = inr (omega arith)

-- The entry under `key` in `m` still stands in `n`, or has been superseded there.
abbrev pub Keeps : Text → Entries → Entries → Type 0
Keeps key m n =
    (old : RevocationEntry)
    → lookup key m ≡ some old
    → (new : RevocationEntry) × (lookup key n ≡ some new) × Supersedes new old

Keeps-refl : (key : Text) (m : Entries) → Keeps key m m
Keeps-refl key m old h = (old, h, inl refl)

Keeps-trans : (key : Text) (m n o : Entries) → Keeps key m n → Keeps key n o → Keeps key m o
Keeps-trans key m n o f g old h =
    let (mid, p, s) = f old h in
    let (new, q, t) = g mid p in (new, q, Supersedes-trans old mid new t s)

insert-Keeps :
    (key : Text) (m : Entries) (k : Text) (e : RevocationEntry)
    → rolls_back (lookup k m) e.seq ≡ false
    → Keeps key m (insert k e m)
unfolding rolls_back
insert-Keeps key m k e r old h = elim (Bool-cases (k == key)) [
  | inl same ↦ (e, ground (arith, lookup-insert k key e m), inr (ground (arith, eq_iff k key)))
  | inr other ↦ (old, ground (arith, lookup-insert k key e m), inl refl)
]

absorb-Keeps : (key : Text) (m : Entries) (e : RevocationEntry) → Keeps key m (absorb m e)
unfolding absorb
absorb-Keeps key m e =
    let k = subject_key e.subject in
    elim (Bool-cases (is_empty k || rolls_back (lookup k m) e.seq)) [
      | inl skip ↦ rw (skip, absorb) (Keeps-refl key m)
      | inr store ↦ rw (store, absorb) (insert-Keeps key m k e (ground arith))
    ]

absorb_all-Keeps :
    (key : Text) (m : Entries) (es : List RevocationEntry) → Keeps key m (absorb_all m es)
unfolding absorb_all
absorb_all-Keeps key m [] = Keeps-refl key m
absorb_all-Keeps key m (e ∷ es) =
    Keeps-trans key m (absorb m e) (absorb_all (absorb m e) es) (absorb-Keeps key m e)
      (absorb_all-Keeps key (absorb m e) es)

-- After one entry of a list its subject has an entry whose sequence is not lower.
absorb-reaches :
    (m : Entries) (e : RevocationEntry)
    → is_empty (subject_key e.subject) ≡ false
    → (r : RevocationEntry) × (lookup (subject_key e.subject) (absorb m e) ≡ some r)
      × (e.seq ≤ℤ r.seq)
unfolding absorb rolls_back
absorb-reaches m e n =
    let k = subject_key e.subject in
    elim (Option-cases (lookup k m)) [
      | inl fresh ↦ (e, ground (arith, lookup-insert k k e m, eq_iff k k), omega arith)
      | inr (o, h) ↦ elim (Bool-cases (leb_ℤ e.seq o.seq)) [
        | inl le ↦ (o, ground arith, ground arith)
        | inr gt ↦ (e, ground (arith, lookup-insert k k e m, eq_iff k k), omega arith)
      ]
    ]

absorb_all-reaches :
    (m : Entries) (es : List RevocationEntry) (e : RevocationEntry)
    → is_empty (subject_key e.subject) ≡ false
    → Occurs e es
    → (r : RevocationEntry) × (lookup (subject_key e.subject) (absorb_all m es) ≡ some r)
      × (e.seq ≤ℤ r.seq)
unfolding absorb_all
absorb_all-reaches m [] e n o = absurd o
absorb_all-reaches m (f ∷ es) e n (inl h) =
    let (r, p, l) = absorb-reaches m e n in
    let (s, q, t) =
      absorb_all-Keeps (subject_key e.subject) (absorb m f) es r
        (subst (λ x. lookup (subject_key e.subject) (absorb m x) ≡ some r) h p) in
    (s, q, elim t [ inl same ↦ subst (λ x. e.seq ≤ℤ x.seq) (sym same) l | inr lt ↦ omega arith ])
absorb_all-reaches m (f ∷ es) e n (inr h) = absorb_all-reaches (absorb m f) es e n h

absorb-origin :
    (key : Text) (m : Entries) (e r : RevocationEntry)
    → lookup key (absorb m e) ≡ some r
    → (lookup key m ≡ some r) ⊎ ((r ≡ e) × (subject_key e.subject ≡ key))
unfolding absorb
absorb-origin key m e r h =
    let k = subject_key e.subject in
    elim (Bool-cases (is_empty k || rolls_back (lookup k m) e.seq)) [
      | inl skip ↦ inl (rw (skip, absorb) at h)
      | inr store ↦ elim (Bool-cases (k == key)) [
        | inl same ↦ inr (ground (arith, lookup-insert k key e m), ground (arith, eq_iff k key))
        | inr other ↦ inl (ground (arith, lookup-insert k key e m))
      ]
    ]

absorb_all-origin :
    (key : Text) (m : Entries) (es : List RevocationEntry) (r : RevocationEntry)
    → lookup key (absorb_all m es) ≡ some r
    → (lookup key m ≡ some r) ⊎ (Occurs r es × (subject_key r.subject ≡ key))
unfolding absorb_all
absorb_all-origin key m [] r h = inl h
absorb_all-origin key m (e ∷ es) r h = elim (absorb_all-origin key (absorb m e) es r h) [
  | inl before ↦ elim (absorb-origin key m e r before) [
    | inl old ↦ inl old
    | inr (q, k) ↦ inr (inl q, subst (λ x. subject_key x.subject ≡ key) (sym q) k)
  ]
  | inr (o, k) ↦ inr (inr o, k)
]

-- What the cache holds for `key` after a list: an entry of the list or of the cache before, whose
-- sequence is at least that of each of them.
pub record IsLatest (key : Text) (m : Entries) (es : List RevocationEntry) (n : Entries)
    : Type 0 where
  pub from_list :
      (e : RevocationEntry)
      → Occurs e es
      → subject_key e.subject ≡ key
      → is_empty key ≡ false
      → (r : RevocationEntry) × (lookup key n ≡ some r) × (e.seq ≤ℤ r.seq)
  pub from_cache : Keeps key m n
  pub origin :
      (r : RevocationEntry)
      → lookup key n ≡ some r
      → (lookup key m ≡ some r) ⊎ (Occurs r es × (subject_key r.subject ≡ key))

absorb_all-IsLatest :
    (key : Text) (m : Entries) (es : List RevocationEntry) → IsLatest key m es (absorb_all m es)
absorb_all-IsLatest key m es = record {
  from_list = λ e o k n.
      subst (λ j. (r : RevocationEntry) × (lookup j (absorb_all m es) ≡ some r) × (e.seq ≤ℤ r.seq))
        k (absorb_all-reaches m es e (subst (λ j. is_empty j ≡ false) (sym k) n) o);
  from_cache = absorb_all-Keeps key m es;
  origin = absorb_all-origin key m es;
}

module _ (crypto : Crypto) (codec : EntryCodec) where
  -- A list is applied only if it verifies under the issuer's key and its sequence is above the last
  -- one applied. Then, for every subject, the cache holds the entry with the highest sequence among
  -- its own and those of the list (its own, if the list has none that is higher), and nothing else.
  pub update_from_list_lem :
      (c d : MemoryRevocationCache) (list : RevocationList) (issuer_pub key : Text)
      → update_from_list crypto codec c list issuer_pub ≡ ok d
      → (verify_revocation_list crypto codec list issuer_pub ≡ ok tt)
        × (c.list_seq <ℤ list.sequence)
        × (d.list_seq ≡ list.sequence)
        × IsLatest key c.entries list.entries d.entries
  unfolding update_from_list
  update_from_list_lem c d list issuer_pub key h = (
    ground arith,
    ground arith,
    ground arith,
    subst (λ m. IsLatest key c.entries list.entries m) (ground arith)
        (absorb_all-IsLatest key c.entries list.entries),
  )

  revoke-parts :
      (c d : MemoryRevocationCache) (e : RevocationEntry)
      → revoke crypto codec c e ≡ ok d
      → (is_empty (subject_key e.subject) ≡ false)
        × (verify_entry_self_signature crypto codec e ≡ ok tt)
        × (rolls_back (lookup (subject_key e.subject) c.entries) e.seq ≡ false)
        × (d ≡ record c { entries = insert (subject_key e.subject) e c.entries })
  unfolding revoke
  revoke-parts c d e h = (ground arith, ground arith, ground arith, ground arith)

  revoke-accepts :
      (c : MemoryRevocationCache) (e : RevocationEntry)
      → is_empty (subject_key e.subject) ≡ false
      → verify_entry_self_signature crypto codec e ≡ ok tt
      → rolls_back (lookup (subject_key e.subject) c.entries) e.seq ≡ false
      → revoke crypto codec c e
        ≡ ok (record c { entries = insert (subject_key e.subject) e c.entries })
  unfolding revoke
  revoke-accepts c e n v r = ground arith

  -- Revoke accepts an entry exactly if it has a subject, has the entries' type, has an authority that may set
  -- its status and use its scope, is signed by the key of the DID that the authority names, and has a higher
  -- sequence than the subject's entry, if there is one, whatever the status of that; it then stores the
  -- entry under its subject and changes nothing else.
  pub revoke_iff :
      (c d : MemoryRevocationCache) (e : RevocationEntry)
      → (revoke crypto codec c e ≡ ok d) ↔ (
          (subject_key e.subject ≢ [])
          × IsAuthentic crypto codec e
          × ((old : RevocationEntry)
              → lookup (subject_key e.subject) c.entries ≡ some old
              → old.seq <ℤ e.seq)
          × (d ≡ record c { entries = insert (subject_key e.subject) e c.entries }))
  unfolding rolls_back
  revoke_iff c d e = (
    λ h.
        let (n, v, r, same) = revoke-parts c d e h in
        (
          λ q. false-ne-true (sym n ∙ (is_empty_iff (subject_key e.subject)).1 q),
          verify_entry_self_signature-IsAuthentic crypto codec e v,
          λ old q. ground arith,
          same,
        ),
    λ (n, v, g, same).
        revoke-accepts c e (is_empty-false (subject_key e.subject) n)
          (IsAuthentic-accepted crypto codec e v)
          (elim (Option-cases (lookup (subject_key e.subject) c.entries)) [
            | inl fresh ↦ ground arith
            | inr (old, q) ↦ ground (arith, g old q)
          ])
        ∙ ap (λ x. ok x) (sym same),
  )

  -- One call that changes the cache.
  pub data Update : Type 0 where
    posted : RevocationEntry → Update
    listed : RevocationList → Text → Update

  -- A call that fails leaves the cache as it was.
  abbrev after :
      MemoryRevocationCache → Result RevocationErr MemoryRevocationCache → MemoryRevocationCache
  after c (ok d) = d
  after c (err e) = c

  unfoldable pub apply : MemoryRevocationCache → Update → MemoryRevocationCache
  apply c (posted e) = after c (revoke crypto codec c e)
  apply c (listed list issuer_pub) = after c (update_from_list crypto codec c list issuer_pub)

  unfoldable pub apply_all : MemoryRevocationCache → List Update → MemoryRevocationCache
  unfolding apply
  apply_all c [] = c
  apply_all c (u ∷ us) = apply_all (apply c u) us

  apply-Keeps :
      (key : Text) (c : MemoryRevocationCache) (u : Update)
      → Keeps key c.entries (apply c u).entries
  unfolding apply
  apply-Keeps key c (posted e) = elim (Result-cases (revoke crypto codec c e)) [
    | err (x, q) ↦ rw (q, apply) (Keeps-refl key c.entries)
    | ok (d, q) ↦
        let (n, v, r, same) = revoke-parts c d e q in
        rw (q, apply) (rw same (insert-Keeps key c.entries (subject_key e.subject) e r))
  ]
  apply-Keeps key c (listed list p) = elim (Result-cases (update_from_list crypto codec c list p)) [
    | err (x, q) ↦ rw (q, apply) (Keeps-refl key c.entries)
    | ok (d, q) ↦ rw (q, apply) ((update_from_list_lem c d list p key q).3.from_cache)
  ]

  -- Whatever calls follow, a subject's entry stays, or is replaced by one with a higher sequence: a
  -- revocation is never lost to an older or replayed entry or list.
  pub apply_all-Keeps :
      (key : Text) (c : MemoryRevocationCache) (us : List Update)
      → Keeps key c.entries (apply_all c us).entries
  unfolding apply_all
  apply_all-Keeps key c [] = Keeps-refl key c.entries
  apply_all-Keeps key c (u ∷ us) =
      Keeps-trans key c.entries (apply c u).entries (apply_all (apply c u) us).entries
        (apply-Keeps key c u) (apply_all-Keeps key (apply c u) us)
